-- ===== src/Flash/KeyStore.antt =====
-- The store of keys as the code that reads it sees it: what a partition holds. flash_reader of
-- main/flash_write_RSA_key.c is its only operation.
use rfid_encryption.Base.{
  ℕ, ◌+◌, ◌%◌, ◌≤◌, ◌≡◌, ◌≢◌, ◌∙◌, sym, ap, subst, List, Bool, false, some, length, take, splice,
  drop, length-take, take-append, arith,
}
use rfid_encryption.Flash.Padding.{padding_size}
use rfid_encryption.Flash.Aes.{Crypto}
use rfid_encryption.Flash.Aes.RoundTrip
use rfid_encryption.Flash.Aes.RoundTrip.{ciphertext}
use rfid_encryption.Flash.Storage.{
  FlashChip, Base64Decode, partition_size, input_rsa_private_key, flash_writer, flash_reader,
}
use rfid_encryption.Flash.Storage.RoundTrip.{IsLawful, EndsOnce, flash_reader-flash_writer}

-- The partition for this label holds these bytes: every read gives their number and puts them in front
-- of a destination that has room.
pub record Holds (C : Crypto) (F : FlashChip) (nul : ℕ) (chip : F.Chip) (label : Bool)
    (bytes : List ℕ) : Type 0 where
  pub reads :
      (heap dest : List ℕ)
      → length heap ≡ partition_size
      → length bytes ≤ length dest
      → flash_reader C F nul chip heap dest partition_size label
        ≡ some (length bytes, splice 0 bytes dest)

-- The bytes that a reader finds in front.
pub take-splice : (bytes dest : List ℕ) → take (length bytes) (splice 0 bytes dest) ≡ bytes
take-splice bytes dest =
    take-append (length bytes) bytes (drop (0 + length bytes) dest) (omega arith)

-- What flash_writer stores.
pub flash_writer-Holds :
    (C : Crypto) (aes_key : List ℕ) (L : RoundTrip.IsLawful C aes_key) (F : FlashChip) (address : ℕ)
    → IsLawful F "RSA_key" address
    → (nul : ℕ) (decode : Base64Decode) (chip chip' : F.Chip) (heap der : List ℕ) (ret len : ℕ)
    → decode heap partition_size input_rsa_private_key ≡ (ret, der, len)
    → length der ≡ partition_size
    → len % 16 ≢ 0
    → len + padding_size len + 4 ≤ partition_size
    → EndsOnce (ciphertext C aes_key der len)
    → flash_writer C F nul decode heap chip ≡ some (false, chip')
    → Holds C F nul chip' false (take len der)
flash_writer-Holds C aes_key L F address FL nul decode chip chip' heap der ret len decoded der_size
      partial room ends wrote =
    record {
      reads = λ heap' dest size fits.
          let whole : length (take len der) ≡ len = omega (arith, length-take len der) in
          let (chip'', wrote', read) =
            flash_reader-flash_writer C aes_key L F address FL nul decode chip heap heap' der dest
              ret len decoded der_size size partial room (omega arith) ends in
          let same : chip'' ≡ chip' = cc in
          subst
            (λ (c : F.Chip).
              flash_reader C F nul c heap' dest partition_size false
              ≡ some (length (take len der), splice 0 (take len der) dest))
            same (read ∙ ap (λ (n : ℕ). some (n, splice 0 (take len der) dest)) (sym whole));
    }
