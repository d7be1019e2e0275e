-- ===== src/Flash/Storage/RoundTrip.antt =====
-- flash_writer and then flash_reader, on the same flash.
use rfid_encryption.Base.{
  ℕ, ◌+◌, ◌-◌, ◌%◌, ◌≤◌, ◌<◌, ◌≡◌, ◌∙◌, ap, ◌≢◌, List, [], ◌∷◌, ◌++◌, some, true, false, splice,
  length, take, drop, replicate, length-append, length-replicate, length-take, length-drop, arith,
  String, read_bytes_lem, write_bytes_lem, length-splice, take-append, append-nil, drop-all,
}
use rfid_encryption.Flash.Padding.{size_mod, padding_size}
use rfid_encryption.Flash.Aes.{Crypto, string_with_aes}
use rfid_encryption.Flash.Aes.RoundTrip
use rfid_encryption.Flash.Aes.RoundTrip.{
  padded, length-padded, ciphertext, length-ciphertext, string_with_aes_encrypts,
  string_with_aes_decrypts, front_of_opened,
}
use rfid_encryption.Flash.Storage.{
  FlashChip, Base64Decode, partition_size, input_rsa_private_key, all_ff, flash_writer,
  flash_reader, reader_decrypts,
}
use rfid_encryption.Flash.Storage.Scan.{all_ff-replicate, find_end_at}

-- What the code relies on in the flash that holds the partition of `label` at `address`: the table
-- keeps its entry, the three operations succeed, and the partition reads as what was written after
-- the last erase, with 0xFF behind it.
pub record IsLawful (F : FlashChip) (label : String) (address : ℕ) : Type 0 where
  pub listed : (chip : F.Chip) → F.find_first chip label ≡ some address
  pub erase_ok : (chip : F.Chip) → (F.erase_range chip address 0 partition_size).0 ≡ 0
  pub write_ok : (chip : F.Chip) (bytes : List ℕ) → (F.flash_write chip bytes address).0 ≡ 0
  pub read-write-erase :
      (chip : F.Chip) (bytes : List ℕ)
      → length bytes ≤ partition_size
      → F.flash_read
          (F.flash_write (F.erase_range chip address 0 partition_size).1 bytes address).1
          address
          partition_size
        ≡ (0, bytes ++ replicate (partition_size - length bytes) 255)

pub partition_fits : partition_size < size_mod
unfolding partition_size
partition_fits = omega arith

partition_large : 4096 ≤ partition_size
unfolding partition_size
partition_large = omega arith

-- No four bytes 0xFF begin inside the ciphertext, but for its first byte: neither in the middle
-- nor where its last bytes run on into the erased flash.
abbrev pub EndsOnce : List ℕ → Type 0
EndsOnce bytes =
    (j : ℕ)
    → 0 < j
    → j < length bytes
    → all_ff 4 (bytes ++ replicate (partition_size - length bytes) 255) j ≡ some false

-- What flash_writer leaves in the flash, when encryption gave these bytes in front of the rest of the
-- buffer.
pub flash_writer-sealed :
    (C : Crypto) (F : FlashChip) (address : ℕ)
    → IsLawful F "RSA_key" address
    → (nul : ℕ) (decode : Base64Decode) (chip : F.Chip) (heap der bytes rest : List ℕ)
      (ret len m : ℕ)
    → decode heap partition_size input_rsa_private_key ≡ (ret, der, len)
    → string_with_aes C nul der len false ≡ some (bytes ++ rest, m)
    → length bytes ≡ m
    → m ≤ partition_size
    → (chip' : F.Chip) × (flash_writer C F nul decode heap chip ≡ some (false, chip'))
      × (F.flash_read chip' address partition_size
          ≡ (0, bytes ++ replicate (partition_size - length bytes) 255))
unfolding flash_writer
flash_writer-sealed C F address FL nul decode chip heap der bytes rest ret len m decoded sealed size
      fits =
    let erased : F.Chip = (F.erase_range chip address 0 partition_size).1 in
    (
      (F.flash_write erased bytes address).1,
      rw (
        FL.listed chip,
        flash_writer,
        decoded,
        sealed,
        FL.erase_ok chip,
        read_bytes_lem m (bytes ++ rest) 0 (omega (arith, length-append bytes rest)),
        take-append m bytes rest size,
        FL.write_ok erased bytes,
      ),
      FL.read-write-erase chip bytes (omega arith),
    )

module _ (C : Crypto) (aes_key : List ℕ) (L : RoundTrip.IsLawful C aes_key) where
  -- What the reader makes of the image of a stored key.
  pub reader_decrypts-image :
      (F : FlashChip) (nul : ℕ) (der dest : List ℕ) (len : ℕ)
      → len % 16 ≢ 0
      → len ≤ length der
      → len + padding_size len + 4 ≤ partition_size
      → len ≤ length dest
      → EndsOnce (ciphertext C aes_key der len)
      → reader_decrypts C F nul
          (ciphertext C aes_key der len
            ++ replicate (partition_size - length (ciphertext C aes_key der len)) 255)
          dest
          partition_size
        ≡ some (len, splice 0 (take len der) dest)
  unfolding reader_decrypts
  reader_decrypts-image F nul der dest len partial fits room dest_room ends =
      let c : List ℕ = ciphertext C aes_key der len in
      let m : ℕ = len + padding_size len in
      let c_size : length c ≡ m = length-ciphertext C aes_key L der len fits in
      let tail : List ℕ = replicate (partition_size - length c) 255 in
      let tail_size : length tail ≡ partition_size - length c =
        length-replicate (partition_size - length c) 255 in
      let size : length (c ++ tail) ≡ partition_size = omega (arith, length-append c tail) in
      let stop : all_ff 4 (c ++ tail) m ≡ some true =
        ap (all_ff 4 (c ++ tail)) (omega arith)
        ∙ all_ff-replicate 4 0 (partition_size - length c) c (omega arith) in
      let rest : List ℕ = 0 ∷ drop (m + 1) (c ++ tail) in
      let opened : List ℕ = splice len (nul ∷ []) (padded der len ++ rest) in
      let plain_size : length (padded der len ++ rest) ≡ m + length rest =
        length-append (padded der len) rest ∙ omega (arith, length-padded der len fits) in
      let opened_size : length opened ≡ length (padded der len ++ rest) =
        length-splice (padded der len ++ rest) len (nul ∷ []) (omega arith) in
      let rest_size : m + length rest ≡ partition_size =
        omega (arith, length-drop (m + 1) (c ++ tail)) in
      rw (
        find_end_at partition_size 0 m (c ++ tail) (omega arith) (omega arith)
            (λ j above below. ends j above (omega arith)) stop (omega arith),
        take-append m c tail c_size,
        string_with_aes_decrypts C aes_key L nul der rest len partial fits
            (omega (arith, partition_fits)),
        read_bytes_lem len opened 0 (omega arith),
        front_of_opened nul len der rest fits,
        write_bytes_lem dest 0 (take len der) (omega (arith, length-take len der)),
      )

  -- On a lawful chip, if the decoder gives a key whose length is no multiple of 16 and that fits
  -- the partition with its padding and four bytes more, and if the ciphertext does not look as if
  -- it ended early, then flash_writer succeeds and frees its buffer, and flash_reader returns the
  -- key's length and copies exactly its bytes to the destination.
  pub flash_reader-flash_writer :
      (F : FlashChip) (address : ℕ)
      → IsLawful F "RSA_key" address
      → (nul : ℕ) (decode : Base64Decode) (chip : F.Chip) (heap heap' der dest : List ℕ)
        (ret len : ℕ)
      → decode heap partition_size input_rsa_private_key ≡ (ret, der, len)
      → length der ≡ partition_size
      → length heap' ≡ partition_size
      → len % 16 ≢ 0
      → len + padding_size len + 4 ≤ partition_size
      → len ≤ length dest
      → EndsOnce (ciphertext C aes_key der len)
      → (chip' : F.Chip) × (flash_writer C F nul decode heap chip ≡ some (false, chip'))
        × (flash_reader C F nul chip' heap' dest partition_size false
            ≡ some (len, splice 0 (take len der) dest))
  unfolding flash_reader
  flash_reader-flash_writer F address FL nul decode chip heap heap' der dest ret len decoded
        der_size heap_size partial room dest_room ends =
      let c : List ℕ = ciphertext C aes_key der len in
      let m : ℕ = len + padding_size len in
      let c_size : length c ≡ m = length-ciphertext C aes_key L der len (omega arith) in
      let image : List ℕ = c ++ replicate (partition_size - length c) 255 in
      let image_size : length image ≡ partition_size = omega (
        arith,
        length-append c (replicate (partition_size - length c) 255),
        length-replicate {A = ℕ} (partition_size - length c) 255,
      ) in
      let over : drop (0 + length image) heap' ≡ [] =
        drop-all (0 + length image) heap' (omega arith) in
      let (chip', wrote, reads) =
        flash_writer-sealed C F address FL nul decode chip heap der c (drop m der) ret len m decoded
          (string_with_aes_encrypts C aes_key L nul der len partial (omega arith)
            (omega (arith, partition_fits)))
          c_size (omega arith) in
      (
        chip',
        wrote,
        rw
            (
              FL.listed chip',
              flash_reader,
              reads,
              write_bytes_lem heap' 0 image (omega arith),
              over,
              append-nil image,
            )
            (reader_decrypts-image F nul der dest len partial (omega arith) room dest_room ends),
      )
