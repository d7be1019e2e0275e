-- ===== src/Archive/Storage/Image.antt =====
-- What flash_writer of archive/publickey_reciever.c leaves in flash, and what the later reader makes of
-- it.
use rfid_encryption.Base.{
  ℕ, zero, suc, ◌+◌, ◌-◌, ◌≤◌, ◌<◌, ◌≡◌, ◌≢◌, refl, ap, ◌∙◌, List, [], ◌∷◌, ◌++◌, true, false,
  Option, none, some, ◌>>=◌, codes, length, drop, replicate, get_elem?, read_bytes, write_bytes_lem,
  length-append, length-replicate, arith, ◌==◌, not, if◌then◌else◌,
}
use rfid_encryption.Flash.Aes.{Crypto}
use rfid_encryption.Flash.Storage.{FlashChip, partition_size, all_ff, flash_reader}
use rfid_encryption.Flash.Storage.Failures.{flash_reader_overruns}
use rfid_encryption.Archive.Padding.{strlen, padding_byte, pad_string_pkcs7}
use rfid_encryption.Archive.Padding.Laws.{IsText, pad_string_pkcs7_lem}
use rfid_encryption.Archive.Storage.{
  rsa_private_key, aes_encrypter, hmac_derive_aes, seal_blocks, sealed_key, flash_writer,
}

-- The key with its one byte of padding, which takes the place of the NUL.
abbrev pub padded_key : ℕ → List ℕ
padded_key zero_literal = codes "RSA private_key" ++ (padding_byte zero_literal 1 ∷ [])

zeros_eq : (m n : ℕ) → m ≡ n → replicate {A = ℕ} m 0 ≡ replicate n 0
zeros_eq m n h = ap (λ (k : ℕ). replicate k 0) h

drop_zeros : (m n : ℕ) → drop m (replicate {A = ℕ} n 0) ≡ replicate (n - m) 0
drop_zeros zero n = zeros_eq n (n - 0) (omega arith)
drop_zeros (suc m) zero = zeros_eq 0 (0 - suc m) (omega arith)
drop_zeros (suc m) (suc n) = drop_zeros m n ∙ zeros_eq (n - m) (suc n - suc m) (omega arith)

partition_room : 16 ≤ partition_size
unfolding partition_size
partition_room = omega arith

module _ (C : Crypto) (zero_literal : ℕ) (aes_key : List ℕ) where
  -- The one block that is encrypted.
  abbrev pub sealed_block : List ℕ
  sealed_block = aes_encrypter C (padded_key zero_literal) aes_key (padded_key zero_literal)

  -- The 4096 bytes that are written.
  abbrev pub image : List ℕ
  image = sealed_block ++ replicate (partition_size - 16) 0

  key-IsText : IsText (codes "RSA private_key")
  key-IsText = (
    omega arith,
    (
      omega arith,
      (
        omega arith,
        (
          omega arith,
          (
            omega arith,
            (
              omega arith,
              (
                omega arith,
                (
                  omega arith,
                  (
                    omega arith,
                    (
                      omega arith,
                      (omega arith, (omega arith, (omega arith, (omega arith, (omega arith, tt))))),
                    ),
                  ),
                ),
              ),
            ),
          ),
        ),
      ),
    ),
  )

  padded_lem : pad_string_pkcs7 zero_literal rsa_private_key 15 ≡ some (padded_key zero_literal, 16)
  padded_lem =
      ((pad_string_pkcs7_lem zero_literal (codes "RSA private_key") [] key-IsText (omega arith)).0
        (omega arith)).0

  sealed_lem :
      (F : FlashChip) → length sealed_block ≡ 16 → sealed_key C F zero_literal aes_key ≡ some image
  unfolding sealed_key strlen seal_blocks read_bytes
  sealed_lem F size =
      let zeros : List ℕ = replicate partition_size 0 in
      rw (
        padded_lem,
        write_bytes_lem zeros 0 sealed_block
            (omega (arith, size, partition_room, length-replicate {A = ℕ} partition_size 0)),
        drop_zeros (0 + length sealed_block) partition_size,
        size,
      )

module _ (C : Crypto) (F : FlashChip) (zero_literal : ℕ) (chip : F.Chip) where
  -- Without the partition, and when no key can be derived, the earlier flash_writer leaves the flash as
  -- it was. Otherwise it writes the sealed key with zeros behind it, without erasing, and keeps
  -- its buffer exactly when that fails.
  flash_writer_missing :
      F.find_first chip "RSA_key" ≡ none → flash_writer C F zero_literal chip ≡ some (false, chip)
  unfolding flash_writer
  flash_writer_missing e = rw (flash_writer, e)

  flash_writer_keyless :
      (address ret : ℕ) (aes_key : List ℕ)
      → F.find_first chip "RSA_key" ≡ some address
      → hmac_derive_aes C ≡ (ret, aes_key)
      → ret ≢ 0
      → flash_writer C F zero_literal chip ≡ some (false, chip)
  unfolding flash_writer
  flash_writer_keyless address ret aes_key e derived failed =
      let no_key : (ret == 0) ≡ false = ground arith in rw (flash_writer, e, derived, no_key)

  pub flash_writer_lem :
      (address : ℕ) (aes_key : List ℕ) (ret : ℕ) (written : F.Chip)
      → F.find_first chip "RSA_key" ≡ some address
      → hmac_derive_aes C ≡ (0, aes_key)
      → length (sealed_block C zero_literal aes_key) ≡ 16
      → F.flash_write chip (image C zero_literal aes_key) address ≡ (ret, written)
      → flash_writer C F zero_literal chip ≡ some (not (ret == 0), written)
  unfolding flash_writer
  flash_writer_lem address aes_key ret written e derived size wrote =
      rw (flash_writer, e, derived, sealed_lem C zero_literal aes_key F size, wrote)

zeros_clear : (n j : ℕ) → get_elem? (replicate {A = ℕ} n 0) j ≢ some 255
zeros_clear zero j e = cc
zeros_clear (suc n) zero e = cc
zeros_clear (suc n) (suc j) e = zeros_clear n j e

append_clear :
    (xs : List ℕ) (n j : ℕ)
    → get_elem? xs j ≢ some 255
    → get_elem? (xs ++ replicate n 0) j ≢ some 255
append_clear [] n j clear = zeros_clear n j
append_clear (x ∷ xs) n zero clear = clear
append_clear (x ∷ xs) n (suc j) clear = append_clear xs n j clear

differs : (b : ℕ) → b ≢ 255 → (b == 255) ≡ false
differs b h = ground arith

all_ff_clear : (xs : List ℕ) (j : ℕ) → get_elem? xs j ≢ some 255 → all_ff 4 xs j ≢ some true
unfolding all_ff
all_ff_clear xs j clear = look (get_elem? xs j) refl
  where
    look :
        (o : Option ℕ)
        → get_elem? xs j ≡ o
        → (o >>= λ b. if b == 255 then all_ff 3 xs (suc j) else some false) ≢ some true
    look none e hit = cc
    look (some b) e hit =
        let other : (b == 255) ≡ false = differs b (λ same. clear (e ∙ ap some same)) in
        let out : some false ≡ some true = rw other at hit in cc

-- Take a flash with the partition, where the earlier flash_writer can derive and schedule its key,
-- its write succeeds, and the partition then reads as what was written. The earlier flash_writer
-- succeeds and frees its buffer. But if no byte of the encrypted block behind its first is 0xFF, the
-- later flash_reader leaves its own buffer on what was stored: it looks for erased bytes, and zeros
-- fill the partition.
pub flash_reader_overruns-flash_writer :
    (C : Crypto) (F : FlashChip) (nul zero_literal : ℕ) (chip written : F.Chip) (address : ℕ)
    (aes_key heap dest : List ℕ)
    → F.find_first chip "RSA_key" ≡ some address
    → F.find_first written "RSA_key" ≡ some address
    → hmac_derive_aes C ≡ (0, aes_key)
    → length (sealed_block C zero_literal aes_key) ≡ 16
    → F.flash_write chip (image C zero_literal aes_key) address ≡ (0, written)
    → F.flash_read written address partition_size ≡ (0, image C zero_literal aes_key)
    → ((j : ℕ) → 0 < j → get_elem? (sealed_block C zero_literal aes_key) j ≢ some 255)
    → length heap ≡ partition_size
    → (flash_writer C F zero_literal chip ≡ some (false, written))
      × (flash_reader C F nul written heap dest partition_size false ≡ none)
flash_reader_overruns-flash_writer C F nul zero_literal chip written address aes_key heap dest found
      found' derived size wrote reads clear heap_size =
    let block : List ℕ = sealed_block C zero_literal aes_key in
    let stored : List ℕ = image C zero_literal aes_key in
    (
      flash_writer_lem C F zero_literal chip address aes_key 0 written found derived size wrote,
      flash_reader_overruns C F nul written address false heap dest stored found' reads
          (omega (
            arith,
            size,
            partition_room,
            length-append block (replicate (partition_size - 16) 0),
            length-replicate {A = ℕ} (partition_size - 16) 0,
          ))
          heap_size
          (λ j above.
            all_ff_clear stored j (append_clear block (partition_size - 16) j (clear j above))),
    )
