-- ===== src/Flash/Storage/InClear.antt =====
-- What flash_writer of main/flash_write_RSA_key.c does with the key when mbedtls refuses to encrypt it.
use rfid_encryption.Base.{
  ℕ, ◌+◌, ◌-◌, ◌*◌, ◌%◌, ◌≤◌, ◌≡◌, ◌≢◌, List, ◌++◌, some, false, length, take, drop, replicate,
  arith,
}
use rfid_encryption.Flash.Padding.{padding_size}
use rfid_encryption.Flash.Aes.{Crypto, salt, iterations, aes_key_size, pointer_size}
use rfid_encryption.Flash.Aes.RoundTrip.{padded, length-padded}
use rfid_encryption.Flash.Aes.Failures.{string_with_aes_in_clear}
use rfid_encryption.Flash.Storage.{
  FlashChip, Base64Decode, partition_size, input_rsa_private_key, flash_writer,
}
use rfid_encryption.Flash.Storage.RoundTrip.{IsLawful, flash_writer-sealed, partition_fits}

-- On a lawful chip, when the AES key is derived but its schedule is refused, and the decoder gives a
-- key whose length is no multiple of 16 and that fits the partition with its padding: flash_writer
-- succeeds all the same, and from then on the partition reads as the key in clear, its padding and
-- erased flash.
pub flash_writer_in_clear :
    (C : Crypto) (aes_key : List ℕ) (F : FlashChip) (address nul : ℕ) (decode : Base64Decode)
    (chip : F.Chip) (heap der : List ℕ) (ret len : ℕ)
    → IsLawful F "RSA_key" address
    → C.pkcs5_pbkdf2_hmac_ext salt iterations (pointer_size * 8) ≡ (0, aes_key)
    → C.aes_setkey_enc aes_key (aes_key_size * 8) ≢ 0
    → decode heap partition_size input_rsa_private_key ≡ (ret, der, len)
    → length der ≡ partition_size
    → len % 16 ≢ 0
    → len + padding_size len ≤ partition_size
    → (chip' : F.Chip) × (flash_writer C F nul decode heap chip ≡ some (false, chip'))
      × (F.flash_read chip' address partition_size ≡ (
        0,
        take len der
            ++ replicate (padding_size len) (padding_size len)
            ++ replicate (partition_size - (len + padding_size len)) 255,
      ))
flash_writer_in_clear C aes_key F address nul decode chip heap der ret len FL derived refused
      decoded der_size partial room =
    let size : length (padded der len) ≡ len + padding_size len =
      length-padded der len (omega arith) in
    let (chip', wrote, reads) =
      flash_writer-sealed C F address FL nul decode chip heap der (padded der len)
        (drop (len + padding_size len) der) ret len (len + padding_size len) decoded
        (string_with_aes_in_clear C nul aes_key der len derived refused partial (omega arith)
          (omega (arith, partition_fits)))
        size room in
    (chip', wrote, rw (reads, size))
