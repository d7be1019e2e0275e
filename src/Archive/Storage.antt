-- ===== src/Archive/Storage.antt =====
-- AES_encrypter, AES_decrypter, HMAC_derive_AES_for_RSA_privateKey and flash_writer of
-- archive/publickey_reciever.c. The parameters are those of Flash: mbedtls, the partition API and the
-- SPI flash. `malloc` is taken to succeed.
pub mod Image
use rfid_encryption.Base.{
  ℕ, zero, suc, ◌+◌, ◌*◌, ◌/◌, List, Bool, true, false, Option, none, some, ◌>>=◌, read_bytes,
  write_bytes, replicate, if◌then◌else◌, ◌==◌, not,
}
use rfid_encryption.Flash.Aes.{
  Crypto, encrypt, decrypt, aes_key_size, salt, iterations, pointer_size,
}
use rfid_encryption.Flash.Storage.{FlashChip, partition_size}
use rfid_encryption.Sign.{with_nul}
use rfid_encryption.Archive.Padding.{strlen, pad_string_pkcs7}

-- `char RSA_private_key[]`
abbrev pub rsa_private_key : List ℕ
rsa_private_key = with_nul "RSA private_key"

module _ (C : Crypto) where
  -- The output buffer, which holds `old` before the call.
  unfoldable pub aes_encrypter : List ℕ → List ℕ → List ℕ → List ℕ
  aes_encrypter block aes_key old =
      if not (C.aes_setkey_enc aes_key (aes_key_size * 8) == 0)
      then old
      else C.aes_crypt_ecb encrypt aes_key block

  unfoldable pub aes_decrypter : List ℕ → List ℕ → List ℕ → List ℕ
  aes_decrypter block aes_key old =
      if not (C.aes_setkey_dec aes_key (aes_key_size * 8) == 0)
      then old
      else C.aes_crypt_ecb decrypt aes_key block

  -- The status and the key. AES_KEY_SIZE is 32, so the first check finds nothing; salt and iterations
  -- are those of the later version.
  unfoldable pub hmac_derive_aes : ℕ × List ℕ
  hmac_derive_aes = C.pkcs5_pbkdf2_hmac_ext salt iterations (pointer_size * 8)

-- `for (int i = 0; i < RSA_private_key_length/16; i++)`, with the rounds that are left: block `i` of
-- the text, transformed by `f`, goes into the other buffer.
unfoldable pub seal_blocks : (List ℕ → List ℕ) → ℕ → ℕ → List ℕ → List ℕ → Option (List ℕ)
seal_blocks f zero i text sealed = some sealed
seal_blocks f (suc rounds) i text sealed = read_bytes 16 text (i * 16) >>= λ temp.
    write_bytes sealed (i * 16) (f temp) >>= λ sealed'. seal_blocks f rounds (suc i) text sealed'

module _ (C : Crypto) (F : FlashChip) (zero_literal : ℕ) where
  -- What is written: the padded key, block by block, in 4096 bytes that were 0.
  unfoldable pub sealed_key : List ℕ → Option (List ℕ)
  unfolding pad_string_pkcs7 seal_blocks
  sealed_key aes_key = strlen rsa_private_key >>= λ rsa_private_key_length.
      pad_string_pkcs7 zero_literal rsa_private_key rsa_private_key_length >>= λ padded.
      seal_blocks (λ temp. aes_encrypter C temp aes_key temp) (padded.1 / 16) 0 padded.0
        (replicate partition_size 0)

  -- The flash afterwards, and whether `RSA_encrypted_key` is still allocated. Nothing is erased.
  unfoldable pub flash_writer : F.Chip → Option (Bool × F.Chip)
  unfolding hmac_derive_aes sealed_key
  flash_writer chip = elim (F.find_first chip "RSA_key") [
    | none ↦ some (false, chip)
    | some address ↦
        let (ret, aes_key) = hmac_derive_aes C in
        if not (ret == 0)
        then some (false, chip)
        else (sealed_key aes_key >>= λ rsa_encrypted_key.
            let (ret', written) = F.flash_write chip rsa_encrypted_key address in
            some (not (ret' == 0), written))
  ]
