-- ===== src/Flash/Aes.antt =====
-- AES_encrypter, AES_decrypter, HMAC_derive_AES_for_RSA_privateKey and string_with_AES of
-- main/flash_write_RSA_key.c. The mbedtls calls are the fields of `Crypto`. A status is the bit
-- pattern of the C `int`, so 0 is success and anything else a failure.
pub mod Blocks
pub mod RoundTrip
pub mod Failures
use rfid_encryption.Base.{
  ℕ, zero, suc, ◌+◌, ◌*◌, ◌/◌, String, List, [], ◌∷◌, Bool, Option, none, some, ◌>>=◌, read_bytes,
  write_bytes, if◌then◌else◌, ◌==◌, not,
}
use rfid_encryption.Flash.Padding.{pad_string_pkcs7, depad_string_pkcs7}

abbrev pub aes_key_size : ℕ
aes_key_size = 32

pub data Direction : Type 0 where
  encrypt decrypt : Direction

-- What the code calls in mbedtls: the key derivation from the efuse key (salt, iterations and key
-- length to status and key), the key schedules (key and its bits to status), and one ECB block.
pub record Crypto : Type 0 where
  pub pkcs5_pbkdf2_hmac_ext : String → ℕ → ℕ → ℕ × List ℕ
  pub aes_setkey_enc : List ℕ → ℕ → ℕ
  pub aes_setkey_dec : List ℕ → ℕ → ℕ
  pub aes_crypt_ecb : Direction → List ℕ → List ℕ → List ℕ

abbrev pub salt : String
salt = "Please stop stack overflowing thank you please god"

abbrev pub iterations : ℕ
iterations = 1000

-- `sizeof(derived_key)` is the size of a pointer.
abbrev pub pointer_size : ℕ
pointer_size = 4

module _ (C : Crypto) where
  -- The output buffer, which holds `old` before the call.
  unfoldable pub aes_encrypter : List ℕ → List ℕ → List ℕ → List ℕ
  aes_encrypter block aes_key old =
      if C.aes_setkey_enc aes_key (aes_key_size * 8) == 0
      then C.aes_crypt_ecb encrypt aes_key block
      else old

  unfoldable pub aes_decrypter : List ℕ → List ℕ → List ℕ → List ℕ
  aes_decrypter block aes_key old =
      if C.aes_setkey_dec aes_key (aes_key_size * 8) == 0
      then C.aes_crypt_ecb decrypt aes_key block
      else old

  -- The status and the key that it leaves in `derived_key`.
  unfoldable pub hmac_derive_aes : ℕ × List ℕ
  hmac_derive_aes = C.pkcs5_pbkdf2_hmac_ext salt iterations (pointer_size * 8)

  -- `mode` is true for decryption.
  abbrev pub crypt_block : Bool → List ℕ → List ℕ → List ℕ
  crypt_block mode aes_key temp =
      if mode then aes_decrypter temp aes_key temp else aes_encrypter temp aes_key temp

-- `for (int i = 0; i < length/16; i++)`, with the rounds that are left: each block is read into
-- `temp`, transformed by `f` and written back.
unfoldable pub crypt_blocks : (List ℕ → List ℕ) → ℕ → ℕ → List ℕ → Option (List ℕ)
crypt_blocks f zero i buf = some buf
crypt_blocks f (suc rounds) i buf = read_bytes 16 buf (i * 16) >>= λ temp.
    write_bytes buf (i * 16) (f temp) >>= λ buf'. crypt_blocks f rounds (suc i) buf'

module _ (C : Crypto) (nul_literal : ℕ) where
  -- The blocks of a message whose key has been derived, and the depadding after decryption.
  unfoldable pub crypt_message : Bool → List ℕ → List ℕ → ℕ → Option (List ℕ × ℕ)
  unfolding crypt_blocks
  crypt_message mode aes_key buf len =
      crypt_blocks (crypt_block C mode aes_key) (len / 16) 0 buf >>= λ buf'.
      if mode then depad_string_pkcs7 nul_literal buf' len else some (buf', len)

  -- The buffer and the returned length.
  unfoldable pub string_with_aes : List ℕ → ℕ → Bool → Option (List ℕ × ℕ)
  unfolding hmac_derive_aes crypt_message
  string_with_aes buf len mode =
      let (ret, aes_key) = hmac_derive_aes C in
      if not (ret == 0)
      then some (buf, 0)
      else ((if mode then some (buf, len) else pad_string_pkcs7 buf len) >>= λ r.
          crypt_message mode aes_key r.0 r.1)
