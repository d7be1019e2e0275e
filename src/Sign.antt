-- ===== src/Sign.antt =====
-- main/publickey_reciever.c: random strings, RSA signatures with the key in flash, their
-- verification and the check of the testing key pair. mbedtls is a parameter. What is only logged
-- is left out.
pub mod Keys
pub mod Random
pub mod Verify
pub mod Generate
pub mod Objects
use rfid_encryption.Base.{
  ℕ, zero, suc, ◌+◌, ◌%◌, String, List, [], ◌∷◌, ◌++◌, Bool, Option, none, some, ◌>>=◌, codes,
  store, read_bytes, write_bytes, get_elem?, length, if◌then◌else◌, ◌==◌, not,
}
use rfid_encryption.Flash.Aes.{Crypto, pointer_size}
use rfid_encryption.Flash.Storage.{FlashChip, flash_reader, partition_size}
use rfid_encryption.Mbed.{Uses, init, free, pk_context, entropy, ctr_drbg}
use Keys.{testing_rsa_private_key, testing_rsa_public_key}

-- A call that returns, that ESP_ERROR_CHECK aborts, or that leaves a buffer.
pub data Result {ℓ} (A : Type ℓ) : Type ℓ where
  returned : A → Result A
  aborted overrun : Result A

-- ESP_ERROR_CHECK, and what follows.
abbrev pub error_check {ℓ} : {A : Type ℓ} → ℕ → Result A → Result A
error_check ret next = if ret == 0 then next else aborted

abbrev pub bounded {ℓ κ} : {A : Type ℓ} {B : Type κ} → Option A → (A → Result B) → Result B
bounded none f = overrun
bounded (some a) f = f a

-- The calls of mbedtls. A key is what a pk context holds; statuses are bit patterns, 0 is success.
-- pk_sign and pk_verify (SHA-256) take the hash, its length and the size of the signature's buffer,
-- or the signature.
pub record Pk : Type 1 where
  pub Key : Type 0
  pub ctr_drbg_seed : ℕ
  pub pk_parse_key : List ℕ → ℕ × Key
  pub pk_parse_public_key : List ℕ → ℕ × Key
  pub pk_is_rsa : Key → Bool
  pub err_pk_type_mismatch : ℕ
  pub sha256 : List ℕ → List ℕ
  pub pk_sign : Key → List ℕ → ℕ → ℕ → ℕ × List ℕ
  pub pk_verify : Key → List ℕ → ℕ → List ℕ → ℕ

-- `text` with its NUL: `strlen(text) + 1` bytes.
abbrev pub with_nul : String → List ℕ
with_nul text = codes text ++ (0 ∷ [])

unfoldable pub charset : List ℕ
charset = codes "abcdefghijklmnopqrstuvwxyzABCDEFGHIJKLMNOPQRSTUVWXYZ0123456789"

-- `sizeof(charset) - 1`
abbrev pub charset_size : ℕ
charset_size = 62

-- The loop of generate_random_string from `i` on, with `size` characters of `alphabet`;
-- `esp_random i` is the i-th number drawn.
unfoldable pub random_chars : List ℕ → ℕ → (ℕ → ℕ) → ℕ → ℕ → List ℕ → Option (List ℕ)
random_chars alphabet size esp_random zero i str = some str
random_chars alphabet size esp_random (suc rounds) i str =
    get_elem? alphabet (esp_random i % size) >>= λ c.
    store str i c >>= λ str'. random_chars alphabet size esp_random rounds (suc i) str'

unfoldable pub generate_random_string : (ℕ → ℕ) → List ℕ → ℕ → Option (List ℕ)
unfolding random_chars
generate_random_string esp_random str length =
    random_chars charset charset_size esp_random length 0 str >>= λ str'. store str' length 0

-- What is set up and cleaned up around a signature.
abbrev pub sign_inits : Uses
sign_inits = init pk_context ∷ init entropy ∷ init ctr_drbg ∷ []

abbrev pub sign_frees : Uses
sign_frees = free pk_context ∷ free entropy ∷ free ctr_drbg ∷ []

module _ (P : Pk) where
  -- The result, the signature's buffer, `*signature_len` and the objects' calls. A failure aborts, so
  -- the clean-up is reached with 0 only.
  unfoldable pub mbedtls_rsa_sign :
      List ℕ → ℕ → List ℕ → ℕ → List ℕ → ℕ → Result (ℕ × List ℕ × ℕ × Uses)
  mbedtls_rsa_sign bytes data_len private_key private_key_len signature signature_len =
      error_check P.ctr_drbg_seed (
        bounded (read_bytes (private_key_len + 1) private_key 0) λ key.
          let (ret, ctx) = P.pk_parse_key key in
          error_check ret (
            bounded (read_bytes data_len bytes 0) λ signed.
              let (ret', sign) = P.pk_sign ctx (P.sha256 signed) 0 signature_len in
              error_check ret' (
                bounded (write_bytes signature 0 sign)
                  λ signature'. returned (0, signature', length sign, sign_inits ++ sign_frees))))

  -- The result and the objects' calls. Each path frees the context itself before it returns.
  unfoldable pub verify_signature : List ℕ → ℕ → List ℕ → ℕ → Result (ℕ × Uses)
  verify_signature message message_len signature signature_len =
      let inited = init pk_context ∷ [] in
      let (ret, key) = P.pk_parse_public_key (with_nul testing_rsa_public_key) in
      if not (ret == 0)
      then returned (ret, inited ++ (free pk_context ∷ []))
      else if not (P.pk_is_rsa key)
      then returned (P.err_pk_type_mismatch, inited ++ (free pk_context ∷ []))
      else (bounded (read_bytes message_len message 0) λ signed.
          bounded (read_bytes signature_len signature 0) λ sign.
            let ret' = P.pk_verify key (P.sha256 signed) 32 sign in
            returned (ret', inited ++ (free pk_context ∷ [])))

  -- The result and the objects' calls. `rest` is what the hash's last 19 bytes hold: only the message
  -- is put into it. Between the keys the context is freed and set up again.
  unfoldable pub key_pair_checker : List ℕ → ℕ × Uses
  key_pair_checker rest =
      let reset = sign_inits ++ (free pk_context ∷ init pk_context ∷ []) in
      let hash = codes "Hello, world!" ++ rest in
      let (parsed, private_key) = P.pk_parse_key (with_nul testing_rsa_private_key) in
      let (signed, buf) = P.pk_sign private_key hash 0 512 in
      let (parsed_public, public_key) = P.pk_parse_public_key (with_nul testing_rsa_public_key) in
      if not (P.ctr_drbg_seed == 0)
      then (1, sign_inits)
      else if not (parsed == 0)
      then (1, sign_inits)
      else if not (signed == 0)
      then (1, sign_inits)
      else if not (parsed_public == 0)
      then (1, reset)
      else if not (P.pk_verify public_key hash 0 buf == 0)
      then (1, reset)
      else (0, reset ++ sign_frees)

  module _ (C : Crypto) (F : FlashChip) (nul_literal : ℕ) where
    -- The two arguments afterwards and the objects' calls. `sizeof` of either is that of a pointer. The string given as the
    -- label is cut down to `label`, the low byte of its address. `heap` and `heap'` are what the two
    -- `malloc(4096)` hold.
    unfoldable pub signature_generater :
        F.Chip → List ℕ → List ℕ → (ℕ → ℕ) → ℕ → List ℕ → List ℕ → Result (List ℕ × List ℕ × Uses)
    unfolding generate_random_string mbedtls_rsa_sign
    signature_generater chip heap heap' esp_random label data_to_sign signature =
        bounded (generate_random_string esp_random data_to_sign 16) λ string.
          bounded (flash_reader C F nul_literal chip heap' heap partition_size (not (label == 0)))
            λ k. elim (mbedtls_rsa_sign string pointer_size k.1 k.0 signature pointer_size) [
              | returned r ↦ returned (string, r.1, r.3)
              | aborted ↦ aborted
              | overrun ↦ overrun
            ]
