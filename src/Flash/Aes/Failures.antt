-- ===== src/Flash/Aes/Failures.antt =====
-- What string_with_AES does when mbedtls refuses a key.
use mathlib.Core.Path.{fun_ext}
use rfid_encryption.Base.{
  ℕ, ◌+◌, ◌*◌, ◌/◌, ◌%◌, ◌≤◌, ◌<◌, ◌≡◌, sym, ◌≢◌, List, ◌++◌, some, length, take, drop, replicate,
  splice, arith, false, ◌==◌, append_assoc, length-replicate, length-append,
}
use rfid_encryption.Flash.Padding.{size_mod, padding_size}
use rfid_encryption.Flash.Padding.Laws.{pad-spliced}
use rfid_encryption.Flash.Aes.{
  Crypto, salt, iterations, aes_key_size, pointer_size, crypt_block, aes_encrypter, string_with_aes,
}
use rfid_encryption.Flash.Aes.Blocks.{ecb-same, crypt_all}
use rfid_encryption.Flash.Aes.RoundTrip.{padded, length-padded}

module _ (C : Crypto) (nul : ℕ) (aes_key : List ℕ) where
  refused_block :
      C.aes_setkey_enc aes_key (aes_key_size * 8) ≢ 0
      → crypt_block C false aes_key ≡ (λ block. block)
  unfolding aes_encrypter
  refused_block refused =
      let no_key : (C.aes_setkey_enc aes_key (aes_key_size * 8) == 0) ≡ false = ground arith in
      fun_ext λ temp. rw no_key

  -- When the key is derived but the AES key schedule refuses it, encryption of a message that does
  -- not fill its blocks reports success, with the padded length, and leaves the message in clear.
  pub string_with_aes_in_clear :
      (buf : List ℕ) (len : ℕ)
      → C.pkcs5_pbkdf2_hmac_ext salt iterations (pointer_size * 8) ≡ (0, aes_key)
      → C.aes_setkey_enc aes_key (aes_key_size * 8) ≢ 0
      → len % 16 ≢ 0
      → len + padding_size len ≤ length buf
      → length buf < size_mod
      → string_with_aes C nul buf len false
        ≡ some (padded buf len ++ drop (len + padding_size len) buf, len + padding_size len)
  unfolding string_with_aes
  string_with_aes_in_clear buf len derived refused partial room small =
      let p : ℕ = padding_size len in
      let rest : List ℕ = drop (len + p) buf in
      let same : splice len (replicate p p) buf ≡ padded buf len ++ rest =
        rw (length-replicate p p) (sym (append_assoc (take len buf) (replicate p p) rest)) in
      let size : length (padded buf len) ≡ len + p = length-padded buf len (omega arith) in
      rw (derived, pad-spliced buf len partial room small, same, refused_block refused)
        (rw (
          crypt_all (λ block. block) ((len + p) / 16) (padded buf len ++ rest) (λ xs h. h)
              (omega (arith, length-append (padded buf len) rest)),
          ecb-same ((len + p) / 16) (padded buf len ++ rest),
        ))
