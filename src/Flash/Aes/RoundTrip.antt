-- ===== src/Flash/Aes/RoundTrip.antt =====
-- string_with_AES: what it returns for each direction, and both directions in turn.
use mathlib.Core.Path.{fun_ext}
use rfid_encryption.Base.{
  ℕ, ◌+◌, ◌*◌, ◌/◌, ◌%◌, ◌≤◌, ◌<◌, ◌≡◌, ◌≢◌, sym, ap, ◌∙◌, List, [], ◌∷◌, ◌++◌, some, ◌>>=◌, splice,
  length, take, drop, replicate, length-take, length-drop, length-append, length-replicate,
  take-append, append_assoc, arith, true, false,
}
use rfid_encryption.Flash.Padding.{size_mod, padding_size}
use rfid_encryption.Flash.Padding.Laws.{pad-spliced, depad_of_padded}
use rfid_encryption.Flash.Aes.{
  Crypto, encrypt, decrypt, salt, iterations, aes_key_size, pointer_size, crypt_block,
  aes_encrypter, aes_decrypter, string_with_aes,
}
use rfid_encryption.Flash.Aes.Blocks.{ecb, IsBlockMap, length-ecb, crypt_all, ecb-ecb, ecb-append}

-- What the code relies on in mbedtls, for the key derived on this chip: the derivation and both
-- key schedules succeed, a block stays 16 bytes long, and decryption inverts encryption on blocks.
pub record IsLawful (C : Crypto) (aes_key : List ℕ) : Type 0 where
  pub derived : C.pkcs5_pbkdf2_hmac_ext salt iterations (pointer_size * 8) ≡ (0, aes_key)
  pub enc_key : C.aes_setkey_enc aes_key (aes_key_size * 8) ≡ 0
  pub dec_key : C.aes_setkey_dec aes_key (aes_key_size * 8) ≡ 0
  pub enc_block : IsBlockMap (C.aes_crypt_ecb encrypt aes_key)
  pub dec_block : IsBlockMap (C.aes_crypt_ecb decrypt aes_key)
  pub inverse :
      (xs : List ℕ)
      → length xs ≡ 16
      → C.aes_crypt_ecb decrypt aes_key (C.aes_crypt_ecb encrypt aes_key xs) ≡ xs

-- The message with its padding.
abbrev pub padded : List ℕ → ℕ → List ℕ
padded buf len = take len buf ++ replicate (padding_size len) (padding_size len)

pub length-padded :
    (buf : List ℕ) (len : ℕ) → len ≤ length buf → length (padded buf len) ≡ len + padding_size len
length-padded buf len h = omega (
  arith,
  length-append (take len buf) (replicate (padding_size len) (padding_size len)),
  length-take len buf,
  length-replicate (padding_size len) (padding_size len),
)

-- The bytes that encryption leaves in place of the padded message.
abbrev pub ciphertext : Crypto → List ℕ → List ℕ → ℕ → List ℕ
ciphertext C aes_key buf len =
    ecb (C.aes_crypt_ecb encrypt aes_key) ((len + padding_size len) / 16) (padded buf len)

-- The byte that depadding overwrites stands behind the message.
pub front_of_opened :
    (nul len : ℕ) (buf rest : List ℕ)
    → len ≤ length buf
    → take len (splice len (nul ∷ []) (padded buf len ++ rest)) ≡ take len buf
front_of_opened nul len buf rest fits =
    let p : ℕ = padding_size len in
    let plain : List ℕ = padded buf len ++ rest in
    let front : length (take len buf) ≡ len = omega (arith, length-take len buf) in
    take-append len (take len plain) (nul ∷ drop (len + 1) plain) (
      omega (
        arith,
        length-take len plain,
        length-append (padded buf len) rest,
        length-padded buf len fits,
      ))
    ∙ ap (take len) (append_assoc (take len buf) (replicate p p) rest)
    ∙ take-append len (take len buf) (replicate p p ++ rest) front

module _ (C : Crypto) (aes_key : List ℕ) (L : IsLawful C aes_key) where
  pub length-ciphertext :
      (buf : List ℕ) (len : ℕ)
      → len ≤ length buf
      → length (ciphertext C aes_key buf len) ≡ len + padding_size len
  length-ciphertext buf len h =
      length-ecb (C.aes_crypt_ecb encrypt aes_key) ((len + padding_size len) / 16) (padded buf len)
        L.enc_block (omega (arith, length-padded buf len h))
      ∙ length-padded buf len h

  crypt_block_encrypts : crypt_block C false aes_key ≡ C.aes_crypt_ecb encrypt aes_key
  unfolding aes_encrypter
  crypt_block_encrypts = fun_ext λ temp. rw L.enc_key

  crypt_block_decrypts : crypt_block C true aes_key ≡ C.aes_crypt_ecb decrypt aes_key
  unfolding aes_decrypter
  crypt_block_decrypts = fun_ext λ temp. rw L.dec_key

  -- Encryption of a message that does not fill its blocks: ECB of the padded message, the bytes
  -- behind it kept, and the padded length.
  pub string_with_aes_encrypts :
      (nul : ℕ) (buf : List ℕ) (len : ℕ)
      → len % 16 ≢ 0
      → len + padding_size len ≤ length buf
      → length buf < size_mod
      → string_with_aes C nul buf len false
        ≡ some (
          ciphertext C aes_key buf len ++ drop (len + padding_size len) buf,
          len + padding_size len,
        )
  unfolding string_with_aes
  string_with_aes_encrypts nul buf len partial room small =
      let n : ℕ = (len + padding_size len) / 16 in
      let E : List ℕ → List ℕ = C.aes_crypt_ecb encrypt aes_key in
      let p : ℕ = padding_size len in
      let rest : List ℕ = drop (len + p) buf in
      let size : length (padded buf len) ≡ len + p = length-padded buf len (omega arith) in
      let same : splice len (replicate p p) buf ≡ padded buf len ++ rest =
        rw (length-replicate p p) (sym (append_assoc (take len buf) (replicate p p) rest)) in
      rw (L.derived, pad-spliced buf len partial room small, same, crypt_block_encrypts)
        (rw (
          crypt_all E n (padded buf len ++ rest) L.enc_block
              (omega (arith, length-append (padded buf len) rest)),
          ecb-append E n (padded buf len) rest (omega arith),
        ))

  -- Decryption of what encryption left.
  pub string_with_aes_decrypts :
      (nul : ℕ) (buf rest : List ℕ) (len : ℕ)
      → len % 16 ≢ 0
      → len ≤ length buf
      → len + padding_size len + length rest < size_mod
      → string_with_aes C nul (ciphertext C aes_key buf len ++ rest) (len + padding_size len) true
        ≡ some (splice len (nul ∷ []) (padded buf len ++ rest), len)
  unfolding string_with_aes
  string_with_aes_decrypts nul buf rest len partial fits small =
      let p : ℕ = padding_size len in
      let n : ℕ = (len + p) / 16 in
      let E : List ℕ → List ℕ = C.aes_crypt_ecb encrypt aes_key in
      let D : List ℕ → List ℕ = C.aes_crypt_ecb decrypt aes_key in
      let size : length (padded buf len) ≡ len + p = length-padded buf len fits in
      let sealed_size : length (ciphertext C aes_key buf len) ≡ len + p =
        length-ciphertext buf len fits in
      let front : length (take len buf) ≡ len = omega (arith, length-take len buf) in
      let shape : padded buf len ++ rest ≡ take len buf ++ (replicate p p ++ rest) =
        append_assoc (take len buf) (replicate p p) rest in
      let total : length (take len buf ++ (replicate p p ++ rest)) ≡ len + p + length rest =
        ap length (sym shape) ∙ length-append (padded buf len) rest ∙ omega arith in
      rw (L.derived, crypt_block_decrypts)
        (rw (
          crypt_all D n (ciphertext C aes_key buf len ++ rest) L.dec_block
              (omega (arith, length-append (ciphertext C aes_key buf len) rest)),
          ecb-append D n (ciphertext C aes_key buf len) rest (omega arith),
          ecb-ecb E D n (padded buf len) L.enc_block L.inverse (omega arith),
          shape,
          depad_of_padded nul len (take len buf) rest front partial (omega arith),
        ))

  -- On a chip whose derivation and key schedules succeed, encrypting a message whose length is no
  -- multiple of 16, in a buffer with room for the padding, and decrypting the result at the length
  -- that the encryption returned faults nowhere, returns the length and restores the bytes.
  pub string_with_aes_round_trip :
      (nul : ℕ) (buf : List ℕ) (len : ℕ)
      → len % 16 ≢ 0
      → len + padding_size len ≤ length buf
      → length buf < size_mod
      → (buf' : List ℕ) × ((string_with_aes C nul buf len false >>= λ r.
            string_with_aes C nul r.0 r.1 true)
          ≡ some (buf', len))
        × (take len buf' ≡ take len buf)
  string_with_aes_round_trip nul buf len partial room small =
      let p : ℕ = padding_size len in
      let rest : List ℕ = drop (len + p) buf in
      let plain : List ℕ = padded buf len ++ rest in
      (
        splice len (nul ∷ []) plain,
        rw (
          string_with_aes_encrypts nul buf len partial room small,
          string_with_aes_decrypts nul buf rest len partial (omega arith)
              (omega (arith, length-drop (len + p) buf)),
        ),
        front_of_opened nul len buf rest (omega arith),
      )
