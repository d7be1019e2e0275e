-- ===== src/Archive/Padding.antt =====
-- pad_string_pkcs7 of archive/publickey_reciever.c. It looks for the string's end itself, and the
-- byte that it fills in is the low byte of an address.
pub mod Laws
use rfid_encryption.Base.{
  ℕ, zero, suc, ◌+◌, ◌%◌, List, [], ◌∷◌, Option, none, some, ◌>>=◌, replicate, write_bytes,
  if◌then◌else◌, ◌==◌,
}
use rfid_encryption.Flash.Padding.{padding_size, size_mod}

-- `strlen`; `none` when no NUL ends the string inside its object.
unfoldable pub strlen : List ℕ → Option ℕ
strlen [] = none
strlen (x ∷ xs) = let rest = strlen xs in if x == 0 then some 0 else (rest >>= λ n. some (suc n))

-- `(char) ("0" + padding_size)`, where `zero_literal` is the address of the literal.
abbrev pub padding_byte : ℕ → ℕ → ℕ
padding_byte zero_literal size = (zero_literal + size) % 256

-- The buffer and the returned length: `*length` stays as it is, so the caller gets the sum. The
-- padding overwrites the NUL.
unfoldable pub pad_string_pkcs7 : ℕ → List ℕ → ℕ → Option (List ℕ × ℕ)
unfolding strlen
pad_string_pkcs7 zero_literal input_string length = strlen input_string >>= λ input_length.
    let size : ℕ = padding_size input_length in
    if size == 0
    then some (input_string, length)
    else (write_bytes input_string input_length (replicate size (padding_byte zero_literal size))
        >>= λ padded. some (padded, (length + size) % size_mod))
