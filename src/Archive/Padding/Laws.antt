-- ===== src/Archive/Padding/Laws.antt =====
-- What the padding of archive/publickey_reciever.c leaves in a buffer.
use rfid_encryption.Base.{
  ℕ, suc, ◌+◌, ◌%◌, ◌≤◌, ◌<◌, ◌≡◌, ◌≢◌, refl, sym, ap, ◌∙◌, List, [], ◌∷◌, ◌++◌, false, none, some,
  length, drop, replicate, write_bytes_lem, length-append, length-replicate, write_bytes-none,
  take-append, drop-append, drop-drop, arith, ◌==◌,
}
use rfid_encryption.Flash.Padding.{padding_size, size_mod}
use rfid_encryption.Archive.Padding.{strlen, padding_byte, pad_string_pkcs7}

-- A text without a NUL.
abbrev pub IsText : List ℕ → Type 0
IsText [] = Unit {0}
IsText (x ∷ xs) = (0 < x) × IsText xs

pub strlen-text :
    (text rest : List ℕ) → IsText text → strlen (text ++ (0 ∷ rest)) ≡ some (length text)
unfolding strlen
strlen-text [] rest t = refl
strlen-text (x ∷ xs) rest (low, t) =
    let nonzero : (x == 0) ≡ false = ground arith in rw (nonzero, strlen-text xs rest t)

module _ (zero_literal : ℕ) (text rest : List ℕ) (t : IsText text) where
  -- The number of padding bytes and the byte.
  abbrev pub padding : List ℕ
  padding =
      replicate (padding_size (length text))
        (padding_byte zero_literal (padding_size (length text)))

  padded_text :
      (n : ℕ)
      → padding_size (length text) ≤ suc (length rest)
      → pad_string_pkcs7 zero_literal (text ++ (0 ∷ rest)) n
        ≡ some (
          text ++ (padding ++ drop (padding_size (length text)) (0 ∷ rest)),
          (n + padding_size (length text)) % size_mod,
        )
  unfolding pad_string_pkcs7
  padded_text n room =
      let p : ℕ = padding_size (length text) in
      let some_padding : (p == 0) ≡ false = ground arith in
      let size : length padding ≡ p = length-replicate p (padding_byte zero_literal p) in
      let behind : drop (length text + length padding) (text ++ (0 ∷ rest)) ≡ drop p (0 ∷ rest) =
        sym (drop-drop (length padding) (length text) (text ++ (0 ∷ rest)))
        ∙ ap (drop (length padding)) (drop-append (length text) text (0 ∷ rest) refl)
        ∙ ap (λ (k : ℕ). drop k (0 ∷ rest)) size in
      rw (
        strlen-text text rest t,
        some_padding,
        write_bytes_lem (text ++ (0 ∷ rest)) (length text) padding
            (omega (arith, size, length-append text (0 ∷ rest))),
        take-append (length text) text (0 ∷ rest) refl,
        behind,
      )

  overrun_text :
      (n : ℕ)
      → suc (length rest) < padding_size (length text)
      → pad_string_pkcs7 zero_literal (text ++ (0 ∷ rest)) n ≡ none
  unfolding pad_string_pkcs7
  overrun_text n short =
      let p : ℕ = padding_size (length text) in
      let some_padding : (p == 0) ≡ false = ground arith in
      let size : length padding ≡ p = length-replicate p (padding_byte zero_literal p) in
      rw (
        strlen-text text rest t,
        some_padding,
        write_bytes-none (text ++ (0 ∷ rest)) (length text) padding (omega arith)
            (omega (arith, size, length-append text (0 ∷ rest))),
      )

-- The earlier pad_string_pkcs7, given a string that a NUL ends and the string's length, below
-- 2^32 - 16: if the buffer has room for the padding, 1 to 16 bytes, which begins over the NUL, it
-- leaves the string, the padding and what lay behind, and returns a multiple of 16 that counts both.
-- If not, it writes out of bounds: in an array of just the string and its NUL, unless the length is
-- 15 modulo 16. The padding is that of PKCS#7 if, and only if, the literal "0" lies at a multiple of
-- 256.
pub pad_string_pkcs7_lem :
    (zero_literal : ℕ) (text rest : List ℕ)
    → IsText text
    → length text + 16 < size_mod
    → let p = padding_size (length text) in
      let padded = pad_string_pkcs7 zero_literal (text ++ (0 ∷ rest)) (length text) in
      (p ≤ length rest + 1
        → (padded
            ≡ some (
              text ++ (replicate p (padding_byte zero_literal p) ++ drop p (0 ∷ rest)),
              length text + p,
            ))
          × ((length text + p) % 16 ≡ 0))
      × (length rest + 1 < p → padded ≡ none)
      × (length rest ≡ 0 → length text % 16 ≢ 15 → padded ≡ none)
      × (padding_byte zero_literal p ≡ p → zero_literal % 256 ≡ 0)
      × (zero_literal % 256 ≡ 0 → padding_byte zero_literal p ≡ p)
pad_string_pkcs7_lem zero_literal text rest t small =
    let p : ℕ = padding_size (length text) in
    let sum : (length text + p) % size_mod ≡ length text + p = omega arith in
    (
      λ room. (
        padded_text zero_literal text rest t (length text) (omega arith)
            ∙ ap
                (λ (n : ℕ).
                  some (text ++ (padding zero_literal text rest t ++ drop p (0 ∷ rest)), n))
                sum,
        omega arith,
      ),
      λ short. overrun_text zero_literal text rest t (length text) (omega arith),
      λ exact partial. overrun_text zero_literal text rest t (length text) (omega arith),
      λ same. omega arith,
      λ aligned. omega arith,
    )
