-- ===== src/Archive/Random.antt =====
-- generate_random_string and RSA_Sign_with_SHA256 of archive/publickey_reciever.c.
use rfid_encryption.Base.{
  ℕ, suc, ◌+◌, ◌%◌, ◌≤◌, ◌≡◌, List, [], ◌∷◌, ◌++◌, Option, some, ◌>>=◌, codes, store, length,
  drop-all, arith, ap, ◌∙◌,
}
use rfid_encryption.Sign.{random_chars}
use rfid_encryption.Sign.Random.{drawn, random_text_lem}

-- What `malloc` gives: NULL, or an address and what the memory holds there.
pub data Pointer : Type 0 where
  null : Pointer
  points : ℕ → List ℕ → Pointer

unfoldable pub char_set : List ℕ
char_set = codes "ABCDEFGHIJKLMNOPQRSTUVWXYZabcdefghijklmnopqrstuvwxyz0123456789!~@#$^()_+=-"

-- `strlen(CHAR_SET)`
abbrev pub char_set_size : ℕ
char_set_size = 74

-- The outer `none` is an access out of bounds.
unfoldable pub generate_random_string : (ℕ → Pointer) → (ℕ → ℕ) → ℕ → Option Pointer
unfolding random_chars
generate_random_string malloc esp_random length = elim (malloc (length + 1)) [
  | null ↦ some null
  | points address heap ↦
      (random_chars char_set char_set_size esp_random length 0 heap >>= λ random_string.
      store random_string length 0)
      >>= λ random_string. some (points address random_string)
]

abbrev pub signature_length : ℕ
signature_length = 16

-- The returned `char` is the low byte of the pointer; the string is lost.
unfoldable pub rsa_sign_with_sha256 : (ℕ → Pointer) → (ℕ → ℕ) → Option ℕ
unfolding generate_random_string
rsa_sign_with_sha256 malloc esp_random =
    generate_random_string malloc esp_random signature_length >>= λ signature.
    some (elim signature [ null ↦ 0 | points address bytes ↦ address % 256 ])

char_set_fits : char_set_size ≤ length char_set
unfolding char_set
char_set_fits = omega arith

-- What `malloc` gives has the size asked for.
abbrev pub Sized : (ℕ → Pointer) → Type 0
Sized malloc = (n address : ℕ) (heap : List ℕ) → malloc n ≡ points address heap → length heap ≡ n

module _ (malloc : ℕ → Pointer) (esp_random : ℕ → ℕ) (sized : Sized malloc) where
  filled :
      (n : ℕ) (heap : List ℕ)
      → length heap ≡ n + 1
      → (random_chars char_set char_set_size esp_random n 0 heap >>= λ str. store str n 0)
        ≡ some (drawn char_set char_set_size esp_random 0 n ++ (0 ∷ []))
  filled n heap size =
      (random_text_lem char_set char_set_size (omega arith) char_set_fits esp_random heap n).0
        (omega arith)
      ∙ ap (λ (xs : List ℕ). some (drawn char_set char_set_size esp_random 0 n ++ (0 ∷ xs)))
          (drop-all (suc n) heap (omega arith))

  generated_null :
      (n : ℕ) → malloc (n + 1) ≡ null → generate_random_string malloc esp_random n ≡ some null
  unfolding generate_random_string
  generated_null n e = rw (generate_random_string, e)

  generated :
      (n address : ℕ) (heap : List ℕ)
      → malloc (n + 1) ≡ points address heap
      → generate_random_string malloc esp_random n
        ≡ some (points address (drawn char_set char_set_size esp_random 0 n ++ (0 ∷ [])))
  unfolding generate_random_string
  generated n address heap e =
      rw (generate_random_string, e, filled n heap (sized (n + 1) address heap e))

  signed :
      (address : ℕ) (heap : List ℕ)
      → malloc (signature_length + 1) ≡ points address heap
      → rsa_sign_with_sha256 malloc esp_random ≡ some (address % 256)
  unfolding rsa_sign_with_sha256
  signed address heap e = rw (generated signature_length address heap e)

-- When `malloc` gives memory of the size asked for, the earlier generate_random_string fills it in
-- bounds and to the end: with the characters for the numbers drawn, each in turn, and a NUL. When
-- `malloc` gives NULL, so does it. RSA_Sign_with_SHA256 does not depend on the random numbers, only
-- on where the memory lies.
pub generate_random_string_fills :
    (malloc : ℕ → Pointer) (esp_random : ℕ → ℕ)
    → Sized malloc
    → ((n : ℕ) → malloc (n + 1) ≡ null → generate_random_string malloc esp_random n ≡ some null)
      × ((n address : ℕ) (heap : List ℕ)
          → malloc (n + 1) ≡ points address heap
          → generate_random_string malloc esp_random n
            ≡ some (points address (drawn char_set char_set_size esp_random 0 n ++ (0 ∷ []))))
      × ((address : ℕ) (heap : List ℕ)
          → malloc (signature_length + 1) ≡ points address heap
          → rsa_sign_with_sha256 malloc esp_random ≡ some (address % 256))
generate_random_string_fills malloc esp_random sized = (
  generated_null malloc esp_random sized,
  generated malloc esp_random sized,
  signed malloc esp_random sized,
)
