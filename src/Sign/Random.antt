-- ===== src/Sign/Random.antt =====
-- What generate_random_string writes.
use rfid_encryption.Base.{
  ℕ, zero, suc, ◌%◌, ◌≤◌, ◌<◌, ◌≡◌, refl, ap, List, [], ◌∷◌, ◌++◌, none, some, ◌>>=◌, store,
  store-none, get_elem?, length, drop, arith, append_assoc, length-append, length-drop,
}
use native.Mathlib.Nat.{mod-lt}
use rfid_encryption.Sign.{charset, charset_size, random_chars, generate_random_string}

get_elem?-some :
    (xs : List ℕ) (i : ℕ)
    → i < length xs
    → get_elem? xs i ≡ some (elim (get_elem? xs i) [ none ↦ 0 | some c ↦ c ])
get_elem?-some [] i h = absurd (omega arith)
get_elem?-some (x ∷ xs) zero h = refl
get_elem?-some (x ∷ xs) (suc i) h = get_elem?-some xs i (omega arith)

module _ (alphabet : List ℕ) (size : ℕ) where
  -- The character for a random number.
  abbrev pub pick : ℕ → ℕ
  pick x = elim (get_elem? alphabet (x % size)) [ none ↦ 0 | some c ↦ c ]

  -- The characters for the numbers drawn from the `i`-th on.
  abbrev pub drawn : (ℕ → ℕ) → ℕ → ℕ → List ℕ
  drawn esp_random i zero = []
  drawn esp_random i (suc n) = pick (esp_random i) ∷ drawn esp_random (suc i) n

  -- The index is always that of a character.
  pick_lem :
      (x : ℕ) → 0 < size → size ≤ length alphabet → get_elem? alphabet (x % size) ≡ some (pick x)
  pick_lem x some_size fits = get_elem?-some alphabet (x % size) (omega (arith, mod-lt x some_size))

  pub length-drawn : (esp_random : ℕ → ℕ) (i n : ℕ) → length (drawn esp_random i n) ≡ n
  length-drawn esp_random i zero = refl
  length-drawn esp_random i (suc n) = ap suc (length-drawn esp_random (suc i) n)

store_at :
    (pre post : List ℕ) (i x v : ℕ)
    → length pre ≡ i
    → store (pre ++ (x ∷ post)) i v ≡ some ((pre ++ (v ∷ [])) ++ post)
unfolding store
store_at [] post zero x v h = refl
store_at [] post (suc i) x v h = absurd (omega arith)
store_at (p ∷ pre) post zero x v h = absurd (omega arith)
store_at (p ∷ pre) post (suc i) x v h = rw (store_at pre post i x v (omega arith))

module _ (alphabet : List ℕ) (size : ℕ) (some_size : 0 < size) (fits : size ≤ length alphabet) where
  random_chars_lem :
      (esp_random : ℕ → ℕ) (n i : ℕ) (pre rest : List ℕ)
      → length pre ≡ i
      → n ≤ length rest
      → random_chars alphabet size esp_random n i (pre ++ rest)
        ≡ some (pre ++ (drawn alphabet size esp_random i n ++ drop n rest))
  unfolding random_chars
  random_chars_lem esp_random zero i pre rest e h = refl
  random_chars_lem esp_random (suc n) i pre [] e h = absurd (omega arith)
  random_chars_lem esp_random (suc n) i pre (x ∷ rest) e h =
      let c : ℕ = pick alphabet size (esp_random i) in
      rw (
        pick_lem alphabet size (esp_random i) some_size fits,
        store_at pre rest i x c e,
        random_chars_lem esp_random n (suc i) (pre ++ (c ∷ [])) rest
            (omega (arith, length-append pre (c ∷ []))) (omega arith),
        append_assoc pre (c ∷ []) (drawn alphabet size esp_random (suc i) n ++ drop n rest),
      )

drop_split : (n : ℕ) (xs : List ℕ) → n < length xs → (x : ℕ) × (drop n xs ≡ x ∷ drop (suc n) xs)
drop_split n [] h = absurd (omega arith)
drop_split zero (x ∷ xs) h = (x, refl)
drop_split (suc n) (x ∷ xs) h = drop_split n xs (omega arith)

module _ (alphabet : List ℕ) (size : ℕ) (some_size : 0 < size) (fits : size ≤ length alphabet) where
  -- The loop and the NUL behind its characters.
  pub random_text_lem :
      (esp_random : ℕ → ℕ) (str : List ℕ) (n : ℕ)
      → (n < length str
          → (random_chars alphabet size esp_random n 0 str >>= λ str'. store str' n 0)
            ≡ some (drawn alphabet size esp_random 0 n ++ (0 ∷ drop (suc n) str)))
        × (length str ≡ n
            → (random_chars alphabet size esp_random n 0 str >>= λ str'. store str' n 0) ≡ none)
  random_text_lem esp_random str n =
      let text : List ℕ = drawn alphabet size esp_random 0 n in
      let text_size : length text ≡ n = length-drawn alphabet size esp_random 0 n in
      let written : n ≤ length str
          → random_chars alphabet size esp_random n 0 str ≡ some (text ++ drop n str) =
        λ room. random_chars_lem alphabet size some_size fits esp_random n 0 [] str refl room in
      (
        λ room.
            let (x, e) = drop_split n str room in
            rw (
              written (omega arith),
              e,
              store_at text (drop (suc n) str) n x 0 text_size,
              append_assoc text (0 ∷ []) (drop (suc n) str),
            ),
        λ full. rw (
          written (omega arith),
          store-none (text ++ drop n str) n 0
              (omega (arith, length-append text (drop n str), text_size, length-drop n str)),
        ),
      )

charset_fits : charset_size ≤ length charset
unfolding charset
charset_fits = omega arith

-- Given room for `length` characters and a NUL, generate_random_string leaves the characters of the
-- alphabet for the numbers drawn, each in turn, then a NUL, and the rest of the buffer as it was.
-- In a buffer of exactly `length` bytes it writes out of bounds.
pub generate_random_string_lem :
    (esp_random : ℕ → ℕ) (str : List ℕ) (n : ℕ)
    → (n < length str
        → generate_random_string esp_random str n
          ≡ some (drawn charset charset_size esp_random 0 n ++ (0 ∷ drop (suc n) str)))
      × (length str ≡ n → generate_random_string esp_random str n ≡ none)
unfolding generate_random_string
generate_random_string_lem esp_random str n =
    random_text_lem charset charset_size (omega arith) charset_fits esp_random str n
