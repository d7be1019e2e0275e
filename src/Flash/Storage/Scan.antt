-- ===== src/Flash/Storage/Scan.antt =====
-- The reader's search for the end of the stored key.
use rfid_encryption.Base.{
  ℕ, zero, suc, ◌+◌, ◌≤◌, ◌<◌, ◌≡◌, refl, ◌≢◌, inl, inr, ◌⊎◌, ◌∙◌, sym, append-nil, ap, List, [],
  ◌∷◌, ◌++◌, Option, none, some, Bool, true, false, get_elem?, store_lem, splice, length, replicate,
  get_elem?-append_right, get_elem?-replicate, arith,
}
use rfid_encryption.Flash.Storage.{all_ff, find_end}

get_elem?-outside : (buf : List ℕ) (i : ℕ) → length buf ≤ i → get_elem? buf i ≡ none
get_elem?-outside [] i h = refl
get_elem?-outside (x ∷ buf) zero h = absurd (omega arith)
get_elem?-outside (x ∷ buf) (suc i) h = get_elem?-outside buf i (omega arith)

all_ff-outside : (n j : ℕ) (buf : List ℕ) → length buf ≤ j → all_ff (suc n) buf j ≡ none
unfolding all_ff
all_ff-outside n j buf h = rw (get_elem?-outside buf j h)

le_cases : (a b : ℕ) → a ≤ b → (a ≡ b) ⊎ (a < b)
le_cases a b h = grind arith

all_ff_cases : (o : Option Bool) → (o ≡ none) ⊎ ((o ≡ some true) ⊎ (o ≡ some false))
all_ff_cases none = inl refl
all_ff_cases (some true) = inr (inl refl)
all_ff_cases (some false) = inr (inr refl)

-- Behind `xs` stand at least `n` bytes 0xFF from `j` on.
pub all_ff-replicate :
    (n j r : ℕ) (xs : List ℕ)
    → j + n ≤ r
    → all_ff n (xs ++ replicate r 255) (length xs + j) ≡ some true
unfolding all_ff
all_ff-replicate zero j r xs h = refl
all_ff-replicate (suc n) j r xs h =
    let byte : get_elem? (xs ++ replicate r 255) (length xs + j) ≡ some 255 =
      get_elem?-append_right xs (replicate r 255) (length xs) j refl
      ∙ ap (λ zs. get_elem? zs j) (sym (append-nil (replicate r 255)))
      ∙ get_elem?-replicate r j 255 [] (omega arith) in
    let next : suc (length xs + j) ≡ length xs + suc j = omega arith in
    rw (byte, next) (all_ff-replicate n (suc j) r xs (omega arith))

-- The search stops at the first place, but for index 0, where four bytes are 0xFF.
pub find_end_at :
    (rounds i end : ℕ) (buf : List ℕ)
    → i < end
    → end ≤ i + rounds
    → ((j : ℕ) → i < j → j < end → all_ff 4 buf j ≡ some false)
    → all_ff 4 buf end ≡ some true
    → end < length buf
    → find_end rounds i buf ≡ some (splice end (0 ∷ []) buf, end)
unfolding find_end
find_end_at zero i end buf above below before hit inside = absurd (omega arith)
find_end_at (suc rounds) i end buf above below before hit inside =
    elim (le_cases (suc i) end above) [
      | inl here ↦ rw (here, hit, store_lem buf end 0 inside)
      | inr further ↦ rw (before (suc i) (omega arith) further) (
          find_end_at rounds (suc i) end buf further (omega arith)
            (λ j above' below'. before j (omega arith) below') hit inside)
    ]

-- Where four bytes 0xFF stand nowhere behind index 0, the search reads outside the buffer.
pub find_end_overruns :
    (rounds i : ℕ) (buf : List ℕ)
    → i < length buf
    → length buf ≤ i + rounds
    → ((j : ℕ) → 0 < j → all_ff 4 buf j ≢ some true)
    → find_end rounds i buf ≡ none
unfolding find_end
find_end_overruns zero i buf inside enough none_there = absurd (omega arith)
find_end_overruns (suc rounds) i buf inside enough none_there =
    elim (all_ff_cases (all_ff 4 buf (suc i))) [
      | inl fault ↦ rw fault
      | inr (inl hit) ↦ absurd (none_there (suc i) (omega arith) hit)
      | inr (inr miss) ↦
          rw miss (find_end_overruns rounds (suc i) buf (inside_next miss) (omega arith) none_there)
    ]
  where
    inside_next : all_ff 4 buf (suc i) ≡ some false → suc i < length buf
    inside_next miss = elim (le_cases (suc i) (length buf) inside) [
      | inl last ↦ absurd (cc (all_ff-outside 3 (suc i) buf (omega arith)))
      | inr further ↦ further
    ]
