-- ===== src/Card/Memory.antt =====
-- What the driver's answers tell of block 4 of a card.
use rfid_encryption.Base.{
  ℕ, ◌≡◌, refl, List, [], ◌∷◌, Bool, true, false, Option, none, some, ◌==◌, ◌&&◌, if◌then◌else◌,
  arith,
}
use rfid_encryption.Device.{History, authenticate_block, write_data_block}

abbrev pub same_bytes : List ℕ → List ℕ → Bool
same_bytes [] [] = true
same_bytes (x ∷ xs) (y ∷ ys) = let rest = same_bytes xs ys in x == y && rest
same_bytes _ _ = false

pub same_bytes_refl : (xs : List ℕ) → same_bytes xs xs ≡ true
same_bytes_refl [] = refl
same_bytes_refl (x ∷ xs) = let rest : same_bytes xs xs ≡ true = same_bytes_refl xs in ground arith

-- The UID of the card that was last authenticated.
abbrev pub selected : History → List ℕ
selected [] = []
selected (authenticate_block uid n number select key ∷ h) = uid
selected (_ ∷ h) = selected h

-- What the card with this UID took last, if anything, when writes are answered so. After a write that the driver reports as failed,
-- with 0, nothing is known.
abbrev pub held : (History → ℕ → List ℕ → ℕ) → List ℕ → History → Option (List ℕ)
held answer uid [] = none
held answer uid (write_data_block number block ∷ h) =
    let before = held answer uid h in
    if same_bytes (selected h) uid
    then (if answer h number block == 0 then none else some block)
    else before
held answer uid (_ ∷ h) = held answer uid h
