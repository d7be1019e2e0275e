-- ===== src/Base/Outcomes.antt =====
-- Outcomes of code that may read or write out of bounds, or still run when its fuel is used up.
use mathlib.Core.Path.{◌≡◌, refl, subst}
use mathlib.Core.Bool.{Bool, true, false}
use mathlib.Core.Option.{Option, none, some}
use rfid_encryption.Base.Tests.{if◌then◌else◌}

-- A property of both branches, and one for which the condition matters.
module _ {ℓ κ} {A : Type ℓ} (Q : A → Type κ) where
  pub if_both : (b : Bool) (x y : A) → Q x → Q y → Q (if b then x else y)
  if_both true x y hx hy = hx
  if_both false x y hx hy = hy

  pub if_cases :
      (b : Bool) (x y : A) → (b ≡ true → Q x) → (b ≡ false → Q y) → Q (if b then x else y)
  if_cases true x y hx hy = hx refl
  if_cases false x y hx hy = hy refl

pub data Exec {ℓ} (A : Type ℓ) : Type ℓ where
  done : A → Exec A
  fault : Exec A
  running : Exec A

-- What follows once the value is there.
abbrev pub after {ℓ κ} : {A : Type ℓ} {B : Type κ} → Exec A → (A → Exec B) → Exec B
after (done a) f = f a
after fault f = fault
after running f = running

-- The same, where the only other outcome is an access out of bounds.
abbrev pub checked {ℓ κ} : {A : Type ℓ} {B : Type κ} → Option A → (A → Exec B) → Exec B
checked none f = fault
checked (some a) f = f a

-- Every value that `m` returns satisfies `P`.
pub record Ensures {ℓ κ} {A : Type ℓ} (m : Exec A) (P : A → Type κ) : Type (ℓ ⊔ κ) where
  pub at : (a : A) → m ≡ done a → P a

module _ {ℓ κ} {A : Type ℓ} {P : A → Type κ} where
  pub Ensures-done : (a : A) → P a → Ensures (done a) P
  Ensures-done a h = record { at = λ b e. subst P (cc) h }

  pub Ensures-fault : Ensures {A = A} fault P
  Ensures-fault = record { at = λ b e. cc }

  pub Ensures-running : Ensures {A = A} running P
  Ensures-running = record { at = λ b e. cc }

  pub Ensures-if :
      (b : Bool) {m n : Exec A}
      → (b ≡ true → Ensures m P)
      → (b ≡ false → Ensures n P)
      → Ensures (if b then m else n) P
  Ensures-if true hm hn = hm refl
  Ensures-if false hm hn = hn refl

module _ {ℓ κ μ ν} {A : Type ℓ} {B : Type κ} {P : A → Type μ} {Q : B → Type ν} where
  pub Ensures-after :
      (m : Exec A) (f : A → Exec B)
      → Ensures m P
      → ((a : A) → P a → Ensures (f a) Q)
      → Ensures (after m f) Q
  Ensures-after (done a) f hm hf = hf a (hm.at a refl)
  Ensures-after fault f hm hf = Ensures-fault
  Ensures-after running f hm hf = Ensures-running

module _ {ℓ κ ν} {A : Type ℓ} {B : Type κ} {Q : B → Type ν} where
  pub Ensures-checked :
      (o : Option A) (f : A → Exec B)
      → ((a : A) → o ≡ some a → Ensures (f a) Q)
      → Ensures (checked o f) Q
  Ensures-checked none f hf = Ensures-fault
  Ensures-checked (some a) f hf = hf a refl

-- `m` ends, and with a value.
abbrev pub Returns {ℓ} : {A : Type ℓ} → Exec A → Type ℓ
Returns {A} m = (a : A) × (m ≡ done a)

module _ {ℓ} {A : Type ℓ} where
  pub Returns-done : (a : A) → Returns (done a)
  Returns-done a = (a, refl)

  pub Returns-if :
      (b : Bool) (m n : Exec A)
      → (b ≡ true → Returns m)
      → (b ≡ false → Returns n)
      → Returns (if b then m else n)
  Returns-if true m n hm hn = hm refl
  Returns-if false m n hm hn = hn refl

module _ {ℓ κ} {A : Type ℓ} {B : Type κ} where
  pub Returns-after :
      (m : Exec A) (f : A → Exec B) → Returns m → ((a : A) → Returns (f a)) → Returns (after m f)
  Returns-after m f (a, e) hf = let (b, e') = hf a in (b, rw e e')

  pub Returns-checked :
      (o : Option A) (f : A → Exec B) (a : A) → o ≡ some a → Returns (f a) → Returns (checked o f)
  Returns-checked o f a e (b, e') = (b, rw e e')

-- Outcomes that are the same when their parts are.
module _ {ℓ} {A : Type ℓ} where
  pub if_same :
      (b : Bool) {x x' y y' : A} → x ≡ x' → y ≡ y' → (if b then x else y) ≡ (if b then x' else y')
  if_same b ex ey = λ i. if b then ex i else ey i

module _ {ℓ κ} {A : Type ℓ} {B : Type κ} where
  pub after_same :
      {m m' : Exec A} {f f' : A → Exec B}
      → m ≡ m'
      → ((a : A) → f a ≡ f' a)
      → after m f ≡ after m' f'
  after_same em ef = λ i. after (em i) (λ a. ef a i)

  pub checked_same :
      (o : Option A) {f f' : A → Exec B} → ((a : A) → f a ≡ f' a) → checked o f ≡ checked o f'
  checked_same o ef = λ i. checked o (λ a. ef a i)
