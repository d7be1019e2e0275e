-- ===== src/Base/Memory.antt =====
-- C buffers: a list of bytes whose length is the size of the object. `none` is an access out of
-- bounds, which C leaves undefined.
use Prim.Native.Nat.{ℕ, zero, suc, ◌+◌, ◌≤◌, ◌<◌}
use mathlib.Core.Path.{◌≡◌, refl, sym, ap, ◌∙◌}
use mathlib.Core.List.{List, [], ◌∷◌, ◌++◌}
use mathlib.Core.Option.{Option, none, some}
use native.Mathlib.Omega.{arith}
use rfid_encryption.Base.Lists.{
  length, get_elem?, take, drop, length-append, length-take, length-drop, take-append, drop-append,
  drop-drop,
}

infixl 5 ◌>>=◌
abbrev pub ◌>>=◌ {ℓ κ} : {A : Type ℓ} {B : Type κ} → Option A → (A → Option B) → Option B
none >>= f = none
some a >>= f = f a

-- `p[i] = v`
unfoldable pub store : List ℕ → ℕ → ℕ → Option (List ℕ)
store [] i v = none
store (x ∷ xs) zero v = some (v ∷ xs)
store (x ∷ xs) (suc i) v = store xs i v >>= λ ys. some (x ∷ ys)

-- `n` bytes read one by one from `p + off`.
unfoldable pub read_bytes : ℕ → List ℕ → ℕ → Option (List ℕ)
read_bytes zero b off = some []
read_bytes (suc n) b off = get_elem? b off >>= λ x. read_bytes n b (suc off) >>= λ xs. some (x ∷ xs)

-- The bytes written one by one from `p + off` on.
unfoldable pub write_bytes : List ℕ → ℕ → List ℕ → Option (List ℕ)
unfolding store
write_bytes b off [] = some b
write_bytes b off (x ∷ xs) = store b off x >>= λ b'. write_bytes b' (suc off) xs

-- `b` with `xs` in place of what stood from `off` on.
abbrev pub splice : ℕ → List ℕ → List ℕ → List ℕ
splice off xs b = take off b ++ (xs ++ drop (off + length xs) b)

read_bytes-suc :
    (n : ℕ) (y : ℕ) (b : List ℕ) (off : ℕ) → read_bytes n (y ∷ b) (suc off) ≡ read_bytes n b off
unfolding read_bytes
read_bytes-suc zero y b off = refl
read_bytes-suc (suc n) y b off = rw (read_bytes-suc n y b (suc off))

pub read_bytes_lem :
    (n : ℕ) (b : List ℕ) (off : ℕ)
    → off + n ≤ length b
    → read_bytes n b off ≡ some (take n (drop off b))
unfolding read_bytes
read_bytes_lem zero b off h = refl
read_bytes_lem (suc n) [] off h = absurd (omega arith)
read_bytes_lem (suc n) (y ∷ b) zero h =
    rw (read_bytes-suc n y b 0, read_bytes_lem n b 0 (omega arith))
read_bytes_lem (suc n) (y ∷ b) (suc off) h =
    read_bytes-suc (suc n) y b off ∙ read_bytes_lem (suc n) b off (omega arith)

write_after_store :
    (y off : ℕ) (xs : List ℕ) (o : Option (List ℕ))
    → ((ys : List ℕ)
        → write_bytes (y ∷ ys) (suc (suc off)) xs
          ≡ (write_bytes ys (suc off) xs >>= λ zs. some (y ∷ zs)))
    → ((o >>= λ ys. some (y ∷ ys)) >>= λ b'. write_bytes b' (suc (suc off)) xs)
      ≡ ((o >>= λ b'. write_bytes b' (suc off) xs) >>= λ zs. some (y ∷ zs))
write_after_store y off xs none ih = refl
write_after_store y off xs (some ys) ih = ih ys

-- Reading past the end.
pub read_bytes-none : (n : ℕ) (b : List ℕ) → length b < n → read_bytes n b 0 ≡ none
unfolding read_bytes
read_bytes-none zero b h = absurd (omega arith)
read_bytes-none (suc n) [] h = refl
read_bytes-none (suc n) (y ∷ b) h = rw (read_bytes-suc n y b 0, read_bytes-none n b (omega arith))

write_bytes-suc :
    (y : ℕ) (b : List ℕ) (off : ℕ) (xs : List ℕ)
    → write_bytes (y ∷ b) (suc off) xs ≡ (write_bytes b off xs >>= λ zs. some (y ∷ zs))
unfolding write_bytes
write_bytes-suc y b off [] = refl
write_bytes-suc y b off (x ∷ xs) =
    write_after_store y off xs (store b off x) (λ ys. write_bytes-suc y ys (suc off) xs)

drop_eq : (m n : ℕ) (xs : List ℕ) → m ≡ n → drop m xs ≡ drop n xs
drop_eq m n xs h = ap (λ (k : ℕ). drop k xs) h

pub write_bytes_lem :
    (b : List ℕ) (off : ℕ) (xs : List ℕ)
    → off + length xs ≤ length b
    → write_bytes b off xs ≡ some (splice off xs b)
unfolding write_bytes
write_bytes_lem b zero [] h = rw (drop_eq (0 + 0) 0 b (omega arith))
write_bytes_lem [] zero (x ∷ xs) h = absurd (omega arith)
write_bytes_lem (y ∷ b) zero (x ∷ xs) h = rw (
  write_bytes-suc x b 0 xs,
  write_bytes_lem b 0 xs (omega arith),
  drop_eq (0 + suc (length xs)) (suc (length xs)) (y ∷ b) (omega arith),
  drop_eq (0 + length xs) (length xs) b (omega arith),
)
write_bytes_lem [] (suc off) xs h = absurd (omega arith)
write_bytes_lem (y ∷ b) (suc off) xs h = rw (
  write_bytes-suc y b off xs,
  write_bytes_lem b off xs (omega arith),
  drop_eq (suc off + length xs) (suc (off + length xs)) (y ∷ b) (omega arith),
)

>>=-some {ℓ} : {A : Type ℓ} (o : Option A) → (o >>= λ a. some a) ≡ o
>>=-some none = refl
>>=-some (some a) = refl

pub store_lem : (b : List ℕ) (i v : ℕ) → i < length b → store b i v ≡ some (splice i (v ∷ []) b)
unfolding write_bytes
store_lem b i v h = sym (>>=-some (store b i v)) ∙ write_bytes_lem b i (v ∷ []) (omega arith)

pub length-splice :
    (b : List ℕ) (off : ℕ) (xs : List ℕ)
    → off + length xs ≤ length b
    → length (splice off xs b) ≡ length b
length-splice b off xs h = omega (
  arith,
  length-append (take off b) (xs ++ drop (off + length xs) b),
  length-append xs (drop (off + length xs) b),
  length-take off b,
  length-drop (off + length xs) b,
)

-- A write over the middle part of a buffer.
pub write_bytes_at :
    (front mid rest xs : List ℕ) (off : ℕ)
    → length front ≡ off
    → length xs ≡ length mid
    → write_bytes (front ++ (mid ++ rest)) off xs ≡ some (front ++ (xs ++ rest))
write_bytes_at front mid rest xs off at size =
    let total : length (front ++ (mid ++ rest)) ≡ off + length mid + length rest =
      omega (arith, length-append front (mid ++ rest), length-append mid rest) in
    let behind : drop (off + length xs) (front ++ (mid ++ rest)) ≡ rest =
      sym (drop-drop (length xs) off (front ++ (mid ++ rest)))
      ∙ ap (drop (length xs)) (drop-append off front (mid ++ rest) at)
      ∙ drop-append (length xs) mid rest (sym size) in
    rw (
      write_bytes_lem (front ++ (mid ++ rest)) off xs (omega arith),
      take-append off front (mid ++ rest) at,
      behind,
    )

-- What a chain with a result went through.
pub bind_cases {ℓ κ} :
    {A : Type ℓ} {B : Type κ} (o : Option A) (f : A → Option B) (b : B)
    → (o >>= f) ≡ some b
    → (a : A) × (o ≡ some a) × (f a ≡ some b)
bind_cases none f b e = cc
bind_cases (some a) f b e = (a, refl, e)

length-store : (b b' : List ℕ) (i v : ℕ) → store b i v ≡ some b' → length b' ≡ length b
unfolding store
length-store [] b' i v e = cc
length-store (x ∷ b) b' zero v e = let same : v ∷ b ≡ b' = cc in ap length (sym same)
length-store (x ∷ b) b' (suc i) v e =
    let (ys, ey, eb) = bind_cases (store b i v) (λ ys. some (x ∷ ys)) b' e in
    let same : x ∷ ys ≡ b' = cc in ap length (sym same) ∙ ap suc (length-store b ys i v ey)

-- A write leaves a buffer's size.
pub length-write_bytes :
    (b b' : List ℕ) (off : ℕ) (xs : List ℕ) → write_bytes b off xs ≡ some b' → length b' ≡ length b
unfolding write_bytes
length-write_bytes b b' off [] e = let same : b ≡ b' = cc in ap length (sym same)
length-write_bytes b b' off (x ∷ xs) e =
    let (b1, e1, e2) = bind_cases (store b off x) (λ b1. write_bytes b1 (suc off) xs) b' e in
    length-write_bytes b1 b' (suc off) xs e2 ∙ length-store b b1 off x e1

-- Writing past the end.
pub store-none : (b : List ℕ) (i v : ℕ) → length b ≤ i → store b i v ≡ none
unfolding store
store-none [] i v h = refl
store-none (x ∷ b) zero v h = absurd (omega arith)
store-none (x ∷ b) (suc i) v h = rw (store-none b i v (omega arith))

after_write :
    (b : List ℕ) (off x : ℕ) (f : List ℕ → Option (List ℕ))
    → ((b' : List ℕ) → length b' ≡ length b → f b' ≡ none)
    → (o : Option (List ℕ)) → store b off x ≡ o
    → (o >>= f) ≡ none
after_write b off x f h none e = refl
after_write b off x f h (some b') e = h b' (length-store b b' off x e)

pub write_bytes-none :
    (b : List ℕ) (off : ℕ) (xs : List ℕ)
    → 0 < length xs
    → length b < off + length xs
    → write_bytes b off xs ≡ none
unfolding write_bytes
write_bytes-none b off [] h over = absurd (omega arith)
write_bytes-none b off (x ∷ []) h over = rw (store-none b off x (omega arith))
write_bytes-none b off (x ∷ y ∷ xs) h over =
    after_write b off x (λ b'. write_bytes b' (suc off) (y ∷ xs))
      (λ b' same. write_bytes-none b' (suc off) (y ∷ xs) (omega arith) (omega arith))
      (store b off x) refl
