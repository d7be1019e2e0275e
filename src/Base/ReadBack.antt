-- ===== src/Base/ReadBack.antt =====
-- Reading from a buffer that was written.
use Prim.Native.Nat.{ℕ, zero, suc, ◌+◌, ◌≤◌, ◌<◌}
use mathlib.Core.Path.{◌≡◌, refl, sym, ap, ◌∙◌}
use mathlib.Core.List.{List, [], ◌∷◌, ◌++◌}
use mathlib.Core.Option.{Option, some}
use native.Mathlib.Omega.{arith}
use rfid_encryption.Base.Lists.{length, drop, length-append, take-append}
use rfid_encryption.Base.Memory.{
  ◌>>=◌, store, read_bytes, write_bytes, read_bytes_lem, write_bytes_lem, bind_cases,
}

store_room :
    (b : List ℕ) (i v : ℕ) (b' : List ℕ)
    → store b i v ≡ some b'
    → (i < length b) × (length b' ≡ length b)
unfolding store
store_room [] i v b' e = cc
store_room (x ∷ b) zero v b' e =
    let same : v ∷ b ≡ b' = cc in (omega arith, ap (λ (c : List ℕ). length c) (sym same))
store_room (x ∷ b) (suc i) v b' e =
    let (ys, ey, et) = bind_cases (store b i v) _ b' e in
    let same : x ∷ ys ≡ b' = cc in
    let (h, size) = store_room b i v ys ey in
    (omega arith, ap (λ (c : List ℕ). length c) (sym same) ∙ ap suc size)

write_room :
    (b : List ℕ) (off : ℕ) (xs b' : List ℕ)
    → off ≤ length b
    → write_bytes b off xs ≡ some b'
    → off + length xs ≤ length b
unfolding write_bytes
write_room b off [] b' h e = omega arith
write_room b off (x ∷ xs) b' h e =
    let (c, ec, et) = bind_cases (store b off x) _ b' e in
    let (room, size) = store_room b off x c ec in
    let more : suc off + length xs ≤ length c =
      write_room c (suc off) xs b' (omega (arith, size)) et in
    omega (arith, size, more)

-- What was written at the front of a buffer is read back.
pub read_bytes-write_bytes :
    (b xs b' : List ℕ) → write_bytes b 0 xs ≡ some b' → read_bytes (length xs) b' 0 ≡ some xs
read_bytes-write_bytes b xs b' e =
    let room : 0 + length xs ≤ length b = write_room b 0 xs b' (omega arith) e in
    let same : some (xs ++ drop (0 + length xs) b) ≡ some b' =
      sym (write_bytes_lem b 0 xs room) ∙ e in
    let buf : xs ++ drop (0 + length xs) b ≡ b' = cc in
    rw (sym buf) (
      read_bytes_lem (length xs) (xs ++ drop (0 + length xs) b) 0
        (omega (arith, length-append xs (drop (0 + length xs) b)))
      ∙ ap some (take-append (length xs) xs (drop (0 + length xs) b) refl))

-- What fits is written, and reads back.
pub write-read {ℓ} :
    {B : Type ℓ} (b xs : List ℕ) (f : List ℕ → Option B)
    → length xs ≤ length b
    → (write_bytes b 0 xs >>= λ b'. read_bytes (length xs) b' 0 >>= f) ≡ f xs
write-read b xs f room = rw (write_bytes_lem b 0 xs (omega arith)) (
    ap (λ (o : Option (List ℕ)). o >>= f)
      (read_bytes-write_bytes b xs _ (write_bytes_lem b 0 xs (omega arith))))
