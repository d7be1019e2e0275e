-- ===== src/Flash/Aes/Blocks.antt =====
-- The block loop against ECB mode as a function on the bytes.
use rfid_encryption.Base.{
  ℕ, zero, suc, ◌+◌, ◌*◌, ◌≤◌, ◌≡◌, refl, sym, ap, List, ◌++◌, some, read_bytes_lem,
  write_bytes_lem, splice, length, take, drop, length-take, length-drop, length-append,
  length-splice, take-append, take-append_left, drop-append, drop-append_left, drop-drop,
  take-append-drop, append_assoc, arith,
}
use rfid_encryption.Flash.Aes.{crypt_blocks}

-- ECB: each of the first `n` blocks of 16 bytes by itself.
unfoldable pub ecb : (List ℕ → List ℕ) → ℕ → List ℕ → List ℕ
ecb f zero xs = xs
ecb f (suc n) xs = f (take 16 xs) ++ ecb f n (drop 16 xs)

-- What a block function does to a block.
abbrev pub IsBlockMap : (List ℕ → List ℕ) → Type 0
IsBlockMap f = (xs : List ℕ) → length xs ≡ 16 → length (f xs) ≡ 16

pub length-ecb :
    (f : List ℕ → List ℕ) (n : ℕ) (xs : List ℕ)
    → IsBlockMap f
    → n * 16 ≤ length xs
    → length (ecb f n xs) ≡ length xs
unfolding ecb
length-ecb f zero xs h room = refl
length-ecb f (suc n) xs h room = omega (
  arith,
  length-append (f (take 16 xs)) (ecb f n (drop 16 xs)),
  h (take 16 xs) (omega (arith, length-take 16 xs)),
  length-ecb f n (drop 16 xs) h (omega (arith, length-drop 16 xs)),
  length-drop 16 xs,
)

-- The buffer after block `i` is written, cut where block `i + 1` begins.
after_block :
    (i : ℕ) (ys buf : List ℕ)
    → length ys ≡ 16
    → i * 16 + 16 ≤ length buf
    → (g : List ℕ → List ℕ)
    → take (suc i * 16) (splice (i * 16) ys buf) ++ g (drop (suc i * 16) (splice (i * 16) ys buf))
      ≡ take (i * 16) buf ++ (ys ++ g (drop 16 (drop (i * 16) buf)))
after_block i ys buf full room g =
    let front : List ℕ = take (i * 16) buf ++ ys in
    let rest : List ℕ = drop (i * 16 + length ys) buf in
    let size : length front ≡ suc i * 16 =
      omega (arith, length-append (take (i * 16) buf) ys, length-take (i * 16) buf) in
    rw
      (
        ← append_assoc (take (i * 16) buf) ys rest,
        take-append (suc i * 16) front rest size,
        drop-append (suc i * 16) front rest size,
        drop-drop 16 (i * 16) buf,
        full,
      )
      (append_assoc (take (i * 16) buf) ys (g (drop (i * 16 + 16) buf)))

-- The loop changes nothing outside its blocks, and never leaves the buffer.
pub crypt_blocks-eq-ecb :
    (f : List ℕ → List ℕ) (n i : ℕ) (buf : List ℕ)
    → IsBlockMap f
    → i * 16 + n * 16 ≤ length buf
    → crypt_blocks f n i buf ≡ some (take (i * 16) buf ++ ecb f n (drop (i * 16) buf))
unfolding ecb crypt_blocks
crypt_blocks-eq-ecb f zero i buf h room = ap some (sym (take-append-drop (i * 16) buf))
crypt_blocks-eq-ecb f (suc n) i buf h room =
    let temp : List ℕ = take 16 (drop (i * 16) buf) in
    let rest : List ℕ = drop 16 (drop (i * 16) buf) in
    let full : length (f temp) ≡ 16 =
      h temp (omega (arith, length-take 16 (drop (i * 16) buf), length-drop (i * 16) buf)) in
    let size : length (splice (i * 16) (f temp) buf) ≡ length buf =
      length-splice buf (i * 16) (f temp) (omega arith) in
    rw
      (
        read_bytes_lem 16 buf (i * 16) (omega arith),
        write_bytes_lem buf (i * 16) (f temp) (omega arith),
        crypt_blocks-eq-ecb f n (suc i) (splice (i * 16) (f temp) buf) h (omega arith),
      )
      (ap some (after_block i (f temp) buf full (omega arith) (ecb f n)))

pub crypt_all :
    (f : List ℕ → List ℕ) (n : ℕ) (buf : List ℕ)
    → IsBlockMap f
    → n * 16 ≤ length buf
    → crypt_blocks f n 0 buf ≡ some (ecb f n buf)
crypt_all f n buf h room = crypt_blocks-eq-ecb f n 0 buf h (omega arith)

-- Undoing each block undoes them all.
pub ecb-ecb :
    (f g : List ℕ → List ℕ) (n : ℕ) (xs : List ℕ)
    → IsBlockMap f
    → ((ys : List ℕ) → length ys ≡ 16 → g (f ys) ≡ ys)
    → n * 16 ≤ length xs
    → ecb g n (ecb f n xs) ≡ xs
unfolding ecb
ecb-ecb f g zero xs h inverse room = refl
ecb-ecb f g (suc n) xs h inverse room =
    let size : length (take 16 xs) ≡ 16 = omega (arith, length-take 16 xs) in
    let block : List ℕ = f (take 16 xs) in
    let rest : List ℕ = ecb f n (drop 16 xs) in
    rw
      (
        take-append 16 block rest (h (take 16 xs) size),
        drop-append 16 block rest (h (take 16 xs) size),
        inverse (take 16 xs) size,
        ecb-ecb f g n (drop 16 xs) h inverse (omega (arith, length-drop 16 xs)),
      )
      (take-append-drop 16 xs)

-- Bytes behind the blocks stay.
pub ecb-append :
    (f : List ℕ → List ℕ) (n : ℕ) (xs ys : List ℕ)
    → n * 16 ≡ length xs
    → ecb f n (xs ++ ys) ≡ ecb f n xs ++ ys
unfolding ecb
ecb-append f zero xs ys h = refl
ecb-append f (suc n) xs ys h =
    rw
      (
        take-append_left 16 xs ys (omega arith),
        drop-append_left 16 xs ys (omega arith),
        ecb-append f n (drop 16 xs) ys (omega (arith, length-drop 16 xs)),
      )
      (sym (append_assoc (f (take 16 xs)) (ecb f n (drop 16 xs)) ys))

-- ECB with a block function that does nothing.
pub ecb-same : (n : ℕ) (xs : List ℕ) → ecb (λ block. block) n xs ≡ xs
unfolding ecb
ecb-same zero xs = refl
ecb-same (suc n) xs = rw (ecb-same n (drop 16 xs)) (take-append-drop 16 xs)
