-- ===== src/Flash/Padding/Laws.antt =====
-- What the padding functions do to a buffer that has room, and what they leave alone.
use rfid_encryption.Base.{
  ℕ, zero, suc, ◌+◌, ◌-◌, ◌%◌, ◌≤◌, ◌<◌, ◌≡◌, ◌≢◌, refl, ap, ◌∙◌, List, [], ◌∷◌, ◌++◌, Option, none,
  some, ◌>>=◌, store, store_lem, get_elem?-append_right, get_elem?-replicate, length-append,
  write_bytes, write_bytes_lem, splice, get_elem?, length, replicate, length-replicate, arith, ◌==◌,
  ltb, true, false,
}
use rfid_encryption.Flash.Padding.{
  size_mod, padding_size, fill, pad_string_pkcs7, depad_string_pkcs7,
}

fill_after_store :
    (n temp padding : ℕ) (o : Option (List ℕ))
    → ((b : List ℕ)
        → fill n b (suc temp) padding
          ≡ (write_bytes b (suc temp) (replicate n padding) >>= λ b'. some (b', suc temp + n)))
    → (o >>= λ b. fill n b (suc temp) padding) ≡ (
        (o >>= λ b. write_bytes b (suc temp) (replicate n padding)) >>= λ b'.
        some (b', temp + suc n))
fill_after_store n temp padding none ih = refl
fill_after_store n temp padding (some b) ih =
    ih b
    ∙ ap (λ (k : ℕ). write_bytes b (suc temp) (replicate n padding) >>= λ b'. some (b', k))
        (omega arith)

-- The loop is a write of so many copies.
fill-eq-write_bytes :
    (n : ℕ) (buf : List ℕ) (temp padding : ℕ)
    → fill n buf temp padding
      ≡ (write_bytes buf temp (replicate n padding) >>= λ b. some (b, temp + n))
unfolding fill write_bytes
fill-eq-write_bytes zero buf temp padding = ap (λ (k : ℕ). some (buf, k)) (omega arith)
fill-eq-write_bytes (suc n) buf temp padding =
    fill_after_store n temp padding (store buf temp padding)
      (λ b. fill-eq-write_bytes n b (suc temp) padding)

padded_loop :
    (buf : List ℕ) (len n p : ℕ)
    → len + n ≤ length buf
    → fill n buf len p ≡ some (splice len (replicate n p) buf, len + n)
padded_loop buf len n p room = rw (
  fill-eq-write_bytes n buf len p,
  write_bytes_lem buf len (replicate n p) (omega (arith, length-replicate n p)),
)

-- A buffer with room for it gets the padding, as many bytes as the number that each holds, and
-- keeps all its other bytes.
pub pad-spliced :
    (buf : List ℕ) (len : ℕ)
    → len % 16 ≢ 0
    → len + padding_size len ≤ length buf
    → length buf < size_mod
    → pad_string_pkcs7 buf len
      ≡ some
          (splice len (replicate (padding_size len) (padding_size len)) buf, len + padding_size len)
unfolding pad_string_pkcs7
pad-spliced buf len partial room small =
    let rounds : (len + padding_size len) % size_mod - len ≡ padding_size len = omega arith in
    let not_full : (padding_size len == 16) ≡ false = ground arith in
    rw (not_full, rounds) (padded_loop buf len (padding_size len) (padding_size len) room)

pub pad_of_multiple :
    (buf : List ℕ) (len : ℕ) → len % 16 ≡ 0 → pad_string_pkcs7 buf len ≡ some (buf, len)
unfolding pad_string_pkcs7
pad_of_multiple buf len full =
    let whole : (padding_size len == 16) ≡ true = ground arith in rw whole

-- `depad_string_pkcs7` on a padded buffer: one byte is overwritten, and the length comes back.
pub depad_of_padded :
    (nul len : ℕ) (pre rest : List ℕ)
    → length pre ≡ len
    → let p = padding_size len in
      let buf = pre ++ (replicate p p ++ rest) in
      len % 16 ≢ 0
      → length buf < size_mod
      → depad_string_pkcs7 nul buf (len + p) ≡ some (splice len (nul ∷ []) buf, len)
unfolding depad_string_pkcs7
depad_of_padded nul len pre rest at partial small =
    let p : ℕ = padding_size len in
    let buf : List ℕ = pre ++ (replicate p p ++ rest) in
    let size : length buf ≡ len + (p + length rest) = omega (
      arith,
      length-append pre (replicate p p ++ rest),
      length-append (replicate p p) rest,
      length-replicate p p,
    ) in
    let aligned : ((len + p) % 16 == 0) ≡ true = ground arith in
    let last_at : (len + p + size_mod - 1) % size_mod ≡ len + (p - 1) = omega arith in
    let last : get_elem? buf (len + (p - 1)) ≡ some p =
      get_elem?-append_right pre (replicate p p ++ rest) len (p - 1) at
      ∙ get_elem?-replicate p (p - 1) p rest (omega arith) in
    let fits : ltb 17 p ≡ false = ground arith in
    let back : (len + p + size_mod - p) % size_mod ≡ len = omega arith in
    rw (aligned, last_at, last, fits, back, store_lem buf len nul (omega arith))
