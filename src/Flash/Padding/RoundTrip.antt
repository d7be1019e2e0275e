-- ===== src/Flash/Padding/RoundTrip.antt =====
-- Padding and taking the padding off again.
use rfid_encryption.Base.{
  ℕ, ◌+◌, ◌-◌, ◌%◌, ◌≤◌, ◌<◌, ◌≡◌, ◌≢◌, ◌∙◌, List, [], ◌∷◌, ◌++◌, some, ◌>>=◌, store_lem, get_elem?,
  length, take, drop, replicate, length-take, length-replicate, length-splice, take-append, splice,
  arith, ◌==◌, ltb, true, false,
}
use rfid_encryption.Flash.Padding.{size_mod, padding_size, pad_string_pkcs7, depad_string_pkcs7}
use rfid_encryption.Flash.Padding.Laws.{pad-spliced, pad_of_multiple, depad_of_padded}

-- Padding then depadding a message whose length is no multiple of 16, in a buffer with room for
-- the padding, faults nowhere, gives back the length and leaves the message's bytes as they were.
pub depad-pad :
    (nul : ℕ) (buf : List ℕ) (len : ℕ)
    → len % 16 ≢ 0
    → len + padding_size len ≤ length buf
    → length buf < size_mod
    → (buf' : List ℕ) × ((pad_string_pkcs7 buf len >>= λ r. depad_string_pkcs7 nul r.0 r.1)
        ≡ some (buf', len))
      × (take len buf' ≡ take len buf)
depad-pad nul buf len partial room small =
    let p : ℕ = padding_size len in
    let rest : List ℕ = drop (len + length (replicate p p)) buf in
    let padded : List ℕ = splice len (replicate p p) buf in
    let front : length (take len buf) ≡ len = omega (arith, length-take len buf) in
    let size : length padded ≡ length buf =
      length-splice buf len (replicate p p) (omega (arith, length-replicate p p)) in
    (
      splice len (nul ∷ []) padded,
      rw (
        pad-spliced buf len partial room small,
        depad_of_padded nul len (take len buf) rest front partial (omega arith),
      ),
      take-append len (take len padded) (nul ∷ drop (len + 1) padded)
            (omega (arith, length-take len padded))
          ∙ take-append len (take len buf) (replicate p p ++ rest) front,
    )

-- A message that fills its blocks gets no padding, so depadding takes its own last bytes: if the
-- last byte is some `x` from 1 to 16, the length comes back smaller by `x`.
pub depad-pad_lossy :
    (nul : ℕ) (buf : List ℕ) (len x : ℕ)
    → len % 16 ≡ 0
    → 0 < len
    → len ≤ length buf
    → length buf < size_mod
    → get_elem? buf (len - 1) ≡ some x
    → 0 < x
    → x ≤ 16
    → (pad_string_pkcs7 buf len >>= λ r. depad_string_pkcs7 nul r.0 r.1)
      ≡ some (splice (len - x) (nul ∷ []) buf, len - x)
unfolding depad_string_pkcs7
depad-pad_lossy nul buf len x full some_bytes fits small last low high =
    let aligned : (len % 16 == 0) ≡ true = ground arith in
    let last_at : (len + size_mod - 1) % size_mod ≡ len - 1 = omega arith in
    let short : ltb 17 x ≡ false = ground arith in
    let back : (len + size_mod - x) % size_mod ≡ len - x = omega arith in
    rw (
      pad_of_multiple buf len full,
      aligned,
      last_at,
      last,
      short,
      back,
      store_lem buf (len - x) nul (omega arith),
    )
