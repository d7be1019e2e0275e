-- ===== src/Flash/Padding.antt =====
-- pad_string_pkcs7 and depad_string_pkcs7 of main/flash_write_RSA_key.c. `size_t` and `int` have
-- 32 bits on the ESP32. The buffer is a list whose length is the size of the allocation, and
-- `none` is an access outside it. Both functions return the buffer and the new `*length`.
pub mod Laws
pub mod RoundTrip
use rfid_encryption.Base.{
  ℕ, zero, suc, ◌+◌, ◌-◌, ◌%◌, ◌^◌, List, Option, none, some, ◌>>=◌, store, get_elem?,
  if◌then◌else◌, ◌==◌, ltb,
}

abbrev pub block_size : ℕ
block_size = 16

abbrev pub size_mod : ℕ
size_mod = 2 ^ 32

-- `block_size - (*length % block_size)`
abbrev pub padding_size : ℕ → ℕ
padding_size len = block_size - len % block_size

-- `for (temp = *length; temp < target_length; temp++) input_string[temp] = padding;` with the
-- rounds that are left.
unfoldable pub fill : ℕ → List ℕ → ℕ → ℕ → Option (List ℕ × ℕ)
fill zero buf temp padding = some (buf, temp)
fill (suc rounds) buf temp padding =
    store buf temp padding >>= λ buf'. fill rounds buf' (suc temp) padding

unfoldable pub pad_string_pkcs7 : List ℕ → ℕ → Option (List ℕ × ℕ)
unfolding fill
pad_string_pkcs7 buf len =
    let target_length : ℕ = (len + padding_size len) % size_mod in
    if padding_size len == 16
    then some (buf, len)
    else fill (target_length - len) buf len (padding_size len)

-- `input_string[*length] = "\0"` stores the low byte of the literal's address, `nul_literal`.
unfoldable pub depad_string_pkcs7 : ℕ → List ℕ → ℕ → Option (List ℕ × ℕ)
depad_string_pkcs7 nul_literal buf len =
    if len % 16 == 0
    then (get_elem? buf ((len + size_mod - 1) % size_mod) >>= λ padding_length.
        if ltb 17 padding_length
        then some (buf, len)
        else (store buf ((len + size_mod - padding_length) % size_mod) nul_literal >>= λ buf'.
            some (buf', (len + size_mod - padding_length) % size_mod)))
    else some (buf, len)
