-- ===== src/Hex.antt =====
-- bytes_to_hex_string of main/tls_connection.c, and the same sprintf loop inside https_request.
pub mod Laws
use rfid_encryption.Base.{
  ℕ, zero, suc, ◌+◌, ◌*◌, ◌/◌, ◌%◌, List, [], ◌∷◌, Option, some, ◌>>=◌, write_bytes, ltb,
  if◌then◌else◌,
}

-- One digit of `%02X`.
abbrev pub hex_digit : ℕ → ℕ
hex_digit d = if ltb d 10 then 48 + d else 55 + d

-- `for (i = 0; i < length; ++i) sprintf(hex_string + i * 2, "%02X", bytes[i]);` from index `i` on,
-- with the bytes that are left. Each call writes two digits and a NUL.
unfoldable pub bytes_to_hex_string : List ℕ → ℕ → List ℕ → Option (List ℕ)
bytes_to_hex_string [] i hex_string = some hex_string
bytes_to_hex_string (b ∷ bytes) i hex_string =
    write_bytes hex_string (i * 2) (hex_digit (b / 16) ∷ hex_digit (b % 16) ∷ 0 ∷ [])
    >>= λ hex_string'. bytes_to_hex_string bytes (i + 1) hex_string'
