-- ===== src/Tls/Digits.antt =====
-- What hex_text makes of bytes.
use rfid_encryption.Base.{
  ℕ, ◌+◌, ◌*◌, ◌≤◌, ◌<◌, ◌≡◌, List, [], ◌∷◌, some, none, length, take, read_bytes_lem,
  read_bytes-none, length-take, c_string, arith, ◌>>=◌, inl, inr, ltb, Bool-cases, ap, sym, ◌∙◌,
}
use rfid_encryption.Device.{Env}
use rfid_encryption.Hex.{bytes_to_hex_string}
use rfid_encryption.Hex.Laws.{hex, c_string-hex, bytes_to_hex_string_writes}
use rfid_encryption.Tls.{hex_text}
use rfid_encryption.Tls.Loops.{ArraysFit}

digits_of_copy :
    (copied buf : List ℕ)
    → 0 < length copied
    → 2 * length copied + 1 ≤ length buf
    → (bytes_to_hex_string copied 0 buf >>= λ text. some (c_string text)) ≡ some (hex copied)
digits_of_copy [] buf h room = absurd (omega arith)
digits_of_copy (b ∷ bytes) buf h room =
    let (rest, e) = bytes_to_hex_string_writes b bytes buf room in
    rw e (ap some (c_string-hex (b ∷ bytes) rest))

-- Where there are enough bytes, the text is their digits.
pub hex_text_lem :
    (env : Env) (n : ℕ) (bytes : List ℕ)
    → ArraysFit env
    → 0 < n
    → n ≤ length bytes
    → hex_text env n bytes ≡ some (hex (take n bytes))
unfolding hex_text
hex_text_lem env n bytes fit some_bytes room = rw (read_bytes_lem n bytes 0 (omega arith)) (
    digits_of_copy (take n bytes) (env.local_array (2 * n + 1)) (omega (arith, length-take n bytes))
      (omega (arith, length-take n bytes, fit (2 * n + 1))))

-- A text that was made is the digits.
pub hex_text-hex :
    (env : Env) (n : ℕ) (bytes text : List ℕ)
    → ArraysFit env
    → 0 < n
    → hex_text env n bytes ≡ some text
    → text ≡ hex (take n bytes)
unfolding hex_text
hex_text-hex env n bytes text fit some_bytes e = elim (Bool-cases (ltb (length bytes) n)) [
  | inl short ↦ let out : none ≡ some text = rw (read_bytes-none n bytes (ground arith)) at e in cc
  | inr long ↦
      let made : some text ≡ some (hex (take n bytes)) =
        sym e ∙ hex_text_lem env n bytes fit some_bytes (ground arith) in
      cc
]
