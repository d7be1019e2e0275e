-- ===== src/Hex/Laws.antt =====
-- What the hex loop of main/tls_connection.c writes, and where, and how the bytes are read from it.
use rfid_encryption.Base.{
  ℕ, suc, ◌+◌, ◌*◌, ◌-◌, ◌/◌, ◌%◌, ◌≤◌, ◌<◌, ◌≡◌, refl, sym, ap, ◌∙◌, List, [], ◌∷◌, ◌++◌, some,
  write_bytes, write_bytes_at, ap₂, length, drop, length-append, append_assoc, ltb, if◌then◌else◌,
  arith, c_string, ◌==◌, false,
}
use rfid_encryption.Hex.{hex_digit, bytes_to_hex_string}

-- Two upper-case digits for each byte.
unfoldable pub hex : List ℕ → List ℕ
hex [] = []
hex (b ∷ bytes) = hex_digit (b / 16) ∷ hex_digit (b % 16) ∷ hex bytes

pub length-hex : (bytes : List ℕ) → length (hex bytes) ≡ 2 * length bytes
unfolding hex
length-hex [] = refl
length-hex (b ∷ bytes) = omega (arith, length-hex bytes)

-- Bytes of 8 bits.
abbrev pub AreBytes : List ℕ → Type 0
AreBytes [] = Unit {0}
AreBytes (b ∷ bytes) = (b < 256) × AreBytes bytes

abbrev from_digit : ℕ → ℕ
from_digit c = if ltb c 58 then c - 48 else c - 55

-- Reading the digits back.
unfoldable pub unhex : List ℕ → List ℕ
unhex [] = []
unhex (h ∷ []) = []
unhex (h ∷ l ∷ rest) = (16 * from_digit h + from_digit l) ∷ unhex rest

digit_back :
    (b : ℕ) → b < 256 → 16 * from_digit (hex_digit (b / 16)) + from_digit (hex_digit (b % 16)) ≡ b
digit_back b h = ground arith

pub unhex-hex : (bytes : List ℕ) → AreBytes bytes → unhex (hex bytes) ≡ bytes
unfolding hex unhex
unhex-hex [] h = refl
unhex-hex (b ∷ bytes) h = ap₂ ◌∷◌ (digit_back b h.0) (unhex-hex bytes h.1)

hex_digit_positive : (d : ℕ) → (hex_digit d == 0) ≡ false
hex_digit_positive d = ground arith

pub c_string-hex : (bytes rest : List ℕ) → c_string (hex bytes ++ (0 ∷ rest)) ≡ hex bytes
unfolding hex c_string
c_string-hex [] rest = refl
c_string-hex (b ∷ bytes) rest =
    rw (hex_digit_positive (b / 16), hex_digit_positive (b % 16), c_string-hex bytes rest)

-- One sprintf over a byte and the two behind it.
sprintf_at :
    (b z x y i : ℕ) (front rest : List ℕ)
    → length front ≡ 2 * i
    → write_bytes
        (front ++ (z ∷ x ∷ y ∷ rest))
        (i * 2)
        (hex_digit (b / 16) ∷ hex_digit (b % 16) ∷ 0 ∷ [])
      ≡ some ((front ++ (hex_digit (b / 16) ∷ hex_digit (b % 16) ∷ [])) ++ (0 ∷ rest))
sprintf_at b z x y i front rest at =
    write_bytes_at front (z ∷ x ∷ y ∷ []) rest (hex_digit (b / 16) ∷ hex_digit (b % 16) ∷ 0 ∷ [])
      (i * 2) (omega arith) refl
    ∙ ap some (sym (append_assoc front (hex_digit (b / 16) ∷ hex_digit (b % 16) ∷ []) (0 ∷ rest)))

-- The first byte of those that are left, and the others after it.
loop_steps :
    (b z x y i : ℕ) (bytes front rest : List ℕ)
    → length front ≡ 2 * i
    → 2 * length bytes ≤ length rest
    → (let front' = front ++ (hex_digit (b / 16) ∷ hex_digit (b % 16) ∷ []) in
        bytes_to_hex_string bytes (i + 1) (front' ++ (0 ∷ rest))
        ≡ some (front' ++ (hex bytes ++ (0 ∷ drop (2 * length bytes) rest))))
    → bytes_to_hex_string (b ∷ bytes) i (front ++ (z ∷ x ∷ y ∷ rest))
      ≡ some (front ++ (hex (b ∷ bytes) ++ (0 ∷ drop (2 * length (b ∷ bytes)) (x ∷ y ∷ rest))))
unfolding hex bytes_to_hex_string
loop_steps b z x y i bytes front rest at room others =
    let two : 2 * suc (length bytes) ≡ suc (suc (2 * length bytes)) = omega arith in
    rw (sprintf_at b z x y i front rest at, others, two)
      (ap some (
        append_assoc front (hex_digit (b / 16) ∷ hex_digit (b % 16) ∷ [])
          (hex bytes ++ (0 ∷ drop (2 * length bytes) rest))))

-- The bytes that are left go behind what is written so far, with one NUL at the end.
loop_writes :
    (bytes front rest : List ℕ) (i : ℕ)
    → length front ≡ 2 * i
    → 2 * length bytes ≤ length rest
    → bytes_to_hex_string bytes i (front ++ (0 ∷ rest))
      ≡ some (front ++ (hex bytes ++ (0 ∷ drop (2 * length bytes) rest)))
unfolding hex bytes_to_hex_string
loop_writes [] front rest i at room = refl
loop_writes (b ∷ bytes) front [] i at room = absurd (omega arith)
loop_writes (b ∷ bytes) front (x ∷ []) i at room = absurd (omega arith)
loop_writes (b ∷ bytes) front (x ∷ y ∷ rest) i at room =
    loop_steps b 0 x y i bytes front rest at (omega arith) (
      loop_writes bytes (front ++ (hex_digit (b / 16) ∷ hex_digit (b % 16) ∷ [])) rest (i + 1)
        (omega (arith, length-append front (hex_digit (b / 16) ∷ hex_digit (b % 16) ∷ [])))
        (omega arith))

-- The buffer after the loop: the digits, a NUL, and what stood behind.
pub bytes_to_hex_string_writes :
    (b : ℕ) (bytes buf : List ℕ)
    → 2 * length (b ∷ bytes) + 1 ≤ length buf
    → (rest : List ℕ) × (bytes_to_hex_string (b ∷ bytes) 0 buf
        ≡ some (hex (b ∷ bytes) ++ (0 ∷ rest)))
bytes_to_hex_string_writes b bytes [] room = absurd (omega arith)
bytes_to_hex_string_writes b bytes (z ∷ []) room = absurd (omega arith)
bytes_to_hex_string_writes b bytes (z ∷ x ∷ []) room = absurd (omega arith)
bytes_to_hex_string_writes b bytes (z ∷ x ∷ y ∷ rest) room = (
  drop (2 * length (b ∷ bytes)) (x ∷ y ∷ rest),
  loop_steps b z x y 0 bytes [] rest (omega arith) (omega arith)
      (loop_writes bytes (hex_digit (b / 16) ∷ hex_digit (b % 16) ∷ []) rest 1 refl (omega arith)),
)

-- For at least one byte, in a buffer with room for two digits each and a NUL, whatever it holds, the
-- loop stays inside the buffer, and the buffer is then the C string of the digits, from which the
-- bytes can be read back.
pub bytes_to_hex_string_lem :
    (b : ℕ) (bytes buf : List ℕ)
    → AreBytes (b ∷ bytes)
    → 2 * length (b ∷ bytes) + 1 ≤ length buf
    → (buf' : List ℕ) × (bytes_to_hex_string (b ∷ bytes) 0 buf ≡ some buf')
      × (length (c_string buf') ≡ 2 * length (b ∷ bytes))
      × (unhex (c_string buf') ≡ b ∷ bytes)
bytes_to_hex_string_lem b bytes buf h room =
    let (rest, wrote) = bytes_to_hex_string_writes b bytes buf room in
    let text : c_string (hex (b ∷ bytes) ++ (0 ∷ rest)) ≡ hex (b ∷ bytes) =
      c_string-hex (b ∷ bytes) rest in
    (
      hex (b ∷ bytes) ++ (0 ∷ rest),
      wrote,
      ap length text ∙ length-hex (b ∷ bytes),
      ap unhex text ∙ unhex-hex (b ∷ bytes) h,
    )
