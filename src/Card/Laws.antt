-- ===== src/Card/Laws.antt =====
-- What card_write_on_block asks of the card and returns.
use rfid_encryption.Base.{
  ℕ, ◌≤◌, ◌<◌, ◌≡◌, refl, List, [], ◌∷◌, Option, none, some, ◌>>=◌, length, take, replicate,
  read_bytes_lem, read_bytes-none, write_bytes_at, length-take, append-nil, arith,
}
use rfid_encryption.Device.{History, Device, Env, log, authenticate_block, write_data_block}
use rfid_encryption.Card.{card_write_on_block, written, block4, key_a}

-- What a card was last asked to take into a block, whatever it answered.
abbrev pub asked_block : History → Option (List ℕ)
asked_block [] = none
asked_block (write_data_block number bytes ∷ h) = some bytes
asked_block (_ ∷ h) = asked_block h

from_block :
    (o : Option (List ℕ)) (d : Device) (r : ℕ × Device)
    → (o >>= λ block. some (written block d)) ≡ some r
    → (block : List ℕ) × (o ≡ some block) × (r ≡ written block d)
from_block none d r e = cc
from_block (some block) d r e = (block, refl, cc)

-- However the card answers, the write returns 0, after one authentication and one write of block 4.
pub card_write_on_block-some :
    (env : Env) (uid bytes : List ℕ) (d : Device) (r : ℕ × Device)
    → card_write_on_block env uid bytes d ≡ some r
    → (block : List ℕ) × (block4 bytes ≡ some block)
      × (r ≡ written block (log (authenticate_block uid 4 4 0 key_a) d))
unfolding card_write_on_block
card_write_on_block-some env uid bytes d r e =
    from_block (block4 bytes) (log (authenticate_block uid 4 4 0 key_a) d) r e

-- The block is a zero byte and the first 15 bytes given.
pub block4_lem : (bytes : List ℕ) → 15 ≤ length bytes → block4 bytes ≡ some (0 ∷ take 15 bytes)
unfolding block4
block4_lem bytes h = rw (
  read_bytes_lem 15 bytes 0 (omega arith),
  write_bytes_at (0 ∷ []) (replicate 15 0) [] (take 15 bytes) 1 refl
      (omega (arith, length-take 15 bytes)),
  append-nil (take 15 bytes),
)

block4_short : (bytes : List ℕ) → length bytes < 15 → block4 bytes ≡ none
unfolding block4
block4_short bytes h = rw (read_bytes-none 15 bytes h)

-- Given at least 15 bytes, card_write_on_block authenticates block 4 with key A for a UID of 4 bytes,
-- writes a zero byte and the first 15 bytes to block 4, and returns 0 whatever the card answers.
-- Given fewer it reads out of bounds.
pub card_write_on_block_lem :
    (env : Env) (uid bytes : List ℕ) (d : Device)
    → (15 ≤ length bytes
        → card_write_on_block env uid bytes d
          ≡ some (
            0,
            log
                (write_data_block 4 (0 ∷ take 15 bytes))
                (log (authenticate_block uid 4 4 0 key_a) d),
          ))
      × (length bytes < 15 → card_write_on_block env uid bytes d ≡ none)
unfolding card_write_on_block
card_write_on_block_lem env uid bytes d =
    (λ h. rw (block4_lem bytes h), λ h. rw (block4_short bytes h))
