-- ===== src/Nfc/Heap.antt =====
-- The heap blocks that nfc_task and its requests take, and what of them is in use.
pub mod Leaks
use rfid_encryption.Base.{
  ℕ, zero, suc, ◌+◌, ◌≡◌, ◌≤◌, ◌≢◌, refl, sym, ap, ◌∙◌, List, [], ◌∷◌, ◌++◌, some, done, Ensures,
  Ensures-done, Ensures-if, Ensures-after, Ensures-checked, arith, ◌==◌, not, ◌&&◌, length,
  length-append, append_assoc,
}
use rfid_encryption.Device.{
  Event, History, Device, Env, Block, json_block, new_key_block, log, spi_init, begin,
  get_firmware_version, sam_config, task_delay, authenticate_block, read_data_block,
  read_passive_target, get_time, task_create_blink, green, alloc, free, card_key_block,
}
use rfid_encryption.Flash.Aes.{Crypto}
use rfid_encryption.Flash.Storage.{FlashChip}
use rfid_encryption.Tls.Message.{Json}
use rfid_encryption.Tls.Loops.{ArraysFit}
use rfid_encryption.Tls.Protocol.{Phase, Step}
use rfid_encryption.Tls.Protocol.Counts.{calls, Run-none}
use rfid_encryption.Tls.Protocol.Heap.{
  blocks, Leak, no_leak, json_leak, new_key_leak, left, https_request_frees,
}
use rfid_encryption.Tls.Protocol.Refines.{https_request-Run}
use rfid_encryption.Nfc.{Tag, read_tag, show, ask, nfc_round, nfc_rounds, idle, nfc_task}
use rfid_encryption.Nfc.Rounds.{read_tag_keeps}

-- The start of the green lamp.
abbrev pub passing : Event → ℕ
passing (task_create_blink green) = 1
passing _ = 0

abbrev pub passes_shown : History → ℕ
passes_shown h = calls passing h

pub Step-passing :
    {json : Json} {uid card_key : List ℕ} {p q : Phase} {e : Event}
    → Step json uid card_key p e q
    → passing e ≡ 0
Step-passing Step.no_keys = refl
Step-passing _ = refl

pub length-left : (l : Leak) → length (left l) ≤ 1
length-left no_leak = omega arith
length-left json_leak = omega arith
length-left new_key_leak = omega arith

-- The texts that cJSON_PrintUnformatted gives: each names a key of the card, the one that was read or
-- the new one.
abbrev pub key_text : Block → ℕ
key_text json_block = 1
key_text new_key_block = 1
key_text _ = 0

abbrev pub key_texts : List Block → ℕ
key_texts [] = 0
key_texts (b ∷ bs) = key_text b + key_texts bs

pub key_texts-append : (bs cs : List Block) → key_texts (bs ++ cs) ≡ key_texts bs + key_texts cs
key_texts-append [] cs = omega arith
key_texts-append (b ∷ bs) cs = omega (arith, key_texts-append bs cs)

pub key_texts-left : (l : Leak) → key_texts (left l) ≡ length (left l)
key_texts-left no_leak = refl
key_texts-left json_leak = refl
key_texts-left new_key_leak = refl

-- What `n` rounds may have left since there were `base` and `g` passes had been shown, while the task
-- has its own blocks.
abbrev pub Left : List Block → List Block → ℕ → ℕ → History → Type 0
Left own base g n h =
    (bs : List Block) × (blocks h ≡ some (own ++ (bs ++ base)))
    × (key_texts bs ≡ length bs)
    × (length bs ≤ n)
    × (passes_shown h ≤ g + length bs)

-- A call that takes or frees no block and starts no green lamp.
pub keep :
    (own base : List Block) (g n : ℕ) (h : History) (e : Event)
    → blocks (e ∷ h) ≡ blocks h
    → passing e ≡ 0
    → Left own base g n h
    → Left own base g n (e ∷ h)
keep own base g n h e same none_shown (bs, c, all_texts, few, shown) =
    (bs, same ∙ c, all_texts, few, omega (arith, none_shown, shown))

pub show-passes :
    (ret : ℕ) (d : Device) → passes_shown (show (suc ret, d)).history ≡ passes_shown d.history + 1
show-passes ret d = ground arith
