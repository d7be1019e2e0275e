-- ===== src/Nfc/Agreement.antt =====
-- The key that a card was asked to take and the one that the server was told, over the rounds of
-- nfc_task.
use rfid_encryption.Base.{
  some, length, ◌∷◌, ℕ, ◌≡◌, ◌∙◌, List, ◌⊎◌, inl, inr, none, done, Ensures, Ensures-done,
  Ensures-if, Ensures-after, Ensures-checked, ◌==◌, not, ◌&&◌,
}
use rfid_encryption.Device.{History, Device, Env, log, alloc, free, card_key_block}
use rfid_encryption.Flash.Aes.{Crypto}
use rfid_encryption.Flash.Storage.{FlashChip}
use rfid_encryption.Card.Laws.{asked_block}
use rfid_encryption.Tls.Message.{Json}
use rfid_encryption.Tls.Loops.{ArraysFit}
use rfid_encryption.Tls.Delivery.{first_message}
use rfid_encryption.Tls.Protocol.{telling}
use rfid_encryption.Tls.Protocol.Agreement.{
  Settled, Kept, Kept-asked_block, Kept-first_message, https_request_settles,
}
use rfid_encryption.Nfc.{Tag, read_tag, show, ask, nfc_round, nfc_task}
use rfid_encryption.Nfc.Rounds.{read_tag_keeps, nfc_task-keeps}

-- No card was ever asked to take a block; or the last one that a card was asked to take is a zero byte
-- and a key of 15 bytes, and the first message handed to a connection after that names this key.
abbrev pub InStep : Json → History → Type 0
InStep json h =
    (asked_block h ≡ none)
    ⊎ ((uid : List ℕ) × (card_key : List ℕ) × (new_key : List ℕ) × (sent : History) × (length
            new_key
          ≡ 15)
        × (asked_block h ≡ some (0 ∷ new_key))
        × (first_message h ≡ some (telling json uid card_key new_key, sent)))

module _ (json : Json) where
  InStep-Kept : {h h' : History} → Kept h h' → InStep json h → InStep json h'
  InStep-Kept kept (inl unasked) = inl (Kept-asked_block kept ∙ unasked)
  InStep-Kept kept (inr (uid, card_key, new_key, sent, size, asks, first)) = inr (
    uid,
    card_key,
    new_key,
    sent,
    size,
    Kept-asked_block kept ∙ asks,
    Kept-first_message kept first,
  )

  InStep-Settled :
      (uid card_key : List ℕ) {h h' : History}
      → Settled json uid card_key h h'
      → InStep json h
      → InStep json h'
  InStep-Settled uid card_key (inl kept) s = InStep-Kept kept s
  InStep-Settled uid card_key (inr (new_key, size, (before, kept, chosen, since), (sent, first)))
        s =
      inr (uid, card_key, new_key, sent, size, Kept-asked_block since, first)

module _ (env : Env) (json : Json) (C : Crypto) (F : FlashChip) (nul : ℕ) (chip : F.Chip) (fuel : ℕ)
    (heap : History → List ℕ) (fit : ArraysFit env) where
  ask-InStep :
      (t : Tag) (d : Device)
      → InStep json d.history
      → Ensures (ask env json C F nul chip fuel heap t d) λ out. InStep json out.1.history
  unfolding ask
  ask-InStep t d s =
      Ensures-if (not (t.key_rw == 0) && not (t.success == 0))
        (λ _. record {
          at = λ out e.
              InStep-Settled json t.uid t.card_key
                (https_request_settles env json C F nul chip fuel (heap d.history) t.uid t.card_key
                  d out fit e).0
                s;
        })
        (λ _. Ensures-done (0, d) s)

  nfc_round-InStep :
      (d : Device)
      → InStep json d.history
      → Ensures (nfc_round env json C F nul chip fuel heap d) λ d'. InStep json d'.history
  unfolding nfc_round
  nfc_round-InStep d s =
      let begun : Device = log (alloc card_key_block) d in
      Ensures-checked (read_tag env begun) _ λ r e.
        let read : InStep json r.1.history =
          read_tag_keeps env (λ (d' : Device). InStep json d'.history) begun r (λ d' u k n b t q. q)
            (λ d' q. q) s (λ t. s) e in
        Ensures-after (ask env json C F nul chip fuel heap r.0 r.1) _ (ask-InStep r.0 r.1 read)
          (λ pass q. Ensures-done (show (pass.0, log (free card_key_block) pass.1)) q)

-- On a device whose local arrays have their size, what nfc_task keeps through its rounds: the last key
-- that a card was asked to take is the one that the first message after that names, if any was asked.
pub nfc_task-InStep :
    (env : Env) (json : Json) (C : Crypto) (F : FlashChip) (nul : ℕ) (chip : F.Chip)
    (rounds fuel : ℕ) (heap : History → List ℕ) (d d' : Device)
    → ArraysFit env
    → InStep json d.history
    → nfc_task env json C F nul chip rounds fuel heap d ≡ done d'
    → InStep json d'.history
nfc_task-InStep env json C F nul chip rounds fuel heap d d' fit s e =
    (nfc_task-keeps env json C F nul chip fuel heap (λ (d'' : Device). InStep json d''.history)
        (nfc_round-InStep env json C F nul chip fuel heap fit) (λ d'' q. q) rounds d s s).at
      d' e
