-- ===== src/Nfc/Chain.antt =====
-- From one request to the next: the key that the server was told and the next look at the card.
use rfid_encryption.Base.{
  ℕ, zero, suc, ◌≡◌, ◌<◌, refl, sym, ap, ◌∙◌, List, ◌∷◌, false, Option, none, some, length, done,
  ◌⊎◌, inl, inr, is_neg, ◌==◌, if◌then◌else◌, arith,
}
use rfid_encryption.Device.{History, Device, Env, write_data_block}
use rfid_encryption.Flash.Aes.{Crypto}
use rfid_encryption.Flash.Storage.{FlashChip}
use rfid_encryption.Card.Memory.{held, selected, same_bytes_refl}
use rfid_encryption.Tls.{https_request}
use rfid_encryption.Tls.Message.{Json}
use rfid_encryption.Tls.Delivery.{first_message}
use rfid_encryption.Tls.Loops.{ArraysFit}
use rfid_encryption.Tls.Protocol.{telling}
use rfid_encryption.Tls.Protocol.Agreement.{Kept, Kept-held, https_request_settles}
use rfid_encryption.Nfc.{Tag, read_tag}
use rfid_encryption.Nfc.Key.{ReadsBack, read_tag-held}

by_answer :
    (answer : ℕ) (block : List ℕ) (o : Option (List ℕ))
    → o ≡ (if answer == 0 then none else some block)
    → (answer ≡ 0) ⊎ (o ≡ some block)
by_answer zero block o e = inl refl
by_answer (suc n) block o e =
    let not_zero : (suc n == 0) ≡ false = ground arith in inr (rw not_zero at e)

-- What a card is known to hold after it was selected and asked to take a block.
pub held_asked :
    (answer : History → ℕ → List ℕ → ℕ) (uid block : List ℕ) (h : History)
    → selected h ≡ uid
    → held answer uid (write_data_block 4 block ∷ h)
      ≡ (if answer h 4 block == 0 then none else some block)
held_asked answer uid block h chosen = rw (chosen, same_bytes_refl uid)

-- On a device whose local arrays have their size, with cards that keep what they took and a reader that
-- reads blocks with a leading zero as the comment in nfc_task says. Let a request return 1, and let a
-- later look at a card, before anything more was written to this card, find the same UID and read its
-- block without an error. There is a key of 15 bytes that the request told the server, with a message
-- that esp_tls_conn_write did not report as failed, and that it asked the card to take. The driver
-- reported this write as failed, which the request does not look at, or the key that is found on the
-- card is the one that the server was told.
pub https_request-read_tag :
    (env : Env) (last : History → ℕ) (json : Json) (C : Crypto) (F : FlashChip) (nul : ℕ)
    (chip : F.Chip) (fuel : ℕ) (heap uid card_key : List ℕ) (d d' d'' : Device) (out : ℕ × Device)
    (t : Tag)
    → ArraysFit env
    → ReadsBack env last
    → https_request env json C F nul chip fuel heap uid card_key d ≡ done out
    → out.0 ≡ 1
    → held env.data_block_written uid d'.history ≡ held env.data_block_written uid out.1.history
    → read_tag env d' ≡ some (t, d'')
    → t.uid ≡ uid
    → 0 < t.key_rw
    → (new_key : List ℕ) × (sent : History) × (asked : History) × (length new_key ≡ 15)
      × (first_message out.1.history ≡ some (telling json uid card_key new_key, sent))
      × (is_neg (env.conn_written sent (telling json uid card_key new_key)) ≡ false)
      × Kept (write_data_block 4 (0 ∷ new_key) ∷ asked) out.1.history
      × ((env.data_block_written asked 4 (0 ∷ new_key) ≡ 0) ⊎ (t.card_key ≡ new_key))
https_request-read_tag env last json C F nul chip fuel heap uid card_key d d' d'' out t fit back e
      one untouched looks same_card reads =
    let ((new_key, size, (asked, _, chosen, since), (sent, first)), (x, delivered, ok)) =
      (https_request_settles env json C F nul chip fuel heap uid card_key d out fit e).1 one in
    let same : x ≡ (telling json uid card_key new_key, sent) = cc in
    let holds : held env.data_block_written uid out.1.history ≡ _ =
      Kept-held env.data_block_written uid since
      ∙ held_asked env.data_block_written uid (0 ∷ new_key) asked chosen in
    (
      new_key,
      sent,
      asked,
      size,
      first,
      ap (λ (y : List ℕ × History). is_neg (env.conn_written y.1 y.0)) (sym same) ∙ ok,
      since,
      elim (by_answer (env.data_block_written asked 4 (0 ∷ new_key)) (0 ∷ new_key) _ holds) [
        | inl refused ↦ inl refused
        | inr took ↦ inr (
            read_tag-held env last d' d'' t new_key back size
              (ap (λ u. held env.data_block_written u d'.history) same_card ∙ untouched ∙ took)
              looks reads)
      ],
    )
