-- ===== src/Tls/Protocol/Agreement.antt =====
-- The key that a request asks a card to take and the one that it tells the server.
use rfid_encryption.Base.{
  ℕ, ◌≡◌, refl, List, ◌∷◌, Bool, true, false, none, some, ◌⊎◌, inl, inr, length, done, arith,
  if◌then◌else◌,
}
use rfid_encryption.Device.{Event, History, Device, Env, conn_write, write_data_block}
use rfid_encryption.Flash.Aes.{Crypto}
use rfid_encryption.Flash.Storage.{FlashChip}
use rfid_encryption.Card.Laws.{asked_block}
use rfid_encryption.Tls.{https_request}
use rfid_encryption.Tls.Message.{Json}
use rfid_encryption.Tls.Loops.{ArraysFit}
use rfid_encryption.Tls.Delivery.{first_message, Delivered, https_request-Delivered}
use rfid_encryption.Card.Memory.{selected, held}
use rfid_encryption.Tls.Protocol.{
  ready, Phase, written, announced, told, waiting, beating, unsure, pausing, passed, closing, freed,
  closed, refused, Step, Run, start, next, telling,
}
use rfid_encryption.Tls.Protocol.Refines.{https_request-Run}

-- Any call but one that asks a card to take a block.
abbrev pub IsOther : Event → Type 0
IsOther (write_data_block number block) = ⊥
IsOther _ = Unit {0}

-- The calls from a point on, among which none asks a card to take a block.
pub data Kept (h : History) : History → Type 0 where
  here : Kept h h
  later : {h' : History} (e : Event) → IsOther e → Kept h h' → Kept h (e ∷ h')

pub Kept-asked_block : {h h' : History} → Kept h h' → asked_block h' ≡ asked_block h
Kept-asked_block here = refl
Kept-asked_block (later (write_data_block number block) other kept) = absurd other
Kept-asked_block (later _ other kept) = Kept-asked_block kept

pub Kept-first_message :
    {h h' : History} {x : List ℕ × History}
    → Kept h h'
    → first_message h ≡ some x
    → first_message h' ≡ some x
Kept-first_message here first = first
Kept-first_message (later (write_data_block number block) other kept) first = absurd other
Kept-first_message (later (conn_write bytes) other kept) first = rw (Kept-first_message kept first)
Kept-first_message (later _ other kept) first = Kept-first_message kept first

pub Kept-held :
    (answer : History → ℕ → List ℕ → ℕ) (uid : List ℕ) {h h' : History}
    → Kept h h'
    → held answer uid h' ≡ held answer uid h
Kept-held answer uid here = refl
Kept-held answer uid (later (write_data_block number block) other kept) = absurd other
Kept-held answer uid (later _ other kept) = Kept-held answer uid kept

-- From `h` to `h'` a card was asked once to take a block: the one with this UID, into block 4, a zero
-- byte and this key.
abbrev pub Wrote : List ℕ → History → History → List ℕ → Type 0
Wrote uid h h' new_key =
    (before : History) × Kept h before
    × (selected before ≡ uid)
    × Kept (write_data_block 4 (0 ∷ new_key) ∷ before) h'

Wrote-later :
    (uid : List ℕ) (h h' : History) (new_key : List ℕ) (e : Event)
    → IsOther e
    → Wrote uid h h' new_key
    → Wrote uid h (e ∷ h') new_key
Wrote-later uid h h' new_key e other (before, kept, at, since) =
    (before, kept, at, later e other since)

module _ (json : Json) (uid card_key : List ℕ) where
  -- A card was asked to take a key of 15 bytes, and the first message after that is the one that names
  -- this key.
  abbrev pub Told : History → History → Type 0
  Told h h' =
      (new_key : List ℕ) × (length new_key ≡ 15)
      × Wrote uid h h' new_key
      × ((sent : History) × (first_message h' ≡ some (telling json uid card_key new_key, sent)))

  Told-later : (h h' : History) (e : Event) → IsOther e → Told h h' → Told h (e ∷ h')
  Told-later h h' e other (new_key, size, wrote, (sent, first)) = (
    new_key,
    size,
    Wrote-later uid h h' new_key e other wrote,
    (sent, Kept-first_message (later e other here) first),
  )

  -- What becomes of the card: it is asked nothing, or the server is told.
  abbrev pub Settled : History → History → Type 0
  Settled h h' = Kept h h' ⊎ Told h h'

  Settled-later : (h h' : History) (e : Event) → IsOther e → Settled h h' → Settled h (e ∷ h')
  Settled-later h h' e other (inl kept) = inl (later e other kept)
  Settled-later h h' e other (inr tells) = inr (Told-later h h' e other tells)

  -- What a request knows between its write and its message.
  abbrev pub Silent : History → History → List ℕ → Type 0
  Silent h h' new_key = (length new_key ≡ 15) × Wrote uid h h' new_key × (first_message h' ≡ none)

  -- What each phase knows of it.
  abbrev pub Known : History → Phase → History → Type 0
  Known h ready h' = Kept h h' × (selected h' ≡ uid)
  Known h (written new_key) h' = Silent h h' new_key
  Known h (announced new_key) h' = Silent h h' new_key
  Known h told h' = Told h h'
  Known h waiting h' = Told h h'
  Known h refused h' = Told h h'
  Known h beating h' = Told h h'
  Known h unsure h' = Told h h'
  Known h pausing h' = Told h h'
  Known h passed h' = Told h h'
  Known h (closing passes) h' = if passes then Told h h' else Settled h h'
  Known h (freed passes) h' = if passes then Told h h' else Settled h h'
  Known h (closed passes) h' = if passes then Told h h' else Settled h h'
  Known h _ h' = Kept h h'

  Step-Known :
      (h : History) {p q : Phase} {e : Event} (h' : History)
      → Step json uid card_key p e q
      → Known h p h'
      → Known h q (e ∷ h')
  Step-Known h h' Step.take_key k = later _ tt k
  Step-Known h h' Step.take_crt k = later _ tt k
  Step-Known h h' Step.no_keys k = inl (later _ tt k)
  Step-Known h h' (Step.connect crt key saved) k = later _ tt k
  Step-Known h h' Step.no_connection k = inl (later _ tt k)
  Step-Known h h' Step.print k = later _ tt k
  Step-Known h h' (Step.ask m same) k = later _ tt k
  Step-Known h h' Step.not_asked k = inl (later _ tt k)
  Step-Known h h' Step.listen k = later _ tt k
  Step-Known h h' (Step.deaf r unheard) k = later _ tt k
  Step-Known h h' (Step.grant r ok) k = later _ tt k
  Step-Known h h' Step.no_grant k = inl (later _ tt k)
  Step-Known h h' Step.draw k = later _ tt k
  Step-Known h h' (Step.authenticate u key n b s same_uid same_block same_key) k =
      (later _ tt k, same_uid)
  Step-Known h h' (Step.write new_key block number at size same) (kept, chosen) =
      (size, (h', kept, chosen, rw (at, same) here), refl)
  Step-Known h h' (Step.clock new_key) (size, wrote, silent) =
      (size, Wrote-later uid h h' new_key _ tt wrote, silent)
  Step-Known h h' (Step.announce new_key) (size, wrote, silent) =
      (size, Wrote-later uid h h' new_key _ tt wrote, silent)
  Step-Known h h' (Step.tell new_key m same) (size, wrote, silent) =
      (new_key, size, Wrote-later uid h h' new_key _ tt wrote, (h', rw (silent, same)))
  Step-Known h h' Step.not_told k = inr (Told-later h h' _ tt k)
  Step-Known h h' (Step.refuse r no_key) k = Told-later h h' _ tt k
  Step-Known h h' (Step.accept r key) k = Told-later h h' _ tt k
  Step-Known h h' Step.hang_up k = inr (Told-later h h' _ tt k)
  Step-Known h h' (Step.beat m same) k = Told-later h h' (conn_write m) tt k
  Step-Known h h' (Step.pass r more ok) k = Told-later h h' _ tt k
  Step-Known h h' (Step.doubt r) k = Told-later h h' _ tt k
  Step-Known h h' Step.blink k = Told-later h h' _ tt k
  Step-Known h h' (Step.pause ms) k = Told-later h h' _ tt k
  Step-Known h h' Step.give_up k = inr (Told-later h h' _ tt k)
  Step-Known h h' Step.end_pass k = Told-later h h' _ tt k
  Step-Known h h' (Step.free_key true) k = Told-later h h' _ tt k
  Step-Known h h' (Step.free_key false) k = Settled-later h h' _ tt k
  Step-Known h h' (Step.free_crt true) k = Told-later h h' _ tt k
  Step-Known h h' (Step.free_crt false) k = Settled-later h h' _ tt k

  Run-Known : {h : History} {q : Phase} {h' : History} → Run json uid card_key h q h' → Known h q h'
  Run-Known start = here
  Run-Known {h} (next {h'} run st) = Step-Known h h' st (Run-Known run)

  settled : (passes : Bool) (h h' : History) → Known h (closed passes) h' → Settled h h'
  settled true h h' k = inr k
  settled false h h' k = k

  agreed :
      (passes : Bool) (ret : ℕ) (h h' : History)
      → ret ≡ (if passes then 1 else 0)
      → Known h (closed passes) h'
      → ret ≡ 1
      → Told h h'
  agreed true ret h h' is k one = k
  agreed false ret h h' is k one = absurd (omega arith)

-- On a device whose local arrays have their size, every request that ends has asked no card to take a
-- block; or it has asked exactly once, the card with its UID, to take a zero byte and a key of 15 bytes
-- into block 4, and the first message that it then handed to the connection, whether or not the card
-- took the block and the connection sent the message, is the one that names that key in digits, and
-- the card's UID. When the request returns 1 it is the second, and esp_tls_conn_write did not report
-- that message as failed.
pub https_request_settles :
    (env : Env) (json : Json) (C : Crypto) (F : FlashChip) (nul : ℕ) (chip : F.Chip) (fuel : ℕ)
    (heap uid card_key : List ℕ) (d : Device) (out : ℕ × Device)
    → ArraysFit env
    → https_request env json C F nul chip fuel heap uid card_key d ≡ done out
    → Settled json uid card_key d.history out.1.history
      × (out.0 ≡ 1 → Told json uid card_key d.history out.1.history × Delivered env out.1.history)
https_request_settles env json C F nul chip fuel heap uid card_key d out fit e =
    let (passes, ret, run) =
      https_request-Run env json C F nul chip fuel heap uid card_key d out fit e in
    let known : Known json uid card_key d.history (closed passes) out.1.history =
      Run-Known json uid card_key run in
    (
      settled json uid card_key passes d.history out.1.history known,
      λ one. (
        agreed json uid card_key passes out.0 d.history out.1.history ret known one,
        (https_request-Delivered env json C F nul chip fuel heap uid card_key d).at out e one,
      ),
    )
