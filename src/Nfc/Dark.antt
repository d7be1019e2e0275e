-- ===== src/Nfc/Dark.antt =====
-- nfc_task and the blinking tasks that it and https_request create.
use rfid_encryption.Base.{
  ℕ, ◌≡◌, List, ◌∷◌, ◌++◌, some, done, Ensures, Ensures-done, Ensures-if, Ensures-after,
  Ensures-checked, ◌==◌, not, ◌&&◌, if◌then◌else◌,
}
use rfid_encryption.Device.{
  alloc, card_key_block, Event, History, Device, Env, Colour, log, spi_init, begin,
  get_firmware_version, sam_config, read_passive_target, get_time, task_delay, task_create_blink,
  red, green, blue,
}
use rfid_encryption.Flash.Aes.{Crypto}
use rfid_encryption.Flash.Storage.{FlashChip}
use rfid_encryption.Card.{gpio_of}
use rfid_encryption.Card.Schedule.{Tasks, OfOthers, Run, level, Ended}
use rfid_encryption.Card.Schedule.Dark.{Run-dark}
use rfid_encryption.Tls.Message.{Json}
use rfid_encryption.Tls.Loops.{ArraysFit}
use rfid_encryption.Tls.Protocol
use rfid_encryption.Tls.Protocol.{Phase, Step}
use rfid_encryption.Tls.Protocol.Refines.{https_request-Run}
use rfid_encryption.Nfc.{Tag, read_tag, ask, nfc_round, nfc_task}
use rfid_encryption.Nfc.Rounds.{read_tag_keeps, nfc_task-keeps}

-- Some schedule of tasks makes these calls.
abbrev pub Scheduled : History → Type 0
Scheduled h = (ts : Tasks) × Run ts h

Scheduled-other : {h : History} (e : Event) → OfOthers e → Scheduled h → Scheduled (e ∷ h)
Scheduled-other e quiet (ts, run) = (ts, Run.other e quiet run)

Scheduled-create : {h : History} (c : Colour) → Scheduled h → Scheduled (task_create_blink c ∷ h)
Scheduled-create c (ts, run) = (_, Run.create c run)

module _ (json : Json) (uid card_key : List ℕ) where
  Step-Scheduled :
      {p q : Phase} {e : Event} {h : History}
      → Step json uid card_key p e q
      → Scheduled h
      → Scheduled (e ∷ h)
  Step-Scheduled Step.blink s = Scheduled-create blue s
  Step-Scheduled Step.no_keys s = Scheduled-other _ tt s
  Step-Scheduled _ s = Scheduled-other _ tt s

  Run-Scheduled :
      {h : History} {q : Phase} {h' : History}
      → Protocol.Run json uid card_key h q h'
      → Scheduled h
      → Scheduled h'
  Run-Scheduled Protocol.start s = s
  Run-Scheduled (Protocol.next run st) s = Step-Scheduled st (Run-Scheduled run s)

read_tag-Scheduled :
    (env : Env) (d : Device) (r : Tag × Device)
    → read_tag env d ≡ some r
    → Scheduled d.history
    → Scheduled r.1.history
read_tag-Scheduled env d r e s =
    let looked : Scheduled (read_passive_target ∷ d.history) = Scheduled-other _ tt s in
    read_tag_keeps env (λ (d' : Device). Scheduled d'.history) d r
      (λ d' u k n b t q. Scheduled-other _ tt q) (λ d' q. Scheduled-other _ tt q) looked
      (λ t. Scheduled-other get_time tt looked) e

module _ (env : Env) (json : Json) (C : Crypto) (F : FlashChip) (nul : ℕ) (chip : F.Chip) (fuel : ℕ)
    (heap : History → List ℕ) (fit : ArraysFit env) where
  ask-Scheduled :
      (t : Tag) (d : Device)
      → Scheduled d.history
      → Ensures (ask env json C F nul chip fuel heap t d) λ out. Scheduled out.1.history
  unfolding ask
  ask-Scheduled t d s =
      Ensures-if (not (t.key_rw == 0) && not (t.success == 0))
        (λ _. record {
          at = λ out e.
              let (passes, ret, run) =
                https_request-Run env json C F nul chip fuel (heap d.history) t.uid t.card_key d out
                  fit e in
              Run-Scheduled json t.uid t.card_key run s;
        })
        (λ _. Ensures-done (0, d) s)

  nfc_round-Scheduled :
      (d : Device)
      → Scheduled d.history
      → Ensures (nfc_round env json C F nul chip fuel heap d) λ d'. Scheduled d'.history
  unfolding nfc_round
  nfc_round-Scheduled d s = Ensures-checked (read_tag env (log (alloc card_key_block) d)) _ λ r e.
      Ensures-after (ask env json C F nul chip fuel heap r.0 r.1) _
        (ask-Scheduled r.0 r.1
          (read_tag-Scheduled env (log (alloc card_key_block) d) r e (Scheduled-other _ tt s)))
        (λ pass s'.
          Ensures-done _
            (Scheduled-create (if pass.0 == 0 then red else green) (Scheduled-other _ tt s')))

-- Start nfc_task on a device whose local arrays have their size, after any calls that tasks can have
-- made, with blinking tasks among them. After any number of its rounds, the blinking tasks that it
-- and its requests have created, with those before, can run to their end, and when they have, the
-- pins of the three lamps, 2, 15 and 4, are low.
pub nfc_task-dark :
    (env : Env) (json : Json) (C : Crypto) (F : FlashChip) (nul : ℕ) (chip : F.Chip)
    (rounds fuel : ℕ) (heap : History → List ℕ) (d d' : Device)
    → ArraysFit env
    → Scheduled d.history
    → nfc_task env json C F nul chip rounds fuel heap d ≡ done d'
    → (ts : Tasks) × Run ts d'.history
      × ((calls : History) × (ts' : Tasks) × Run ts' (calls ++ d'.history)
          × Ended ts'
          × ((c : Colour) → level (gpio_of c) (calls ++ d'.history) ≡ 0))
nfc_task-dark env json C F nul chip rounds fuel heap d d' fit s e =
    let asked : Scheduled (get_firmware_version ∷ begin ∷ spi_init ∷ d.history) =
      Scheduled-other get_firmware_version tt
        (Scheduled-other begin tt (Scheduled-other spi_init tt s)) in
    let (ts, run) =
      (nfc_task-keeps env json C F nul chip fuel heap (λ (d'' : Device). Scheduled d''.history)
          (nfc_round-Scheduled env json C F nul chip fuel heap fit)
          (λ d'' q. Scheduled-other (task_delay 1000) tt q) rounds d asked
          (Scheduled-other sam_config tt asked)).at
        d' e in
    let (_, _, (calls, ts', run', over)) = Run-dark ts d'.history run in
    (
      ts,
      run,
      (calls, ts', run', over, λ c. (Run-dark ts' (calls ++ d'.history) run').0 (gpio_of c) over),
    )
