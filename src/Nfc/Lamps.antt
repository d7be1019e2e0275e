-- ===== src/Nfc/Lamps.antt =====
-- How many lamps nfc_task starts.
use rfid_encryption.Base.{
  ℕ, zero, suc, ◌+◌, ◌≡◌, refl, sym, ap, ◌∙◌, List, ◌∷◌, Bool, true, false, some, done, Ensures,
  Ensures-done, Ensures-if, Ensures-after, Ensures-checked, arith, ◌==◌, not, ◌&&◌, if◌then◌else◌,
}
use rfid_encryption.Device.{
  alloc, free, card_key_block, History, Device, Env, log, spi_init, begin, get_firmware_version,
  sam_config, task_delay,
}
use rfid_encryption.Flash.Aes.{Crypto}
use rfid_encryption.Flash.Storage.{FlashChip}
use rfid_encryption.Tls.Message.{Json}
use rfid_encryption.Tls.Loops.{ArraysFit}
use rfid_encryption.Tls.Protocol.Counts.{calls, showing, https_request_counts}
use rfid_encryption.Nfc.{Tag, read_tag, show, ask, nfc_round, nfc_rounds, idle, nfc_task}
use rfid_encryption.Nfc.Rounds.{read_tag_keeps}

-- The red and green lamps started so far.
abbrev pub lamps : Device → ℕ
lamps d = calls showing d.history

read_tag-lamps :
    (env : Env) (d : Device) (r : Tag × Device) → read_tag env d ≡ some r → lamps r.1 ≡ lamps d
read_tag-lamps env d r e =
    read_tag_keeps env (λ (d' : Device). lamps d' ≡ lamps d) d r
      (λ d' u k n b t q. omega (arith, q)) (λ d' q. omega (arith, q)) (omega arith)
      (λ t. omega arith) e

show-lamps : (n : ℕ) (d : Device) → lamps (show (n, d)) ≡ lamps d + 1
show-lamps zero d = refl
show-lamps (suc n) d = ground arith

module _ (env : Env) (json : Json) (C : Crypto) (F : FlashChip) (nul : ℕ) (chip : F.Chip) (fuel : ℕ)
    (heap : History → List ℕ) (fit : ArraysFit env) where
  ask-lamps :
      (t : Tag) (d : Device)
      → Ensures (ask env json C F nul chip fuel heap t d) λ out. lamps out.1 ≡ lamps d
  unfolding ask
  ask-lamps t d =
      Ensures-if (not (t.key_rw == 0) && not (t.success == 0))
        (λ _. record {
          at = λ out e.
              let (_, _, _, _, _, _, same, _, _, _, _) =
                https_request_counts env json C F nul chip fuel (heap d.history) t.uid t.card_key d
                  out fit e in
              same;
        })
        (λ _. Ensures-done (0, d) refl)

  nfc_round-lamps :
      (d : Device)
      → Ensures (nfc_round env json C F nul chip fuel heap d) λ d'. lamps d' ≡ lamps d + 1
  unfolding nfc_round
  nfc_round-lamps d = Ensures-checked (read_tag env (log (alloc card_key_block) d)) _ λ r e.
      Ensures-after (ask env json C F nul chip fuel heap r.0 r.1) _ (ask-lamps r.0 r.1)
        (λ pass same. Ensures-done _ (
          omega (
            arith,
            show-lamps pass.0 (log (free card_key_block) pass.1),
            same,
            read_tag-lamps env (log (alloc card_key_block) d) r e,
          )))

  nfc_rounds-lamps :
      (rounds : ℕ) (d : Device)
      → Ensures
          (nfc_rounds env json C F nul chip rounds fuel heap d)
          λ d'. lamps d' ≡ lamps d + rounds
  unfolding nfc_rounds
  nfc_rounds-lamps zero d = Ensures-done d (omega arith)
  nfc_rounds-lamps (suc rounds) d =
      Ensures-after (nfc_round env json C F nul chip fuel heap d) _ (nfc_round-lamps d) (λ d' one.
        record { at = λ d'' e. omega (arith, one, (nfc_rounds-lamps rounds d').at d'' e) })

  idle-lamps : (rounds : ℕ) (d : Device) → lamps (idle env json C F nul chip rounds d) ≡ lamps d
  unfolding idle
  idle-lamps zero d = refl
  idle-lamps (suc rounds) d = omega (arith, idle-lamps rounds (log (task_delay 1000) d))

-- On a device whose local arrays have their size, nfc_task starts exactly one red or green lamp in each
-- of its rounds, whatever happens in it, and none when it found no board.
pub nfc_task-lamps :
    (env : Env) (json : Json) (C : Crypto) (F : FlashChip) (nul : ℕ) (chip : F.Chip)
    (rounds fuel : ℕ) (heap : History → List ℕ) (d d' : Device)
    → ArraysFit env
    → nfc_task env json C F nul chip rounds fuel heap d ≡ done d'
    → lamps d'
      ≡ lamps d + (if env.firmware_version (begin ∷ spi_init ∷ d.history) == 0 then 0 else rounds)
unfolding nfc_task
nfc_task-lamps env json C F nul chip rounds fuel heap d d' fit e =
    counted (env.firmware_version (begin ∷ spi_init ∷ d.history) == 0) e
  where
    asked : Device
    asked = log get_firmware_version (log begin (log spi_init d))

    counted :
        (b : Bool)
        → (if b
            then done (idle env json C F nul chip rounds asked)
            else nfc_rounds env json C F nul chip rounds fuel heap (log sam_config asked))
          ≡ done d'
        → lamps d' ≡ lamps d + (if b then 0 else rounds)
    counted true e' =
        let same : idle env json C F nul chip rounds asked ≡ d' = cc in
        ap lamps (sym same)
        ∙ omega (arith, idle-lamps env json C F nul chip fuel heap fit rounds asked)
    counted false e' = omega (
      arith,
      (nfc_rounds-lamps env json C F nul chip fuel heap fit rounds (log sam_config asked)).at d' e',
    )
