-- ===== src/Nfc/Rounds.antt =====
-- What nfc_task does in any number of rounds.
use rfid_encryption.Base.{
  if_both, ◌∷◌, ℕ, zero, suc, ◌≡◌, refl, subst, List, Option, none, some, inl, inr, done, Ensures,
  Ensures-done, Ensures-if, Ensures-after, Ensures-checked, ◌==◌, not, ◌&&◌, ◌>>=◌, ◌⊎◌,
}
use rfid_encryption.Device.{
  alloc, free, card_key_block, History, Device, Env, log, spi_init, begin, get_firmware_version,
  sam_config, read_passive_target, get_time, task_delay, authenticate_block, read_data_block,
}
use rfid_encryption.Flash.Aes.{Crypto}
use rfid_encryption.Flash.Storage.{FlashChip}
use rfid_encryption.Tls.Message.{Json}
use rfid_encryption.Tls.Trace.{Passed, Authorised}
use rfid_encryption.Tls.Grant.{IsSound, https_request-IsSound}
use rfid_encryption.Nfc.{Tag, read_key, read_tag, show, ask, nfc_round, nfc_rounds, idle, nfc_task}

-- The lamp shown for a sound answer keeps the history authorised.
show-Authorised :
    (n : ℕ) (d : Device)
    → Authorised d.history
    → (n ≡ 0) ⊎ ((n ≡ 1) × Passed d.history)
    → Authorised (show (n, log (free card_key_block) d)).history
show-Authorised n d a (inl e) = rw e a
show-Authorised n d a (inr (e, p)) = rw e ((d.history, refl, p), a)

device_of :
    (o : Option (List ℕ)) (key_rw : ℕ) (d : Device) (f : (ℕ × List ℕ) × Device → Tag)
    (r : Tag × Device)
    → ((o >>= λ card_key. some ((key_rw, card_key), d)) >>= λ k. some (f k, k.1)) ≡ some r
    → d ≡ r.1
device_of none key_rw d f r e = cc
device_of (some card_key) key_rw d f r e = cc

-- Looking for a card and reading it adds such calls only.
pub read_tag_keeps :
    (env : Env) (Q : Device → Type 0) (d : Device) (r : Tag × Device)
    → ((d' : Device) (uid key : List ℕ) (n b s : ℕ)
        → Q d'
        → Q (log (authenticate_block uid n b s key) d'))
    → ((d' : Device) → Q d' → Q (log (read_data_block 4) d'))
    → Q (log read_passive_target d)
    → ((t : ℕ) → Q (log get_time (record (log read_passive_target d) { start_time = t })))
    → read_tag env d ≡ some r
    → Q r.1
unfolding read_tag read_key
read_tag_keeps env Q d r auth look none_here timed e = subst Q (device_of _ _ _ _ r e) (
    look _ (
      auth _ _ _ _ _ _ (
        if_both Q ((env.passive_target d.history).success == 0) _ _ none_here
          (timed (env.time (read_passive_target ∷ d.history))))))

-- What the rounds of nfc_task keep the task keeps.
module _ (env : Env) (json : Json) (C : Crypto) (F : FlashChip) (nul : ℕ) (chip : F.Chip) (fuel : ℕ)
    (heap : History → List ℕ) (Q : Device → Type 0)
    (round : (d : Device) → Q d → Ensures (nfc_round env json C F nul chip fuel heap d) Q) where
  nfc_rounds-keeps :
      (rounds : ℕ) (d : Device)
      → Q d
      → Ensures (nfc_rounds env json C F nul chip rounds fuel heap d) Q
  unfolding nfc_rounds
  nfc_rounds-keeps zero d q = Ensures-done d q
  nfc_rounds-keeps (suc rounds) d q =
      Ensures-after (nfc_round env json C F nul chip fuel heap d) _ (round d q)
        (λ d' q'. nfc_rounds-keeps rounds d' q')

  module _ (wait : (d : Device) → Q d → Q (log (task_delay 1000) d)) where
    idle-keeps : (rounds : ℕ) (d : Device) → Q d → Q (idle env json C F nul chip rounds d)
    unfolding idle
    idle-keeps zero d q = q
    idle-keeps (suc rounds) d q = idle-keeps rounds (log (task_delay 1000) d) (wait d q)

    pub nfc_task-keeps :
        (rounds : ℕ) (d : Device)
        → Q (log get_firmware_version (log begin (log spi_init d)))
        → Q (log sam_config (log get_firmware_version (log begin (log spi_init d))))
        → Ensures (nfc_task env json C F nul chip rounds fuel heap d) Q
    unfolding nfc_task
    nfc_task-keeps rounds d asked configured =
        let begun : Device = log begin (log spi_init d) in
        Ensures-if (env.firmware_version begun.history == 0)
          (λ _. Ensures-done _ (idle-keeps rounds (log get_firmware_version begun) asked))
          (λ _.
            nfc_rounds-keeps rounds (log sam_config (log get_firmware_version begun)) configured)

module _ (env : Env) (json : Json) (C : Crypto) (F : FlashChip) (nul : ℕ) (chip : F.Chip) (fuel : ℕ)
    (heap : History → List ℕ) where
  ask-IsSound :
      (t : Tag) (d : Device)
      → Authorised d.history
      → Ensures (ask env json C F nul chip fuel heap t d) IsSound
  unfolding ask
  ask-IsSound t d a =
      Ensures-if (not (t.key_rw == 0) && not (t.success == 0))
        (λ _. record {
          at = λ out e.
              https_request-IsSound env json C F nul chip fuel (heap d.history) t.uid t.card_key d
                out a e;
        })
        (λ _. Ensures-done (0, d) (a, inl refl))

  nfc_round-Authorised :
      (d : Device)
      → Authorised d.history
      → Ensures (nfc_round env json C F nul chip fuel heap d) λ d'. Authorised d'.history
  unfolding nfc_round
  nfc_round-Authorised d a =
      let begun : Device = log (alloc card_key_block) d in
      Ensures-checked (read_tag env begun) _ λ r e.
        let read : Authorised r.1.history =
          read_tag_keeps env (λ (d' : Device). Authorised d'.history) begun r (λ d' u k n b t q. q)
            (λ d' q. q) a (λ t. a) e in
        Ensures-after (ask env json C F nul chip fuel heap r.0 r.1) _ (ask-IsSound r.0 r.1 read)
          (λ pass (a', p). Ensures-done _ (show-Authorised pass.0 pass.1 a' p))

-- However many rounds nfc_task has run, whatever cards it met and whatever the driver, the server
-- and the flash answered: every write to a card was in a session in which the server had said
-- "200 OK" by then, and the green lamp was started only after a request that passed, with nothing
-- between but the free of the round's key, if both held of what came before the task.
pub nfc_task-Authorised :
    (env : Env) (json : Json) (C : Crypto) (F : FlashChip) (nul : ℕ) (chip : F.Chip)
    (rounds fuel : ℕ) (heap : History → List ℕ) (d d' : Device)
    → Authorised d.history
    → nfc_task env json C F nul chip rounds fuel heap d ≡ done d'
    → Authorised d'.history
nfc_task-Authorised env json C F nul chip rounds fuel heap d d' a e =
    (nfc_task-keeps env json C F nul chip fuel heap (λ (d'' : Device). Authorised d''.history)
        (nfc_round-Authorised env json C F nul chip fuel heap) (λ d'' a'. a') rounds d a a).at
      d' e
