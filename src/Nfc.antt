-- ===== src/Nfc.antt =====
-- nfc_task of main/main.c: the board is set up, and then each round looks for a card, reads its key
-- from block 4, asks the server about it and starts the green or the red lamp. `malloc` is taken to
-- succeed. The blinking tasks run beside it and touch their pin only.
pub mod Rounds
pub mod Key
pub mod Progress
pub mod Lamps
pub mod Heap
pub mod Unchecked
pub mod Dark
pub mod Chain
pub mod Opens
pub mod Agreement
use rfid_encryption.Base.{
  ℕ, zero, suc, List, Bool, replicate, Exec, done, after, checked, Option, some, ◌>>=◌, read_bytes,
  not, ◌&&◌, ◌==◌, if◌then◌else◌,
}
use rfid_encryption.Device.{
  alloc, free, card_key_block, Device, Env, History, Target, log, spi_init, begin,
  get_firmware_version, sam_config, read_passive_target, authenticate_block, read_data_block,
  get_time, task_create_blink, task_delay, red, green,
}
use rfid_encryption.Flash.Aes.{Crypto}
use rfid_encryption.Flash.Storage.{FlashChip}
use rfid_encryption.Card.{key_a}
use rfid_encryption.Tls.{https_request}
use rfid_encryption.Tls.Message.{Json}

-- What one round knows before it asks the server: `success`, `uid`, `key_RW` and `card_key`.
pub record Tag : Type 0 where
  pub success : ℕ
  pub uid : List ℕ
  pub key_rw : ℕ
  pub card_key : List ℕ

module _ (env : Env) where
  -- Key A opens block 4, which is read into `card_key_1`: 16 bytes, zero if the read fails.
  unfoldable pub read_key : List ℕ → ℕ → Device → Option ((ℕ × List ℕ) × Device)
  read_key uid uid_length d =
      let authenticated = log (authenticate_block uid uid_length 4 0 key_a) d in
      let (key_rw, bytes) = env.data_block authenticated.history 4 in
      let card_key_1 = if key_rw == 0 then replicate 16 0 else bytes in
      read_bytes 15 card_key_1 0 >>= λ card_key.
      some ((key_rw, card_key), log (read_data_block 4) authenticated)

  -- From pn532_readPassiveTargetID to `memcpy(card_key, ...)`. Without a card, `uid` is zero and
  -- `uidLength` unset, and the block is read all the same.
  unfoldable pub read_tag : Device → Option (Tag × Device)
  unfolding read_key
  read_tag d =
      let target = env.passive_target d.history in
      let looked = log read_passive_target d in
      let none_found = target.success == 0 in
      let timed =
        if none_found
        then looked
        else log get_time (record looked { start_time = env.time looked.history }) in
      let uid = if none_found then replicate 7 0 else target.uid in
      let uid_length = if none_found then env.stale_length d.history else target.uid_length in
      read_key uid uid_length timed >>= λ k.
      some (record { success = target.success; uid = uid; key_rw = k.0.0; card_key = k.0.1 }, k.1)

-- The lamp for `pass`.
abbrev pub show : ℕ × Device → Device
show r = log (task_create_blink (if r.0 == 0 then red else green)) r.1

module _ (env : Env) (json : Json) (C : Crypto) (F : FlashChip) (nul_literal : ℕ)
    (chip : F.Chip) where
  -- `if (key_RW&&success) pass = https_request(uid, card_key);`
  -- `heap` is what each `malloc(4096)` of a request holds.
  unfoldable pub ask : ℕ → (History → List ℕ) → Tag → Device → Exec (ℕ × Device)
  unfolding https_request
  ask fuel heap t d =
      if not (t.key_rw == 0) && not (t.success == 0)
      then https_request env json C F nul_literal chip fuel (heap d.history) t.uid t.card_key d
      else done (0, d)

  unfoldable pub nfc_round : ℕ → (History → List ℕ) → Device → Exec Device
  unfolding read_tag ask
  nfc_round fuel heap d = checked (read_tag env (log (alloc card_key_block) d)) λ r.
      after (ask fuel heap r.0 r.1) λ pass. done (show (pass.0, log (free card_key_block) pass.1))

  -- So many rounds of the `while (1)`.
  unfoldable pub nfc_rounds : ℕ → ℕ → (History → List ℕ) → Device → Exec Device
  unfolding nfc_round
  nfc_rounds zero fuel heap d = done d
  nfc_rounds (suc rounds) fuel heap d =
      after (nfc_round fuel heap d) λ d'. nfc_rounds rounds fuel heap d'

  -- So many rounds of the loop that is entered without a board.
  unfoldable pub idle : ℕ → Device → Device
  idle zero d = d
  idle (suc rounds) d = idle rounds (log (task_delay 1000) d)

  -- The device after so many rounds of whichever loop the task is in.
  unfoldable pub nfc_task : ℕ → ℕ → (History → List ℕ) → Device → Exec Device
  unfolding nfc_rounds idle
  nfc_task rounds fuel heap d =
      let begun = log begin (log spi_init d) in
      let versiondata = env.firmware_version begun.history in
      let asked = log get_firmware_version begun in
      if versiondata == 0
      then done (idle rounds asked)
      else nfc_rounds rounds fuel heap (log sam_config asked)
