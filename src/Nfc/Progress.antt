-- ===== src/Nfc/Progress.antt =====
-- The ends of nfc_task's rounds.
use rfid_encryption.Base.{
  ℕ, zero, suc, ◌≡◌, refl, List, ◌∷◌, Bool, true, false, some, done, Returns, Returns-done,
  Returns-if, Returns-after, Returns-checked, arith, ◌==◌, not, ◌&&◌, read_bytes_lem, length,
  length-take, length-replicate, replicate, if◌then◌else◌, take,
}
use rfid_encryption.Device.{
  alloc, card_key_block, History, Device, Env, log, spi_init, begin, get_firmware_version,
  sam_config, read_passive_target, authenticate_block, read_data_block, get_time,
}
use rfid_encryption.Flash.Aes.{Crypto}
use rfid_encryption.Flash.Storage.{FlashChip, flash_reader, partition_size}
use rfid_encryption.Card.{key_a}
use rfid_encryption.Tls.Message.{Json}
use rfid_encryption.Tls.Loops.{Answers, ArraysFit, https_request-Returns}
use rfid_encryption.Nfc.{Tag, read_key, read_tag, ask, nfc_round, nfc_rounds, nfc_task}

-- Both keys are read from flash without a fault, whatever `malloc` returns.
abbrev pub KeysRead : Crypto → (F : FlashChip) → ℕ → F.Chip → (History → List ℕ) → Type 0
KeysRead C F nul chip heap =
    (label : Bool) (h : History)
    → (k : ℕ × List ℕ) × (flash_reader C F nul chip (heap h) (heap h) partition_size label ≡ some k)

-- The driver fills the arrays that it is given.
pub record DriverFits (env : Env) : Type 0 where
  pub uid : (h : History) → length (env.passive_target h).uid ≡ 7
  pub block : (h : History) (number : ℕ) → length (env.data_block h number).1 ≡ 16

length-if :
    (b : Bool) (xs ys : List ℕ) (n : ℕ)
    → length xs ≡ n
    → length ys ≡ n
    → length (if b then xs else ys) ≡ n
length-if true xs ys n hx hy = hx
length-if false xs ys n hx hy = hy

module _ (env : Env) (fits : DriverFits env) where
  read_key-some :
      (uid : List ℕ) (n : ℕ) (d : Device)
      → (k : (ℕ × List ℕ) × Device) × (read_key env uid n d ≡ some k)
        × (length k.0.1 ≡ 15)
        × ((h : History) × (k.0.0 ≡ (env.data_block h 4).0))
  unfolding read_key
  read_key-some uid n d =
      let h : History = authenticate_block uid n 4 0 key_a ∷ d.history in
      let key_rw : ℕ = (env.data_block h 4).0 in
      let card_key_1 : List ℕ = if key_rw == 0 then replicate 16 0 else (env.data_block h 4).1 in
      let size : length card_key_1 ≡ 16 =
        length-if (key_rw == 0) _ _ 16 (length-replicate {A = ℕ} 16 0) (fits.block h 4) in
      (
        (
          (key_rw, take 15 card_key_1),
          log (read_data_block 4) (log (authenticate_block uid n 4 0 key_a) d),
        ),
        rw (read_bytes_lem 15 card_key_1 0 (omega (arith, size))),
        omega (arith, size, length-take 15 card_key_1),
        (h, refl),
      )

  -- Reading the card does not fault, and gives arrays of the right sizes and the driver's results.
  pub read_tag-some :
      (d : Device)
      → (r : Tag × Device) × (read_tag env d ≡ some r)
        × (length r.0.uid ≡ 7)
        × (length r.0.card_key ≡ 15)
        × (r.0.success ≡ (env.passive_target d.history).success)
        × ((h : History) × (r.0.key_rw ≡ (env.data_block h 4).0))
  unfolding read_tag
  read_tag-some d =
      let target = env.passive_target d.history in
      let looked : Device = log read_passive_target d in
      let none_found : Bool = target.success == 0 in
      let timed : Device =
        if none_found
        then looked
        else log get_time (record looked { start_time = env.time looked.history }) in
      let uid : List ℕ = if none_found then replicate 7 0 else target.uid in
      let uid_length : ℕ = if none_found then env.stale_length d.history else target.uid_length in
      let (k, e, size, result) = read_key-some uid uid_length timed in
      (
        (record { success = target.success; uid = uid; key_rw = k.0.0; card_key = k.0.1 }, k.1),
        rw e,
        length-if none_found _ _ 7 (length-replicate {A = ℕ} 7 0) (fits.uid d.history),
        size,
        refl,
        result,
      )

module _ (env : Env) (json : Json) (C : Crypto) (F : FlashChip) (nul : ℕ) (chip : F.Chip) (fuel : ℕ)
    (heap : History → List ℕ) (S : Answers env fuel) (fit : ArraysFit env) (fits : DriverFits env)
    (keys : KeysRead C F nul chip heap) where
  ask-Returns :
      (t : Tag) (d : Device)
      → length t.uid ≡ 7
      → length t.card_key ≡ 15
      → Returns (ask env json C F nul chip fuel heap t d)
  unfolding ask
  ask-Returns t d hu hk =
      Returns-if (not (t.key_rw == 0) && not (t.success == 0)) _ _
        (λ _.
          let (k, ek) = keys false d.history in
          let (c, ec) = keys true d.history in
          https_request-Returns env json C F nul chip fuel (heap d.history) t.uid t.card_key d k c S
            fit ek ec (omega arith) (omega arith))
        (λ _. Returns-done (0, d))

  nfc_round-Returns : (d : Device) → Returns (nfc_round env json C F nul chip fuel heap d)
  unfolding nfc_round
  nfc_round-Returns d =
      let (r, e, hu, hk, _, _) = read_tag-some env fits (log (alloc card_key_block) d) in
      Returns-checked (read_tag env (log (alloc card_key_block) d)) _ r e (
        Returns-after (ask env json C F nul chip fuel heap r.0 r.1) _ (ask-Returns r.0 r.1 hu hk)
          (λ pass. Returns-done _))

  nfc_rounds-Returns :
      (rounds : ℕ) (d : Device) → Returns (nfc_rounds env json C F nul chip rounds fuel heap d)
  unfolding nfc_rounds
  nfc_rounds-Returns zero d = Returns-done d
  nfc_rounds-Returns (suc rounds) d =
      Returns-after (nfc_round env json C F nul chip fuel heap d) _ (nfc_round-Returns d)
        (λ d'. nfc_rounds-Returns rounds d')

-- When the driver fills the arrays that it is given, both keys can be read from flash and the server
-- does not keep a request's loops going past `fuel` rounds, nfc_task gets through any number of its
-- rounds: no request hangs it and no buffer is left.
pub nfc_task-Returns :
    (env : Env) (json : Json) (C : Crypto) (F : FlashChip) (nul : ℕ) (chip : F.Chip)
    (rounds fuel : ℕ) (heap : History → List ℕ) (d : Device)
    → Answers env fuel
    → ArraysFit env
    → DriverFits env
    → KeysRead C F nul chip heap
    → (d' : Device) × (nfc_task env json C F nul chip rounds fuel heap d ≡ done d')
unfolding nfc_task
nfc_task-Returns env json C F nul chip rounds fuel heap d S fit fits keys =
    let begun : Device = log begin (log spi_init d) in
    Returns-if (env.firmware_version begun.history == 0) _ _ (λ _. Returns-done _)
      (λ _.
        nfc_rounds-Returns env json C F nul chip fuel heap S fit fits keys rounds
          (log sam_config (log get_firmware_version begun)))
