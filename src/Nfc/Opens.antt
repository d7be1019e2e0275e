-- ===== src/Nfc/Opens.antt =====
-- nfc_task of main/main.c with a card that can be read, stored keys and a willing server.
use rfid_encryption.Base.{
  ℕ, zero, suc, ◌+◌, ◌≤◌, ◌<◌, ◌≡◌, refl, List, ◌∷◌, Bool, true, false, done, length, arith, ◌==◌,
  not, ◌&&◌,
}
use rfid_encryption.Device.{
  History, Device, Env, log, alloc, free, card_key_block, spi_init, begin, get_firmware_version,
  sam_config,
}
use rfid_encryption.Flash.Aes.{Crypto}
use rfid_encryption.Flash.Storage.{FlashChip, partition_size}
use rfid_encryption.Flash.KeyStore.{Holds}
use rfid_encryption.Tls.Message.{Json}
use rfid_encryption.Tls.Loops.{Answers, ArraysFit}
use rfid_encryption.Tls.Willing.{Willing, https_request-passes}
use rfid_encryption.Tls.Protocol.Counts.{Run-none}
use rfid_encryption.Tls.Protocol.Refines.{https_request-Run}
use rfid_encryption.Nfc.{Tag, show, ask, nfc_round, nfc_rounds, nfc_task}
use rfid_encryption.Nfc.Rounds.{read_tag_keeps}
use rfid_encryption.Nfc.Progress.{DriverFits, read_tag-some}
use rfid_encryption.Nfc.Heap.{passing, passes_shown, Step-passing, show-passes}

-- At every look there is a card, and its block can be read.
pub record CardThere (env : Env) : Type 0 where
  pub found : (h : History) → 0 < (env.passive_target h).success
  pub readable : (h : History) → 0 < (env.data_block h 4).0

-- What is kept on file about a partition for its key: its bytes, which are some and fit.
pub record Stored (C : Crypto) (F : FlashChip) (nul : ℕ) (chip : F.Chip) (label : Bool)
    : Type 0 where
  pub bytes : List ℕ
  pub holds : Holds C F nul chip label bytes
  pub some_bytes : 0 < length bytes
  pub fits : length bytes ≤ partition_size

module _ (env : Env) (json : Json) (C : Crypto) (F : FlashChip) (nul : ℕ) (chip : F.Chip) (fuel : ℕ)
    (heap : History → List ℕ) (W : Willing env) (S : Answers env fuel) (fit : ArraysFit env)
    (fits : DriverFits env) (there : CardThere env) (key : Stored C F nul chip false)
    (crt : Stored C F nul chip true) (size : (h : History) → length (heap h) ≡ partition_size) where
  -- A request for a card that is there returns 1, and starts no lamp itself.
  ask-opens :
      (t : Tag) (d : Device)
      → 0 < t.success
      → 0 < t.key_rw
      → length t.uid ≡ 7
      → length t.card_key ≡ 15
      → (out : ℕ × Device) × (ask env json C F nul chip fuel heap t d ≡ done out)
        × (out.0 ≡ 1)
        × (passes_shown out.1.history ≡ passes_shown d.history)
  unfolding ask
  ask-opens t d found readable hu hk =
      let (out, e, one) =
        https_request-passes env json C F nul chip fuel (heap d.history) t.uid t.card_key key.bytes
          crt.bytes d W S fit key.holds crt.holds (size d.history) key.some_bytes crt.some_bytes
          key.fits crt.fits (omega arith) (omega arith) in
      let (_, _, run) =
        https_request-Run env json C F nul chip fuel (heap d.history) t.uid t.card_key d out fit
          e in
      let seen : (not (t.key_rw == 0) && not (t.success == 0)) ≡ true = ground arith in
      (out, rw (seen, e), one, Run-none passing (λ p q e' st. Step-passing st) run)

  nfc_round-opens :
      (d : Device)
      → (d' : Device) × (nfc_round env json C F nul chip fuel heap d ≡ done d')
        × (passes_shown d'.history ≡ passes_shown d.history + 1)
  unfolding nfc_round
  nfc_round-opens d =
      let begun : Device = log (alloc card_key_block) d in
      let (r, e, hu, hk, success, (h, key_rw)) = read_tag-some env fits begun in
      let looked : passes_shown r.1.history ≡ passes_shown d.history =
        read_tag_keeps env (λ (d' : Device). passes_shown d'.history ≡ passes_shown d.history) begun
          r (λ d' u k n b t q. omega (arith, q)) (λ d' q. omega (arith, q)) (omega arith)
          (λ t. omega arith) e in
      let (out, asked, one, quiet) =
        ask-opens r.0 r.1 (omega (arith, success, there.found begun.history))
          (omega (arith, key_rw, there.readable h)) hu hk in
      let over : Device = log (free card_key_block) out.1 in
      let green : passes_shown (show (out.0, over)).history ≡ passes_shown over.history + 1 =
        rw one (show-passes 0 over) in
      (show (out.0, over), rw (e, asked), omega (arith, green, quiet, looked))

  nfc_rounds-opens :
      (rounds : ℕ) (d : Device)
      → (d' : Device) × (nfc_rounds env json C F nul chip rounds fuel heap d ≡ done d')
        × (passes_shown d'.history ≡ passes_shown d.history + rounds)
  unfolding nfc_rounds
  nfc_rounds-opens zero d = (d, refl, omega arith)
  nfc_rounds-opens (suc rounds) d =
      let (d', e, one) = nfc_round-opens d in
      let (d'', e', more) = nfc_rounds-opens rounds d' in
      (d'', rw (e, e'), omega (arith, one, more))

-- When the board answers, the arrays of the device and of the driver have their sizes, at every look a
-- card is there and its block can be read, both partitions hold bytes, at most 4096, the network
-- connects and sends, and the server never hangs up or refuses and says "200 OK" before `fuel` rounds
-- of waiting: then nfc_task gets through any number of rounds, and each of them starts the green lamp
-- once.
pub nfc_task_opens :
    (env : Env) (json : Json) (C : Crypto) (F : FlashChip) (nul : ℕ) (chip : F.Chip)
    (rounds fuel : ℕ) (heap : History → List ℕ) (d : Device)
    → 0 < env.firmware_version (begin ∷ spi_init ∷ d.history)
    → ArraysFit env
    → DriverFits env
    → CardThere env
    → Stored C F nul chip false
    → Stored C F nul chip true
    → ((h : History) → length (heap h) ≡ partition_size)
    → Willing env
    → Answers env fuel
    → (d' : Device) × (nfc_task env json C F nul chip rounds fuel heap d ≡ done d')
      × (passes_shown d'.history ≡ passes_shown d.history + rounds)
unfolding nfc_task
nfc_task_opens env json C F nul chip rounds fuel heap d board fit fits there key crt size W S =
    let board_there : (env.firmware_version (begin ∷ spi_init ∷ d.history) == 0) ≡ false =
      ground arith in
    let (d', e, shown) =
      nfc_rounds-opens env json C F nul chip fuel heap W S fit fits there key crt size rounds
        (log sam_config (log get_firmware_version (log begin (log spi_init d)))) in
    (d', rw (board_there, e), omega (arith, shown))
