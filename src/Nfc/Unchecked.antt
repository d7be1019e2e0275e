-- ===== src/Nfc/Unchecked.antt =====
-- What the driver's answer to a write of the card changes: card_write_on_block of main/card_reader.c
-- looks at it, and neither https_request nor nfc_task can.
use rfid_encryption.Base.{
  ℕ, zero, suc, ◌≡◌, ◌∷◌, refl, List, is_neg, strstr, ◌==◌, not, ◌&&◌, after_same, checked_same,
  if_same, done, ap, false, true,
}
use rfid_encryption.Device.{
  History, Device, Env, log, random, task_delay, alloc, free, json_block, conn_write,
  card_key_block, spi_init, begin, get_firmware_version, sam_config,
}
use rfid_encryption.Flash.Aes.{Crypto}
use rfid_encryption.Flash.Storage.{FlashChip, flash_reader, partition_size}
use rfid_encryption.Card.{card_write_on_block}
use rfid_encryption.Tls.{
  generate_random_hex, hex_text, login, answer_to_new_key, send_new_key, renew_key, send_card_key,
  connect, https_request,
}
use rfid_encryption.Tls.Message.{Json, request, uid_key_message}
use rfid_encryption.Tls.Wait.{await_ok, await_login}
use rfid_encryption.Nfc.{Tag, read_key, read_tag, ask, nfc_round, nfc_rounds, idle, nfc_task}

module _ (env : Env) (answer : History → ℕ → List ℕ → ℕ) where
  -- The same surroundings, but for the answers to writes.
  abbrev other : Env
  other = record env { data_block_written = answer }

  await_ok-same : (fuel : ℕ) (d : Device) → await_ok other fuel d ≡ await_ok env fuel d
  unfolding await_ok
  await_ok-same zero d = refl
  await_ok-same (suc fuel) d = rw (await_ok-same fuel)

  await_login-same : (fuel : ℕ) (d : Device) → await_login other fuel d ≡ await_login env fuel d
  unfolding await_login
  await_login-same zero d = refl
  await_login-same (suc fuel) d = rw (await_login-same fuel)

  generate_random_hex-same :
      (n : ℕ) (d : Device) → generate_random_hex other n d ≡ generate_random_hex env n d
  unfolding generate_random_hex
  generate_random_hex-same zero d = refl
  generate_random_hex-same (suc n) d = rw (generate_random_hex-same n (log random d))

  card_write_on_block-same :
      (uid bytes : List ℕ) (d : Device)
      → card_write_on_block other uid bytes d ≡ card_write_on_block env uid bytes d
  unfolding card_write_on_block
  card_write_on_block-same uid bytes d = refl

  hex_text-same : (n : ℕ) (bytes : List ℕ) → hex_text other n bytes ≡ hex_text env n bytes
  unfolding hex_text
  hex_text-same n bytes = refl

  login-same : (fuel : ℕ) (d : Device) → login other fuel d ≡ login env fuel d
  unfolding login
  login-same fuel d = rw (await_login-same fuel d)

  answer_to_new_key-same :
      (fuel : ℕ) (d : Device) → answer_to_new_key other fuel d ≡ answer_to_new_key env fuel d
  unfolding answer_to_new_key
  answer_to_new_key-same fuel d = rw (login-same fuel)

  module _ (json : Json) where
    send_new_key-same :
        (fuel : ℕ) (hex_uid random_bytes : List ℕ) (d : Device)
        → send_new_key other json fuel hex_uid random_bytes d
          ≡ send_new_key env json fuel hex_uid random_bytes d
    unfolding send_new_key hex_text
    send_new_key-same fuel hex_uid random_bytes d =
        checked_same (hex_text env 15 random_bytes) λ text. rw (answer_to_new_key-same fuel)

    renew_key-same :
        (fuel : ℕ) (uid hex_uid : List ℕ) (d : Device)
        → renew_key other json fuel uid hex_uid d ≡ renew_key env json fuel uid hex_uid d
    unfolding renew_key card_write_on_block generate_random_hex
    renew_key-same fuel uid hex_uid d =
        let drawn : List ℕ × Device = generate_random_hex env 15 d in
        checked_same (card_write_on_block env uid drawn.0 drawn.1)
          λ r. if_same (not (r.0 == 0)) refl (send_new_key-same fuel hex_uid drawn.0 _)

    send_card_key-same :
        (fuel : ℕ) (uid hex_uid hex_key : List ℕ) (d : Device)
        → send_card_key other json fuel uid hex_uid hex_key d
          ≡ send_card_key env json fuel uid hex_uid hex_key d
    unfolding send_card_key
    send_card_key-same fuel uid hex_uid hex_key d =
        let message : List ℕ = request 1024 (uid_key_message json hex_uid hex_key) in
        let printed : Device = log (alloc json_block) d in
        let sent : Device = log (conn_write message) printed in
        if_same (is_neg (env.conn_written printed.history message)) refl (
          after_same (await_ok-same fuel (log (free json_block) sent))
            λ r. if_same (strstr r.0 "200 OK") (renew_key-same fuel uid hex_uid r.1) refl)

    connect-same :
        (fuel : ℕ) (uid card_key key crt : List ℕ) (d : Device)
        → connect other json fuel uid card_key key crt d
          ≡ connect env json fuel uid card_key key crt d
    unfolding connect hex_text
    connect-same fuel uid card_key key crt d =
        if_same (env.connects d.history)
          (checked_same (hex_text env 7 uid) λ hex_uid.
            checked_same (hex_text env 15 card_key)
              λ hex_key. send_card_key-same fuel uid hex_uid hex_key _)
          refl

module _ (env : Env) (answer : History → ℕ → List ℕ → ℕ) (json : Json) (C : Crypto) (F : FlashChip)
    (nul : ℕ) (chip : F.Chip) where
  https_request-same :
      (fuel : ℕ) (heap uid card_key : List ℕ) (d : Device)
      → https_request (other env answer) json C F nul chip fuel heap uid card_key d
        ≡ https_request env json C F nul chip fuel heap uid card_key d
  unfolding https_request
  https_request-same fuel heap uid card_key d =
      checked_same (flash_reader C F nul chip heap heap partition_size false) λ k.
        checked_same (flash_reader C F nul chip heap heap partition_size true) λ c.
          if_same (k.0 == 0) refl
            (if_same (c.0 == 0) refl (connect-same env answer json fuel uid card_key _ _ _))

  ask-same :
      (fuel : ℕ) (heap : History → List ℕ) (t : Tag) (d : Device)
      → ask (other env answer) json C F nul chip fuel heap t d
        ≡ ask env json C F nul chip fuel heap t d
  unfolding ask
  ask-same fuel heap t d =
      if_same (not (t.key_rw == 0) && not (t.success == 0))
        (https_request-same fuel (heap d.history) t.uid t.card_key d) refl

  nfc_round-same :
      (fuel : ℕ) (heap : History → List ℕ) (d : Device)
      → nfc_round (other env answer) json C F nul chip fuel heap d
        ≡ nfc_round env json C F nul chip fuel heap d
  unfolding nfc_round read_tag read_key
  nfc_round-same fuel heap d =
      checked_same (read_tag env (log (alloc card_key_block) d))
        λ r. after_same (ask-same fuel heap r.0 r.1) λ pass. refl

  nfc_rounds-same :
      (rounds fuel : ℕ) (heap : History → List ℕ) (d : Device)
      → nfc_rounds (other env answer) json C F nul chip rounds fuel heap d
        ≡ nfc_rounds env json C F nul chip rounds fuel heap d
  unfolding nfc_rounds
  nfc_rounds-same zero fuel heap d = refl
  nfc_rounds-same (suc rounds) fuel heap d =
      after_same (nfc_round-same fuel heap d) λ d'. nfc_rounds-same rounds fuel heap d'

  idle-same :
      (rounds : ℕ) (d : Device)
      → idle (other env answer) json C F nul chip rounds d ≡ idle env json C F nul chip rounds d
  unfolding idle
  idle-same zero d = refl
  idle-same (suc rounds) d = idle-same rounds (log (task_delay 1000) d)

-- Whatever a card answers to writes of its block makes no difference to nfc_task: in any number of
-- rounds, on every path, it comes to the same end, with the same calls in the same order, the lamps
-- that it starts and the messages that its requests send to the server among them.
pub nfc_task_unchecked :
    (env : Env) (answer : History → ℕ → List ℕ → ℕ) (json : Json) (C : Crypto) (F : FlashChip)
    (nul : ℕ) (chip : F.Chip) (rounds fuel : ℕ) (heap : History → List ℕ) (d : Device)
    → nfc_task (record env { data_block_written = answer }) json C F nul chip rounds fuel heap d
      ≡ nfc_task env json C F nul chip rounds fuel heap d
unfolding nfc_task
nfc_task_unchecked env answer json C F nul chip rounds fuel heap d =
    let asked : Device = log get_firmware_version (log begin (log spi_init d)) in
    if_same (env.firmware_version (begin ∷ spi_init ∷ d.history) == 0)
      (ap done (idle-same env answer json C F nul chip rounds asked))
      (nfc_rounds-same env answer json C F nul chip rounds fuel heap (log sam_config asked))
