-- ===== src/Tls.antt =====
-- https_request of main/tls_connection.c, cut at its loops and labels: the two keys are read from
-- flash, the card's key is sent, a granted card gets a new key, which is sent too, and the user's
-- login is awaited. The loops take fuel; `running` is a loop that has not ended.
pub mod Message
pub mod Wait
pub mod Loops
pub mod Trace
pub mod Grant
pub mod Digits
pub mod Protocol
pub mod Keeps
pub mod Keys
pub mod Delivery
pub mod Willing
use rfid_encryption.Base.{
  ℕ, zero, suc, ◌+◌, ◌*◌, ◌%◌, some, ◌>>=◌, read_bytes, List, [], ◌∷◌, Bool, true, false, Option,
  take, replicate, Exec, done, fault, running, after, checked, ℤ, is_neg, if◌then◌else◌, ◌==◌,
  strstr, c_string, not, ◌||◌,
}
use rfid_encryption.Device.{
  Event, Device, Env, Read, log, conn_http_new, conn_write, conn_read, conn_destroy, alloc, free,
  key_block, crt_block, json_block, new_key_block, random, get_time, task_create_blink, task_delay,
  blue,
}
use rfid_encryption.Flash.Aes.{Crypto}
use rfid_encryption.Flash.Storage.{FlashChip, flash_reader, partition_size}
use rfid_encryption.Hex.{bytes_to_hex_string}
use rfid_encryption.Card.{card_write_on_block}
use Message.{Json, request, heartbeat_request, uid_key_message, new_card_key_message}
use Wait.{text_of, await_ok, await_login}

-- The label `clear`.
abbrev pub clear : Bool → Device → ℕ × Device
clear system_pass d = (if system_pass then 1 else 0, log (free crt_block) (log (free key_block) d))

module _ (env : Env) where
  -- generate_random_hex: `length` bytes from esp_random.
  unfoldable pub generate_random_hex : ℕ → Device → List ℕ × Device
  generate_random_hex zero d = ([], d)
  generate_random_hex (suc rounds) d =
      let byte : ℕ = env.esp_random d.history % 256 in
      let (bytes, d') = generate_random_hex rounds (log random d) in (byte ∷ bytes, d')

  -- bytes_to_hex_string of `length` bytes into a local array with room for a NUL, as a C string.
  unfoldable pub hex_text : ℕ → List ℕ → Option (List ℕ)
  hex_text length bytes = read_bytes length bytes 0 >>= λ copied.
      bytes_to_hex_string copied 0 (env.local_array (2 * length + 1)) >>= λ text.
      some (c_string text)

  -- From `waiting user login` on.
  unfoldable pub login : ℕ → Device → Exec (ℕ × Device)
  unfolding await_login
  login fuel d = after (await_login env fuel d) λ r. done (clear r.0 (log conn_destroy r.1))

  -- The answer to the new key is looked at once.
  unfoldable pub answer_to_new_key : ℕ → Device → Exec (ℕ × Device)
  unfolding login
  answer_to_new_key fuel d =
      let r : Read = env.conn_reads d.history 511 in
      let d' : Device = log (conn_read r) d in
      if strstr r.bytes "IS_OK:NO" then done (clear false (log conn_destroy d')) else login fuel d'

  module _ (json : Json) where
    -- The new key is sent. If that fails the connection is not destroyed. `new_key_data` is not freed.
    unfoldable pub send_new_key : ℕ → List ℕ → List ℕ → Device → Exec (ℕ × Device)
    unfolding answer_to_new_key hex_text
    send_new_key fuel hex_uid random_bytes d =
        checked (hex_text 15 random_bytes) λ hex_random_bytes.
          let message = request 512 (new_card_key_message json hex_uid hex_random_bytes) in
          let printed = log (alloc new_key_block) d in
          let sent = log (conn_write message) printed in
          if is_neg (env.conn_written printed.history message)
          then done (clear false sent)
          else answer_to_new_key fuel sent

    -- The card was granted: it gets a new key. Only the first 15 of `random_bytes` are used.
    unfoldable pub renew_key : ℕ → List ℕ → List ℕ → Device → Exec (ℕ × Device)
    unfolding send_new_key generate_random_hex
    renew_key fuel uid hex_uid d =
        let (random_bytes, d') = generate_random_hex 15 d in
        checked (card_write_on_block env uid random_bytes d') λ r.
          if not (r.0 == 0)
          then done (clear false (log conn_destroy r.1))
          else send_new_key fuel hex_uid random_bytes
              (log get_time (record (r.1) { start_time = 0; end_time = 0 }))

    -- The card's key is sent and the answer awaited. `json_data` is freed if the request was sent.
    unfoldable pub send_card_key : ℕ → List ℕ → List ℕ → List ℕ → Device → Exec (ℕ × Device)
    unfolding renew_key
    send_card_key fuel uid hex_uid hex_key d =
        let message = request 1024 (uid_key_message json hex_uid hex_key) in
        let printed = log (alloc json_block) d in
        let sent = log (conn_write message) printed in
        if is_neg (env.conn_written printed.history message)
        then done (clear false (log conn_destroy sent))
        else (after (await_ok env fuel (log (free json_block) sent)) λ r.
            if strstr r.0 "200 OK"
            then renew_key fuel uid hex_uid r.1
            else done (clear false (log conn_destroy r.1)))

    -- The connection and, the first time, its session.
    unfoldable pub connect : ℕ → List ℕ → List ℕ → List ℕ → List ℕ → Device → Exec (ℕ × Device)
    unfolding send_card_key hex_text
    connect fuel uid card_key key crt d =
        let opened = log (conn_http_new crt key d.saved_client_session) d in
        if env.connects d.history
        then (checked (hex_text 7 uid) λ hex_uid. checked (hex_text 15 card_key) λ hex_key.
            send_card_key fuel uid hex_uid hex_key (record opened {
              saved_client_session = d.saved_client_session || env.client_session opened.history;
            }))
        else done (clear false opened)

module _ (env : Env) (json : Json) (C : Crypto) (F : FlashChip) (nul_literal : ℕ)
    (chip : F.Chip) where
  -- `heap` is what each `malloc(4096)` holds.
  unfoldable pub https_request : ℕ → List ℕ → List ℕ → List ℕ → Device → Exec (ℕ × Device)
  unfolding connect
  https_request fuel heap uid card_key d =
      checked (flash_reader C F nul_literal chip heap heap partition_size false) λ k.
        checked (flash_reader C F nul_literal chip heap heap partition_size true) λ c.
          let loaded = log (alloc crt_block) (log (alloc key_block) d) in
          if k.0 == 0
          then done (clear false loaded)
          else if c.0 == 0
          then done (clear false loaded)
          else connect env json fuel uid card_key (take k.0 k.1) (take c.0 c.1) loaded
