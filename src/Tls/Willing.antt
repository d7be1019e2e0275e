-- ===== src/Tls/Willing.antt =====
-- https_request of main/tls_connection.c, where network and server are willing.
use rfid_encryption.Base.{
  ℕ, zero, suc, ◌≤◌, ◌<◌, ◌≡◌, refl, ap, List, Bool, true, false, length, done, Ensures,
  Ensures-done, Ensures-if, Ensures-running, Ensures-after, Ensures-checked, strstr, is_neg, ◌==◌,
  not, arith,
}
use rfid_encryption.Device.{
  History, Device, Env, Read, log, conn_read, conn_write, conn_destroy, task_delay,
  task_create_blink, blue, alloc, free, json_block, new_key_block,
}
use rfid_encryption.Flash.Aes.{Crypto}
use rfid_encryption.Flash.Storage.{FlashChip, partition_size}
use rfid_encryption.Flash.KeyStore.{Holds}
use rfid_encryption.Card.{card_write_on_block}
use rfid_encryption.Card.Laws.{card_write_on_block-some}
use rfid_encryption.Tls.{
  clear, generate_random_hex, login, answer_to_new_key, send_new_key, renew_key, send_card_key,
  connect, https_request, hex_text,
}
use rfid_encryption.Tls.Message.{
  Json, heartbeat_request, request, uid_key_message, new_card_key_message,
}
use rfid_encryption.Tls.Wait.{text_of, ended, await_ok, await_login}
use rfid_encryption.Tls.Loops.{Answers, ArraysFit, https_request-Returns}

-- The network connects and sends, and the server neither hangs up nor refuses.
pub record Willing (env : Env) : Type 0 where
  pub connects : (h : History) → env.connects h ≡ true
  pub sends : (h : History) (message : List ℕ) → is_neg (env.conn_written h message) ≡ false
  pub stays : (h : History) → ended (env.conn_reads h 511) ≡ false
  pub no_invalid_key : (h : History) → strstr (env.conn_reads h 511).bytes "IS_OK:NO" ≡ false
  pub no_bad_login : (h : History) → strstr (text_of (env.conn_reads h 511)) "400 Bad" ≡ false

apart : {b : Bool} → b ≡ true → b ≡ false → ⊥
apart is_true is_false = cc

module _ (env : Env) (W : Willing env) where
  await_ok-passes :
      (fuel : ℕ) (d : Device) → Ensures (await_ok env fuel d) λ r. strstr r.0 "200 OK" ≡ true
  unfolding await_ok
  await_ok-passes zero d = Ensures-running
  await_ok-passes (suc fuel) d =
      let r : Read = env.conn_reads d.history 511 in
      Ensures-if (ended r) (λ over. absurd (apart over (W.stays d.history)))
        (λ _.
          Ensures-if (strstr (text_of r) "200 OK")
            (λ ok. Ensures-done (text_of r, log (conn_read r) d) ok)
            (λ _. await_ok-passes fuel (log (conn_read r) d)))

  await_login-passes : (fuel : ℕ) (d : Device) → Ensures (await_login env fuel d) λ r. r.0 ≡ true
  unfolding await_login
  await_login-passes zero d = Ensures-running
  await_login-passes (suc fuel) d =
      let sent : Device = log (conn_write heartbeat_request) d in
      let r : Read = env.conn_reads sent.history 511 in
      let heard : Device = log (conn_read r) sent in
      Ensures-if (ended r) (λ over. absurd (apart over (W.stays sent.history)))
        (λ _.
          Ensures-if (strstr (text_of r) "200 OK") (λ _. Ensures-done (true, heard) refl)
            (λ _.
              Ensures-if (strstr (text_of r) "400 Bad")
                (λ bad. absurd (apart bad (W.no_bad_login sent.history)))
                (λ _.
                  await_login-passes fuel
                    (log (task_delay 2500) (log (task_create_blink blue) heard)))))

  login-passes : (fuel : ℕ) (d : Device) → Ensures (login env fuel d) λ out. out.0 ≡ 1
  unfolding login
  login-passes fuel d =
      Ensures-after (await_login env fuel d) _ (await_login-passes fuel d)
        (λ r passes. Ensures-done (clear r.0 (log conn_destroy r.1)) (rw passes))

  answer_to_new_key-passes :
      (fuel : ℕ) (d : Device) → Ensures (answer_to_new_key env fuel d) λ out. out.0 ≡ 1
  unfolding answer_to_new_key
  answer_to_new_key-passes fuel d =
      let r : Read = env.conn_reads d.history 511 in
      Ensures-if (strstr r.bytes "IS_OK:NO")
        (λ no_key. absurd (apart no_key (W.no_invalid_key d.history)))
        (λ _. login-passes fuel (log (conn_read r) d))

  module _ (json : Json) where
    send_new_key-passes :
        (fuel : ℕ) (hex_uid random_bytes : List ℕ) (d : Device)
        → Ensures (send_new_key env json fuel hex_uid random_bytes d) λ out. out.0 ≡ 1
    unfolding send_new_key
    send_new_key-passes fuel hex_uid random_bytes d =
        Ensures-checked (hex_text env 15 random_bytes) _ λ text _.
          let message : List ℕ = request 512 (new_card_key_message json hex_uid text) in
          let printed : Device = log (alloc new_key_block) d in
          Ensures-if (is_neg (env.conn_written printed.history message))
            (λ unsent. absurd (apart unsent (W.sends printed.history message)))
            (λ _. answer_to_new_key-passes fuel (log (conn_write message) printed))

    renew_key-passes :
        (fuel : ℕ) (uid hex_uid : List ℕ) (d : Device)
        → Ensures (renew_key env json fuel uid hex_uid d) λ out. out.0 ≡ 1
    unfolding renew_key
    renew_key-passes fuel uid hex_uid d =
        let drawn : List ℕ × Device = generate_random_hex env 15 d in
        Ensures-checked (card_write_on_block env uid drawn.0 drawn.1) _ λ r e.
          let (_, _, wrote) = card_write_on_block-some env uid drawn.0 drawn.1 r e in
          let ok : (r.0 == 0) ≡ true = ap (λ (out : ℕ × Device). out.0 == 0) wrote in
          Ensures-if (not (r.0 == 0)) (λ failed. absurd (apart failed (ap not ok)))
            (λ _. send_new_key-passes fuel hex_uid drawn.0 _)

    send_card_key-passes :
        (fuel : ℕ) (uid hex_uid hex_key : List ℕ) (d : Device)
        → Ensures (send_card_key env json fuel uid hex_uid hex_key d) λ out. out.0 ≡ 1
    unfolding send_card_key
    send_card_key-passes fuel uid hex_uid hex_key d =
        let message : List ℕ = request 1024 (uid_key_message json hex_uid hex_key) in
        let printed : Device = log (alloc json_block) d in
        let sent : Device = log (conn_write message) printed in
        Ensures-if (is_neg (env.conn_written printed.history message))
          (λ unsent. absurd (apart unsent (W.sends printed.history message)))
          (λ _.
            Ensures-after (await_ok env fuel (log (free json_block) sent)) _
              (await_ok-passes fuel (log (free json_block) sent))
              λ r ok.
                Ensures-if (strstr r.0 "200 OK") (λ _. renew_key-passes fuel uid hex_uid r.1)
                  (λ deaf. absurd (apart ok deaf)))

    connect-passes :
        (fuel : ℕ) (uid card_key key crt : List ℕ) (d : Device)
        → Ensures (connect env json fuel uid card_key key crt d) λ out. out.0 ≡ 1
    unfolding connect
    connect-passes fuel uid card_key key crt d =
        Ensures-if (env.connects d.history)
          (λ _. Ensures-checked (hex_text env 7 uid) _ λ hex_uid _.
            Ensures-checked (hex_text env 15 card_key) _
              λ hex_key _. send_card_key-passes fuel uid hex_uid hex_key _)
          (λ cut. absurd (apart (W.connects d.history) cut))

-- A request with both keys stored, a whole UID and key of the card, and a willing server that does not
-- keep it waiting past `fuel` rounds: it returns, and returns 1.
pub https_request-passes :
    (env : Env) (json : Json) (C : Crypto) (F : FlashChip) (nul : ℕ) (chip : F.Chip) (fuel : ℕ)
    (heap uid card_key key crt : List ℕ) (d : Device)
    → Willing env
    → Answers env fuel
    → ArraysFit env
    → Holds C F nul chip false key
    → Holds C F nul chip true crt
    → length heap ≡ partition_size
    → 0 < length key
    → 0 < length crt
    → length key ≤ partition_size
    → length crt ≤ partition_size
    → 7 ≤ length uid
    → 15 ≤ length card_key
    → (out : ℕ × Device) × (https_request env json C F nul chip fuel heap uid card_key d ≡ done out)
      × (out.0 ≡ 1)
unfolding https_request
https_request-passes env json C F nul chip fuel heap uid card_key key crt d W S fit stored_key
      stored_crt size some_key some_crt key_fits crt_fits huid hkey =
    let ek = stored_key.reads heap heap size (omega arith) in
    let ec = stored_crt.reads heap heap size (omega arith) in
    let key_there : (length key == 0) ≡ false = ground arith in
    let crt_there : (length crt == 0) ≡ false = ground arith in
    let (out, e) =
      https_request-Returns env json C F nul chip fuel heap uid card_key d _ _ S fit ek ec huid
        hkey in
    let connects : connect env json fuel uid card_key _ _ _ ≡ done out =
      rw (ek, ec, key_there, crt_there) at e in
    (out, e, (connect-passes env W json fuel uid card_key _ _ _).at out connects)
