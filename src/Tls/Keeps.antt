-- ===== src/Tls/Keeps.antt =====
-- What https_request keeps from the moment at which it has asked for its connection: anything that no
-- later kind of call can change.
use rfid_encryption.Base.{
  ℕ, zero, suc, List, ◌∷◌, Bool, true, false, sym, subst, done, Ensures, Ensures-done, Ensures-if,
  Ensures-running, Ensures-after, Ensures-checked, strstr, is_neg, not, ◌==◌,
}
use rfid_encryption.Device.{
  Event, History, Device, Env, Read, log, conn_http_new, conn_read, conn_write, conn_destroy,
  random, get_time, free, alloc, key_block, crt_block, json_block, new_key_block, task_create_blink,
  task_delay, blue, authenticate_block, write_data_block,
}
use rfid_encryption.Card.{card_write_on_block, key_a}
use rfid_encryption.Card.Laws.{card_write_on_block-some}
use rfid_encryption.Tls.{
  clear, generate_random_hex, hex_text, login, answer_to_new_key, send_new_key, renew_key,
  send_card_key,
}
use rfid_encryption.Tls.Message.{
  Json, request, heartbeat_request, uid_key_message, new_card_key_message,
}
use rfid_encryption.Tls.Wait.{text_of, ended, await_ok, await_login}

-- Any call but one for a connection.
abbrev pub IsLater : Event → Type 0
IsLater (conn_http_new crt key saved) = ⊥
IsLater _ = Unit {0}

-- The calls that follow once the server is told of a new key.
abbrev pub IsReply : Event → Type 0
IsReply (conn_write message) = Unit {0}
IsReply (conn_read r) = Unit {0}
IsReply conn_destroy = Unit {0}
IsReply (task_create_blink c) = Unit {0}
IsReply (task_delay ms) = Unit {0}
IsReply (free b) = Unit {0}
IsReply _ = ⊥

IsReply-IsLater : (e : Event) → IsReply e → IsLater e
IsReply-IsLater (conn_http_new crt key saved) reply = reply
IsReply-IsLater _ reply = tt

module _ (env : Env) (Q : History → Type 0)
    (keep : (e : Event) (h : History) → IsReply e → Q h → Q (e ∷ h)) where
  pub cleared :
      (pass : Bool) (d : Device)
      → Q d.history
      → Ensures (done (clear pass d)) λ out. Q out.1.history
  cleared pass d q =
      Ensures-done (clear pass d)
        (keep (free crt_block) _ tt (keep (free key_block) d.history tt q))

  pub closed :
      (pass : Bool) (d : Device)
      → Q d.history
      → Ensures (done (clear pass (log conn_destroy d))) λ out. Q out.1.history
  closed pass d q = cleared pass (log conn_destroy d) (keep conn_destroy d.history tt q)

  pub await_ok-keeps :
      (fuel : ℕ) (d : Device) → Q d.history → Ensures (await_ok env fuel d) λ out. Q out.1.history
  unfolding await_ok
  await_ok-keeps zero d q = Ensures-running
  await_ok-keeps (suc fuel) d q =
      let r : Read = env.conn_reads d.history 511 in
      let q' : Q (conn_read r ∷ d.history) = keep (conn_read r) d.history tt q in
      Ensures-if (ended r) (λ _. Ensures-done (text_of r, log (conn_read r) d) q')
        (λ _.
          Ensures-if (strstr (text_of r) "200 OK")
            (λ _. Ensures-done (text_of r, log (conn_read r) d) q')
            (λ _. await_ok-keeps fuel (log (conn_read r) d) q'))

  await_login-keeps :
      (fuel : ℕ) (d : Device)
      → Q d.history
      → Ensures (await_login env fuel d) λ out. Q out.1.history
  unfolding await_login
  await_login-keeps zero d q = Ensures-running
  await_login-keeps (suc fuel) d q =
      let sent : Device = log (conn_write heartbeat_request) d in
      let r : Read = env.conn_reads sent.history 511 in
      let heard : Device = log (conn_read r) sent in
      let q' : Q heard.history =
        keep (conn_read r) _ tt (keep (conn_write heartbeat_request) d.history tt q) in
      Ensures-if (ended r) (λ _. Ensures-done (false, heard) q')
        (λ _.
          Ensures-if (strstr (text_of r) "200 OK") (λ _. Ensures-done (true, heard) q')
            (λ _.
              Ensures-if (strstr (text_of r) "400 Bad") (λ _. Ensures-done (false, heard) q')
                (λ _.
                  await_login-keeps fuel
                    (log (task_delay 2500) (log (task_create_blink blue) heard))
                    (keep (task_delay 2500) _ tt
                      (keep (task_create_blink blue) heard.history tt q')))))

  login-keeps :
      (fuel : ℕ) (d : Device) → Q d.history → Ensures (login env fuel d) λ out. Q out.1.history
  unfolding login
  login-keeps fuel d q =
      Ensures-after (await_login env fuel d) _ (await_login-keeps fuel d q)
        (λ r q'. closed r.0 r.1 q')

  pub answer_to_new_key-keeps :
      (fuel : ℕ) (d : Device)
      → Q d.history
      → Ensures (answer_to_new_key env fuel d) λ out. Q out.1.history
  unfolding answer_to_new_key
  answer_to_new_key-keeps fuel d q =
      let r : Read = env.conn_reads d.history 511 in
      let q' : Q (conn_read r ∷ d.history) = keep (conn_read r) d.history tt q in
      Ensures-if (strstr r.bytes "IS_OK:NO") (λ _. closed false (log (conn_read r) d) q')
        (λ _. login-keeps fuel (log (conn_read r) d) q')

module _ (env : Env) (Q : History → Type 0)
    (keep : (e : Event) (h : History) → IsLater e → Q h → Q (e ∷ h)) where
  keep_reply : (e : Event) (h : History) → IsReply e → Q h → Q (e ∷ h)
  keep_reply e h reply q = keep e h (IsReply-IsLater e reply) q

  generate_random_hex-keeps :
      (n : ℕ) (d : Device) → Q d.history → Q (generate_random_hex env n d).1.history
  unfolding generate_random_hex
  generate_random_hex-keeps zero d q = q
  generate_random_hex-keeps (suc n) d q =
      generate_random_hex-keeps n (log random d) (keep random d.history tt q)

  module _ (json : Json) where
    send_new_key-keeps :
        (fuel : ℕ) (hex_uid random_bytes : List ℕ) (d : Device)
        → Q d.history
        → Ensures (send_new_key env json fuel hex_uid random_bytes d) λ out. Q out.1.history
    unfolding send_new_key
    send_new_key-keeps fuel hex_uid random_bytes d q =
        Ensures-checked (hex_text env 15 random_bytes) _ λ text _.
          let message : List ℕ = request 512 (new_card_key_message json hex_uid text) in
          let printed : Device = log (alloc new_key_block) d in
          let sent : Device = log (conn_write message) printed in
          let q' : Q sent.history =
            keep (conn_write message) _ tt (keep (alloc new_key_block) d.history tt q) in
          Ensures-if (is_neg (env.conn_written printed.history message))
            (λ _. cleared env Q keep_reply false sent q')
            (λ _. answer_to_new_key-keeps env Q keep_reply fuel sent q')

    renew_key-keeps :
        (fuel : ℕ) (uid hex_uid : List ℕ) (d : Device)
        → Q d.history
        → Ensures (renew_key env json fuel uid hex_uid d) λ out. Q out.1.history
    unfolding renew_key
    renew_key-keeps fuel uid hex_uid d q =
        let drawn : List ℕ × Device = generate_random_hex env 15 d in
        Ensures-checked (card_write_on_block env uid drawn.0 drawn.1) _ λ r e.
          let (block, _, wrote) = card_write_on_block-some env uid drawn.0 drawn.1 r e in
          let q' : Q r.1.history =
            subst (λ (out : ℕ × Device). Q out.1.history) (sym wrote)
              (keep (write_data_block 4 block) _ tt (
                keep (authenticate_block uid 4 4 0 key_a) _ tt
                  (generate_random_hex-keeps 15 d q))) in
          Ensures-if (not (r.0 == 0)) (λ _. closed env Q keep_reply false r.1 q')
            (λ _.
              send_new_key-keeps fuel hex_uid drawn.0
                (log get_time (record (r.1) { start_time = 0; end_time = 0 }))
                (keep get_time r.1.history tt q'))

    pub send_card_key-keeps :
        (fuel : ℕ) (uid hex_uid hex_key : List ℕ) (d : Device)
        → Q d.history
        → Ensures (send_card_key env json fuel uid hex_uid hex_key d) λ out. Q out.1.history
    unfolding send_card_key
    send_card_key-keeps fuel uid hex_uid hex_key d q =
        let message : List ℕ = request 1024 (uid_key_message json hex_uid hex_key) in
        let printed : Device = log (alloc json_block) d in
        let sent : Device = log (conn_write message) printed in
        let q' : Q sent.history =
          keep (conn_write message) _ tt (keep (alloc json_block) d.history tt q) in
        Ensures-if (is_neg (env.conn_written printed.history message))
          (λ _. closed env Q keep_reply false sent q')
          (λ _.
            Ensures-after (await_ok env fuel (log (free json_block) sent)) _
              (await_ok-keeps env Q keep_reply fuel (log (free json_block) sent)
                (keep (free json_block) sent.history tt q'))
              λ r got.
                Ensures-if (strstr r.0 "200 OK") (λ _. renew_key-keeps fuel uid hex_uid r.1 got)
                  (λ _. closed env Q keep_reply false r.1 got))
