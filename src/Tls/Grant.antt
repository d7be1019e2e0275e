-- ===== src/Tls/Grant.antt =====
-- What https_request does to the card, and what a pass means.
use rfid_encryption.Base.{
  ℕ, zero, suc, ◌≡◌, refl, sym, ap, subst, ◌∙◌, List, ◌∷◌, Bool, true, false, done, Ensures,
  Ensures-done, Ensures-if, Ensures-after, Ensures-checked, strstr, take, is_neg, ◌==◌, not, ◌||◌,
  ◌⊎◌, inl, inr,
}
use rfid_encryption.Device.{
  History, Device, Env, Read, log, conn_read, conn_write, conn_http_new, conn_destroy, alloc, free,
  key_block, crt_block, json_block, new_key_block, get_time, random,
}
use rfid_encryption.Flash.Aes.{Crypto}
use rfid_encryption.Flash.Storage.{FlashChip, flash_reader, partition_size}
use rfid_encryption.Card.{card_write_on_block}
use rfid_encryption.Card.Laws.{card_write_on_block-some}
use rfid_encryption.Tls.{
  clear, generate_random_hex, login, answer_to_new_key, send_new_key, renew_key, send_card_key,
  connect, https_request, hex_text,
}
use rfid_encryption.Tls.Message.{
  Json, heartbeat_request, request, uid_key_message, new_card_key_message,
}
use rfid_encryption.Tls.Wait.{text_of, await_ok, await_login}
use rfid_encryption.Tls.Trace.{
  session_granted, key_renewed, Passed, Authorised, await_ok-Authorised, await_login-Authorised,
  or_true,
}

-- The history is authorised, and the result is 0, or it is 1 on a pass.
abbrev pub IsSound : ℕ × Device → Type 0
IsSound out = Authorised out.1.history × ((out.0 ≡ 0) ⊎ ((out.0 ≡ 1) × Passed out.1.history))

-- What holds once the card has its new key.
abbrev IsRenewed : History → Type 0
IsRenewed h = Authorised h × (session_granted h ≡ true) × (key_renewed h ≡ true)

Passed-of :
    (d : Device)
    → (session_granted d.history ≡ true)
    → (key_renewed d.history ≡ true)
    → ((r : Read) × (h : History) × (d.history ≡ conn_read r ∷ conn_write heartbeat_request ∷ h)
        × (strstr (text_of r) "200 OK" ≡ true))
    → Passed (free crt_block ∷ free key_block ∷ conn_destroy ∷ d.history)
Passed-of d g k (r, h, e, ok) =
    (r, h, ap (λ t. free crt_block ∷ free key_block ∷ conn_destroy ∷ t) e, ok, g, k)

refused :
    (d : Device) → Authorised d.history → IsSound (0, log (free crt_block) (log (free key_block) d))
refused d a = (a, inl refl)

cleared :
    (pass : Bool) (d : Device)
    → Authorised d.history
    → (pass ≡ true → Passed (free crt_block ∷ free key_block ∷ d.history))
    → IsSound (clear pass d)
cleared true d a p = (a, inr (refl, p refl))
cleared false d a p = refused d a

-- The read that ended the first loop is the grant.
granted_of :
    (buf : List ℕ) (d : Device)
    → (r : Read) × (h : History) × (d.history ≡ conn_read r ∷ h) × (text_of r ≡ buf)
    → strstr buf "200 OK" ≡ true
    → session_granted d.history ≡ true
granted_of buf d (r, h, e, t) ok =
    let ok' : strstr (text_of r) "200 OK" ≡ true = rw t ok in rw (e, ok')

module _ (env : Env) where
  -- Drawing random bytes leaves the session as it was.
  random_keeps :
      (n : ℕ) (d : Device)
      → (Authorised d.history → Authorised (generate_random_hex env n d).1.history)
        × (session_granted (generate_random_hex env n d).1.history ≡ session_granted d.history)
  unfolding generate_random_hex
  random_keeps zero d = (λ a. a, refl)
  random_keeps (suc n) d = let (a, g) = random_keeps n (log random d) in (λ a'. a a', g)

  login-IsSound : (fuel : ℕ) (d : Device) → IsRenewed d.history → Ensures (login env fuel d) IsSound
  unfolding login
  login-IsSound fuel d (a, g, k) =
      Ensures-after (await_login env fuel d) (λ r. done (clear r.0 (log conn_destroy r.1)))
        (await_login-Authorised env fuel d a)
        (λ out (a', k', g', p). Ensures-done (clear out.0 (log conn_destroy out.1)) (
          cleared out.0 (log conn_destroy out.1) a'
            λ pass. Passed-of out.1 (g' g) (k' ∙ k) (p pass)))

  answer_to_new_key-IsSound :
      (fuel : ℕ) (d : Device) → IsRenewed d.history → Ensures (answer_to_new_key env fuel d) IsSound
  unfolding answer_to_new_key
  answer_to_new_key-IsSound fuel d (a, g, k) =
      let r : Read = env.conn_reads d.history 511 in
      let heard : Device = log (conn_read r) d in
      Ensures-if (strstr r.bytes "IS_OK:NO")
        (λ _.
          Ensures-done (clear false (log conn_destroy heard)) (refused (log conn_destroy heard) a))
        (λ _. login-IsSound fuel heard (a, or_true (strstr (text_of r) "200 OK") _ g, k))

  module _ (json : Json) where
    send_new_key-IsSound :
        (fuel : ℕ) (hex_uid random_bytes : List ℕ) (d : Device)
        → IsRenewed d.history
        → Ensures (send_new_key env json fuel hex_uid random_bytes d) IsSound
    unfolding send_new_key
    send_new_key-IsSound fuel hex_uid random_bytes d (a, g, k) =
        Ensures-checked (hex_text env 15 random_bytes) _ λ hex_random_bytes _.
          let message : List ℕ = request 512 (new_card_key_message json hex_uid hex_random_bytes) in
          let printed : Device = log (alloc new_key_block) d in
          let sent : Device = log (conn_write message) printed in
          Ensures-if (is_neg (env.conn_written printed.history message))
            (λ _. Ensures-done (clear false sent) (refused sent a))
            (λ _. answer_to_new_key-IsSound fuel sent (a, g, k))

    renew_key-IsSound :
        (fuel : ℕ) (uid hex_uid : List ℕ) (d : Device)
        → Authorised d.history
        → session_granted d.history ≡ true
        → Ensures (renew_key env json fuel uid hex_uid d) IsSound
    unfolding renew_key
    renew_key-IsSound fuel uid hex_uid d a g =
        let drawn : List ℕ × Device = generate_random_hex env 15 d in
        let (keep, same) = random_keeps 15 d in
        Ensures-checked (card_write_on_block env uid drawn.0 drawn.1) _ λ r e.
          let (block, _, wrote) = card_write_on_block-some env uid drawn.0 drawn.1 r e in
          let renewed : IsRenewed r.1.history =
            subst (λ (q : ℕ × Device). IsRenewed q.1.history) (sym wrote)
              ((same ∙ g, keep a), same ∙ g, refl) in
          Ensures-if (not (r.0 == 0))
            (λ _.
              Ensures-done (clear false (log conn_destroy r.1))
                (refused (log conn_destroy r.1) renewed.0))
            (λ _.
              send_new_key-IsSound fuel hex_uid drawn.0
                (log get_time (record (r.1) { start_time = 0; end_time = 0 })) renewed)

    send_card_key-IsSound :
        (fuel : ℕ) (uid hex_uid hex_key : List ℕ) (d : Device)
        → Authorised d.history
        → Ensures (send_card_key env json fuel uid hex_uid hex_key d) IsSound
    unfolding send_card_key
    send_card_key-IsSound fuel uid hex_uid hex_key d a =
        let message : List ℕ = request 1024 (uid_key_message json hex_uid hex_key) in
        let printed : Device = log (alloc json_block) d in
        let sent : Device = log (conn_write message) printed in
        Ensures-if (is_neg (env.conn_written printed.history message))
          (λ _.
            Ensures-done (clear false (log conn_destroy sent)) (refused (log conn_destroy sent) a))
          (λ _.
            Ensures-after (await_ok env fuel (log (free json_block) sent)) _
              (await_ok-Authorised env fuel (log (free json_block) sent) a)
              λ out (a', heard, _).
                Ensures-if (strstr out.0 "200 OK")
                  (λ ok.
                    renew_key-IsSound fuel uid hex_uid out.1 a' (granted_of out.0 out.1 heard ok))
                  (λ _.
                    Ensures-done (clear false (log conn_destroy out.1))
                      (refused (log conn_destroy out.1) a')))

    connect-IsSound :
        (fuel : ℕ) (uid card_key key crt : List ℕ) (d : Device)
        → Authorised d.history
        → Ensures (connect env json fuel uid card_key key crt d) IsSound
    unfolding connect
    connect-IsSound fuel uid card_key key crt d a =
        let opened : Device = log (conn_http_new crt key d.saved_client_session) d in
        Ensures-if (env.connects d.history)
          (λ _. Ensures-checked (hex_text env 7 uid) _ λ hex_uid _.
            Ensures-checked (hex_text env 15 card_key) _ λ hex_key _.
              send_card_key-IsSound fuel uid hex_uid hex_key
                (record opened {
                  saved_client_session =
                      d.saved_client_session || env.client_session opened.history;
                })
                a)
          (λ _. Ensures-done (clear false opened) (refused opened a))

-- Whatever the card, the server and the flash answer, a request that ends has written to the card
-- only in a session in which the server had said "200 OK" by then, and has started no green lamp
-- (if both held of what came before). It returns 0 or 1. If 1, the server had said so and a write had
-- been sent to the card in this session, the last heartbeat was answered by "200 OK", and then the
-- connection was destroyed and both keys were freed.
pub https_request-IsSound :
    (env : Env) (json : Json) (C : Crypto) (F : FlashChip) (nul : ℕ) (chip : F.Chip) (fuel : ℕ)
    (heap uid card_key : List ℕ) (d : Device) (out : ℕ × Device)
    → Authorised d.history
    → https_request env json C F nul chip fuel heap uid card_key d ≡ done out
    → IsSound out
unfolding https_request
https_request-IsSound env json C F nul chip fuel heap uid card_key d out a e = sound.at out e
  where
    sound : Ensures (https_request env json C F nul chip fuel heap uid card_key d) IsSound
    sound = Ensures-checked (flash_reader C F nul chip heap heap partition_size false) _ λ k _.
        Ensures-checked (flash_reader C F nul chip heap heap partition_size true) _ λ c _.
          let loaded : Device = log (alloc crt_block) (log (alloc key_block) d) in
          Ensures-if (k.0 == 0) (λ _. Ensures-done (clear false loaded) (refused loaded a))
            (λ _.
              Ensures-if (c.0 == 0) (λ _. Ensures-done (clear false loaded) (refused loaded a))
                (λ _.
                  connect-IsSound env json fuel uid card_key (take k.0 k.1) (take c.0 c.1) loaded
                    a))
