-- ===== src/Tls/Trace.antt =====
-- What a history of https_request is checked for, and what the two waiting loops add to it.
use rfid_encryption.Base.{
  ℕ, zero, suc, ◌≡◌, refl, [], ◌∷◌, Bool, true, false, Ensures, Ensures-done, Ensures-if,
  Ensures-running, strstr, ◌||◌, arith,
}
use rfid_encryption.Device.{
  History, Device, Env, Read, log, conn_read, conn_write, conn_http_new, write_data_block,
  task_delay, task_create_blink, blue, green, conn_destroy, free, crt_block, key_block,
  card_key_block,
}
use rfid_encryption.Tls.Message.{heartbeat_request}
use rfid_encryption.Tls.Wait.{text_of, ended, await_ok, await_login}

-- Whether the server has said "200 OK" since the connection was made.
abbrev pub session_granted : History → Bool
session_granted [] = false
session_granted (conn_read r ∷ h) = strstr (text_of r) "200 OK" || session_granted h
session_granted (conn_http_new crt key saved ∷ h) = false
session_granted (_ ∷ h) = session_granted h

-- Whether a block of the card has been written since the connection was made.
abbrev pub key_renewed : History → Bool
key_renewed [] = false
key_renewed (write_data_block number bytes ∷ h) = true
key_renewed (conn_http_new crt key saved ∷ h) = false
key_renewed (_ ∷ h) = key_renewed h

-- The last calls of a request that passes: a heartbeat answered by "200 OK", the connection
-- destroyed and both keys freed. In that session the server had said "200 OK" by then and a write
-- had been sent to the card.
abbrev pub Passed : History → Type 0
Passed h =
    (r : Read) × (h' : History) × (h
      ≡ free crt_block
        ∷ free key_block
        ∷ conn_destroy
        ∷ conn_read r
        ∷ conn_write heartbeat_request
        ∷ h')
    × (strstr (text_of r) "200 OK" ≡ true)
    × (session_granted h ≡ true)
    × (key_renewed h ≡ true)

-- Such a request came directly before, and then the round's key was freed.
abbrev pub Shown : History → Type 0
Shown h = (h' : History) × (h ≡ free card_key_block ∷ h') × Passed h'

-- The card was written only in sessions that the server had granted by then, and the green lamp was
-- started only after a request that passed, with nothing between but the free of the round's key.
abbrev pub Authorised : History → Type 0
Authorised [] = Unit {0}
Authorised (write_data_block number bytes ∷ h) = (session_granted h ≡ true) × Authorised h
Authorised (task_create_blink green ∷ h) = Shown h × Authorised h
Authorised (_ ∷ h) = Authorised h

pub or_true : (b c : Bool) → c ≡ true → (b || c) ≡ true
or_true b c h = ground arith

module _ (env : Env) where
  -- The first loop ends with a read, whose text it returns.
  pub await_ok-Authorised :
      (fuel : ℕ) (d : Device)
      → Authorised d.history
      → Ensures (await_ok env fuel d) λ out.
        Authorised out.1.history
        × ((r : Read) × (h : History) × (out.1.history ≡ conn_read r ∷ h) × (text_of r ≡ out.0))
        × (key_renewed out.1.history ≡ key_renewed d.history)
  unfolding await_ok
  await_ok-Authorised zero d a = Ensures-running
  await_ok-Authorised (suc fuel) d a =
      let r : Read = env.conn_reads d.history 511 in
      Ensures-if (ended r)
        (λ _. Ensures-done (text_of r, log (conn_read r) d) (a, (r, d.history, refl, refl), refl))
        (λ _.
          Ensures-if (strstr (text_of r) "200 OK")
            (λ _.
              Ensures-done (text_of r, log (conn_read r) d) (a, (r, d.history, refl, refl), refl))
            (λ _. await_ok-Authorised fuel (log (conn_read r) d) a))

  -- The last loop passes only on the answer to a heartbeat.
  pub await_login-Authorised :
      (fuel : ℕ) (d : Device)
      → Authorised d.history
      → Ensures (await_login env fuel d) λ out.
        Authorised out.1.history
        × (key_renewed out.1.history ≡ key_renewed d.history)
        × (session_granted d.history ≡ true → session_granted out.1.history ≡ true)
        × (out.0 ≡ true
            → (r : Read) × (h : History) × (out.1.history
                ≡ conn_read r ∷ conn_write heartbeat_request ∷ h)
              × (strstr (text_of r) "200 OK" ≡ true))
  unfolding await_login
  await_login-Authorised zero d a = Ensures-running
  await_login-Authorised (suc fuel) d a =
      let sent : Device = log (conn_write heartbeat_request) d in
      let r : Read = env.conn_reads sent.history 511 in
      let heard : Device = log (conn_read r) sent in
      let still = λ (g : session_granted d.history ≡ true).
        or_true (strstr (text_of r) "200 OK") (session_granted d.history) g in
      Ensures-if (ended r) (λ _. Ensures-done (false, heard) (a, refl, still, λ t. cc))
        (λ _.
          Ensures-if (strstr (text_of r) "200 OK")
            (λ ok. Ensures-done (true, heard) (a, refl, still, λ t. (r, d.history, refl, ok)))
            (λ _.
              Ensures-if (strstr (text_of r) "400 Bad")
                (λ _. Ensures-done (false, heard) (a, refl, still, λ t. cc))
                (λ _.
                  let again : Device = log (task_delay 2500) (log (task_create_blink blue) heard) in
                  record {
                    at = λ out e.
                        let (a', k, g, p) = (await_login-Authorised fuel again a).at out e in
                        (a', k, λ granted. g (still granted), p);
                  })))
