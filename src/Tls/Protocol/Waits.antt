-- ===== src/Tls/Protocol/Waits.antt =====
-- The loops of https_request, and what follows them, along the protocol.
use rfid_encryption.Base.{
  ℕ, zero, suc, ◌≡◌, refl, List, Bool, true, false, done, Ensures, Ensures-done, Ensures-if,
  Ensures-running, Ensures-after, strstr, if◌then◌else◌,
}
use rfid_encryption.Device.{
  History, Device, Env, Read, log, conn_read, conn_write, conn_destroy, free, random,
  task_create_blink, task_delay, blue, key_block,
}
use rfid_encryption.Tls.{clear, generate_random_hex, login, answer_to_new_key}
use rfid_encryption.Tls.Message.{Json, heartbeat_request}
use rfid_encryption.Tls.Wait.{text_of, ended, await_ok, await_login}
use rfid_encryption.Tls.Protocol.{
  Phase, listening, granted, told, waiting, beating, unsure, passed, closing, freed, closed, Step,
  Run, next,
}

module _ (env : Env) (json : Json) (uid card_key : List ℕ) (h : History) where
  -- Runs of this request up to a device.
  abbrev pub At : Phase → Device → Type 0
  At p d = Run json uid card_key h p d.history

  -- A request that is over, and what it returns.
  abbrev pub IsOver : ℕ × Device → Type 0
  IsOver out = (passes : Bool) × (out.0 ≡ (if passes then 1 else 0)) × At (closed passes) out.1

  pub cleared :
      (passes : Bool) (d : Device) → At (closing passes) d → Ensures (done (clear passes d)) IsOver
  cleared passes d run =
      Ensures-done (clear passes d)
        (passes, refl, next (next run (Step.free_key passes)) (Step.free_crt passes))

  -- What the wait for the grant leaves: its answer decides where the request stands.
  abbrev pub Answered : List ℕ × Device → Type 0
  Answered out =
      (strstr out.0 "200 OK" ≡ true → At granted out.1)
      × (strstr out.0 "200 OK" ≡ false → At listening out.1)

  answered :
      (r : Read) (d : Device)
      → At listening d
      → Ensures (done (text_of r, log (conn_read r) d)) Answered
  answered r d run =
      Ensures-done (text_of r, log (conn_read r) d)
        ((λ ok. next run (Step.grant r ok)), (λ no. next run (Step.deaf r no)))

  pub await_ok-Run :
      (fuel : ℕ) (d : Device) → At listening d → Ensures (await_ok env fuel d) Answered
  unfolding await_ok
  await_ok-Run zero d run = Ensures-running
  await_ok-Run (suc fuel) d run =
      let r : Read = env.conn_reads d.history 511 in
      Ensures-if (ended r) (λ _. answered r d run)
        (λ _.
          Ensures-if (strstr (text_of r) "200 OK") (λ _. answered r d run)
            (λ no. await_ok-Run fuel (log (conn_read r) d) (next run (Step.deaf r no))))

  -- The same for the wait for the login.
  abbrev LoggedIn : Bool × Device → Type 0
  LoggedIn out = (out.0 ≡ true → At passed out.1) × (out.0 ≡ false → At unsure out.1)

  doubted :
      (r : Read) (d : Device) → At beating d → Ensures (done (false, log (conn_read r) d)) LoggedIn
  doubted r d run =
      Ensures-done (false, log (conn_read r) d) ((λ t. cc), (λ _. next run (Step.doubt r)))

  await_login-Run :
      (fuel : ℕ) (d : Device) → At waiting d → Ensures (await_login env fuel d) LoggedIn
  unfolding await_login
  await_login-Run zero d run = Ensures-running
  await_login-Run (suc fuel) d run =
      let sent : Device = log (conn_write heartbeat_request) d in
      let r : Read = env.conn_reads sent.history 511 in
      let heard : Device = log (conn_read r) sent in
      let beaten : At beating sent = next run (Step.beat heartbeat_request refl) in
      Ensures-if (ended r) (λ _. doubted r sent beaten)
        (λ more.
          Ensures-if (strstr (text_of r) "200 OK")
            (λ ok. Ensures-done (true, heard) ((λ _. next beaten (Step.pass r more ok)), (λ f. cc)))
            (λ _.
              Ensures-if (strstr (text_of r) "400 Bad") (λ _. doubted r sent beaten)
                (λ _.
                  await_login-Run fuel (log (task_delay 2500) (log (task_create_blink blue) heard))
                    (next (next (next beaten (Step.doubt r)) Step.blink) (Step.pause 2500)))))

  login-Run : (fuel : ℕ) (d : Device) → At waiting d → Ensures (login env fuel d) IsOver
  unfolding login
  login-Run fuel d run =
      Ensures-after (await_login env fuel d) (λ r. done (clear r.0 (log conn_destroy r.1)))
        (await_login-Run fuel d run) (λ out at. over out.0 out.1 at)
    where
      over :
          (passes : Bool) (d' : Device)
          → LoggedIn (passes, d')
          → Ensures (done (clear passes (log conn_destroy d'))) IsOver
      over true d' at = cleared true (log conn_destroy d') (next (at.0 refl) Step.end_pass)
      over false d' at = cleared false (log conn_destroy d') (next (at.1 refl) Step.give_up)

  pub answer_to_new_key-Run :
      (fuel : ℕ) (d : Device) → At told d → Ensures (answer_to_new_key env fuel d) IsOver
  unfolding answer_to_new_key
  answer_to_new_key-Run fuel d run =
      let r : Read = env.conn_reads d.history 511 in
      let heard : Device = log (conn_read r) d in
      Ensures-if (strstr r.bytes "IS_OK:NO")
        (λ no.
          cleared false (log conn_destroy heard) (next (next run (Step.refuse r no)) Step.hang_up))
        (λ yes'. login-Run fuel heard (next run (Step.accept r yes')))

  -- Not telling the server is the one way out that leaves the connection open.
  pub freed_open :
      (d : Device)
      → At (freed false) (log (free key_block) d)
      → Ensures (done (clear false d)) IsOver
  freed_open d run = Ensures-done (clear false d) (false, refl, next run (Step.free_crt false))

  pub generate_random_hex-Run :
      (n : ℕ) (d : Device) → At granted d → At granted (generate_random_hex env n d).1
  unfolding generate_random_hex
  generate_random_hex-Run zero d run = run
  generate_random_hex-Run (suc n) d run =
      generate_random_hex-Run n (log random d) (next run Step.draw)
