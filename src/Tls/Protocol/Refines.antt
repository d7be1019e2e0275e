-- ===== src/Tls/Protocol/Refines.antt =====
-- https_request of main/tls_connection.c along the protocol.
use rfid_encryption.Base.{
  ℕ, ◌≡◌, ◌≢◌, some, refl, sym, ap, ◌∙◌, subst, List, ◌∷◌, Bool, true, false, done, Ensures,
  Ensures-if, Ensures-after, Ensures-checked, strstr, take, take-all, length, arith, is_neg, ◌==◌,
  not, ◌||◌, if◌then◌else◌,
}
use rfid_encryption.Device.{
  History, Device, Env, log, conn_write, conn_http_new, conn_destroy, alloc, free, get_time,
  authenticate_block, write_data_block, json_block, new_key_block, key_block, crt_block,
}
use rfid_encryption.Flash.Aes.{Crypto}
use rfid_encryption.Flash.Storage.{FlashChip, flash_reader, partition_size}
use rfid_encryption.Card.{card_write_on_block, key_a}
use rfid_encryption.Card.Laws.{card_write_on_block_lem}
use rfid_encryption.Hex.Laws.{hex}
use rfid_encryption.Tls.{
  generate_random_hex, send_new_key, renew_key, send_card_key, connect, https_request, hex_text,
}
use rfid_encryption.Tls.Message.{Json, request, uid_key_message, new_card_key_message}
use rfid_encryption.Tls.Wait.{await_ok}
use rfid_encryption.Tls.Loops.{ArraysFit, length-generate}
use rfid_encryption.Tls.Digits.{hex_text-hex}
use rfid_encryption.Tls.Protocol.Waits.{
  At, IsOver, cleared, freed_open, await_ok-Run, answer_to_new_key-Run, generate_random_hex-Run,
}
use rfid_encryption.Tls.Protocol.{
  loaded, opened, asked, granted, written, told, closed, Step, Run, start, next, telling,
}

module _ (env : Env) (json : Json) (uid card_key : List ℕ) (h : History) (fit : ArraysFit env)
    (hex_uid hex_key : List ℕ) (uid_text : hex_uid ≡ hex (take 7 uid))
    (key_text : hex_key ≡ hex (take 15 card_key)) where
  send_new_key-Run :
      (fuel : ℕ) (new_key : List ℕ) (d : Device)
      → length new_key ≡ 15
      → At env json uid card_key h (written new_key) d
      → Ensures (send_new_key env json fuel hex_uid new_key d) (IsOver env json uid card_key h)
  unfolding send_new_key
  send_new_key-Run fuel new_key d size run =
      Ensures-checked (hex_text env 15 new_key) _ λ text made.
        let m : List ℕ = request 512 (new_card_key_message json hex_uid text) in
        let sent : Device = log (conn_write m) (log (alloc new_key_block) d) in
        let digits : text ≡ hex new_key =
          hex_text-hex env 15 new_key text fit (omega arith) made
          ∙ ap hex (take-all 15 new_key (omega arith)) in
        let same : m ≡ telling json uid card_key new_key = rw (digits, uid_text) in
        let tried : At env json uid card_key h told sent =
          next (next run (Step.announce new_key)) (Step.tell new_key m same) in
        Ensures-if (is_neg (env.conn_written (alloc new_key_block ∷ d.history) m))
          (λ _. freed_open env json uid card_key h sent (next tried Step.not_told))
          (λ _. answer_to_new_key-Run env json uid card_key h fuel sent tried)

  -- The card after the write of a new key of 15 bytes.
  card_write_on_block-Run :
      (new_key : List ℕ) (d : Device) (r : ℕ × Device)
      → length new_key ≡ 15
      → At env json uid card_key h granted d
      → card_write_on_block env uid new_key d ≡ some r
      → ((r.0 == 0) ≡ true) × At env json uid card_key h (written new_key) r.1
  card_write_on_block-Run new_key d r size run e =
      let known : Device = log (authenticate_block uid 4 4 0 key_a) d in
      let stored : Device = log (write_data_block 4 (0 ∷ take 15 new_key)) known in
      let wrote : some (0, stored) ≡ some r =
        sym ((card_write_on_block_lem env uid new_key d).0 (omega (arith, size))) ∙ e in
      let same : (0, stored) ≡ r = cc in
      subst
        (λ (q : ℕ × Device). ((q.0 == 0) ≡ true) × At env json uid card_key h (written new_key) q.1)
        same
        (
          refl,
          next (next run (Step.authenticate uid key_a 4 4 0 refl refl refl)) (
              Step.write new_key (0 ∷ take 15 new_key) 4 refl size
                (ap (λ (k : List ℕ). 0 ∷ k) (take-all 15 new_key (omega (arith, size))))),
        )

  renew_key-Run :
      (fuel : ℕ) (d : Device)
      → At env json uid card_key h granted d
      → Ensures (renew_key env json fuel uid hex_uid d) (IsOver env json uid card_key h)
  unfolding renew_key
  renew_key-Run fuel d run =
      let drawn : List ℕ × Device = generate_random_hex env 15 d in
      let size : length drawn.0 ≡ 15 = length-generate env 15 d in
      Ensures-checked (card_write_on_block env uid drawn.0 drawn.1) _ λ r e.
        let (zero_ret, stored) =
          card_write_on_block-Run drawn.0 drawn.1 r size
            (generate_random_hex-Run env json uid card_key h 15 d run) e in
        Ensures-if (not (r.0 == 0)) (λ failed. absurd (never (r.0 == 0) zero_ret failed))
          (λ _.
            send_new_key-Run fuel drawn.0
              (log get_time (record (r.1) { start_time = 0; end_time = 0 })) size
              (next stored (Step.clock drawn.0)))
    where
      never : (b : Bool) → b ≡ true → not b ≢ true
      never b e f = ground arith

  send_card_key-Run :
      (fuel : ℕ) (d : Device)
      → At env json uid card_key h opened d
      → Ensures (send_card_key env json fuel uid hex_uid hex_key d) (IsOver env json uid card_key h)
  unfolding send_card_key
  send_card_key-Run fuel d run =
      let m : List ℕ = request 1024 (uid_key_message json hex_uid hex_key) in
      let sent : Device = log (conn_write m) (log (alloc json_block) d) in
      let tried : At env json uid card_key h asked sent =
        next (next run Step.print) (Step.ask m (rw (uid_text, key_text))) in
      Ensures-if (is_neg (env.conn_written (alloc json_block ∷ d.history) m))
        (λ _.
          cleared env json uid card_key h false (log conn_destroy sent) (next tried Step.not_asked))
        (λ _.
          Ensures-after (await_ok env fuel (log (free json_block) sent)) _
            (await_ok-Run env json uid card_key h fuel (log (free json_block) sent)
              (next tried Step.listen))
            λ out at.
              Ensures-if (strstr out.0 "200 OK") (λ ok. renew_key-Run fuel out.1 (at.0 ok))
                (λ no.
                  cleared env json uid card_key h false (log conn_destroy out.1)
                    (next (at.1 no) Step.no_grant)))

module _ (env : Env) (json : Json) (uid card_key : List ℕ) (h : History) (fit : ArraysFit env) where
  connect-Run :
      (fuel : ℕ) (key crt : List ℕ) (d : Device)
      → At env json uid card_key h loaded d
      → Ensures (connect env json fuel uid card_key key crt d) (IsOver env json uid card_key h)
  unfolding connect
  connect-Run fuel key crt d before =
      let opened_at : Device = log (conn_http_new crt key d.saved_client_session) d in
      let run : At env json uid card_key h opened opened_at =
        next before (Step.connect crt key d.saved_client_session) in
      Ensures-if (env.connects d.history)
        (λ _. Ensures-checked (hex_text env 7 uid) _ λ hex_uid eu.
          Ensures-checked (hex_text env 15 card_key) _ λ hex_key ek.
            send_card_key-Run env json uid card_key h fit hex_uid hex_key
              (hex_text-hex env 7 uid hex_uid fit (omega arith) eu)
              (hex_text-hex env 15 card_key hex_key fit (omega arith) ek) fuel
              (record opened_at {
                saved_client_session =
                    d.saved_client_session || env.client_session opened_at.history;
              })
              run)
        (λ _. freed_open env json uid card_key h opened_at (next run Step.no_connection))

-- On a device whose local arrays have their size, a request that ends is a run of the protocol, from
-- the history before it to the history after it, and it returns 1 if the run passes and 0 if not.
pub https_request-Run :
    (env : Env) (json : Json) (C : Crypto) (F : FlashChip) (nul : ℕ) (chip : F.Chip) (fuel : ℕ)
    (heap uid card_key : List ℕ) (d : Device) (out : ℕ × Device)
    → ArraysFit env
    → https_request env json C F nul chip fuel heap uid card_key d ≡ done out
    → (passes : Bool) × (out.0 ≡ (if passes then 1 else 0))
      × Run json uid card_key d.history (closed passes) out.1.history
unfolding https_request
https_request-Run env json C F nul chip fuel heap uid card_key d out fit e = over.at out e
  where
    over :
        Ensures
          (https_request env json C F nul chip fuel heap uid card_key d)
          (IsOver env json uid card_key d.history)
    over = Ensures-checked (flash_reader C F nul chip heap heap partition_size false) _ λ k _.
        Ensures-checked (flash_reader C F nul chip heap heap partition_size true) _ λ c _.
          let ready : Device = log (alloc crt_block) (log (alloc key_block) d) in
          let run : At env json uid card_key d.history loaded ready =
            next (next start Step.take_key) Step.take_crt in
          Ensures-if (k.0 == 0)
            (λ _. freed_open env json uid card_key d.history ready (next run Step.no_keys))
            (λ _.
              Ensures-if (c.0 == 0)
                (λ _. freed_open env json uid card_key d.history ready (next run Step.no_keys))
                (λ _.
                  connect-Run env json uid card_key d.history fit fuel (take k.0 k.1) (take c.0 c.1)
                    ready run))
