-- ===== src/Tls/Delivery.antt =====
-- What becomes of the first message after a write to a card, in https_request.
use rfid_encryption.Base.{
  ℕ, ◌≡◌, ap, List, [], ◌∷◌, true, false, Option, none, some, done, Ensures, Ensures-done,
  Ensures-if, Ensures-after, Ensures-checked, strstr, is_neg, not, ◌==◌, arith,
}
use rfid_encryption.Device.{
  Event, History, Device, Env, log, conn_write, conn_read, conn_destroy, task_create_blink,
  task_delay, write_data_block, alloc, free, json_block, new_key_block, get_time,
}
use rfid_encryption.Flash.Aes.{Crypto}
use rfid_encryption.Flash.Storage.{FlashChip, flash_reader, partition_size}
use rfid_encryption.Card.{card_write_on_block}
use rfid_encryption.Card.Laws.{card_write_on_block-some}
use rfid_encryption.Tls.{
  clear, generate_random_hex, send_new_key, renew_key, send_card_key, connect, https_request,
  hex_text,
}
use rfid_encryption.Tls.Message.{Json, request, uid_key_message, new_card_key_message}
use rfid_encryption.Tls.Wait.{await_ok}
use rfid_encryption.Tls.Keeps.{IsReply, answer_to_new_key-keeps}

-- The first message that was handed to a connection since a card was last asked to take a block, and
-- what came before it.
abbrev pub first_message : History → Option (List ℕ × History)
first_message [] = none
first_message (write_data_block number block ∷ h) = none
first_message (conn_write m ∷ h) = elim (first_message h) [ none ↦ some (m, h) | some x ↦ some x ]
first_message (_ ∷ h) = first_message h

-- esp_tls_conn_write did not report that message as failed.
abbrev pub Delivered : Env → History → Type 0
Delivered env h =
    (x : List ℕ × History) × (first_message h ≡ some x)
    × (is_neg (env.conn_written x.1 x.0) ≡ false)

module _ (env : Env) where
  Delivered-reply : (e : Event) (h : History) → IsReply e → Delivered env h → Delivered env (e ∷ h)
  Delivered-reply (conn_write m) h reply (x, first, ok) = (x, rw first, ok)
  Delivered-reply (conn_read r) h reply q = q
  Delivered-reply conn_destroy h reply q = q
  Delivered-reply (task_create_blink c) h reply q = q
  Delivered-reply (task_delay ms) h reply q = q
  Delivered-reply (free b) h reply q = q
  Delivered-reply _ h reply q = absurd reply

  -- What a request that returns 1 has done.
  abbrev Delivers : ℕ × Device → Type 0
  Delivers out = out.0 ≡ 1 → Delivered env out.1.history

  refused : (d : Device) → Ensures (done (clear false d)) Delivers
  refused d = Ensures-done (clear false d) (λ one. absurd (omega arith))

  module _ (json : Json) where
    send_new_key-Delivers :
        (fuel : ℕ) (hex_uid random_bytes : List ℕ) (d : Device)
        → first_message d.history ≡ none
        → Ensures (send_new_key env json fuel hex_uid random_bytes d) Delivers
    unfolding send_new_key
    send_new_key-Delivers fuel hex_uid random_bytes d silent =
        Ensures-checked (hex_text env 15 random_bytes) _ λ text _.
          let message : List ℕ = request 512 (new_card_key_message json hex_uid text) in
          let printed : Device = log (alloc new_key_block) d in
          Ensures-if (is_neg (env.conn_written printed.history message))
            (λ _. refused (log (conn_write message) printed))
            (λ ok. record {
              at = λ out e one.
                  (answer_to_new_key-keeps env (Delivered env) Delivered-reply fuel
                      (log (conn_write message) printed)
                      ((message, printed.history), rw (first_message, silent), ok)).at
                    out e;
            })

    renew_key-Delivers :
        (fuel : ℕ) (uid hex_uid : List ℕ) (d : Device)
        → Ensures (renew_key env json fuel uid hex_uid d) Delivers
    unfolding renew_key
    renew_key-Delivers fuel uid hex_uid d =
        let drawn : List ℕ × Device = generate_random_hex env 15 d in
        Ensures-checked (card_write_on_block env uid drawn.0 drawn.1) _ λ r e.
          let (block, _, wrote) = card_write_on_block-some env uid drawn.0 drawn.1 r e in
          Ensures-if (not (r.0 == 0)) (λ _. refused (log conn_destroy r.1))
            (λ _.
              send_new_key-Delivers fuel hex_uid drawn.0
                (log get_time (record (r.1) { start_time = 0; end_time = 0 }))
                (ap (λ (out : ℕ × Device). first_message out.1.history) wrote))

    send_card_key-Delivers :
        (fuel : ℕ) (uid hex_uid hex_key : List ℕ) (d : Device)
        → Ensures (send_card_key env json fuel uid hex_uid hex_key d) Delivers
    unfolding send_card_key
    send_card_key-Delivers fuel uid hex_uid hex_key d =
        let message : List ℕ = request 1024 (uid_key_message json hex_uid hex_key) in
        let printed : Device = log (alloc json_block) d in
        let sent : Device = log (conn_write message) printed in
        Ensures-if (is_neg (env.conn_written printed.history message))
          (λ _. refused (log conn_destroy sent))
          (λ _.
            Ensures-after {P = λ r. Unit {0}} (await_ok env fuel (log (free json_block) sent)) _
              (record { at = λ r e. tt })
              λ r _.
                Ensures-if (strstr r.0 "200 OK") (λ _. renew_key-Delivers fuel uid hex_uid r.1)
                  (λ _. refused (log conn_destroy r.1)))

    connect-Delivers :
        (fuel : ℕ) (uid card_key key crt : List ℕ) (d : Device)
        → Ensures (connect env json fuel uid card_key key crt d) Delivers
    unfolding connect
    connect-Delivers fuel uid card_key key crt d =
        Ensures-if (env.connects d.history)
          (λ _. Ensures-checked (hex_text env 7 uid) _ λ hex_uid _.
            Ensures-checked (hex_text env 15 card_key) _
              λ hex_key _. send_card_key-Delivers fuel uid hex_uid hex_key _)
          (λ _. refused _)

-- A request that returns 1 has sent the first message after its write.
pub https_request-Delivered :
    (env : Env) (json : Json) (C : Crypto) (F : FlashChip) (nul : ℕ) (chip : F.Chip) (fuel : ℕ)
    (heap uid card_key : List ℕ) (d : Device)
    → Ensures
        (https_request env json C F nul chip fuel heap uid card_key d)
        (λ out. out.0 ≡ 1 → Delivered env out.1.history)
unfolding https_request
https_request-Delivered env json C F nul chip fuel heap uid card_key d =
    Ensures-checked (flash_reader C F nul chip heap heap partition_size false) _ λ k _.
      Ensures-checked (flash_reader C F nul chip heap heap partition_size true) _ λ c _.
        Ensures-if (k.0 == 0) (λ _. refused env _)
          (λ _.
            Ensures-if (c.0 == 0) (λ _. refused env _)
              (λ _. connect-Delivers env json fuel uid card_key _ _ _))
