-- ===== src/Tests/Session.antt =====
-- One granted request, on a card that keeps its block.
use rfid_encryption.Base.{
  ◌∷◌, ◌⊎◌, is_neg, read_bytes_lem, take-append, length-append, ◌≢◌, ◌++◌, ℕ, ◌≤◌, ◌≡◌, true, false,
  ◌+◌, refl, sym, ap, ◌∙◌, List, [], Bool, Option, some, none, Exec, done, fault, running,
  replicate, length, arith, if◌then◌else◌, read_bytes, write_bytes, store, strstr, contains,
  starts_with, c_string,
}
use rfid_encryption.Device.{
  History, write_data_block, log, read_data_block, authenticate_block, get_time,
  read_passive_target, Device, booted,
}
use rfid_encryption.Hex.{bytes_to_hex_string}
use rfid_encryption.Card.{card_write_on_block, block4, key_a}
use rfid_encryption.Card.Memory.{held}
use rfid_encryption.Tls.{
  https_request, connect, send_card_key, renew_key, send_new_key, answer_to_new_key, login,
  hex_text, generate_random_hex,
}
use rfid_encryption.Tls.Wait.{await_ok, await_login}
use rfid_encryption.Tls.Loops.{ArraysFit, Answers, https_request-Returns}
use rfid_encryption.Tls.Protocol.{Run, closed, telling}
use rfid_encryption.Tls.Protocol.Refines.{https_request-Run}
use rfid_encryption.Tls.Protocol.Counts.{
  calls, opening, destroying, writing, showing, https_request_counts,
}
use rfid_encryption.Tls.Protocol.Heap.{Leak, new_key_leak, left, blocks, https_request_frees}
use rfid_encryption.Tls.Protocol.Agreement.{Kept, Kept-held, Told, Settled, https_request_settles}
use rfid_encryption.Tls.Delivery.{Delivered, first_message}
use rfid_encryption.Nfc.{Tag, read_key, read_tag}
use rfid_encryption.Nfc.Chain.{https_request-read_tag, held_asked}
use rfid_encryption.Tests.Card.{keep_env, keeps}
use rfid_encryption.Tests.Fixtures.{
  toy_crypto, toy_flash, toy_heap, toy_uid, toy_json, toy_arrays-ArraysFit, toy_key_reads, heard,
}

abbrev card_key : List ℕ
card_key = replicate 15 11

keep_arrays-ArraysFit : ArraysFit keep_env
keep_arrays-ArraysFit n = toy_arrays-ArraysFit n

keep_server-Answers : Answers keep_env 1
keep_server-Answers = record {
  rank = λ h. 0;
  below = λ h. omega arith;
  ok_falls = λ h go deaf. absurd (heard deaf);
  login_falls = λ h go deaf. absurd (heard deaf);
}

request_returns :
    (out : ℕ × Device) × (https_request keep_env toy_json toy_crypto toy_flash 0 [] 1 toy_heap
        toy_uid card_key booted
      ≡ done out)
request_returns =
    https_request-Returns keep_env toy_json toy_crypto toy_flash 0 [] 1 toy_heap toy_uid card_key
      booted _ _ keep_server-Answers keep_arrays-ArraysFit (toy_key_reads false)
      (toy_key_reads true) (omega arith) (omega arith)

abbrev after_request : Device
after_request = request_returns.0.1

abbrev returned_value : Exec (ℕ × Device) → Option ℕ
returned_value (done out) = some out.0
returned_value fault = none
returned_value running = none

granted_value :
    returned_value
      (https_request keep_env toy_json toy_crypto toy_flash 0 [] 1 toy_heap toy_uid card_key booted)
    ≡ some 1
unfolding https_request connect send_card_key renew_key send_new_key answer_to_new_key login
    await_ok await_login hex_text bytes_to_hex_string generate_random_hex card_write_on_block
    read_bytes write_bytes store strstr contains starts_with c_string block4
granted_value = rw (toy_key_reads false, toy_key_reads true)

grants : request_returns.0.0 ≡ 1
grants =
    let same : some request_returns.0.0 ≡ some 1 =
      sym (ap returned_value request_returns.1) ∙ granted_value in
    cc

https_request-Run_example :
    (passes : Bool) × (request_returns.0.0 ≡ (if passes then 1 else 0))
    × Run toy_json toy_uid card_key [] (closed passes) after_request.history
https_request-Run_example =
    https_request-Run keep_env toy_json toy_crypto toy_flash 0 [] 1 toy_heap toy_uid card_key booted
      request_returns.0 keep_arrays-ArraysFit request_returns.1

https_request_settles_example :
    Settled toy_json toy_uid card_key [] after_request.history
    × (request_returns.0.0 ≡ 1
        → Told toy_json toy_uid card_key [] after_request.history
          × Delivered keep_env after_request.history)
https_request_settles_example =
    https_request_settles keep_env toy_json toy_crypto toy_flash 0 [] 1 toy_heap toy_uid card_key
      booted request_returns.0 keep_arrays-ArraysFit request_returns.1

https_request_counts_example :
    (tried : ℕ) × (destroyed : ℕ) × (stored : ℕ) × (calls opening after_request.history
      ≡ calls opening [] + tried)
    × (calls destroying after_request.history ≡ calls destroying [] + destroyed)
    × (calls writing after_request.history ≡ calls writing [] + stored)
    × (calls showing after_request.history ≡ calls showing [])
    × (tried ≤ 1)
    × (destroyed ≤ tried)
    × (stored ≤ tried)
    × (request_returns.0.0 ≡ 1 → (destroyed ≡ 1) × (stored ≡ 1))
https_request_counts_example =
    https_request_counts keep_env toy_json toy_crypto toy_flash 0 [] 1 toy_heap toy_uid card_key
      booted request_returns.0 keep_arrays-ArraysFit request_returns.1

https_request_frees_example :
    (l : Leak) × (request_returns.0.0 ≢ 0 → l ≡ new_key_leak)
    × (blocks after_request.history ≡ some (left l ++ []))
https_request_frees_example =
    https_request_frees keep_env toy_json toy_crypto toy_flash 0 [] 1 toy_heap toy_uid card_key
      booted request_returns.0 [] keep_arrays-ArraysFit request_returns.1 refl

-- What a look at a card gives when the card holds a key, and the device after it.
abbrev tag : List ℕ → Tag
tag key = record { success = 1; uid = toy_uid; key_rw = 1; card_key = key }

abbrev looked : Device → Device
looked d = log (read_data_block 4) (
    log (authenticate_block toy_uid 7 4 0 key_a)
      (log get_time (record (log read_passive_target d) { start_time = 5 })))

look :
    (d : Device) (key : List ℕ)
    → length key ≡ 15
    → held keep_env.data_block_written toy_uid d.history ≡ some (0 ∷ key)
    → read_tag keep_env d ≡ some (tag key, looked d)
unfolding read_tag read_key
look d key size holds = rw (
  holds,
  keep_env,
  read_bytes_lem 15 (key ++ (9 ∷ [])) 0 (omega (arith, size, length-append key (9 ∷ []))),
  take-append 15 key (9 ∷ []) size,
)

-- The card has taken the new key.
stored :
    (key : List ℕ) × (length key ≡ 15)
    × (held keep_env.data_block_written toy_uid after_request.history ≡ some (0 ∷ key))
stored =
    let ((key, size, (asked, _, chosen, since), _), _) =
      (https_request_settles keep_env toy_json toy_crypto toy_flash 0 [] 1 toy_heap toy_uid card_key
          booted request_returns.0 keep_arrays-ArraysFit request_returns.1).1
        grants in
    (
      key,
      size,
      Kept-held keep_env.data_block_written toy_uid since
          ∙ held_asked keep_env.data_block_written toy_uid (0 ∷ key) asked chosen,
    )

https_request-read_tag_example :
    (new_key : List ℕ) × (sent : History) × (asked : History) × (length new_key ≡ 15)
    × (first_message after_request.history ≡ some (telling toy_json toy_uid card_key new_key, sent))
    × (is_neg (keep_env.conn_written sent (telling toy_json toy_uid card_key new_key)) ≡ false)
    × Kept (write_data_block 4 (0 ∷ new_key) ∷ asked) after_request.history
    × ((keep_env.data_block_written asked 4 (0 ∷ new_key) ≡ 0) ⊎ (stored.0 ≡ new_key))
https_request-read_tag_example =
    https_request-read_tag keep_env (λ h. 9) toy_json toy_crypto toy_flash 0 [] 1 toy_heap toy_uid
      card_key booted after_request (looked after_request) request_returns.0 (tag stored.0)
      keep_arrays-ArraysFit keeps request_returns.1 grants refl
      (look after_request stored.0 stored.1 stored.2) refl (omega arith)
