-- ===== src/Tls/Loops.antt =====
-- Enough fuel for the loops of https_request, and what it asks of the server.
use rfid_encryption.Base.{
  ℕ, zero, suc, ◌+◌, ◌*◌, ◌≤◌, ◌∷◌, ◌<◌, ◌≡◌, refl, List, [], ◌∷◌, true, false, some, done, Returns,
  Returns-done, Returns-if, Returns-after, Returns-checked, strstr, arith, is_neg, ◌==◌, length,
  take, read_bytes_lem, length-take, c_string, ap,
}
use rfid_encryption.Device.{
  History, alloc, json_block, new_key_block, Device, Env, Read, log, conn_read, conn_write,
  conn_destroy, task_delay, task_create_blink, blue, random,
}
use rfid_encryption.Flash.Aes.{Crypto}
use rfid_encryption.Flash.Storage.{FlashChip, flash_reader, partition_size}
use rfid_encryption.Hex.{bytes_to_hex_string}
use rfid_encryption.Hex.Laws.{bytes_to_hex_string_writes}
use rfid_encryption.Card.{card_write_on_block}
use rfid_encryption.Card.Laws.{card_write_on_block_lem}
use rfid_encryption.Tls.{
  clear, generate_random_hex, login, answer_to_new_key, send_new_key, renew_key, send_card_key,
  connect, https_request, hex_text,
}
use rfid_encryption.Tls.Message.{
  Json, heartbeat_request, request, uid_key_message, new_card_key_message,
}
use rfid_encryption.Tls.Wait.{text_of, ended, await_ok, await_login}

-- A server that answers: some measure of the history falls with every read after which a loop would
-- go on, and never reaches `fuel`. A connection that the server closes at last is such a server.
pub record Answers (env : Env) (fuel : ℕ) : Type 0 where
  pub rank : History → ℕ
  pub below : (h : History) → rank h < fuel
  pub ok_falls :
      (h : History)
      → ended (env.conn_reads h 511) ≡ false
      → strstr (text_of (env.conn_reads h 511)) "200 OK" ≡ false
      → rank (conn_read (env.conn_reads h 511) ∷ h) < rank h
  pub login_falls :
      (h : History)
      → let h' = conn_write heartbeat_request ∷ h in
        let r = env.conn_reads h' 511 in
        ended r ≡ false
        → strstr (text_of r) "200 OK" ≡ false
        → rank (task_delay 2500 ∷ task_create_blink blue ∷ conn_read r ∷ h') < rank h

module _ (env : Env) (bound : ℕ) (S : Answers env bound) where
  await_ok-Returns :
      (fuel : ℕ) (d : Device) → S.rank d.history < fuel → Returns (await_ok env fuel d)
  unfolding await_ok
  await_ok-Returns zero d h = absurd (omega arith)
  await_ok-Returns (suc fuel) d h =
      let r : Read = env.conn_reads d.history 511 in
      let d' : Device = log (conn_read r) d in
      Returns-if (ended r) _ _ (λ _. Returns-done (text_of r, d'))
        λ go.
          Returns-if (strstr (text_of r) "200 OK") _ _ (λ _. Returns-done (text_of r, d'))
            λ deaf. await_ok-Returns fuel d' (omega (arith, S.ok_falls d.history go deaf))

  await_login-Returns :
      (fuel : ℕ) (d : Device) → S.rank d.history < fuel → Returns (await_login env fuel d)
  unfolding await_login
  await_login-Returns zero d h = absurd (omega arith)
  await_login-Returns (suc fuel) d h =
      let sent : Device = log (conn_write heartbeat_request) d in
      let r : Read = env.conn_reads sent.history 511 in
      let d' : Device = log (conn_read r) sent in
      Returns-if (ended r) _ _ (λ _. Returns-done (false, d'))
        λ go.
          Returns-if (strstr (text_of r) "200 OK") _ _ (λ _. Returns-done (true, d'))
            λ deaf.
              Returns-if (strstr (text_of r) "400 Bad") _ _ (λ _. Returns-done (false, d'))
                λ _.
                  await_login-Returns fuel (log (task_delay 2500) (log (task_create_blink blue) d'))
                    (omega (arith, S.login_falls d.history go deaf))

pub length-generate : (env : Env) (n : ℕ) (d : Device) → length (generate_random_hex env n d).0 ≡ n
unfolding generate_random_hex
length-generate env zero d = refl
length-generate env (suc n) d = ap suc (length-generate env n (log random d))

hex_of_copy :
    (copied buf : List ℕ)
    → 0 < length copied
    → 2 * length copied + 1 ≤ length buf
    → (text : List ℕ) × (bytes_to_hex_string copied 0 buf ≡ some text)
hex_of_copy [] buf h room = absurd (omega arith)
hex_of_copy (b ∷ bytes) buf h room =
    let (rest, e) = bytes_to_hex_string_writes b bytes buf room in (_, e)

-- Local arrays have their size.
abbrev pub ArraysFit : Env → Type 0
ArraysFit env = (n : ℕ) → length (env.local_array n) ≡ n

hex_text-some :
    (env : Env) (n : ℕ) (bytes : List ℕ)
    → ArraysFit env
    → 0 < n
    → n ≤ length bytes
    → (text : List ℕ) × (hex_text env n bytes ≡ some text)
unfolding hex_text
hex_text-some env n bytes fit some_bytes room =
    let (text, e) =
      hex_of_copy (take n bytes) (env.local_array (2 * n + 1)) (omega (arith, length-take n bytes))
        (omega (arith, length-take n bytes, fit (2 * n + 1))) in
    (c_string text, rw (read_bytes_lem n bytes 0 (omega arith), e))

module _ (env : Env) (bound : ℕ) (S : Answers env bound) (fit : ArraysFit env) (json : Json) where
  login-Returns : (d : Device) → Returns (login env bound d)
  unfolding login
  login-Returns d =
      Returns-after (await_login env bound d) _
        (await_login-Returns env bound S bound d (S.below d.history))
        (λ r. Returns-done (clear r.0 (log conn_destroy r.1)))

  answer-Returns : (d : Device) → Returns (answer_to_new_key env bound d)
  unfolding answer_to_new_key
  answer-Returns d =
      Returns-if (strstr (env.conn_reads d.history 511).bytes "IS_OK:NO") _ _ (λ _. Returns-done _)
        (λ _. login-Returns _)

  send_new_key-Returns :
      (hex_uid random_bytes : List ℕ) (d : Device)
      → 15 ≤ length random_bytes
      → Returns (send_new_key env json bound hex_uid random_bytes d)
  unfolding send_new_key
  send_new_key-Returns hex_uid random_bytes d h =
      let (text, e) = hex_text-some env 15 random_bytes fit (omega arith) h in
      let message : List ℕ = request 512 (new_card_key_message json hex_uid text) in
      Returns-checked (hex_text env 15 random_bytes) _ text e (
        Returns-if (is_neg (env.conn_written (alloc new_key_block ∷ d.history) message)) _ _
          (λ _. Returns-done _) (λ _. answer-Returns _))

  renew_key-Returns :
      (uid hex_uid : List ℕ) (d : Device) → Returns (renew_key env json bound uid hex_uid d)
  unfolding renew_key
  renew_key-Returns uid hex_uid d =
      let drawn : List ℕ × Device = generate_random_hex env 15 d in
      let size : 15 ≤ length drawn.0 = omega (arith, length-generate env 15 d) in
      Returns-checked (card_write_on_block env uid drawn.0 drawn.1) _ _
        ((card_write_on_block_lem env uid drawn.0 drawn.1).0 size)
        (send_new_key-Returns hex_uid drawn.0 _ size)

  send_card_key-Returns :
      (uid hex_uid hex_key : List ℕ) (d : Device)
      → Returns (send_card_key env json bound uid hex_uid hex_key d)
  unfolding send_card_key
  send_card_key-Returns uid hex_uid hex_key d =
      let message : List ℕ = request 1024 (uid_key_message json hex_uid hex_key) in
      Returns-if (is_neg (env.conn_written (alloc json_block ∷ d.history) message)) _ _
        (λ _. Returns-done _)
        λ _.
          Returns-after (await_ok env bound _) _ (await_ok-Returns env bound S bound _ (S.below _))
            λ r.
              Returns-if (strstr r.0 "200 OK") _ _ (λ _. renew_key-Returns uid hex_uid r.1)
                (λ _. Returns-done _)

  connect-Returns :
      (uid card_key key crt : List ℕ) (d : Device)
      → 7 ≤ length uid
      → 15 ≤ length card_key
      → Returns (connect env json bound uid card_key key crt d)
  unfolding connect
  connect-Returns uid card_key key crt d huid hkey =
      let (uid_text, eu) = hex_text-some env 7 uid fit (omega arith) huid in
      let (key_text, ek) = hex_text-some env 15 card_key fit (omega arith) hkey in
      Returns-if (env.connects d.history) _ _
        (λ _. Returns-checked (hex_text env 7 uid) _ uid_text eu (
          Returns-checked (hex_text env 15 card_key) _ key_text ek
            (send_card_key-Returns uid uid_text key_text _)))
        (λ _. Returns-done _)

-- When both keys can be read from flash without a fault, the UID has 7 bytes and the card's key 15,
-- and the server does not keep the loops going past `fuel` rounds, https_request ends with a value:
-- it neither runs on nor leaves a buffer.
pub https_request-Returns :
    (env : Env) (json : Json) (C : Crypto) (F : FlashChip) (nul : ℕ) (chip : F.Chip) (fuel : ℕ)
    (heap uid card_key : List ℕ) (d : Device) (k c : ℕ × List ℕ)
    → Answers env fuel
    → ArraysFit env
    → flash_reader C F nul chip heap heap partition_size false ≡ some k
    → flash_reader C F nul chip heap heap partition_size true ≡ some c
    → 7 ≤ length uid
    → 15 ≤ length card_key
    → (out : ℕ × Device) × (https_request env json C F nul chip fuel heap uid card_key d ≡ done out)
unfolding https_request
https_request-Returns env json C F nul chip fuel heap uid card_key d k c S fit ek ec huid hkey =
    Returns-checked _ _ k ek (
      Returns-checked _ _ c ec (
        Returns-if (k.0 == 0) _ _ (λ _. Returns-done _)
          λ _.
            Returns-if (c.0 == 0) _ _ (λ _. Returns-done _)
              λ _. connect-Returns env fuel S fit json uid card_key _ _ _ huid hkey))
