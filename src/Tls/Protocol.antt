-- ===== src/Tls/Protocol.antt =====
-- What a request is meant to do, as a machine on the calls alone: which call may follow which, and
-- with what. It knows nothing of buffers, fuel or flash. The server's answers and the random key are
-- choices of its environment.
pub mod Waits
pub mod Refines
pub mod Counts
pub mod Agreement
pub mod Heap
use rfid_encryption.Base.{ℕ, ◌≡◌, List, [], ◌∷◌, Bool, true, false, take, length, strstr}
use rfid_encryption.Device.{
  Event, History, Read, conn_http_new, conn_write, conn_read, conn_destroy, alloc, free, key_block,
  crt_block, json_block, new_key_block, random, get_time, task_create_blink, task_delay, blue,
  authenticate_block, write_data_block,
}
use rfid_encryption.Card.{key_a}
use rfid_encryption.Hex.Laws.{hex}
use rfid_encryption.Tls.Message.{
  Json, request, heartbeat_request, uid_key_message, new_card_key_message,
}
use rfid_encryption.Tls.Wait.{text_of, ended}

-- Where a request stands. From `written` on the card has the key that it and `announced` carry; the
-- last three carry whether the request passes.
pub data Phase : Type 0 where
  idle loading loaded opened printed asked listening granted ready : Phase
  written announced : List ℕ → Phase
  told refused waiting beating unsure pausing passed : Phase
  closing freed closed : Bool → Phase

-- The request for a card with this UID and key.
module _ (json : Json) (uid card_key : List ℕ) where
  -- The message with the card's key, and the one with the new key.
  abbrev pub asking : List ℕ
  asking = request 1024 (uid_key_message json (hex (take 7 uid)) (hex (take 15 card_key)))

  abbrev pub telling : List ℕ → List ℕ
  telling new_key = request 512 (new_card_key_message json (hex (take 7 uid)) (hex new_key))

  pub data Step : Phase → Event → Phase → Type 0 where
    take_key : Step idle (alloc key_block) loading
    take_crt : Step loading (alloc crt_block) loaded
    -- a key is missing, or there is no connection
    no_keys : Step loaded (free key_block) (freed false)
    connect : (crt key : List ℕ) (saved : Bool) → Step loaded (conn_http_new crt key saved) opened
    no_connection : Step opened (free key_block) (freed false)
    -- the card's key is sent
    print : Step opened (alloc json_block) printed
    ask : (m : List ℕ) → m ≡ asking → Step printed (conn_write m) asked
    not_asked : Step asked conn_destroy (closing false)
    listen : Step asked (free json_block) listening
    deaf : (r : Read) → strstr (text_of r) "200 OK" ≡ false → Step listening (conn_read r) listening
    grant : (r : Read) → strstr (text_of r) "200 OK" ≡ true → Step listening (conn_read r) granted
    no_grant : Step listening conn_destroy (closing false)
    -- a granted card gets a new key of 15 bytes
    draw : Step granted random granted
    authenticate :
        (u k : List ℕ) (n b s : ℕ)
        → u ≡ uid
        → b ≡ 4
        → k ≡ key_a
        → Step granted (authenticate_block u n b s k) ready
    write :
        (new_key block : List ℕ) (number : ℕ)
        → number ≡ 4
        → length new_key ≡ 15
        → block ≡ 0 ∷ new_key
        → Step ready (write_data_block number block) (written new_key)
    clock : (new_key : List ℕ) → Step (written new_key) get_time (written new_key)
    -- the server is told that very key
    announce : (new_key : List ℕ) → Step (written new_key) (alloc new_key_block) (announced new_key)
    tell : (new_key m : List ℕ) → m ≡ telling new_key → Step (announced new_key) (conn_write m) told
    -- the connection stays open
    not_told : Step told (free key_block) (freed false)
    refuse : (r : Read) → strstr r.bytes "IS_OK:NO" ≡ true → Step told (conn_read r) refused
    accept : (r : Read) → strstr r.bytes "IS_OK:NO" ≡ false → Step told (conn_read r) waiting
    hang_up : Step refused conn_destroy (closing false)
    -- the user logs in
    beat : (m : List ℕ) → m ≡ heartbeat_request → Step waiting (conn_write m) beating
    pass :
        (r : Read)
        → ended r ≡ false
        → strstr (text_of r) "200 OK" ≡ true
        → Step beating (conn_read r) passed
    doubt : (r : Read) → Step beating (conn_read r) unsure
    blink : Step unsure (task_create_blink blue) pausing
    pause : (ms : ℕ) → Step pausing (task_delay ms) waiting
    give_up : Step unsure conn_destroy (closing false)
    end_pass : Step passed conn_destroy (closing true)
    free_key : (passes : Bool) → Step (closing passes) (free key_block) (freed passes)
    free_crt : (passes : Bool) → Step (freed passes) (free crt_block) (closed passes)

  -- A request from a history on.
  pub data Run (h : History) : Phase → History → Type 0 where
    start : Run h idle h
    next : {p q : Phase} {h' : History} {e : Event} → Run h p h' → Step p e q → Run h q (e ∷ h')
