-- ===== src/Udp.antt =====
-- main/udp_communication.c: the answer to a datagram, the server's loops and the broadcast. The
-- socket calls are functions of the history of such calls, newest first. An address is the number
-- `s_addr`, and ports are in the host's order.
pub mod Silence
pub mod Replies
use rfid_encryption.Base.{
  ℕ, zero, suc, ◌+◌, List, [], ◌∷◌, ◌++◌, Bool, Option, some, none, ◌>>=◌, ℤ, pos, negsuc, is_neg,
  codes, store, read_bytes, write_bytes, replicate, if◌then◌else◌,
}
use rfid_encryption.Flash.Aes.{Crypto}
use rfid_encryption.Flash.Storage.{FlashChip}
use rfid_encryption.Mbed.{Uses}
use rfid_encryption.Sign.{Pk, returned, aborted, overrun, signature_generater}
use rfid_encryption.Ecdh.{Ecdh, ecdh_public_key_generate, ecdh_key_exchange}

-- PORT, and INADDR_BROADCAST for "255.255.255.255".
abbrev pub port : ℕ
port = 9527

abbrev pub broadcast_address : ℕ
broadcast_address = 0xffffffff

-- A message with the address and the port that it goes to, `bind` with its port, and the calls that
-- set up and clean up objects of mbedtls.
pub data Event : Type 0 where
  socket recvfrom shutdown close task_delete setsockopt delay_forever : Event
  bind : ℕ → Event
  sendto : List ℕ → ℕ → ℕ → Event
  objects : Uses → Event

abbrev pub History : Type 0
History = List Event

-- What `recvfrom` returns, what it puts into the buffer, and the sender's address.
pub record Datagram : Type 0 where
  pub len : ℤ
  pub bytes : List ℕ
  pub source_addr : ℕ

-- The socket calls. The rest is memory that the code reads unset: the locals of the server and what
-- the calls of `malloc` return.
pub record Net : Type 0 where
  pub sockets : History → ℤ
  pub received : History → Datagram
  pub option_set : History → ℤ
  pub local_array : ℕ → List ℕ
  pub heap : History → List ℕ
  pub heap' : History → List ℕ
  pub esp_random : History → ℕ → ℕ
  pub label : ℕ
  pub at_public_key_len : History → List ℕ
  pub memory_at : ℕ → List ℕ
  pub salt : ℕ

-- `(int) len` as an index; a negative one does not come here.
abbrev pub index : ℤ → ℕ
index (pos n) = n
index (negsuc n) = 0

-- What the server has come to: it goes on, its task was deleted, or it stopped in an answer.
pub data Server : Type 0 where
  serving ended stopped : History → Server

-- Where the server stands: before `socket`, or before `recvfrom`.
pub data Place : Type 0 where
  opening receiving : Place

-- What comes of an answer: `rx_buffer` and the history, or the history where the program stops.
pub data Reply : Type 0 where
  replied : List ℕ → History → Reply
  halted : History → Reply

-- What follows an access to memory.
abbrev pub within {ℓ} : {A : Type ℓ} → Option A → History → (A → Reply) → Reply
within none h f = halted h
within (some a) h f = f a

module _ (net : Net) where
  -- udp_broadcaster. After a failure it waits, and then goes on all the same.
  unfoldable pub udp_broadcaster : History → History
  udp_broadcaster h =
      let opened = if is_neg (net.sockets h) then delay_forever ∷ socket ∷ h else socket ∷ h in
      let set =
        if is_neg (net.option_set opened)
        then delay_forever ∷ close ∷ setsockopt ∷ opened
        else setsockopt ∷ opened in
      close ∷ sendto (codes "This is ESP32 broadcasting") broadcast_address port ∷ set

  -- What mbedtls answers may change from one datagram to the next.
  module _ (P : History → Pk) (M : History → Ecdh) (C : Crypto) (F : FlashChip) (nul_literal : ℕ)
      (chip : F.Chip) where
    -- From the first message on: a key pair is made, the first message is sent once more, and the
    -- text that came is taken for the peer's key.
    unfoldable pub exchange : List ℕ → List ℕ → ℕ → History → Reply
    unfolding ecdh_public_key_generate ecdh_key_exchange
    exchange tx_buffer rx_buffer source_addr h =
        let sent = sendto tx_buffer source_addr port ∷ h in
        let mbedtls = M sent in
        let key_array = net.local_array mbedtls.max_pt_len in
        within (ecdh_public_key_generate mbedtls (net.at_public_key_len sent) key_array) sent
          λ made.
            let again = sendto tx_buffer source_addr port ∷ objects made.4 ∷ sent in
            within (read_bytes 128 rx_buffer 0) again λ copied.
              within (write_bytes key_array 0 copied) again λ bob_public_key.
                within
                  (ecdh_key_exchange mbedtls net.memory_at net.salt key_array made.1 bob_public_key
                    made.3)
                  again λ exchanged. replied rx_buffer (objects exchanged.2 ∷ again)

    -- `memcpy(tx_buffer, plaintext, 16); memcpy(tx_buffer + 16, sign, 256);`
    abbrev pub message : List ℕ → List ℕ → Option (List ℕ)
    message plaintext sign = read_bytes 16 plaintext 0 >>= λ front.
        write_bytes (net.local_array 272) 0 front >>= λ tx_buffer.
        read_bytes 256 sign 0 >>= λ back. write_bytes tx_buffer 16 back

    -- The answer to `len` bytes in `rx_buffer`. The signature and the text change places in the call
    -- of signature_generater.
    unfoldable pub answer : ℕ → List ℕ → ℕ → History → Reply
    unfolding signature_generater exchange
    answer len rx_buffer source_addr h = within (store rx_buffer len 0) h λ rx_buffer'.
        elim (signature_generater (P h) C F nul_literal chip (net.heap h) (net.heap' h)
          (net.esp_random h) net.label (net.local_array 256) (net.local_array 16)) [
            | aborted ↦ halted h
            | overrun ↦ halted h
            | returned (sign, plaintext, uses) ↦
                let signed = objects uses ∷ h in
                within (message plaintext sign) signed
                  λ tx_buffer. exchange tx_buffer rx_buffer' source_addr signed
          ]

    -- The loops of udp_server_task for so many calls of `socket` and `recvfrom`.
    unfoldable pub serve : ℕ → Place → List ℕ → History → Server
    unfolding answer
    serve zero place rx_buffer h = serving h
    serve (suc fuel) opening rx_buffer h =
        let more = serve fuel receiving rx_buffer (bind port ∷ socket ∷ h) in
        if is_neg (net.sockets h) then ended (task_delete ∷ socket ∷ h) else more
    serve (suc fuel) receiving rx_buffer h =
        let heard = recvfrom ∷ h in
        let again = serve fuel opening rx_buffer (close ∷ shutdown ∷ heard) in
        if is_neg (net.received h).len
        then again
        else elim (write_bytes rx_buffer 0 (net.received h).bytes) [
          | none ↦ stopped heard
          | some filled ↦
              elim (answer (index (net.received h).len) filled (net.received h).source_addr heard) [
                | replied rx_buffer' h' ↦ serve fuel receiving rx_buffer' h'
                | halted h' ↦ stopped h'
              ]
        ]

    -- udp_server_task: `rx_buffer` is never cleared.
    unfoldable pub udp_server_task : ℕ → History → Server
    unfolding serve
    udp_server_task fuel h = serve fuel opening (net.local_array 128) h
