-- ===== src/Udp/Replies/Answers.antt =====
-- The answers of udp_server_task, from main/udp_communication.c, in the machine of Replies.
use rfid_encryption.Base.{
  if_cases, ℕ, suc, zero, ◌≡◌, refl, ◌∙◌, List, [], ◌∷◌, some, length, bind_cases, is_neg, store,
  read_bytes, write_bytes, length-write_bytes, replicate, ◌*◌, ◌+◌, ◌≤◌, arith,
}
use rfid_encryption.Flash.Aes.{Crypto}
use rfid_encryption.Flash.Storage.{FlashChip}
use rfid_encryption.Mbed.{Uses, ecdh_context}
use rfid_encryption.Sign.{Pk, Result, returned, aborted, overrun, signature_generater}
use rfid_encryption.Sign.Verify.{Gives}
use rfid_encryption.Sign.Objects.{signature_generater-Balanced}
use rfid_encryption.Ecdh.{Ecdh, ecdh_public_key_generate, ecdh_key_exchange}
use rfid_encryption.Ecdh.Objects.{ecdh_public_key_generate-uses, ecdh_key_exchange-uses}
use rfid_encryption.Udp.{
  History, Net, Datagram, halted, within, Server, serving, ended, stopped, Place, opening,
  receiving, socket, bind, recvfrom, shutdown, close, sendto, objects, task_delete, exchange,
  answer, serve, udp_server_task, index, port, message,
}
use rfid_encryption.Udp.Silence.{messages_sent}
use rfid_encryption.Udp.Replies.Counts.{
  datagrams, live, owed, messages_sent-datagrams, live-datagrams,
}
use rfid_encryption.Udp.Replies.{
  Stage, waiting, heard, half, Adds, Replies, Allowed, AllowedReply, AllowedReply-within,
  Allowed-stored, Allowed-reply,
}

-- The messages of udp_server_task.
abbrev pub Signed : List ℕ → Type 0
Signed bytes = length bytes ≡ 272

module _ (net : Net) (P : History → Pk) (M : History → Ecdh) (C : Crypto) (F : FlashChip) (nul : ℕ)
    (chip : F.Chip) (sized : length (net.local_array 272) ≡ 272) where
  message-Signed :
      (plaintext sign tx_buffer : List ℕ)
      → message net P M C F nul chip plaintext sign ≡ some tx_buffer
      → Signed tx_buffer
  message-Signed plaintext sign tx_buffer e =
      let (front, _, e1) = bind_cases (read_bytes 16 plaintext 0) _ tx_buffer e in
      let (half_full, e2, e3) =
        bind_cases (write_bytes (net.local_array 272) 0 front) _ tx_buffer e1 in
      let (back, _, e4) = bind_cases (read_bytes 256 sign 0) _ tx_buffer e3 in
      length-write_bytes half_full tx_buffer 16 back e4
      ∙ length-write_bytes (net.local_array 272) half_full 0 front e2
      ∙ sized

  exchange-Allowed :
      (tx_buffer rx_buffer : List ℕ) (source_addr : ℕ) (h : History)
      → Signed tx_buffer
      → Replies net Signed 1 (heard source_addr) h
      → AllowedReply net Signed 1 (exchange net P M C F nul chip tx_buffer rx_buffer source_addr h)
  unfolding exchange
  exchange-Allowed tx_buffer rx_buffer source_addr h signed so_far =
      let sent : History = sendto tx_buffer source_addr port ∷ h in
      let key_array : List ℕ = net.local_array (M sent).max_pt_len in
      let once : Replies net Signed 1 (half tx_buffer source_addr 0) sent =
        Replies.first tx_buffer port 0 signed refl refl so_far in
      AllowedReply-within net Signed 1
        (ecdh_public_key_generate (M sent) (net.at_public_key_len sent) key_array) sent _ _ once
        λ made em.
          let grown : Replies net Signed 1 (half tx_buffer source_addr 1) (objects made.4 ∷ sent) =
            Replies.leave made.4
              (ecdh_public_key_generate-uses (M sent) (net.at_public_key_len sent) key_array made
                em)
              refl once in
          let twice : Replies net Signed 1 waiting
              (sendto tx_buffer source_addr port ∷ objects made.4 ∷ sent) =
            Replies.second port refl refl grown in
          AllowedReply-within net Signed 1 (read_bytes 128 rx_buffer 0) _ _ _ twice λ copied _.
            AllowedReply-within net Signed 1 (write_bytes key_array 0 copied) _ _ _ twice
              λ bob_public_key _.
                AllowedReply-within net Signed 1
                  (ecdh_key_exchange (M sent) net.memory_at net.salt key_array made.1 bob_public_key
                    made.3)
                  _ _ _ twice
                  λ exchanged ee.
                    Replies.quiet (objects exchanged.2)
                      (ecdh_key_exchange-uses (M sent) net.memory_at net.salt key_array made.1
                        bob_public_key made.3 exchanged ee)
                      twice

  answer-Allowed :
      (len : ℕ) (rx_buffer : List ℕ) (source_addr : ℕ) (h : History)
      → Replies net Signed 1 (heard source_addr) h
      → AllowedReply net Signed 1 (answer net P M C F nul chip len rx_buffer source_addr h)
  unfolding answer
  answer-Allowed len rx_buffer source_addr h so_far =
      AllowedReply-within net Signed 1 (store rx_buffer len 0) h _ _ so_far λ text _.
        signed_or_not text
          (signature_generater (P h) C F nul chip (net.heap h) (net.heap' h) (net.esp_random h)
            net.label (net.local_array 256) (net.local_array 16))
          (signature_generater-Balanced (P h) C F nul chip (net.heap h) (net.heap' h)
            (net.esp_random h) net.label (net.local_array 256) (net.local_array 16))
    where
      signed_or_not :
          (text : List ℕ) (m : Result (List ℕ × List ℕ × Uses))
          → Gives m (λ out. Adds 0 out.2)
          → AllowedReply net Signed 1 (elim m [
            | aborted ↦ halted h
            | overrun ↦ halted h
            | returned (sign, plaintext, uses) ↦
                within (message net P M C F nul chip plaintext sign) (objects uses ∷ h) λ tx_buffer.
                  exchange net P M C F nul chip tx_buffer text source_addr (objects uses ∷ h)
          ])
      signed_or_not text aborted frees = (_, so_far)
      signed_or_not text overrun frees = (_, so_far)
      signed_or_not text (returned (sign, plaintext, uses)) frees =
          let ready : Replies net Signed 1 (heard source_addr) (objects uses ∷ h) =
            Replies.prepare uses (frees.at (sign, plaintext, uses) refl) so_far in
          AllowedReply-within net Signed 1 (message net P M C F nul chip plaintext sign) _ _ _ ready
            λ tx_buffer e.
              exchange-Allowed tx_buffer text source_addr (objects uses ∷ h)
                (message-Signed plaintext sign tx_buffer e) ready

  serve-Allowed :
      (fuel : ℕ) (place : Place) (rx_buffer : List ℕ) (h : History)
      → Replies net Signed 1 waiting h
      → Allowed net Signed 1 (serve net P M C F nul chip fuel place rx_buffer h)
  unfolding serve
  serve-Allowed zero place rx_buffer h before = before
  serve-Allowed (suc fuel) opening rx_buffer h before =
      let opened : Replies net Signed 1 waiting (socket ∷ h) = Replies.quiet socket tt before in
      if_cases (Allowed net Signed 1) (is_neg (net.sockets h)) _ _
        (λ _. Replies.quiet task_delete tt opened)
        (λ _.
          serve-Allowed fuel receiving rx_buffer (bind port ∷ socket ∷ h)
            (Replies.quiet (bind port) tt opened))
  serve-Allowed (suc fuel) receiving rx_buffer h before =
      let r : Datagram = net.received h in
      if_cases (Allowed net Signed 1) (is_neg r.len) _ _
        (λ failed. serve-Allowed fuel opening rx_buffer (close ∷ shutdown ∷ recvfrom ∷ h) (
          Replies.quiet close tt
            (Replies.quiet shutdown tt (Replies.quiet recvfrom failed before))))
        (λ came.
          let asked : Replies net Signed 1 (heard r.source_addr) (recvfrom ∷ h) =
            Replies.hear r.source_addr came refl before in
          Allowed-stored net Signed 1 (write_bytes rx_buffer 0 r.bytes) _ _ _ asked (λ filled.
            Allowed-reply net Signed 1
              (answer net P M C F nul chip (index r.len) filled r.source_addr (recvfrom ∷ h)) _
              (answer-Allowed (index r.len) filled r.source_addr (recvfrom ∷ h) asked)
              (λ rx h' ok. serve-Allowed fuel receiving rx h' ok)))

-- Where the array for messages has its 272 bytes, udp_server_task, for any number of calls of `socket`
-- and `recvfrom` and after any history that is one of a server of such messages, either is still
-- serving or has ended, or the program stopped within an answer, as it does in the first one when
-- mbedtls refuses to sign into four bytes. If it did not stop, the datagrams that came were answered in
-- turn, each before anything else was done, by one message of 272 bytes that went twice to port 9527 of
-- the datagram's sender, and nothing else was sent. If it stopped, the same holds but for the answer
-- within which it did, of which both copies or one may be missing. mbedtls objects are initialised and
-- freed in pairs, but for one ECDH context between the two copies.
pub udp_server_task-Allowed :
    (net : Net) (P : History → Pk) (M : History → Ecdh) (C : Crypto) (F : FlashChip) (nul : ℕ)
    (chip : F.Chip) (fuel : ℕ) (h : History)
    → length (net.local_array 272) ≡ 272
    → Replies net Signed 1 waiting h
    → Allowed net Signed 1 (udp_server_task net P M C F nul chip fuel h)
unfolding udp_server_task
udp_server_task-Allowed net P M C F nul chip fuel h sized before =
    serve-Allowed net P M C F nul chip sized fuel opening (net.local_array 128) h before

-- What has been counted when the server is asked again, has ended, or has stopped.
abbrev pub Counted : Net → Server → Type 0
Counted net (serving h) =
    (messages_sent h ≡ 2 * datagrams net h)
    × (live h ≡ some (replicate (datagrams net h) ecdh_context))
Counted net (ended h) =
    (messages_sent h ≡ 2 * datagrams net h)
    × (live h ≡ some (replicate (datagrams net h) ecdh_context))
Counted net (stopped h) =
    (messages_sent h ≤ 2 * datagrams net h) × (2 * datagrams net h ≤ messages_sent h + 2)

owed_bound : (s : Stage) → owed s ≤ 2
owed_bound waiting = omega arith
owed_bound (heard address) = omega arith
owed_bound (half bytes address n) = omega arith

-- Where the array for messages has its 272 bytes, udp_server_task from its start, for any number of
-- calls of `socket` and `recvfrom`: if it did not stop in an answer, as it does in the first one when
-- mbedtls refuses to sign into four bytes, it has sent exactly two messages for each datagram that
-- came, and the objects of mbedtls that hold memory are exactly one ECDH context for each datagram,
-- which nothing frees. If it stopped in an answer, at most two messages are missing and none is too
-- many.
pub udp_server_task_counts :
    (net : Net) (P : History → Pk) (M : History → Ecdh) (C : Crypto) (F : FlashChip) (nul : ℕ)
    (chip : F.Chip) (fuel : ℕ)
    → length (net.local_array 272) ≡ 272
    → Counted net (udp_server_task net P M C F nul chip fuel [])
udp_server_task_counts net P M C F nul chip fuel sized =
    counted (udp_server_task net P M C F nul chip fuel [])
      (udp_server_task-Allowed net P M C F nul chip fuel [] sized Replies.nothing)
  where
    counted : (server : Server) → Allowed net Signed 1 server → Counted net server
    counted (serving h) r =
        (omega (arith, messages_sent-datagrams net Signed 1 r), live-datagrams net Signed r)
    counted (ended h) r =
        (omega (arith, messages_sent-datagrams net Signed 1 r), live-datagrams net Signed r)
    counted (stopped h) (s, r) =
        let total : messages_sent h + owed s ≡ 2 * datagrams net h =
          messages_sent-datagrams net Signed 1 r in
        (omega (arith, total), omega (arith, total, owed_bound s))
