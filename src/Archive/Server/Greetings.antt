-- ===== src/Archive/Server/Greetings.antt =====
-- The answers of the earlier udp_server_task, of archive/publickey_reciever.c, in the machine of
-- Udp.Replies.
use rfid_encryption.Base.{
  if_cases, ℕ, zero, suc, ◌*◌, ◌≤◌, ◌≡◌, refl, subst, List, [], ◌∷◌, Option, none, some, length,
  is_neg, store_lem, write_bytes_lem, splice, length-splice, arith,
}
use rfid_encryption.Udp.{
  History, Net, Datagram, Server, serving, ended, stopped, Place, opening, receiving, socket, bind,
  recvfrom, shutdown, close, sendto, task_delete, index, port,
}
use rfid_encryption.Udp.Silence.{messages_sent}
use rfid_encryption.Udp.Replies.{waiting, Replies}
use rfid_encryption.Udp.Replies.Counts.{datagrams, messages_sent-datagrams}
use rfid_encryption.Archive.Server.{tx_buffer, filled, serve, udp_server_task}

abbrev pub Greeting : List ℕ → Type 0
Greeting bytes = bytes ≡ tx_buffer

-- What `recvfrom` is documented to do: it fails, or gives at most the 127 bytes that it was asked for.
abbrev pub Receives : Net → Type 0
Receives net =
    (h : History) → (index (net.received h).len ≤ 127) × (length (net.received h).bytes ≤ 127)

module _ (net : Net) where
  -- Nothing is sent but greetings to senders, two for each datagram that came.
  abbrev pub Greets : History → Type 0
  Greets h = Replies net Greeting 0 waiting h × (messages_sent h ≡ 2 * datagrams net h)

  -- The server goes on or ends its task.
  abbrev pub Lives : Server → Type 0
  Lives (serving h) = Greets h
  Lives (ended h) = Greets h
  Lives (stopped h) = ⊥

  Replies-Greets : {h : History} → Replies net Greeting 0 waiting h → Greets h
  Replies-Greets r = (r, omega (arith, messages_sent-datagrams net Greeting 0 r))

  Lives-filled :
      (o : Option (List ℕ)) (h : History) (go : List ℕ → Server) (text : List ℕ)
      → o ≡ some text
      → Lives (go text)
      → Lives (elim o [ none ↦ stopped h | some text' ↦ go text' ])
  Lives-filled none h go text e ok = cc
  Lives-filled (some text') h go text e ok =
      let same : text ≡ text' = cc in subst (λ (t : List ℕ). Lives (go t)) same ok

  filled-some :
      (r : Datagram) (rx_buffer : List ℕ)
      → length rx_buffer ≡ 128
      → index r.len ≤ 127
      → length r.bytes ≤ 127
      → (text : List ℕ) × (filled net r rx_buffer ≡ some text) × (length text ≡ 128)
  filled-some r rx_buffer size short fits =
      let text : List ℕ = splice 0 r.bytes rx_buffer in
      let text_size : length text ≡ length rx_buffer =
        length-splice rx_buffer 0 r.bytes (omega arith) in
      (
        splice (index r.len) (0 ∷ []) text,
        rw (
          write_bytes_lem rx_buffer 0 r.bytes (omega arith),
          store_lem text (index r.len) 0 (omega arith),
        ),
        omega (arith, length-splice text (index r.len) (0 ∷ []) (omega arith)),
      )

  module _ (receives : Receives net) where
    serve-Lives :
        (fuel : ℕ) (place : Place) (rx_buffer : List ℕ) (h : History)
        → length rx_buffer ≡ 128
        → Replies net Greeting 0 waiting h
        → Lives (serve net fuel place rx_buffer h)
    unfolding serve
    serve-Lives zero place rx_buffer h size before = Replies-Greets before
    serve-Lives (suc fuel) opening rx_buffer h size before =
        let opened : Replies net Greeting 0 waiting (socket ∷ h) = Replies.quiet socket tt before in
        if_cases Lives (is_neg (net.sockets h)) _ _
          (λ _. Replies-Greets (Replies.quiet task_delete tt opened))
          (λ _.
            serve-Lives fuel receiving rx_buffer (bind port ∷ socket ∷ h) size
              (Replies.quiet (bind port) tt opened))
    serve-Lives (suc fuel) receiving rx_buffer h size before =
        let r : Datagram = net.received h in
        let (text, written, text_size) =
          filled-some r rx_buffer size (receives h).0 (receives h).1 in
        let greeted : History =
          sendto tx_buffer r.source_addr port
          ∷ sendto tx_buffer r.source_addr port
          ∷ recvfrom
          ∷ h in
        if_cases Lives (is_neg r.len) _ _
          (λ failed. serve-Lives fuel opening rx_buffer (close ∷ shutdown ∷ recvfrom ∷ h) size (
            Replies.quiet close tt
              (Replies.quiet shutdown tt (Replies.quiet recvfrom failed before))))
          (λ came. Lives-filled (filled net r rx_buffer) (recvfrom ∷ h) _ text written (
            serve-Lives fuel receiving text greeted text_size (
              Replies.second port refl refl (
                Replies.first tx_buffer port 0 refl refl refl
                  (Replies.hear r.source_addr came refl before)))))

-- Where `recvfrom` keeps to the size that it is given and `rx_buffer` has its own, the earlier
-- udp_server_task never stops in an answer, for any number of calls of `socket` and `recvfrom` and
-- after any history that is one of such a server: each datagram that came was answered before anything
-- else was done, by the greeting, which went twice to port 9527 of the datagram's sender; nothing else
-- was sent, and so there are exactly two messages for each datagram.
pub udp_server_task-Lives :
    (net : Net) (fuel : ℕ) (h : History)
    → Receives net
    → length (net.local_array 128) ≡ 128
    → Replies net Greeting 0 waiting h
    → Lives net (udp_server_task net fuel h)
unfolding udp_server_task
udp_server_task-Lives net fuel h receives size before =
    serve-Lives net receives fuel opening (net.local_array 128) h size before
