-- ===== src/Archive/Server.antt =====
-- udp_server_task and udp_broadcaster of archive/publickey_reciever.c, over the events and the
-- parameters of Udp.
pub mod Greetings
use rfid_encryption.Base.{
  ℕ, zero, suc, List, [], ◌∷◌, Option, none, some, ◌>>=◌, codes, is_neg, store, write_bytes,
  if◌then◌else◌,
}
use rfid_encryption.Udp.{
  History, Net, Datagram, Server, serving, ended, stopped, Place, opening, receiving, socket, bind,
  recvfrom, shutdown, close, sendto, task_delete, setsockopt, delay_forever, index, port,
}

abbrev pub tx_buffer : List ℕ
tx_buffer = codes "Hello from ESP32"

module _ (net : Net) where
  -- What came, with a NUL behind it.
  abbrev pub filled : Datagram → List ℕ → Option (List ℕ)
  filled r rx_buffer = write_bytes rx_buffer 0 r.bytes >>= λ text. store text (index r.len) 0

  -- The loops for so many calls of `socket` and `recvfrom`.
  unfoldable pub serve : ℕ → Place → List ℕ → History → Server
  serve zero place rx_buffer h = serving h
  serve (suc fuel) opening rx_buffer h =
      let more = serve fuel receiving rx_buffer (bind port ∷ socket ∷ h) in
      if is_neg (net.sockets h) then ended (task_delete ∷ socket ∷ h) else more
  serve (suc fuel) receiving rx_buffer h =
      let heard = recvfrom ∷ h in
      let again = serve fuel opening rx_buffer (close ∷ shutdown ∷ heard) in
      let source_addr : ℕ = (net.received h).source_addr in
      if is_neg (net.received h).len then again else elim (filled (net.received h) rx_buffer) [
        | none ↦ stopped heard
        | some text ↦
            serve fuel receiving text
              (sendto tx_buffer source_addr port ∷ sendto tx_buffer source_addr port ∷ heard)
      ]

  unfoldable pub udp_server_task : ℕ → History → Server
  unfolding serve
  udp_server_task fuel h = serve fuel opening (net.local_array 128) h

  -- The address is set up, but nothing is sent to it. The socket is closed after a failure only.
  unfoldable pub udp_broadcaster : History → History
  udp_broadcaster h =
      let opened = if is_neg (net.sockets h) then delay_forever ∷ socket ∷ h else socket ∷ h in
      if is_neg (net.option_set opened)
      then delay_forever ∷ close ∷ setsockopt ∷ opened
      else setsockopt ∷ opened
