-- ===== src/Udp/Silence.antt =====
-- What the UDP server and the broadcast send.
use rfid_encryption.Base.{
  ℕ, zero, suc, ◌+◌, ◌≡◌, ◌≢◌, refl, ap, List, [], ◌∷◌, Bool, true, false, Option, none, some,
  is_neg, store, write_bytes, if◌then◌else◌, arith,
}
use rfid_encryption.Flash.Aes.{Crypto, pointer_size}
use rfid_encryption.Flash.Storage.{FlashChip}
use rfid_encryption.Mbed.{Uses}
use rfid_encryption.Sign.{Pk, Result, returned, aborted, overrun, signature_generater}
use rfid_encryption.Sign.Generate.{signature_generater_never}
use rfid_encryption.Ecdh.{Ecdh}
use rfid_encryption.Udp.{
  History, Net, Datagram, Reply, replied, halted, within, Server, serving, ended, stopped, Place,
  opening, receiving, socket, bind, recvfrom, shutdown, close, sendto, setsockopt, delay_forever,
  udp_broadcaster, answer, serve, index, port,
}

abbrev pub messages_sent : History → ℕ
messages_sent [] = 0
messages_sent (sendto bytes address to_port ∷ h) = messages_sent h + 1
messages_sent (_ ∷ h) = messages_sent h

abbrev pub history_of : Server → History
history_of (serving h) = h
history_of (ended h) = h
history_of (stopped h) = h

-- mbedtls signs nothing into a buffer of four bytes.
abbrev pub Refuses : Pk → Type 0
Refuses P = (key : P.Key) (hash : List ℕ) → (P.pk_sign key hash 0 pointer_size).0 ≢ 0

-- A reply that can only stop, and where it began.
abbrev Halts : Reply → History → Type 0
Halts (halted h') h = h' ≡ h
Halts (replied rx_buffer h') h = ⊥

Halts-within :
    (o : Option (List ℕ)) (h : History) (f : List ℕ → Reply)
    → ((a : List ℕ) → Halts (f a) h)
    → Halts (within o h f) h
Halts-within none h f hf = refl
Halts-within (some a) h f hf = hf a

module _ (net : Net) (P : History → Pk) (M : History → Ecdh) (C : Crypto) (F : FlashChip) (nul : ℕ)
    (chip : F.Chip) (refuses : (h : History) → Refuses (P h)) where
  answer-Halts :
      (len : ℕ) (rx_buffer : List ℕ) (source_addr : ℕ) (h : History)
      → Halts (answer net P M C F nul chip len rx_buffer source_addr h) h
  unfolding answer
  answer-Halts len rx_buffer source_addr h = Halts-within (store rx_buffer len 0) h _ λ text.
      never_then
        (signature_generater (P h) C F nul chip (net.heap h) (net.heap' h) (net.esp_random h)
          net.label (net.local_array 256) (net.local_array 16))
        _
        (λ out.
          signature_generater_never (P h) C F nul chip (net.heap h) (net.heap' h) (net.esp_random h)
            net.label (net.local_array 256) (net.local_array 16) out (refuses h))
    where
      never_then :
          (m : Result (List ℕ × List ℕ × Uses)) (f : List ℕ → List ℕ → Uses → Reply)
          → ((out : List ℕ × List ℕ × Uses) → m ≢ returned out)
          → Halts
              (elim m [
                | aborted ↦ halted h
                | overrun ↦ halted h
                | returned (sign, plaintext, uses) ↦ f sign plaintext uses
              ])
              h
      never_then (returned out) f never = absurd (never out refl)
      never_then aborted f never = refl
      never_then overrun f never = refl

sent_if :
    (b : Bool) (x y : Server) (n : ℕ)
    → messages_sent (history_of x) ≡ n
    → messages_sent (history_of y) ≡ n
    → messages_sent (history_of (if b then x else y)) ≡ n
sent_if true x y n hx hy = hx
sent_if false x y n hx hy = hy

sent_halted :
    (r : Reply) (h : History) (go : List ℕ → History → Server)
    → Halts r h
    → messages_sent (history_of (elim r [ replied rx h' ↦ go rx h' | halted h' ↦ stopped h' ]))
      ≡ messages_sent h
sent_halted (halted h') h go same = ap messages_sent same
sent_halted (replied rx h') h go never = absurd never

sent_store :
    (o : Option (List ℕ)) (h : History) (go : List ℕ → Server)
    → ((b : List ℕ) → messages_sent (history_of (go b)) ≡ messages_sent h)
    → messages_sent (history_of (elim o [ none ↦ stopped h | some b ↦ go b ])) ≡ messages_sent h
sent_store none h go same = refl
sent_store (some b) h go same = same b

-- When mbedtls refuses to sign into four bytes, the UDP server never sends anything, in any number of
-- rounds, whatever datagrams arrive: the first one stops the program.
pub serve_silent :
    (net : Net) (P : History → Pk) (M : History → Ecdh) (C : Crypto) (F : FlashChip) (nul : ℕ)
    (chip : F.Chip) (fuel : ℕ) (place : Place) (rx_buffer : List ℕ) (h : History)
    → ((h' : History) → Refuses (P h'))
    → messages_sent (history_of (serve net P M C F nul chip fuel place rx_buffer h))
      ≡ messages_sent h
unfolding serve
serve_silent net P M C F nul chip zero place rx_buffer h refuses = refl
serve_silent net P M C F nul chip (suc fuel) opening rx_buffer h refuses =
    sent_if (is_neg (net.sockets h)) _ _ (messages_sent h) refl
      (serve_silent net P M C F nul chip fuel receiving rx_buffer (bind port ∷ socket ∷ h) refuses)
serve_silent net P M C F nul chip (suc fuel) receiving rx_buffer h refuses =
    let r : Datagram = net.received h in
    let heard : History = recvfrom ∷ h in
    sent_if (is_neg r.len) _ _ (messages_sent h)
      (serve_silent net P M C F nul chip fuel opening rx_buffer (close ∷ shutdown ∷ heard) refuses)
      (sent_store (write_bytes rx_buffer 0 r.bytes) heard _ (λ filled.
        sent_halted (answer net P M C F nul chip (index r.len) filled r.source_addr heard) heard _
          (answer-Halts net P M C F nul chip refuses (index r.len) filled r.source_addr heard)))

-- How often a socket was closed.
abbrev closes : History → ℕ
closes [] = 0
closes (close ∷ h) = closes h + 1
closes (_ ∷ h) = closes h

sent_opened :
    (b c : Bool) (h : History)
    → let opened = if b then delay_forever ∷ socket ∷ h else socket ∷ h in
      let set = if c then delay_forever ∷ close ∷ setsockopt ∷ opened else setsockopt ∷ opened in
      (messages_sent set ≡ messages_sent h) × (closes set ≡ closes h + (if c then 1 else 0))
sent_opened true true h = (refl, refl)
sent_opened true false h = (refl, omega arith)
sent_opened false true h = (refl, refl)
sent_opened false false h = (refl, omega arith)

-- udp_broadcaster sends its message exactly once, even when it has no socket. It closes its socket
-- once, and twice when the broadcast option could not be set: it has then been closed before the
-- message is sent.
udp_broadcaster_lem :
    (net : Net) (h : History)
    → let opened = if is_neg (net.sockets h) then delay_forever ∷ socket ∷ h else socket ∷ h in
      (messages_sent (udp_broadcaster net h) ≡ messages_sent h + 1)
      × (closes (udp_broadcaster net h)
          ≡ closes h + (if is_neg (net.option_set opened) then 1 else 0) + 1)
unfolding udp_broadcaster
udp_broadcaster_lem net h =
    let opened : History =
      if is_neg (net.sockets h) then delay_forever ∷ socket ∷ h else socket ∷ h in
    let failed : Bool = is_neg (net.option_set opened) in
    let (same, count) = sent_opened (is_neg (net.sockets h)) failed h in (rw same, rw count)
