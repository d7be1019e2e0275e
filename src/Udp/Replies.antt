-- ===== src/Udp/Replies.antt =====
-- What a server of datagrams is meant to do, as a machine on its calls: each datagram that comes is
-- answered by the same message twice, to the address that it came from, before anything else happens.
pub mod Answers
pub mod Counts
use rfid_encryption.Base.{
  ℕ, ◌≡◌, refl, List, [], ◌∷◌, ◌++◌, Bool, true, false, Option, some, none, replicate, is_neg,
  if◌then◌else◌,
}
use rfid_encryption.Mbed.{Object, Uses, ecdh_context, settle}
use rfid_encryption.Udp.{
  Event, History, Net, Reply, replied, halted, within, Server, serving, ended, stopped, recvfrom,
  sendto, objects, port,
}

-- These calls leave `n` more ECDH contexts than there were, and all else as it was.
abbrev pub Adds : ℕ → Uses → Type 0
Adds n uses = (live : List Object) → settle uses live ≡ some (replicate n ecdh_context ++ live)

-- Where the answer to a datagram stands: which address it came from, and, between the two copies,
-- what was sent and how many contexts were left.
pub data Stage : Type 0 where
  waiting : Stage
  heard : ℕ → Stage
  half : List ℕ → ℕ → ℕ → Stage

-- `left` is the number of contexts that an answer leaves.
module _ (net : Net) (Message : List ℕ → Type 0) (left : ℕ) where
  -- What is no part of an answer.
  abbrev pub IsQuiet : History → Event → Type 0
  IsQuiet h (sendto bytes address to) = ⊥
  IsQuiet h recvfrom = is_neg (net.received h).len ≡ true
  IsQuiet h (objects uses) = Adds 0 uses
  IsQuiet h _ = Unit {0}

  pub data Replies : Stage → History → Type 0 where
    nothing : Replies waiting []
    quiet : {h : History} (e : Event) → IsQuiet h e → Replies waiting h → Replies waiting (e ∷ h)
    hear :
        {h : History} (address : ℕ)
        → is_neg (net.received h).len ≡ false
        → address ≡ (net.received h).source_addr
        → Replies waiting h
        → Replies (heard address) (recvfrom ∷ h)
    prepare :
        {h : History} {address : ℕ} (uses : Uses)
        → Adds 0 uses
        → Replies (heard address) h
        → Replies (heard address) (objects uses ∷ h)
    first :
        {h : History} {address : ℕ} (bytes : List ℕ) (to n : ℕ)
        → Message bytes
        → to ≡ port
        → n ≡ 0
        → Replies (heard address) h
        → Replies (half bytes address n) (sendto bytes address to ∷ h)
    leave :
        {h : History} {bytes : List ℕ} {address n : ℕ} (uses : Uses)
        → Adds left uses
        → n ≡ 0
        → Replies (half bytes address n) h
        → Replies (half bytes address left) (objects uses ∷ h)
    second :
        {h : History} {bytes : List ℕ} {address n : ℕ} (to : ℕ)
        → to ≡ port
        → n ≡ left
        → Replies (half bytes address n) h
        → Replies waiting (sendto bytes address to ∷ h)

  -- The server has answered all that came, or the program stopped within an answer.
  abbrev pub Allowed : Server → Type 0
  Allowed (serving h) = Replies waiting h
  Allowed (ended h) = Replies waiting h
  Allowed (stopped h) = (s : Stage) × Replies s h

  abbrev pub AllowedReply : Reply → Type 0
  AllowedReply (replied rx_buffer h) = Replies waiting h
  AllowedReply (halted h) = (s : Stage) × Replies s h

  pub AllowedReply-within {ℓ} :
      {A : Type ℓ} (o : Option A) (h : History) (s : Stage) (f : A → Reply)
      → Replies s h
      → ((a : A) → o ≡ some a → AllowedReply (f a))
      → AllowedReply (within o h f)
  AllowedReply-within none h s f so_far hf = (s, so_far)
  AllowedReply-within (some a) h s f so_far hf = hf a refl

  pub Allowed-stored :
      (o : Option (List ℕ)) (h : History) (s : Stage) (go : List ℕ → Server)
      → Replies s h
      → ((b : List ℕ) → Allowed (go b))
      → Allowed (elim o [ none ↦ stopped h | some b ↦ go b ])
  Allowed-stored none h s go so_far hf = (s, so_far)
  Allowed-stored (some b) h s go so_far hf = hf b

  pub Allowed-reply :
      (r : Reply) (go : List ℕ → History → Server)
      → AllowedReply r
      → ((rx : List ℕ) (h : History) → Replies waiting h → Allowed (go rx h))
      → Allowed (elim r [ replied rx h ↦ go rx h | halted h ↦ stopped h ])
  Allowed-reply (replied rx h) go ok hf = hf rx h ok
  Allowed-reply (halted h) go ok hf = ok
