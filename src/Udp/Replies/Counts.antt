-- ===== src/Udp/Replies/Counts.antt =====
-- What follows from the machine of replies alone: how many messages answer how many datagrams, and
-- how many ECDH contexts are left.
use rfid_encryption.Base.{
  ℕ, suc, ◌+◌, ◌*◌, ◌≡◌, refl, ap, ◌∙◌, List, [], ◌∷◌, Bool, true, false, Option, some, ◌>>=◌,
  replicate, is_neg, arith,
}
use rfid_encryption.Mbed.{Object, Uses, ecdh_context, settle}
use rfid_encryption.Udp.{Event, History, Net, recvfrom, sendto, objects}
use rfid_encryption.Udp.Silence.{messages_sent}
use rfid_encryption.Udp.Replies.{Stage, waiting, heard, half, Adds, IsQuiet, Replies}

-- One unless `recvfrom` failed.
abbrev pub arrived : Bool → ℕ
arrived true = 0
arrived false = 1

-- The objects that hold memory.
abbrev pub live : History → Option (List Object)
live [] = some []
live (objects uses ∷ h) = live h >>= λ os. settle uses os
live (_ ∷ h) = live h

-- The messages that a datagram is still owed.
abbrev pub owed : Stage → ℕ
owed waiting = 0
owed (heard address) = 2
owed (half bytes address n) = 1

module _ (net : Net) where
  -- The datagrams that came.
  abbrev pub datagrams : History → ℕ
  datagrams [] = 0
  datagrams (recvfrom ∷ h) = datagrams h + arrived (is_neg (net.received h).len)
  datagrams (_ ∷ h) = datagrams h

  module _ (Message : List ℕ → Type 0) (left : ℕ) where
    quiet_counts :
        (h : History) (e : Event)
        → IsQuiet net Message left h e
        → (messages_sent (e ∷ h) ≡ messages_sent h) × (datagrams (e ∷ h) ≡ datagrams h)
    quiet_counts h (sendto bytes address to) q = absurd q
    quiet_counts h recvfrom q = (refl, omega (arith, ap arrived q))
    quiet_counts h _ q = (refl, refl)

    -- Two messages for each datagram.
    pub messages_sent-datagrams :
        {s : Stage} {h : History}
        → Replies net Message left s h
        → messages_sent h + owed s ≡ 2 * datagrams h
    messages_sent-datagrams Replies.nothing = refl
    messages_sent-datagrams (Replies.quiet {h} e q r) =
        omega (arith, quiet_counts h e q, messages_sent-datagrams r)
    messages_sent-datagrams (Replies.hear address came from r) =
        omega (arith, ap arrived came, messages_sent-datagrams r)
    messages_sent-datagrams (Replies.prepare uses adds r) = messages_sent-datagrams r
    messages_sent-datagrams (Replies.first bytes to n good at none_yet r) =
        omega (arith, messages_sent-datagrams r)
    messages_sent-datagrams (Replies.leave uses adds none_yet r) = messages_sent-datagrams r
    messages_sent-datagrams (Replies.second to at all r) = omega (arith, messages_sent-datagrams r)

-- Nothing but ECDH contexts, and how many.
abbrev Contexts : ℕ → History → Type 0
Contexts n h = live h ≡ some (replicate n ecdh_context)

Contexts-uses :
    (n m : ℕ) (h : History) (uses : Uses)
    → Adds m uses
    → Contexts n h
    → live (objects uses ∷ h) ≡ settle uses (replicate n ecdh_context)
Contexts-uses n m h uses adds c = rw c

-- The contexts of the datagram that is being answered, and one more than there are to come.
abbrev paid : Stage → ℕ
paid waiting = 1
paid (heard address) = 0
paid (half bytes address n) = n

module _ (net : Net) (Message : List ℕ → Type 0) where
  quiet_Contexts :
      (n : ℕ) (h : History) (e : Event)
      → IsQuiet net Message 1 h e
      → Contexts n h
      → Contexts n (e ∷ h)
  quiet_Contexts n h (sendto bytes address to) q c = absurd q
  quiet_Contexts n h (objects uses) q c =
      Contexts-uses n 0 h uses q c ∙ q (replicate n ecdh_context)
  quiet_Contexts n h _ q c = c

  Replies-Contexts :
      {s : Stage} {h : History}
      → Replies net Message 1 s h
      → (n : ℕ) × (n + 1 ≡ datagrams net h + paid s) × Contexts n h
  Replies-Contexts Replies.nothing = (0, refl, refl)
  Replies-Contexts (Replies.quiet {h} e q r) =
      let (n, count, c) = Replies-Contexts r in
      (n, omega (arith, count, quiet_counts net Message 1 h e q), quiet_Contexts n h e q c)
  Replies-Contexts (Replies.hear address came from r) =
      let (n, count, c) = Replies-Contexts r in (n, omega (arith, count, ap arrived came), c)
  Replies-Contexts (Replies.prepare {h} uses adds r) =
      let (n, count, c) = Replies-Contexts r in
      (n, count, Contexts-uses n 0 h uses adds c ∙ adds (replicate n ecdh_context))
  Replies-Contexts (Replies.first bytes to m good at none_yet r) =
      let (n, count, c) = Replies-Contexts r in (n, omega (arith, count, none_yet), c)
  Replies-Contexts (Replies.leave {h} uses adds none_yet r) =
      let (n, count, c) = Replies-Contexts r in
      (
        suc n,
        omega (arith, count, none_yet),
        Contexts-uses n 1 h uses adds c ∙ adds (replicate n ecdh_context),
      )
  Replies-Contexts (Replies.second to at all r) =
      let (n, count, c) = Replies-Contexts r in (n, omega (arith, count, all), c)

  -- One context for each datagram that has been answered.
  pub live-datagrams :
      {h : History}
      → Replies net Message 1 waiting h
      → live h ≡ some (replicate (datagrams net h) ecdh_context)
  live-datagrams {h} r =
      let (n, count, c) = Replies-Contexts r in
      let same : n ≡ datagrams net h = omega (arith, count) in
      c ∙ ap (λ (k : ℕ). some (replicate k ecdh_context)) same
