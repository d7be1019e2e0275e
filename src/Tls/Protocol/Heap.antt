-- ===== src/Tls/Protocol/Heap.antt =====
-- What a request leaves of the heap blocks that it takes.
use rfid_encryption.Base.{
  ℕ, ◌≡◌, ◌≢◌, refl, List, [], ◌∷◌, ◌++◌, Bool, true, false, Option, none, some, ◌>>=◌, ◌==◌, done,
  if◌then◌else◌,
}
use rfid_encryption.Device.{
  Event, History, Device, Env, Block, key_block, crt_block, json_block, new_key_block,
  card_key_block, alloc, free,
}
use rfid_encryption.Flash.Aes.{Crypto}
use rfid_encryption.Flash.Storage.{FlashChip}
use rfid_encryption.Tls.{https_request}
use rfid_encryption.Tls.Message.{Json}
use rfid_encryption.Tls.Loops.{ArraysFit}
use rfid_encryption.Tls.Protocol.{
  Phase, idle, loading, loaded, opened, printed, asked, listening, granted, ready, written, closing,
  freed, closed, Step, Run, start, next,
}
use rfid_encryption.Tls.Protocol.Refines.{https_request-Run}

abbrev number : Block → ℕ
number key_block = 0
number crt_block = 1
number json_block = 2
number new_key_block = 3
number card_key_block = 4

-- One block of this name is given back; `none` when there is none.
abbrev release : Block → List Block → Option (List Block)
release b [] = none
release b (x ∷ xs) =
    let rest = release b xs in
    if number b == number x then some xs else (rest >>= λ ys. some (x ∷ ys))

-- The blocks in use, the last taken first; `none` when one was freed that was not there.
abbrev pub blocks : History → Option (List Block)
blocks [] = some []
blocks (alloc b ∷ h) = blocks h >>= λ bs. some (b ∷ bs)
blocks (free b ∷ h) = blocks h >>= λ bs. release b bs
blocks (_ ∷ h) = blocks h

-- What a request may leave behind.
pub data Leak : Type 0 where
  no_leak json_leak new_key_leak : Leak

abbrev pub left : Leak → List Block
left no_leak = []
left json_leak = json_block ∷ []
left new_key_leak = new_key_block ∷ []

-- The request's own blocks in each phase, after which of the leaks; a pass leaves the new key's text.
abbrev pub own : Leak → Phase → List Block
own l idle = []
own l loading = key_block ∷ []
own l (closed passes) = left l
own l (freed passes) = left l ++ (crt_block ∷ [])
own l (closing passes) = left l ++ (crt_block ∷ key_block ∷ [])
own l loaded = crt_block ∷ key_block ∷ []
own l opened = crt_block ∷ key_block ∷ []
own l printed = json_block ∷ crt_block ∷ key_block ∷ []
own l asked = json_block ∷ crt_block ∷ key_block ∷ []
own l listening = crt_block ∷ key_block ∷ []
own l granted = crt_block ∷ key_block ∷ []
own l ready = crt_block ∷ key_block ∷ []
own l (written new_key) = crt_block ∷ key_block ∷ []
own l _ = new_key_block ∷ crt_block ∷ key_block ∷ []

-- Whether a request that comes to this result may leave that.
abbrev pub Fits : Leak → Bool → Type 0
Fits l true = l ≡ new_key_leak
Fits l false = Unit {0}

abbrev pub FitsPhase : Leak → Phase → Type 0
FitsPhase l (closing passes) = Fits l passes
FitsPhase l (freed passes) = Fits l passes
FitsPhase l (closed passes) = Fits l passes
FitsPhase l _ = Unit {0}

module _ (json : Json) (uid card_key : List ℕ) (base : List Block) where
  abbrev pub Holds : Phase → History → Type 0
  Holds p h = (l : Leak) × FitsPhase l p × (blocks h ≡ some (own l p ++ base))

  Step-Holds :
      {p q : Phase} {e : Event} (h : History)
      → Step json uid card_key p e q
      → Holds p h
      → Holds q (e ∷ h)
  Step-Holds h Step.take_key (l, ok, c) = (l, tt, rw c)
  Step-Holds h Step.take_crt (l, ok, c) = (l, tt, rw c)
  Step-Holds h Step.no_keys (l, ok, c) = (no_leak, tt, rw c)
  Step-Holds h Step.no_connection (l, ok, c) = (no_leak, tt, rw c)
  Step-Holds h Step.print (l, ok, c) = (l, tt, rw c)
  Step-Holds h Step.not_asked (l, ok, c) = (json_leak, tt, c)
  Step-Holds h Step.listen (l, ok, c) = (l, tt, rw c)
  Step-Holds h Step.no_grant (l, ok, c) = (no_leak, tt, c)
  Step-Holds h (Step.announce new_key) (l, ok, c) = (l, tt, rw c)
  Step-Holds h Step.not_told (l, ok, c) = (new_key_leak, tt, rw c)
  Step-Holds h Step.hang_up (l, ok, c) = (new_key_leak, tt, c)
  Step-Holds h Step.give_up (l, ok, c) = (new_key_leak, tt, c)
  Step-Holds h Step.end_pass (l, ok, c) = (new_key_leak, refl, c)
  Step-Holds h (Step.free_key passes) (no_leak, ok, c) = (no_leak, ok, rw c)
  Step-Holds h (Step.free_key passes) (json_leak, ok, c) = (json_leak, ok, rw c)
  Step-Holds h (Step.free_key passes) (new_key_leak, ok, c) = (new_key_leak, ok, rw c)
  Step-Holds h (Step.free_crt passes) (no_leak, ok, c) = (no_leak, ok, rw c)
  Step-Holds h (Step.free_crt passes) (json_leak, ok, c) = (json_leak, ok, rw c)
  Step-Holds h (Step.free_crt passes) (new_key_leak, ok, c) = (new_key_leak, ok, rw c)
  Step-Holds h _ (l, ok, c) = (l, tt, c)

  Run-Holds :
      {h : History} {q : Phase} {h' : History}
      → Run json uid card_key h q h'
      → blocks h ≡ some base
      → Holds q h'
  Run-Holds start c = (no_leak, tt, c)
  Run-Holds (next {h'} run st) c = Step-Holds h' st (Run-Holds run c)

-- On a device whose local arrays have their size, and from any blocks in use, a request that ends has
-- freed only what was there, its two keys among it, and has left all other blocks in use as they were,
-- but for what it leaks: a request that does not return 0 always leaks the text with the new key, and one
-- that returns 0 leaks nothing, that text, or the text with the card's key.
pub https_request_frees :
    (env : Env) (json : Json) (C : Crypto) (F : FlashChip) (nul : ℕ) (chip : F.Chip) (fuel : ℕ)
    (heap uid card_key : List ℕ) (d : Device) (out : ℕ × Device) (base : List Block)
    → ArraysFit env
    → https_request env json C F nul chip fuel heap uid card_key d ≡ done out
    → blocks d.history ≡ some base
    → (l : Leak) × (out.0 ≢ 0 → l ≡ new_key_leak) × (blocks out.1.history ≡ some (left l ++ base))
https_request_frees env json C F nul chip fuel heap uid card_key d out base fit e before =
    let (passes, ret, run) =
      https_request-Run env json C F nul chip fuel heap uid card_key d out fit e in
    leaked passes ret (Run-Holds json uid card_key base run before)
  where
    leaked :
        (passes : Bool)
        → out.0 ≡ (if passes then 1 else 0)
        → Holds json uid card_key base (closed passes) out.1.history
        → (l : Leak) × (out.0 ≢ 0 → l ≡ new_key_leak)
          × (blocks out.1.history ≡ some (left l ++ base))
    leaked true ret (l, ok, c) = (l, (λ _. ok), c)
    leaked false ret (l, ok, c) = (l, (λ pass. absurd (pass ret)), c)
