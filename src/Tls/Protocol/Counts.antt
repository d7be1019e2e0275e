-- ===== src/Tls/Protocol/Counts.antt =====
-- How often a request calls what it must call once.
use rfid_encryption.Base.{
  ℕ, ◌+◌, ◌≡◌, ◌≤◌, refl, List, [], ◌∷◌, Bool, true, false, done, arith, if◌then◌else◌,
}
use rfid_encryption.Device.{
  Event, History, Device, Env, conn_http_new, conn_destroy, write_data_block, task_create_blink,
  blue,
}
use rfid_encryption.Flash.Aes.{Crypto}
use rfid_encryption.Flash.Storage.{FlashChip}
use rfid_encryption.Tls.{https_request}
use rfid_encryption.Tls.Message.{Json}
use rfid_encryption.Tls.Loops.{ArraysFit}
use rfid_encryption.Tls.Protocol.{
  Phase, idle, loading, loaded, opened, printed, asked, listening, granted, ready, closing, freed,
  closed, Step, Run, start, next,
}
use rfid_encryption.Tls.Protocol.Refines.{https_request-Run}

-- The calls of one kind.
abbrev pub calls : (Event → ℕ) → History → ℕ
calls kind [] = 0
calls kind (e ∷ h) = calls kind h + kind e

abbrev pub opening : Event → ℕ
opening (conn_http_new crt key saved) = 1
opening _ = 0

abbrev pub destroying : Event → ℕ
destroying conn_destroy = 1
destroying _ = 0

abbrev pub writing : Event → ℕ
writing (write_data_block number block) = 1
writing _ = 0

-- The start of the red or green lamp.
abbrev pub showing : Event → ℕ
showing (task_create_blink blue) = 0
showing (task_create_blink c) = 1
showing _ = 0

-- The connections tried, those destroyed and the blocks written by the time of each phase.
abbrev pub Spent : Phase → ℕ → ℕ → ℕ → Type 0
Spent idle o d w = (o ≡ 0) × (d ≡ 0) × (w ≡ 0)
Spent loading o d w = (o ≡ 0) × (d ≡ 0) × (w ≡ 0)
Spent loaded o d w = (o ≡ 0) × (d ≡ 0) × (w ≡ 0)
Spent opened o d w = (o ≡ 1) × (d ≡ 0) × (w ≡ 0)
Spent printed o d w = (o ≡ 1) × (d ≡ 0) × (w ≡ 0)
Spent asked o d w = (o ≡ 1) × (d ≡ 0) × (w ≡ 0)
Spent listening o d w = (o ≡ 1) × (d ≡ 0) × (w ≡ 0)
Spent granted o d w = (o ≡ 1) × (d ≡ 0) × (w ≡ 0)
Spent ready o d w = (o ≡ 1) × (d ≡ 0) × (w ≡ 0)
Spent (closing false) o d w = (o ≡ 1) × (d ≡ 1) × (w ≤ 1)
Spent (freed false) o d w = (o ≤ 1) × (d ≤ o) × (w ≤ o)
Spent (closed false) o d w = (o ≤ 1) × (d ≤ o) × (w ≤ o)
Spent (closing true) o d w = (o ≡ 1) × (d ≡ 1) × (w ≡ 1)
Spent (freed true) o d w = (o ≡ 1) × (d ≡ 1) × (w ≡ 1)
Spent (closed true) o d w = (o ≡ 1) × (d ≡ 1) × (w ≡ 1)
Spent _ o d w = (o ≡ 1) × (d ≡ 0) × (w ≡ 1)

module _ {json : Json} {uid card_key : List ℕ} where
  Step-Spent :
      {p q : Phase} {e : Event} (o d w : ℕ)
      → Step json uid card_key p e q
      → Spent p o d w
      → Spent q (o + opening e) (d + destroying e) (w + writing e)
  Step-Spent o d w Step.no_keys s = omega arith
  Step-Spent o d w (Step.free_key true) s = omega arith
  Step-Spent o d w (Step.free_key false) s = omega arith
  Step-Spent o d w (Step.free_crt true) s = omega arith
  Step-Spent o d w (Step.free_crt false) s = omega arith
  Step-Spent o d w _ s = omega arith

  -- What a run has spent since its start.
  pub Run-Spent :
      {h : History} {q : Phase} {h' : History}
      → Run json uid card_key h q h'
      → (o : ℕ) × (d : ℕ) × (w : ℕ) × (calls opening h' ≡ calls opening h + o)
        × (calls destroying h' ≡ calls destroying h + d)
        × (calls writing h' ≡ calls writing h + w)
        × Spent q o d w
  Run-Spent start = (0, 0, 0, omega arith, omega arith, omega arith, (refl, refl, refl))
  Run-Spent (next {e} run st) =
      let (o, d, w, eo, ed, ew, s) = Run-Spent run in
      (
        o + opening e,
        d + destroying e,
        w + writing e,
        omega arith,
        omega arith,
        omega arith,
        Step-Spent o d w st s,
      )

  -- Calls that no step makes are not made.
  pub Run-none :
      {h : History} {q : Phase} {h' : History} (kind : Event → ℕ)
      → ((p q : Phase) (e : Event) → Step json uid card_key p e q → kind e ≡ 0)
      → Run json uid card_key h q h'
      → calls kind h' ≡ calls kind h
  Run-none kind never start = refl
  Run-none kind never (next run st) = omega (arith, Run-none kind never run, never _ _ _ st)

  Step-showing : {p q : Phase} {e : Event} → Step json uid card_key p e q → showing e ≡ 0
  Step-showing Step.no_keys = refl
  Step-showing _ = refl

  -- A request starts neither the red nor the green lamp.
  Run-showing :
      {h : History} {q : Phase} {h' : History}
      → Run json uid card_key h q h'
      → calls showing h' ≡ calls showing h
  Run-showing run = Run-none showing (λ p q e st. Step-showing st) run

ended_Spent :
    (passes : Bool) (n o d w : ℕ)
    → n ≡ (if passes then 1 else 0)
    → Spent (closed passes) o d w
    → (o ≤ 1) × (d ≤ o) × (w ≤ o) × (n ≡ 1 → (d ≡ 1) × (w ≡ 1))
ended_Spent true n o d w ret s = (omega arith, omega arith, omega arith, λ _. (s.1, s.2))
ended_Spent false n o d w ret s = (s.0, s.1, s.2, λ one. absurd (omega arith))

-- On a device whose local arrays have their size, a request that ends has tried at most one
-- connection, destroyed and written to the card no more often than that, and started no red or green
-- lamp. A request that returns 1 has done the first three exactly once.
pub https_request_counts :
    (env : Env) (json : Json) (C : Crypto) (F : FlashChip) (nul : ℕ) (chip : F.Chip) (fuel : ℕ)
    (heap uid card_key : List ℕ) (d : Device) (out : ℕ × Device)
    → ArraysFit env
    → https_request env json C F nul chip fuel heap uid card_key d ≡ done out
    → (tried : ℕ) × (destroyed : ℕ) × (stored : ℕ) × (calls opening out.1.history
        ≡ calls opening d.history + tried)
      × (calls destroying out.1.history ≡ calls destroying d.history + destroyed)
      × (calls writing out.1.history ≡ calls writing d.history + stored)
      × (calls showing out.1.history ≡ calls showing d.history)
      × (tried ≤ 1)
      × (destroyed ≤ tried)
      × (stored ≤ tried)
      × (out.0 ≡ 1 → (destroyed ≡ 1) × (stored ≡ 1))
https_request_counts env json C F nul chip fuel heap uid card_key d out fit e =
    let (passes, ret, run) =
      https_request-Run env json C F nul chip fuel heap uid card_key d out fit e in
    let (o, t, w, eo, et, ew, s) = Run-Spent run in
    let (once, balanced, on_it, all) = ended_Spent passes out.0 o t w ret s in
    (o, t, w, eo, et, ew, Run-showing run, once, balanced, on_it, all)
