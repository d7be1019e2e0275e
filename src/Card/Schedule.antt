-- ===== src/Card/Schedule.antt =====
-- The blinking tasks of main/card_reader.c beside each other and beside the task that creates them,
-- in every order that a scheduler may choose.
pub mod Dark
use rfid_encryption.Base.{
  ℕ, zero, suc, ◌≡◌, ◌≢◌, refl, sym, ap, ◌∙◌, subst, ◌⊎◌, inl, inr, Bool-cases, List, [], ◌∷◌, ◌++◌,
  Bool, true, false, ◌==◌, if◌then◌else◌, append-nil, append_assoc, arith,
}
use rfid_encryption.Device.{
  Event, History, Colour, red, green, blue, booted, set_level, task_delay, task_delete,
  task_create_blink,
}
use rfid_encryption.Card.{blink, blink_task, gpio_of}

abbrev oldest_first : History → List Event → List Event
oldest_first [] es = es
oldest_first (e ∷ h) es = oldest_first h (e ∷ es)

-- The calls of a blinking task, oldest first.
abbrev pub script : Colour → List Event
script c = oldest_first (blink_task c booted).history []

-- What the running tasks have left to do.
abbrev pub Tasks : Type 0
Tasks = List (List Event)

-- One of the tasks makes its next call.
pub data Acts : Tasks → Event → Tasks → Type 0 where
  here : (e : Event) (es : List Event) (ts : Tasks) → Acts ((e ∷ es) ∷ ts) e (es ∷ ts)
  there : (t : List Event) {ts ts' : Tasks} {e : Event} → Acts ts e ts' → Acts (t ∷ ts) e (t ∷ ts')

-- The calls of the other tasks: they set no lamp's pin. The driver's calls move the pins of its SPI bus,
-- 5 (PN532_SS) among them, which `level` does not follow.
abbrev pub OfOthers : Event → Type 0
OfOthers (set_level gpio v) = ⊥
OfOthers (task_create_blink c) = ⊥
OfOthers _ = Unit {0}

-- The runs: a task is created, a task acts, or another task makes a call.
pub data Run : Tasks → History → Type 0 where
  boot : Run [] []
  create :
      {ts : Tasks} {h : History} (c : Colour)
      → Run ts h
      → Run (script c ∷ ts) (task_create_blink c ∷ h)
  act : {ts ts' : Tasks} {h : History} {e : Event} → Run ts h → Acts ts e ts' → Run ts' (e ∷ h)
  other : {ts : Tasks} {h : History} (e : Event) → OfOthers e → Run ts h → Run ts (e ∷ h)

-- A pin's level, as the blinking tasks set it. It is low at the start.
abbrev pub level : ℕ → History → ℕ
level gpio [] = 0
level gpio (set_level other_gpio v ∷ h) = if other_gpio == gpio then v else level gpio h
level gpio (_ ∷ h) = level gpio h

abbrev pub Ended : Tasks → Type 0
Ended [] = Unit {0}
Ended (t ∷ ts) = (t ≡ []) × Ended ts

-- A call that sets the pin to 0 is still to come.
abbrev pub Clears : ℕ → List Event → Type 0
Clears gpio [] = ⊥
Clears gpio (set_level other_gpio v ∷ es) = ((other_gpio ≡ gpio) × (v ≡ 0)) ⊎ Clears gpio es
Clears gpio (_ ∷ es) = Clears gpio es

-- Each call that sets a pin sets it to 0, or one that does comes later.
abbrev pub Settles : List Event → Type 0
Settles [] = Unit {0}
Settles (set_level gpio v ∷ es) = ((v ≡ 0) ⊎ Clears gpio es) × Settles es
Settles (_ ∷ es) = Settles es

abbrev pub AllSettle : Tasks → Type 0
AllSettle [] = Unit {0}
AllSettle (t ∷ ts) = Settles t × AllSettle ts

abbrev pub Pending : ℕ → Tasks → Type 0
Pending gpio [] = ⊥
Pending gpio (t ∷ ts) = Clears gpio t ⊎ Pending gpio ts

abbrev flashes : ℕ → ℕ → ℕ → ℕ → List Event
flashes zero gpio off on = set_level gpio 0 ∷ task_delete ∷ []
flashes (suc n) gpio off on =
    set_level gpio 0 ∷ task_delay off ∷ set_level gpio 1 ∷ task_delay on ∷ flashes n gpio off on

Clears-flashes : (n gpio off on : ℕ) → Clears gpio (flashes n gpio off on)
Clears-flashes zero gpio off on = inl (refl, refl)
Clears-flashes (suc n) gpio off on = inl (refl, refl)

Settles-flashes : (n gpio off on : ℕ) → Settles (flashes n gpio off on)
Settles-flashes zero gpio off on = (inl refl, tt)
Settles-flashes (suc n) gpio off on =
    (inl refl, (inr (Clears-flashes n gpio off on), Settles-flashes n gpio off on))

Settles-script : (c : Colour) → Settles (script c)
unfolding blink_task blink
Settles-script red = Settles-flashes 5 2 900 100
Settles-script green = Settles-flashes 5 15 900 100
Settles-script blue = Settles-flashes 3 4 250 250

Settles-tail : (e : Event) (es : List Event) → Settles (e ∷ es) → Settles es
Settles-tail (set_level gpio v) es s = s.1
Settles-tail _ es s = s

AllSettle-Acts : {ts ts' : Tasks} {e : Event} → Acts ts e ts' → AllSettle ts → AllSettle ts'
AllSettle-Acts (here e es ts) (s, all) = (Settles-tail e es s, all)
AllSettle-Acts (there t a) (s, all) = (s, AllSettle-Acts a all)

pub Run-AllSettle : {ts : Tasks} {h : History} → Run ts h → AllSettle ts
Run-AllSettle boot = tt
Run-AllSettle (create c run) = (Settles-script c, Run-AllSettle run)
Run-AllSettle (act run a) = AllSettle-Acts a (Run-AllSettle run)
Run-AllSettle (other e quiet run) = Run-AllSettle run
