-- ===== src/Card/Schedule/Dark.antt =====
-- The levels of the pins when the blinking tasks of main/card_reader.c have ended.
use rfid_encryption.Base.{
  ℕ, ◌≡◌, ◌≢◌, refl, sym, ◌∙◌, subst, ◌⊎◌, inl, inr, Bool-cases, List, [], ◌∷◌, ◌++◌, ◌==◌,
  append-nil, append_assoc, arith,
}
use rfid_encryption.Device.{Event, History, set_level}
use rfid_encryption.Card.Schedule.{
  Tasks, Acts, here, there, OfOthers, Run, boot, create, act, other, level, Ended, Clears,
  AllSettle, Pending, Run-AllSettle,
}

abbrev SetsLow : ℕ → Event → Type 0
SetsLow gpio (set_level other_gpio v) = (other_gpio ≡ gpio) × (v ≡ 0)
SetsLow gpio _ = ⊥

Clears-cases :
    (gpio : ℕ) (e : Event) (es : List Event)
    → Clears gpio (e ∷ es)
    → SetsLow gpio e ⊎ Clears gpio es
Clears-cases gpio (set_level other_gpio v) es c = c
Clears-cases gpio _ es c = inr c

-- What is pending stays pending until it is done.
Pending-Acts :
    {ts ts' : Tasks} {e : Event} (gpio : ℕ)
    → Acts ts e ts'
    → Pending gpio ts
    → SetsLow gpio e ⊎ Pending gpio ts'
Pending-Acts gpio (here e es ts) (inl c) = elim (Clears-cases gpio e es c) [
  | inl low ↦ inl low
  | inr later ↦ inr (inl later)
]
Pending-Acts gpio (here e es ts) (inr p) = inr (inr p)
Pending-Acts gpio (there t a) (inl c) = inr (inl c)
Pending-Acts gpio (there t a) (inr p) = elim (Pending-Acts gpio a p) [
  | inl low ↦ inl low
  | inr later ↦ inr (inr later)
]

-- Who sets a pin to something else has its reset still to come.
Pending-raised :
    {ts ts' : Tasks} {gpio v : ℕ}
    → Acts ts (set_level gpio v) ts'
    → AllSettle ts
    → (v ≡ 0) ⊎ Pending gpio ts'
Pending-raised (here _ es ts) (s, all) = elim s.0 [
  | inl zeroed ↦ inl zeroed
  | inr later ↦ inr (inl later)
]
Pending-raised (there t a) (s, all) = elim (Pending-raised a all) [
  | inl zeroed ↦ inl zeroed
  | inr later ↦ inr (inr later)
]

level_cases :
    (gpio other_gpio v : ℕ) (h : History)
    → ((other_gpio ≡ gpio) × (level gpio (set_level other_gpio v ∷ h) ≡ v))
      ⊎ ((other_gpio ≢ gpio) × (level gpio (set_level other_gpio v ∷ h) ≡ level gpio h))
level_cases gpio other_gpio v h = elim (Bool-cases (other_gpio == gpio)) [
  | inl hit ↦ inl (ground arith, rw hit)
  | inr miss ↦ inr (ground arith, rw miss)
]

-- A pin is low, or will be set low.
abbrev pub Watched : ℕ → Tasks → History → Type 0
Watched gpio ts h = (level gpio h ≡ 0) ⊎ Pending gpio ts

Watched-act :
    {ts ts' : Tasks} (gpio : ℕ) (e : Event) (h : History)
    → Acts ts e ts'
    → AllSettle ts
    → Watched gpio ts h
    → Watched gpio ts' (e ∷ h)
Watched-act {ts'} gpio (set_level other_gpio v) h a all w = elim (level_cases gpio other_gpio v h) [
  | inl (same, now) ↦ elim (Pending-raised a all) [
    | inl zeroed ↦ inl (now ∙ zeroed)
    | inr later ↦ inr (subst (λ (g : ℕ). Pending g ts') same later)
  ]
  | inr (differ, kept) ↦ elim w [
    | inl low ↦ inl (kept ∙ low)
    | inr p ↦ elim (Pending-Acts gpio a p) [
      | inl hit ↦ absurd (differ hit.0)
      | inr later ↦ inr later
    ]
  ]
]
Watched-act gpio _ h a all (inl low) = inl low
Watched-act gpio _ h a all (inr p) = elim (Pending-Acts gpio a p) [
  | inl hit ↦ absurd hit
  | inr later ↦ inr later
]

level-other : (gpio : ℕ) (e : Event) (h : History) → OfOthers e → level gpio (e ∷ h) ≡ level gpio h
level-other gpio (set_level other_gpio v) h quiet = absurd quiet
level-other gpio _ h quiet = refl

Watched-other :
    (ts : Tasks) (gpio : ℕ) (e : Event) (h : History)
    → OfOthers e
    → Watched gpio ts h
    → Watched gpio ts (e ∷ h)
Watched-other ts gpio e h quiet (inl low) = inl (level-other gpio e h quiet ∙ low)
Watched-other ts gpio e h quiet (inr p) = inr p

Run-Watched : {ts : Tasks} {h : History} (gpio : ℕ) → Run ts h → Watched gpio ts h
Run-Watched gpio boot = inl refl
Run-Watched gpio (create c run) = elim (Run-Watched gpio run) [
  | inl low ↦ inl low
  | inr p ↦ inr (inr p)
]
Run-Watched gpio (act {h} {e} run a) =
    Watched-act gpio e h a (Run-AllSettle run) (Run-Watched gpio run)
Run-Watched gpio (other {h} e quiet run) = Watched-other _ gpio e h quiet (Run-Watched gpio run)

Ended-Pending : (gpio : ℕ) (ts : Tasks) → Ended ts → Pending gpio ts → ⊥
Ended-Pending gpio [] over p = p
Ended-Pending gpio (t ∷ ts) (is_empty, over) (inl c) = subst (Clears gpio) is_empty c
Ended-Pending gpio (t ∷ ts) (is_empty, over) (inr p) = Ended-Pending gpio ts over p

Acts-in : (ps : Tasks) {ts ts' : Tasks} {e : Event} → Acts ts e ts' → Acts (ps ++ ts) e (ps ++ ts')
Acts-in [] a = a
Acts-in (p ∷ ps) a = Acts.there p (Acts-in ps a)

-- The calls with which a task comes to its end.
drain_task :
    (ps : Tasks) (t : List Event) (ts : Tasks) (h : History)
    → Run (ps ++ (t ∷ ts)) h
    → (calls : History) × Run (ps ++ ([] ∷ ts)) (calls ++ h)
drain_task ps [] ts h run = ([], run)
drain_task ps (e ∷ es) ts h run =
    let (calls, run') =
      drain_task ps es ts (e ∷ h) (Run.act run (Acts-in ps (Acts.here e es ts))) in
    (calls ++ (e ∷ []), subst (Run (ps ++ ([] ∷ ts))) (sym (append_assoc calls (e ∷ []) h)) run')

Ended-append : (ps : Tasks) → Ended ps → Ended (ps ++ ([] ∷ []))
Ended-append [] over = (refl, tt)
Ended-append (p ∷ ps) (is_empty, over) = (is_empty, Ended-append ps over)

drain :
    (ts ps : Tasks) (h : History)
    → Ended ps
    → Run (ps ++ ts) h
    → (calls : History) × (ts' : Tasks) × Run ts' (calls ++ h) × Ended ts'
drain [] ps h over run = ([], ps, subst (λ (us : Tasks). Run us h) (append-nil ps) run, over)
drain (t ∷ ts) ps h over run =
    let (calls, run1) = drain_task ps t ts h run in
    let moved : ps ++ ([] ∷ ts) ≡ (ps ++ ([] ∷ [])) ++ ts = sym (append_assoc ps ([] ∷ []) ts) in
    let (more, ts', run2, over') =
      drain ts (ps ++ ([] ∷ [])) (calls ++ h) (Ended-append ps over)
        (subst (λ (us : Tasks). Run us (calls ++ h)) moved run1) in
    (more ++ calls, ts', subst (Run ts') (sym (append_assoc more calls h)) run2, over')

-- Let any number of blinking tasks run in any order beside each other and beside the calls of other
-- tasks that set none of their pins, from a start with all pins low. Whenever all of them have ended,
-- every pin, as they set it, is low. Until then a pin is low, or some task that runs has yet to set it
-- low. And every such run can go on until all of them have ended.
pub Run-dark :
    (ts : Tasks) (h : History)
    → Run ts h
    → ((gpio : ℕ) → Ended ts → level gpio h ≡ 0)
      × ((gpio : ℕ) → Watched gpio ts h)
      × ((calls : History) × (ts' : Tasks) × Run ts' (calls ++ h) × Ended ts')
Run-dark ts h run = (
  λ gpio over. elim (Run-Watched gpio run) [
    | inl low ↦ low
    | inr p ↦ absurd (Ended-Pending gpio ts over p)
  ],
  λ gpio. Run-Watched gpio run,
  drain ts [] h tt run,
)
