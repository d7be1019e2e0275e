-- ===== src/App/Clock.antt =====
-- The wait of obtain_time, in main/main.c, for a set clock.
use rfid_encryption.Base.{
  ℕ, zero, suc, ◌+◌, ◌-◌, ◌≤◌, ◌<◌, ◌≡◌, refl, ◌⊎◌, inl, inr, [], ◌∷◌, Bool, true, false, Exec,
  done, ltb, ◌&&◌, arith, if◌then◌else◌,
}
use rfid_encryption.Device.{History, Device, Env, log, task_delay, sntp_setup, read_clock}
use rfid_encryption.App.{wait_clock, obtain_time, year_2016, retry_count}

-- How often the clock was read.
abbrev clock_reads : History → ℕ
clock_reads [] = 0
clock_reads (read_clock ∷ h) = clock_reads h + 1
clock_reads (_ ∷ h) = clock_reads h

-- What the wait returns after `n` more looks at the clock, with `left` at most.
abbrev Waited : Exec (ℕ × Device) → ℕ → ℕ → Device → Type 0
Waited m left year d =
    (r : ℕ × Device) × (n : ℕ) × (m ≡ done r)
    × (clock_reads r.1.history ≡ clock_reads d.history + n)
    × (n ≤ left)
    × ((year_2016 ≤ r.0) ⊎ (n ≡ left))
    × (year < year_2016 → 0 < left → 0 < n)

Waited-if :
    (b : Bool) (m n : Exec (ℕ × Device)) (left year : ℕ) (d : Device)
    → (b ≡ true → Waited m left year d)
    → (b ≡ false → Waited n left year d)
    → Waited (if b then m else n) left year d
Waited-if true m n left year d hm hn = hm refl
Waited-if false m n left year d hm hn = hn refl

go_on :
    (year retry : ℕ)
    → (ltb year year_2016 && ltb (retry + 1) retry_count) ≡ true
    → retry + 1 < retry_count
go_on year retry h = ground arith

stop :
    (year retry : ℕ)
    → (ltb year year_2016 && ltb (retry + 1) retry_count) ≡ false
    → (year_2016 ≤ year) ⊎ (retry_count ≤ retry + 1)
stop year retry h = ground arith

stopped_wait :
    (retry left year : ℕ) (d : Device)
    → retry + left + 1 ≡ retry_count
    → (year_2016 ≤ year) ⊎ (retry_count ≤ retry + 1)
    → Waited (done (year, d)) left year d
stopped_wait retry left year d hr (inl set) =
    ((year, d), 0, refl, omega arith, omega arith, inl set, λ unset _. absurd (omega arith))
stopped_wait retry left year d hr (inr last) =
    let none_left : left ≡ 0 = omega arith in
    (
      (year, d),
      0,
      refl,
      omega arith,
      omega arith,
      inr (omega arith),
      λ unset some_left. omega arith,
    )

module _ (env : Env) where
  wait_clock-Returns :
      (fuel retry left year : ℕ) (d : Device)
      → retry + left + 1 ≡ retry_count
      → left < fuel
      → Waited (wait_clock env fuel retry year d) left year d
  unfolding wait_clock
  wait_clock-Returns zero retry left year d hr hf = absurd (omega arith)
  wait_clock-Returns (suc fuel) retry left year d hr hf =
      let test : Bool = ltb year year_2016 && ltb (retry + 1) retry_count in
      let slept : Device = log (task_delay 2000) d in
      let looked : Device = log read_clock slept in
      Waited-if test _ _ left year d
        (λ go.
          let more : retry + 1 < retry_count = go_on year retry go in
          let (r, n, e, count, bound, why, _) =
            wait_clock-Returns fuel (retry + 1) (left - 1) (env.clock_year slept.history) looked
              (omega arith) (omega arith) in
          (
            r,
            suc n,
            e,
            omega arith,
            omega arith,
            elim why [ inl set ↦ inl set | inr last ↦ inr (omega arith) ],
            λ _ _. omega arith,
          ))
        (λ halt. stopped_wait retry left year d hr (stop year retry halt))

-- With fuel 10, obtain_time ends, whatever SNTP does: it has looked at the clock at least once and
-- at most nine times, and stops before the ninth time only with a year from 2016 on.
pub obtain_time-Returns :
    (env : Env) (fuel : ℕ) (d : Device)
    → retry_count ≤ fuel
    → (r : ℕ × Device) × (n : ℕ) × (obtain_time env fuel d ≡ done r)
      × (clock_reads r.1.history ≡ clock_reads d.history + n)
      × (1 ≤ n)
      × (n ≤ 9)
      × ((year_2016 ≤ r.0) ⊎ (n ≡ 9))
unfolding obtain_time
obtain_time-Returns env fuel d h =
    let (r, n, e, count, bound, why, once) =
      wait_clock-Returns env fuel 0 9 0 (log sntp_setup d) refl (omega arith) in
    (r, n, e, count, once (omega arith) (omega arith), bound, why)
