-- ===== src/App/Ready.antt =====
-- What app_main of main/main.c keeps up to its return.
use rfid_encryption.Base.{
  ℕ, zero, suc, ◌+◌, ◌≡◌, refl, sym, ap, subst, ◌∙◌, ◌⊎◌, inl, inr, List, ◌∷◌, Bool, true, false,
  Option, none, some, Exec, done, fault, running, Ensures, Ensures-done, Ensures-if,
  Ensures-running, ltb, ◌&&◌, ◌||◌, ◌==◌, arith, if◌then◌else◌, bind_cases,
}
use rfid_encryption.Device.{
  Event, History, Device, Env, log, task_delay, sntp_setup, read_clock, nvs_init, nvs_erase,
  task_create_nfc,
}
use rfid_encryption.Wifi
use rfid_encryption.Wifi.{
  Call, Outcome, aborted, blocked, connected, failed, unexpected, wifi_connect,
}
use rfid_encryption.App.{
  error_check, Boot, stopped, returned, start_nfc, wait_clock, obtain_time, nvs_ready, after_wifi,
  app_main, year_2016, retry_count,
}

error_check-some : (ret : ℕ) (d r : Device) → error_check ret d ≡ some r → (ret ≡ 0) × (d ≡ r)
error_check-some ret d r e = ground arith

if_cases :
    {A : Type 0} (b : Bool) (x y z : A)
    → (if b then x else y) ≡ z
    → ((b ≡ true) × (x ≡ z)) ⊎ ((b ≡ false) × (y ≡ z))
if_cases true x y z e = inl (refl, e)
if_cases false x y z e = inr (refl, e)

either_code : (ret m n : ℕ) → (ret == m || ret == n) ≡ true → (ret ≡ m) ⊎ (ret ≡ n)
either_code ret m n h = ground arith

-- The calls of app_main.
abbrev pub OfStart : Event → Type 0
OfStart nvs_init = Unit {0}
OfStart nvs_erase = Unit {0}
OfStart sntp_setup = Unit {0}
OfStart read_clock = Unit {0}
OfStart (task_delay ms) = Unit {0}
OfStart task_create_nfc = Unit {0}
OfStart _ = ⊥

module _ (env : Env) where
  module _ (no_free_pages new_version_found : ℕ) where
    -- NVS becomes ready in one of two ways: nvs_flash_init succeeds at once, and nothing is erased; or
    -- it fails with one of the two codes that ask for it, the erasure succeeds and so does a second
    -- nvs_flash_init.
    nvs_ready-some :
        (d ready : Device)
        → nvs_ready env no_free_pages new_version_found d ≡ some ready
        → let tried = nvs_init ∷ d.history in
          let ret = env.nvs_status d.history in
          ((ret ≡ 0) × (ready.history ≡ tried))
          ⊎ (((ret ≡ no_free_pages) ⊎ (ret ≡ new_version_found))
              × (env.nvs_erase_status tried ≡ 0)
              × (env.nvs_status (nvs_erase ∷ tried) ≡ 0)
              × (ready.history ≡ nvs_init ∷ nvs_erase ∷ tried))
    unfolding nvs_ready
    nvs_ready-some d ready e =
        elim (if_cases
          (env.nvs_status d.history == no_free_pages
            || env.nvs_status d.history == new_version_found)
          _ _ _ e) [
            | inl (code, e') ↦
                let (d1, e1, e2) = bind_cases _ _ ready e' in
                let (erased, same1) = error_check-some _ _ d1 e1 in
                let (again, same2) = error_check-some _ _ ready e2 in
                inr (
                  either_code _ _ _ code,
                  erased,
                  ap (λ (r : Device). env.nvs_status r.history) same1 ∙ again,
                  sym (
                      ap (λ (r : Device). nvs_init ∷ r.history) same1
                      ∙ ap (λ (r : Device). r.history) same2),
                )
            | inr (_, e') ↦
                let (now, same) = error_check-some _ _ ready e' in
                inl (now, ap (λ (r : Device). r.history) (sym same))
          ]

    -- What app_main has done when it returns: NVS and the station are ready, or the station has given
    -- up, which does not stop it. Then the clock was waited for and the task started.
    pub after_wifi-returned :
        (fuel : ℕ) (o : Outcome) (ready d : Device)
        → after_wifi env no_free_pages new_version_found fuel o ready ≡ returned d
        → ((s : Wifi.Station) × ((o ≡ connected s) ⊎ ((o ≡ failed s) ⊎ (o ≡ unexpected s))))
          × (start_nfc (obtain_time env fuel ready) ≡ returned d)
    unfolding after_wifi
    after_wifi-returned fuel (aborted call) ready d e = cc
    after_wifi-returned fuel blocked ready d e = cc
    after_wifi-returned fuel (connected s) ready d e = ((s, inl refl), e)
    after_wifi-returned fuel (failed s) ready d e = ((s, inr (inl refl)), e)
    after_wifi-returned fuel (unexpected s) ready d e = ((s, inr (inr refl)), e)

    pub boot_cases :
        (o : Option Device) (f : Device → Boot) (d : Device)
        → elim o [ none ↦ stopped | some ready ↦ f ready ] ≡ returned d
        → (ready : Device) × (o ≡ some ready) × (f ready ≡ returned d)
    boot_cases none f d e = cc
    boot_cases (some ready) f d e = (ready, refl, e)

module _ (env : Env) (Q : History → Type 0)
    (keep : (e : Event) (h : History) → OfStart e → Q h → Q (e ∷ h)) where
  wait_clock-keeps :
      (fuel retry year : ℕ) (d : Device)
      → Q d.history
      → Ensures (wait_clock env fuel retry year d) λ r. Q r.1.history
  unfolding wait_clock
  wait_clock-keeps zero retry year d q = Ensures-running
  wait_clock-keeps (suc fuel) retry year d q =
      let slept : Device = log (task_delay 2000) d in
      Ensures-if (ltb year year_2016 && ltb (retry + 1) retry_count)
        (λ _.
          wait_clock-keeps fuel (retry + 1) (env.clock_year slept.history) (log read_clock slept)
            (keep read_clock slept.history tt (keep (task_delay 2000) d.history tt q)))
        (λ _. Ensures-done (year, d) q)

  start_nfc-keeps :
      (m : Exec (ℕ × Device)) (d : Device)
      → Ensures m (λ (r : ℕ × Device). Q r.1.history)
      → start_nfc m ≡ returned d
      → Q d.history
  start_nfc-keeps (done r) d h e =
      let same : log task_create_nfc r.1 ≡ d = cc in
      subst (λ (d' : Device). Q d'.history) same (keep task_create_nfc r.1.history tt (h.at r refl))
  start_nfc-keeps fault d h e = cc
  start_nfc-keeps running d h e = cc

  module _ (no_free_pages new_version_found : ℕ) where
    nvs_ready-keeps :
        (d ready : Device)
        → Q d.history
        → nvs_ready env no_free_pages new_version_found d ≡ some ready
        → Q ready.history
    nvs_ready-keeps d ready q e =
        let tried : Q (nvs_init ∷ d.history) = keep nvs_init d.history tt q in
        elim (nvs_ready-some env no_free_pages new_version_found d ready e) [
          | inl (_, same) ↦ rw same tried
          | inr (_, _, _, same) ↦ rw same (keep nvs_init _ tt (keep nvs_erase _ tt tried))
        ]

    -- Whatever app_main's own calls keep holds when it returns.
    pub app_main-keeps :
        (fuel : ℕ) (status : Call → ℕ) (events : List Wifi.Event) (d d' : Device)
        → Q d.history
        → app_main env no_free_pages new_version_found fuel status events d ≡ returned d'
        → Q d'.history
    unfolding app_main obtain_time
    app_main-keeps fuel status events d d' q e =
        let (ready, en, e') = boot_cases env no_free_pages new_version_found _ _ d' e in
        let (_, started) =
          after_wifi-returned env no_free_pages new_version_found fuel _ ready d' e' in
        start_nfc-keeps _ d'
          (wait_clock-keeps fuel 0 0 (log sntp_setup ready)
            (keep sntp_setup ready.history tt (nvs_ready-keeps d ready q en)))
          started
