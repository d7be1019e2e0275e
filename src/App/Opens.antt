-- ===== src/App/Opens.antt =====
-- The firmware of main/main.c from its start to the green lamp.
use rfid_encryption.Base.{
  ℕ, ◌+◌, ◌≤◌, ◌<◌, ◌≡◌, refl, ap, ◌∙◌, List, [], ◌∷◌, ◌++◌, true, false, none, some, length, done,
  arith,
}
use rfid_encryption.Device.{
  Event, History, Device, Env, booted, log, nvs_init, nvs_erase, sntp_setup, read_clock, task_delay,
  task_create_nfc, begin, spi_init,
}
use rfid_encryption.Flash.Aes.{Crypto}
use rfid_encryption.Flash.Storage.{FlashChip, partition_size}
use rfid_encryption.Wifi
use rfid_encryption.Wifi.{Call, check_all, setup, sta_got_ip, sta_disconnected}
use rfid_encryption.Wifi.Verdict.{count, losses, addresses}
use rfid_encryption.Tls.Message.{Json}
use rfid_encryption.Tls.Loops.{Answers, ArraysFit}
use rfid_encryption.Tls.Willing.{Willing}
use rfid_encryption.Nfc.{nfc_task}
use rfid_encryption.Nfc.Heap.{passes_shown}
use rfid_encryption.Nfc.Opens.{CardThere, Stored, nfc_task_opens}
use rfid_encryption.Nfc.Progress.{DriverFits}
use rfid_encryption.App.{returned, app_main, nvs_ready, retry_count}
use rfid_encryption.App.Decides.{Decided, Ends, app_main_decides}
use rfid_encryption.App.Ready.{OfStart, app_main-keeps}

count-append :
    (kind : Wifi.Event → ℕ) (before after : List Wifi.Event)
    → count kind (before ++ after) ≡ count kind before + count kind after
count-append kind [] after = omega arith
count-append kind (e ∷ before) after = omega (arith, count-append kind before after)

-- Events that decide are not ones to wait through.
undecided :
    (events : List Wifi.Event)
    → Decided events
    → count addresses events ≡ 0
    → count losses events ≤ 10
    → ⊥
undecided events (Decided.given before after is none_before few) no_address quiet =
    absurd
      (omega (arith, ap (count addresses) is ∙ count-append addresses before (sta_got_ip ∷ after)))
undecided events (Decided.lost before after is none_before ten) no_address quiet =
    absurd
      (omega (arith, ap (count losses) is ∙ count-append losses before (sta_disconnected ∷ after)))

-- The calls of app_main start no lamp.
startup-dark : (e : Event) (h : History) → OfStart e → passes_shown h ≡ 0 → passes_shown (e ∷ h) ≡ 0
startup-dark nvs_init h of_start none_shown = omega arith
startup-dark nvs_erase h of_start none_shown = omega arith
startup-dark sntp_setup h of_start none_shown = omega arith
startup-dark read_clock h of_start none_shown = omega arith
startup-dark (task_delay ms) h of_start none_shown = omega arith
startup-dark task_create_nfc h of_start none_shown = omega arith
startup-dark _ h of_start none_shown = absurd of_start

-- app_main returns once NVS and the WiFi set-up are ready and the network has decided.
app_main_starts :
    (env : Env) (no_free_pages new_version_found fuel : ℕ) (status : Call → ℕ)
    (events : List Wifi.Event) (ready d : Device)
    → retry_count ≤ fuel
    → nvs_ready env no_free_pages new_version_found d ≡ some ready
    → check_all status setup ≡ none
    → Decided events
    → (d' : Device) × (app_main env no_free_pages new_version_found fuel status events d
        ≡ returned d')
app_main_starts env no_free_pages new_version_found fuel status events ready d rounds en set
      decided =
    elim (app_main_decides env no_free_pages new_version_found fuel status events d rounds) [
      | Ends.no_nvs bad out ↦ cc
      | Ends.no_setup ready' call en' bad out ↦ cc
      | Ends.no_network ready' en' set' no_address few out ↦
          absurd (undecided events decided no_address few)
      | Ends.task_runs ready' d' en' set' decided' out ↦ (log task_create_nfc d', out)
    ]

-- From boot on: when NVS and the WiFi set-up become ready, the network has decided (an address before
-- the eleventh loss, or an eleventh loss before an address, which does not stop the start), the board
-- answers, the arrays of the device and of the driver have their sizes, at every look a card is there
-- and can be read, both partitions hold bytes, at most 4096, connections are made and sent on, and the
-- server never hangs up or refuses and says "200 OK" before `fuel` rounds of waiting, at least ten:
-- then app_main returns, nfc_task gets through any number of rounds, and the green lamp has been
-- started once for each.
pub firmware_opens :
    (env : Env) (no_free_pages new_version_found : ℕ) (status : Call → ℕ) (events : List Wifi.Event)
    (json : Json) (C : Crypto) (F : FlashChip) (nul : ℕ) (chip : F.Chip) (rounds fuel : ℕ)
    (heap : History → List ℕ) (ready : Device)
    → retry_count ≤ fuel
    → nvs_ready env no_free_pages new_version_found booted ≡ some ready
    → check_all status setup ≡ none
    → Decided events
    → ((h : History) → 0 < env.firmware_version h)
    → ArraysFit env
    → DriverFits env
    → CardThere env
    → Stored C F nul chip false
    → Stored C F nul chip true
    → ((h : History) → length (heap h) ≡ partition_size)
    → Willing env
    → Answers env fuel
    → (d : Device) × (d' : Device) × (app_main env no_free_pages new_version_found fuel status
          events booted
        ≡ returned d)
      × (nfc_task env json C F nul chip rounds fuel heap d ≡ done d')
      × (passes_shown d'.history ≡ rounds)
firmware_opens env no_free_pages new_version_found status events json C F nul chip rounds fuel heap
      ready enough en set decided board fit fits there key crt size W S =
    let (d, boots) =
      app_main_starts env no_free_pages new_version_found fuel status events ready booted enough en
        set decided in
    let none_shown : passes_shown d.history ≡ 0 =
      app_main-keeps env (λ (h : History). passes_shown h ≡ 0) startup-dark no_free_pages
        new_version_found fuel status events booted d refl boots in
    let (d', runs, shown) =
      nfc_task_opens env json C F nul chip rounds fuel heap d (board (begin ∷ spi_init ∷ d.history))
        fit fits there key crt size W S in
    (d, d', boots, runs, omega (arith, shown, none_shown))
