-- ===== src/App/Start.antt =====
-- How app_main comes to start the NFC task, and the firmware from its start on.
use rfid_encryption.Base.{ℕ, ◌≤◌, ◌≡◌, ◌⊎◌, inl, inr, List, ◌∷◌, some, done}
use rfid_encryption.Device.{
  Event, History, Device, Env, booted, log, task_delay, sntp_setup, read_clock, nvs_init, nvs_erase,
  task_create_nfc,
}
use rfid_encryption.Flash.Aes.{Crypto}
use rfid_encryption.Flash.Storage.{FlashChip}
use rfid_encryption.Wifi
use rfid_encryption.Wifi.{
  Call, Outcome, aborted, blocked, connected, failed, unexpected, wifi_connect,
}
use rfid_encryption.Wifi.Connect.{wifi_connect-expected}
use rfid_encryption.Tls.Message.{Json}
use rfid_encryption.Tls.Trace.{Authorised}
use rfid_encryption.Nfc.{nfc_task}
use rfid_encryption.Nfc.Rounds.{nfc_task-Authorised}
use rfid_encryption.App.{returned, nvs_ready, after_wifi, app_main, retry_count}
use rfid_encryption.App.Clock.{obtain_time-Returns}
use rfid_encryption.App.Ready.{OfStart, after_wifi-returned, boot_cases, app_main-keeps}

startup-Authorised : (e : Event) (h : History) → OfStart e → Authorised h → Authorised (e ∷ h)
startup-Authorised nvs_init h of_start a = a
startup-Authorised nvs_erase h of_start a = a
startup-Authorised sntp_setup h of_start a = a
startup-Authorised read_clock h of_start a = a
startup-Authorised (task_delay ms) h of_start a = a
startup-Authorised task_create_nfc h of_start a = a
startup-Authorised _ h of_start a = absurd of_start

-- app_main returns only when NVS is ready and the station has connected or given up: a station that
-- cannot connect does not stop it. Conversely it then returns, whatever SNTP does, and starting the
-- NFC task is the last thing it does.
pub app_main-returned :
    (env : Env) (no_free_pages new_version_found fuel : ℕ) (status : Call → ℕ)
    (events : List Wifi.Event) (d : Device)
    → retry_count ≤ fuel
    → ((d' : Device)
        → app_main env no_free_pages new_version_found fuel status events d ≡ returned d'
        → (ready : Device) × (s : Wifi.Station) × (nvs_ready env no_free_pages new_version_found d
            ≡ some ready)
          × ((wifi_connect status events ≡ connected s) ⊎ (wifi_connect status events ≡ failed s)))
      × ((ready : Device) (s : Wifi.Station)
          → nvs_ready env no_free_pages new_version_found d ≡ some ready
          → (wifi_connect status events ≡ connected s) ⊎ (wifi_connect status events ≡ failed s)
          → (d' : Device) × (app_main env no_free_pages new_version_found fuel status events d
              ≡ returned (log task_create_nfc d')))
unfolding app_main after_wifi
app_main-returned env no_free_pages new_version_found fuel status events d h = (
  λ d' e.
      let (ready, en, e') = boot_cases env no_free_pages new_version_found _ _ d' e in
      let ((s, why), _) =
        after_wifi-returned env no_free_pages new_version_found fuel _ ready d' e' in
      (
        ready,
        s,
        en,
        elim why [
          | inl c ↦ inl c
          | inr (inl f) ↦ inr f
          | inr (inr u) ↦ absurd (wifi_connect-expected status events s u)
        ],
      ),
  λ ready s en ew.
      let (r, _, e, _, _, _, _) = obtain_time-Returns env fuel ready h in
      (r.1, elim ew [ inl c ↦ rw (app_main, en, c, e) | inr f ↦ rw (app_main, en, f, e) ]),
)

-- The firmware from its start on, whatever the network, the cards, the server and the flash do: once
-- app_main has returned and nfc_task has run any number of rounds, every write to a card was sent in a
-- session in which the server had said "200 OK" by then, and the green lamp was started only after a
-- request that passed, with nothing between but the free of the round's key: a heartbeat answered by
-- "200 OK" in a session in which the server had said so before and a write had been sent to the card.
pub nfc_task-app_main :
    (env : Env) (no_free_pages new_version_found : ℕ) (status : Call → ℕ) (events : List Wifi.Event)
    (json : Json) (C : Crypto) (F : FlashChip) (nul : ℕ) (chip : F.Chip) (rounds fuel : ℕ)
    (heap : History → List ℕ) (d d' : Device)
    → app_main env no_free_pages new_version_found fuel status events booted ≡ returned d
    → nfc_task env json C F nul chip rounds fuel heap d ≡ done d'
    → Authorised d'.history
nfc_task-app_main env no_free_pages new_version_found status events json C F nul chip rounds fuel
      heap d d' e run =
    nfc_task-Authorised env json C F nul chip rounds fuel heap d d'
      (app_main-keeps env Authorised startup-Authorised no_free_pages new_version_found fuel status
        events booted d tt e)
      run
