-- ===== src/App/Decides.antt =====
-- What app_main of main/main.c comes to, for every answer of NVS, of the WiFi set-up and of the network.
use rfid_encryption.Base.{ℕ, ◌≤◌, ◌≡◌, refl, inl, inr, List, ◌∷◌, ◌++◌, Option, none, some, arith}
use rfid_encryption.Device.{Device, Env, log, task_create_nfc}
use rfid_encryption.Wifi
use rfid_encryption.Wifi.{
  Call, Outcome, aborted, check_all, setup, wifi_connect, sta_disconnected, sta_got_ip,
}
use rfid_encryption.Wifi.Verdict.{Verdict, count, losses, addresses, wifi_connect_decides}
use rfid_encryption.App.{
  Boot, stopped, waiting, returned, nvs_ready, after_wifi, app_main, retry_count,
}
use rfid_encryption.App.Start.{app_main-returned}

-- The network has decided: it gave an address before the eleventh loss, or there was an eleventh loss
-- before it gave one.
pub data Decided (events : List Wifi.Event) : Type 0 where
  given :
      (before after : List Wifi.Event)
      → events ≡ before ++ (sta_got_ip ∷ after)
      → count addresses before ≡ 0
      → count losses before ≤ 10
      → Decided events
  lost :
      (before after : List Wifi.Event)
      → events ≡ before ++ (sta_disconnected ∷ after)
      → count addresses before ≡ 0
      → count losses before ≡ 10
      → Decided events

module _ (env : Env) (no_free_pages new_version_found : ℕ) (status : Call → ℕ)
    (events : List Wifi.Event) (d : Device) where
  -- Where a start ends: NVS or a call of the WiFi set-up stops it, the network keeps it waiting, or the
  -- NFC task is created.
  pub data Ends (out : Boot) : Type 0 where
    no_nvs : nvs_ready env no_free_pages new_version_found d ≡ none → out ≡ stopped → Ends out
    no_setup :
        (ready : Device) (call : Call)
        → nvs_ready env no_free_pages new_version_found d ≡ some ready
        → check_all status setup ≡ some call
        → out ≡ stopped
        → Ends out
    no_network :
        (ready : Device)
        → nvs_ready env no_free_pages new_version_found d ≡ some ready
        → check_all status setup ≡ none
        → count addresses events ≡ 0
        → count losses events ≤ 10
        → out ≡ waiting
        → Ends out
    task_runs :
        (ready d' : Device)
        → nvs_ready env no_free_pages new_version_found d ≡ some ready
        → check_all status setup ≡ none
        → Decided events
        → out ≡ returned (log task_create_nfc d')
        → Ends out

  module _ (fuel : ℕ) (rounds : retry_count ≤ fuel) where
    app_main_set_up :
        (ready : Device)
        → nvs_ready env no_free_pages new_version_found d ≡ some ready
        → check_all status setup ≡ none
        → Verdict 0 0 events (wifi_connect status events)
        → Ends (app_main env no_free_pages new_version_found fuel status events d)
    unfolding app_main after_wifi
    app_main_set_up ready en set (Verdict.joins before after is none_before few o) =
        let (d', e) =
          (app_main-returned env no_free_pages new_version_found fuel status events d rounds).1
            ready _ en (inl o) in
        Ends.task_runs ready d' en set (Decided.given before after is none_before (omega arith)) e
    app_main_set_up ready en set (Verdict.gives_up before after is none_before ten o) =
        let (d', e) =
          (app_main-returned env no_free_pages new_version_found fuel status events d rounds).1
            ready _ en (inr o) in
        Ends.task_runs ready d' en set (Decided.lost before after is none_before (omega arith)) e
    app_main_set_up ready en set (Verdict.waits no_address few o) =
        Ends.no_network ready en set no_address (omega arith) (rw (app_main, en, o))

    app_main_checked :
        (ready : Device) (failing : Option Call)
        → nvs_ready env no_free_pages new_version_found d ≡ some ready
        → check_all status setup ≡ failing
        → Ends (app_main env no_free_pages new_version_found fuel status events d)
    unfolding app_main after_wifi wifi_connect
    app_main_checked ready (some call) en bad =
        Ends.no_setup ready call en bad (rw (app_main, en, wifi_connect, bad))
    app_main_checked ready none en set =
        app_main_set_up ready en set (wifi_connect_decides status events set)

    app_main_from :
        (o : Option Device)
        → nvs_ready env no_free_pages new_version_found d ≡ o
        → Ends (app_main env no_free_pages new_version_found fuel status events d)
    unfolding app_main
    app_main_from none en = Ends.no_nvs en (rw (app_main, en))
    app_main_from (some ready) en = app_main_checked ready (check_all status setup) en refl

-- With fuel for the ten looks at the clock, app_main always comes to one of four ends, and these are
-- their causes. NVS does not become ready, and it stops; NVS is ready but a call of the WiFi set-up
-- fails, and it stops; both are ready but in all the events there is neither an address nor an eleventh
-- loss of the connection, and it waits; or an address comes before the eleventh loss or the eleventh
-- loss before an address, and it returns with the creation of the NFC task as its last call.
pub app_main_decides :
    (env : Env) (no_free_pages new_version_found fuel : ℕ) (status : Call → ℕ)
    (events : List Wifi.Event) (d : Device)
    → retry_count ≤ fuel
    → Ends env no_free_pages new_version_found status events d
        (app_main env no_free_pages new_version_found fuel status events d)
app_main_decides env no_free_pages new_version_found fuel status events d rounds =
    app_main_from env no_free_pages new_version_found status events d fuel rounds _ refl
