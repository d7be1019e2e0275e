-- ===== src/App.antt =====
-- app_main and obtain_time of main/main.c: NVS, the WiFi station, the clock, and then the NFC task.
-- ESP-IDF's two NVS status codes are parameters; 0 is ESP_OK.
pub mod Clock
pub mod Ready
pub mod Start
pub mod FromBoot
pub mod Opens
pub mod Decides
use rfid_encryption.Base.{
  ℕ, zero, suc, ◌+◌, List, Bool, true, false, Option, none, some, ◌>>=◌, Exec, done, fault, running,
  after, ltb, ◌&&◌, ◌||◌, ◌==◌, not, if◌then◌else◌,
}
use rfid_encryption.Device.{
  Device, Env, log, task_delay, sntp_setup, read_clock, nvs_init, nvs_erase, task_create_nfc,
}
use rfid_encryption.Wifi
use rfid_encryption.Wifi.{
  Call, Outcome, aborted, blocked, connected, failed, unexpected, wifi_connect,
}

-- `2016 - 1900`
abbrev pub year_2016 : ℕ
year_2016 = 116

abbrev pub retry_count : ℕ
retry_count = 10

-- What has become of app_main: an ESP_ERROR_CHECK stopped it, it waits, or it has returned.
pub data Boot : Type 0 where
  stopped : Boot
  waiting : Boot
  returned : Device → Boot

-- `ESP_ERROR_CHECK`
abbrev pub error_check : ℕ → Device → Option Device
error_check ret d = if ret == 0 then some d else none

-- After the clock has been waited for.
abbrev pub start_nfc : Exec (ℕ × Device) → Boot
start_nfc (done r) = returned (log task_create_nfc r.1)
start_nfc fault = stopped
start_nfc running = waiting

module _ (env : Env) where
  -- `while (timeinfo.tm_year < (2016 - 1900) && ++retry < retry_count)`, to the year at its end.
  unfoldable pub wait_clock : ℕ → ℕ → ℕ → Device → Exec (ℕ × Device)
  wait_clock zero retry tm_year d = running
  wait_clock (suc fuel) retry tm_year d =
      let slept = log (task_delay 2000) d in
      let again =
        wait_clock fuel (retry + 1) (env.clock_year slept.history) (log read_clock slept) in
      if ltb tm_year year_2016 && ltb (retry + 1) retry_count then again else done (tm_year, d)

  unfoldable pub obtain_time : ℕ → Device → Exec (ℕ × Device)
  unfolding wait_clock
  obtain_time fuel d = wait_clock fuel 0 0 (log sntp_setup d)

  module _ (no_free_pages new_version_found : ℕ) where
    -- nvs_flash_init, and again after an erasure if the partition has to be erased. `none` is a
    -- status that ESP_ERROR_CHECK stops at.
    unfoldable pub nvs_ready : Device → Option Device
    nvs_ready d =
        let ret = env.nvs_status d.history in
        let tried = log nvs_init d in
        if ret == no_free_pages || ret == new_version_found
        then (let erased = log nvs_erase tried in
            error_check (env.nvs_erase_status tried.history) erased >>= λ d'.
            error_check (env.nvs_status d'.history) (log nvs_init d'))
        else error_check ret tried

    -- What follows once the station's start has been waited for: it may have failed to connect.
    unfoldable pub after_wifi : ℕ → Outcome → Device → Boot
    unfolding obtain_time
    after_wifi fuel (aborted call) d = stopped
    after_wifi fuel blocked d = waiting
    after_wifi fuel (connected s) d = start_nfc (obtain_time fuel d)
    after_wifi fuel (failed s) d = start_nfc (obtain_time fuel d)
    after_wifi fuel (unexpected s) d = start_nfc (obtain_time fuel d)

    unfoldable pub app_main : ℕ → (Call → ℕ) → List Wifi.Event → Device → Boot
    unfolding nvs_ready after_wifi
    app_main fuel status events d = elim (nvs_ready d) [
      | none ↦ stopped
      | some ready ↦ after_wifi fuel (wifi_connect status events) ready
    ]
