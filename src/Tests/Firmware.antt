-- ===== src/Tests/Firmware.antt =====
-- The firmware with a card that is granted.
use rfid_encryption.Base.{
  length, ℕ, ◌+◌, ◌≤◌, ◌≡◌, refl, List, [], ◌∷◌, ◌++◌, some, none, done, replicate, arith, true,
  false,
}
use rfid_encryption.Device.{
  Block, Colour, History, Device, Env, booted, log, nvs_init, nvs_erase, sntp_setup, task_delay,
  read_clock, task_create_nfc,
}
use rfid_encryption.Wifi
use rfid_encryption.Wifi.{
  Call, check_all, setup, wifi_connect, connected, failed, maximum_retry, fresh, handle_all,
  event_handler, wait_bits,
}
use rfid_encryption.Wifi.Verdict.{Verdict, wifi_connect_decides}
use rfid_encryption.Tls.{https_request}
use rfid_encryption.Tls.Grant.{IsSound, https_request-IsSound}
use rfid_encryption.Tls.Loops.{https_request-Returns}
use rfid_encryption.Tls.Trace.{Authorised}
use rfid_encryption.Nfc.{nfc_task}
use rfid_encryption.Card.{gpio_of}
use rfid_encryption.Card.Schedule.{Tasks, Run, Ended, level}
use rfid_encryption.Nfc.Dark.{Scheduled, nfc_task-dark}
use rfid_encryption.Tls.Protocol.Heap.{blocks}
use rfid_encryption.Nfc.Heap.{passes_shown, key_texts}
use rfid_encryption.Nfc.Heap.Leaks.{nfc_task_leaks}
use rfid_encryption.Nfc.Lamps.{lamps, nfc_task-lamps}
use rfid_encryption.Nfc.Progress.{nfc_task-Returns}
use rfid_encryption.Nfc.Unchecked.{nfc_task_unchecked}
use rfid_encryption.App.{app_main, returned, nvs_ready, after_wifi, obtain_time, wait_clock}
use rfid_encryption.App.Start.{nfc_task-app_main}
use rfid_encryption.App.Decides.{Ends, app_main_decides}
use rfid_encryption.Tests.Fixtures.{
  toy_crypto, toy_flash, toy_heap, toy_env, toy_uid, toy_json, toy_arrays-ArraysFit,
  toy_server-Answers, toy_driver-DriverFits, toy_keys-KeysRead,
}

abbrev card_key : List ℕ
card_key = replicate 15 11

https_request-Returns_example :
    (out : ℕ × Device) × (https_request toy_env toy_json toy_crypto toy_flash 0 [] 1 toy_heap
        toy_uid card_key booted
      ≡ done out)
https_request-Returns_example =
    https_request-Returns toy_env toy_json toy_crypto toy_flash 0 [] 1 toy_heap toy_uid card_key
      booted (toy_keys-KeysRead false []).0 (toy_keys-KeysRead true []).0
      (toy_server-Answers 1 (omega arith)) toy_arrays-ArraysFit (toy_keys-KeysRead false []).1
      (toy_keys-KeysRead true []).1 (omega arith) (omega arith)

-- The same request, for the other theorem.
granted_request :
    (out : ℕ × Device) × (https_request toy_env toy_json toy_crypto toy_flash 0 [] 1 toy_heap
        toy_uid card_key booted
      ≡ done out)
granted_request =
    https_request-Returns toy_env toy_json toy_crypto toy_flash 0 [] 1 toy_heap toy_uid card_key
      booted (toy_keys-KeysRead false []).0 (toy_keys-KeysRead true []).0
      (toy_server-Answers 1 (omega arith)) toy_arrays-ArraysFit (toy_keys-KeysRead false []).1
      (toy_keys-KeysRead true []).1 (omega arith) (omega arith)

https_request-IsSound_example : IsSound granted_request.0
https_request-IsSound_example =
    https_request-IsSound toy_env toy_json toy_crypto toy_flash 0 [] 1 toy_heap toy_uid card_key
      booted granted_request.0 tt granted_request.1

abbrev heaps : History → List ℕ
heaps h = toy_heap

-- Three rounds from a device that app_main has left.
abbrev started : Device
started =
    log task_create_nfc
      (log read_clock (log (task_delay 2000) (log sntp_setup (log nvs_init booted))))

nfc_task-Returns_example :
    (d' : Device) × (nfc_task toy_env toy_json toy_crypto toy_flash 0 [] 3 1 heaps started
      ≡ done d')
nfc_task-Returns_example =
    nfc_task-Returns toy_env toy_json toy_crypto toy_flash 0 [] 3 1 heaps started
      (toy_server-Answers 1 (omega arith)) toy_arrays-ArraysFit toy_driver-DriverFits
      toy_keys-KeysRead

three_rounds :
    (d' : Device) × (nfc_task toy_env toy_json toy_crypto toy_flash 0 [] 3 10 heaps started
      ≡ done d')
three_rounds =
    nfc_task-Returns toy_env toy_json toy_crypto toy_flash 0 [] 3 10 heaps started
      (toy_server-Answers 10 (omega arith)) toy_arrays-ArraysFit toy_driver-DriverFits
      toy_keys-KeysRead

nfc_task-lamps_example : lamps three_rounds.0 ≡ 3
nfc_task-lamps_example =
    nfc_task-lamps toy_env toy_json toy_crypto toy_flash 0 [] 3 10 heaps started three_rounds.0
      toy_arrays-ArraysFit three_rounds.1

nfc_task_leaks_example :
    (leaked : List Block) × (blocks three_rounds.0.history ≡ some (leaked ++ []))
    × (key_texts leaked ≡ length leaked)
    × (length leaked ≤ 3)
    × (passes_shown three_rounds.0.history ≤ passes_shown started.history + length leaked)
nfc_task_leaks_example =
    nfc_task_leaks toy_env toy_json toy_crypto toy_flash 0 [] 3 10 heaps started three_rounds.0 []
      toy_arrays-ArraysFit three_rounds.1 refl

started-Scheduled : Scheduled started.history
started-Scheduled = (
  [],
  Run.other task_create_nfc tt (
      Run.other read_clock tt (
        Run.other (task_delay 2000) tt (Run.other sntp_setup tt (Run.other nvs_init tt Run.boot)))),
)

-- A card that refuses every write.
abbrev refusing_env : Env
refusing_env = record toy_env { data_block_written = λ h number block. 0 }

nfc_task_unchecked_example :
    nfc_task refusing_env toy_json toy_crypto toy_flash 0 [] 3 10 heaps started
    ≡ nfc_task toy_env toy_json toy_crypto toy_flash 0 [] 3 10 heaps started
nfc_task_unchecked_example =
    nfc_task_unchecked toy_env (λ h number block. 0) toy_json toy_crypto toy_flash 0 [] 3 10 heaps
      started

nfc_task-dark_example :
    (ts : Tasks) × Run ts three_rounds.0.history
    × ((calls : History) × (ts' : Tasks) × Run ts' (calls ++ three_rounds.0.history)
        × Ended ts'
        × ((c : Colour) → level (gpio_of c) (calls ++ three_rounds.0.history) ≡ 0))
nfc_task-dark_example =
    nfc_task-dark toy_env toy_json toy_crypto toy_flash 0 [] 3 10 heaps started three_rounds.0
      toy_arrays-ArraysFit started-Scheduled three_rounds.1

abbrev all_ok : Call → ℕ
all_ok call = 0

abbrev joins : List Wifi.Event
joins = Wifi.sta_start ∷ Wifi.sta_got_ip ∷ []

boots : app_main toy_env 0x110d 0x1110 10 all_ok joins booted ≡ returned started
unfolding app_main nvs_ready after_wifi obtain_time wait_clock wifi_connect check_all wait_bits
    event_handler
boots = refl

nfc_task-app_main_example : Authorised three_rounds.0.history
nfc_task-app_main_example =
    nfc_task-app_main toy_env 0x110d 0x1110 all_ok joins toy_json toy_crypto toy_flash 0 [] 3 10
      heaps started three_rounds.0 boots three_rounds.1

app_main_decides_example :
    Ends toy_env 0x110d 0x1110 all_ok joins booted
      (app_main toy_env 0x110d 0x1110 10 all_ok joins booted)
app_main_decides_example =
    app_main_decides toy_env 0x110d 0x1110 10 all_ok joins booted (omega arith)

-- A partition that has to be erased first.
abbrev worn_env : Env
worn_env = record toy_env { nvs_status = λ h. elim h [ [] ↦ 0x110d | e ∷ h' ↦ 0 ] }

abbrev erased : Device
erased = log nvs_init (log nvs_erase (log nvs_init booted))

erases : nvs_ready worn_env 0x110d 0x1110 booted ≡ some erased
unfolding nvs_ready
erases = refl

all_set_up : check_all all_ok setup ≡ none
unfolding check_all
all_set_up = refl

wifi_connect_decides_example :
    Verdict 0 0 (Wifi.sta_start ∷ replicate 3 Wifi.sta_disconnected ++ (Wifi.sta_got_ip ∷ [])) (
      wifi_connect all_ok
        (Wifi.sta_start ∷ replicate 3 Wifi.sta_disconnected ++ (Wifi.sta_got_ip ∷ [])))
wifi_connect_decides_example =
    wifi_connect_decides all_ok
      (Wifi.sta_start ∷ replicate 3 Wifi.sta_disconnected ++ (Wifi.sta_got_ip ∷ [])) all_set_up
