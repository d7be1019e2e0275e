-- ===== src/Tests/Stored.antt =====
-- A key that flash_writer stores, the requests that offer it, and a server that grants them.
use rfid_encryption.Base.{
  take, ℕ, ◌≤◌, ◌≡◌, true, false, refl, ◌∙◌, List, [], ◌∷◌, some, none, done, replicate, arith,
  strstr, contains, starts_with,
}
use rfid_encryption.Device.{log, nvs_init, Device, booted}
use rfid_encryption.Tls.{https_request}
use rfid_encryption.Flash.Storage.{flash_writer, flash_reader, partition_size}
use rfid_encryption.Flash.Storage.RoundTrip.{flash_reader-flash_writer}
use rfid_encryption.Flash.KeyStore.{Holds, flash_writer-Holds}
use rfid_encryption.Tls.Keys.{last_offer, https_request-flash_writer}
use rfid_encryption.Tls.Loops.{https_request-Returns}
use rfid_encryption.Tls.Willing.{Willing}
use rfid_encryption.Nfc.{nfc_task}
use rfid_encryption.Nfc.Heap.{passes_shown}
use rfid_encryption.Wifi
use rfid_encryption.Wifi.{Call, check_all, setup}
use rfid_encryption.App.{returned, nvs_ready, app_main}
use rfid_encryption.App.Decides.{Decided}
use rfid_encryption.App.Opens.{firmware_opens}
use rfid_encryption.Nfc.Opens.{Stored}
use rfid_encryption.Tests.Fixtures.{
  toy_env, toy_driver-DriverFits, toy_server-Answers, toy_crypto, toy_key, toy_crypto-IsLawful,
  toy_flash, toy_flash-IsLawful, toy_heap, toy_heap_size, toy_der, toy_der_size, toy_decode,
  ends_once, roomy, toy_uid, toy_json, toy_arrays-ArraysFit,
}

abbrev card_key : List ℕ
card_key = replicate 15 11

-- A chip on which flash_writer has stored a key of five bytes. Its one partition serves both labels.
written_chip :
    (chip : List ℕ) × (flash_writer toy_crypto toy_flash 0 toy_decode toy_heap []
      ≡ some (false, chip))
written_chip =
    let (chip, wrote, read) =
      flash_reader-flash_writer toy_crypto toy_key toy_crypto-IsLawful toy_flash 0x10000
        toy_flash-IsLawful 0 toy_decode [] toy_heap toy_heap toy_der toy_heap 0 5 refl toy_der_size
        toy_heap_size (omega arith) roomy (omega (arith, roomy, toy_heap_size)) ends_once in
    (chip, wrote)

stored_key : Holds toy_crypto toy_flash 0 written_chip.0 false (take 5 toy_der)
stored_key =
    flash_writer-Holds toy_crypto toy_key toy_crypto-IsLawful toy_flash 0x10000 toy_flash-IsLawful 0
      toy_decode [] written_chip.0 toy_heap toy_der 0 5 refl toy_der_size (omega arith) roomy
      ends_once written_chip.1

same_partition :
    (chip heap dest : List ℕ)
    → flash_reader toy_crypto toy_flash 0 chip heap dest partition_size true
      ≡ flash_reader toy_crypto toy_flash 0 chip heap dest partition_size false
unfolding flash_reader
same_partition chip heap dest = refl

stored_crt : Holds toy_crypto toy_flash 0 written_chip.0 true (take 5 toy_der)
stored_crt = record {
  reads = λ heap dest size fits.
      same_partition written_chip.0 heap dest ∙ stored_key.reads heap dest size fits;
}

some_room : 5 ≤ partition_size
some_room = omega (arith, roomy)

stored_request :
    (out : ℕ × Device) × (https_request toy_env toy_json toy_crypto toy_flash 0 written_chip.0 1
        toy_heap toy_uid card_key booted
      ≡ done out)
stored_request =
    https_request-Returns toy_env toy_json toy_crypto toy_flash 0 written_chip.0 1 toy_heap toy_uid
      card_key booted _ _ (toy_server-Answers 1 (omega arith)) toy_arrays-ArraysFit
      (stored_key.reads toy_heap toy_heap toy_heap_size (omega (arith, some_room, toy_heap_size)))
      (stored_crt.reads toy_heap toy_heap toy_heap_size (omega (arith, some_room, toy_heap_size)))
      (omega arith) (omega arith)

https_request-flash_writer_example :
    last_offer stored_request.0.1.history ≡ some (take 5 toy_der, take 5 toy_der)
https_request-flash_writer_example =
    https_request-flash_writer toy_env toy_json toy_crypto toy_key toy_flash 0x10000 0 toy_decode []
      written_chip.0 1 toy_heap toy_heap toy_der toy_uid card_key (take 5 toy_der) 0 5 booted
      stored_request.0 toy_crypto-IsLawful toy_flash-IsLawful refl toy_der_size (omega arith) roomy
      ends_once written_chip.1 stored_crt (omega arith) some_room toy_heap_size stored_request.1

-- The server of toy_env says "200 OK" to everything.
toy_env-Willing : Willing toy_env
unfolding strstr contains starts_with
toy_env-Willing = record {
  connects = λ h. refl;
  sends = λ h message. refl;
  stays = λ h. refl;
  no_invalid_key = λ h. refl;
  no_bad_login = λ h. refl;
}

abbrev stored_keys : Stored toy_crypto toy_flash 0 written_chip.0 false
stored_keys = record {
  bytes = take 5 toy_der;
  holds = stored_key;
  some_bytes = omega arith;
  fits = some_room;
}

abbrev stored_certificate : Stored toy_crypto toy_flash 0 written_chip.0 true
stored_certificate = record {
  bytes = take 5 toy_der;
  holds = stored_crt;
  some_bytes = omega arith;
  fits = some_room;
}

abbrev all_ok : Call → ℕ
all_ok call = 0

abbrev joins : List Wifi.Event
joins = Wifi.sta_start ∷ Wifi.sta_got_ip ∷ []

ready_at_once : nvs_ready toy_env 0x110d 0x1110 booted ≡ some (log nvs_init booted)
unfolding nvs_ready
ready_at_once = refl

all_set_up : check_all all_ok setup ≡ none
unfolding check_all
all_set_up = refl

firmware_opens_example :
    (d : Device) × (d' : Device) × (app_main toy_env 0x110d 0x1110 10 all_ok joins booted
      ≡ returned d)
    × (nfc_task toy_env toy_json toy_crypto toy_flash 0 written_chip.0 3 10 (λ h. toy_heap) d
        ≡ done d')
    × (passes_shown d'.history ≡ 3)
firmware_opens_example =
    firmware_opens toy_env 0x110d 0x1110 all_ok joins toy_json toy_crypto toy_flash 0 written_chip.0
      3 10 (λ h. toy_heap) (log nvs_init booted) (omega arith) ready_at_once all_set_up
      (Decided.given (Wifi.sta_start ∷ []) [] refl refl (omega arith)) (λ h. omega arith)
      toy_arrays-ArraysFit toy_driver-DriverFits
      (record { found = λ h. omega arith; readable = λ h. omega arith }) stored_keys
      stored_certificate (λ h. toy_heap_size) toy_env-Willing (toy_server-Answers 10 (omega arith))
