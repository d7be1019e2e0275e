-- ===== src/Tests/Fixtures.antt =====
-- Small instances of the model's parameters: a cipher, a flash chip, a card, a server.
use rfid_encryption.Base.{
  ℕ, zero, suc, ◌+◌, ◌-◌, ◌<◌, ◌≤◌, ◌≡◌, refl, ap, ap₂, sym, ◌∙◌, List, [], ◌∷◌, ◌++◌, map, some,
  Bool, true, false, replicate, length, length-append, length-replicate, arith, pos, codes, strstr,
  contains, starts_with, ◌≢◌,
}
use rfid_encryption.Device.{Env}
use rfid_encryption.Flash.Aes.{Crypto, encrypt, decrypt}
use rfid_encryption.Flash.Aes.RoundTrip
use rfid_encryption.Flash.Aes.RoundTrip.{ciphertext}
use rfid_encryption.Flash.Aes.Blocks.{ecb}
use rfid_encryption.Flash.Storage.{FlashChip, Base64Decode, partition_size, flash_reader, all_ff}
use rfid_encryption.Flash.Storage
use rfid_encryption.Flash.Storage.RoundTrip.{EndsOnce}
use rfid_encryption.Flash.Storage.Failures.{flash_reader-erased}
use rfid_encryption.Tls.Message.{Json}
use rfid_encryption.Tls.Loops.{Answers, ArraysFit}
use rfid_encryption.Nfc.Progress.{DriverFits, KeysRead}

-- A cipher that adds 1 to each byte, under a key of 32 sevens.
abbrev pub plus_one : ℕ → ℕ
plus_one x = x + 1

abbrev pub minus_one : ℕ → ℕ
minus_one x = x - 1

abbrev pub toy_key : List ℕ
toy_key = replicate 32 7

abbrev pub toy_crypto : Crypto
toy_crypto = record {
  pkcs5_pbkdf2_hmac_ext = λ salt iterations bits. (0, toy_key);
  aes_setkey_enc = λ key bits. 0;
  aes_setkey_dec = λ key bits. 0;
  aes_crypt_ecb = λ direction key block. elim direction [
    | encrypt ↦ map plus_one block
    | decrypt ↦ map minus_one block
  ];
}

-- The same, but no key can be scheduled.
abbrev pub no_schedule : Crypto
no_schedule = record toy_crypto { aes_setkey_enc = λ key bits. 1 }

length-map : (f : ℕ → ℕ) (xs : List ℕ) → length (map f xs) ≡ length xs
length-map f [] = refl
length-map f (x ∷ xs) = ap suc (length-map f xs)

minus-plus : (xs : List ℕ) → map minus_one (map plus_one xs) ≡ xs
minus-plus [] = refl
minus-plus (x ∷ xs) = ap₂ ◌∷◌ (omega arith) (minus-plus xs)

pub toy_crypto-IsLawful : RoundTrip.IsLawful toy_crypto toy_key
toy_crypto-IsLawful = record {
  derived = refl;
  enc_key = refl;
  dec_key = refl;
  enc_block = λ xs h. length-map plus_one xs ∙ h;
  dec_block = λ xs h. length-map minus_one xs ∙ h;
  inverse = λ xs h. minus-plus xs;
}

-- A chip with one partition, of which the bytes before the erased ones are kept.
abbrev pub toy_flash : FlashChip
toy_flash = record {
  Chip = List ℕ;
  find_first = λ chip label. some 0x10000;
  erase_range = λ chip address offset size. (0, []);
  flash_write = λ chip bytes address. (0, bytes);
  flash_read = λ chip address size. (0, chip ++ replicate (size - length chip) 255);
}

pub toy_flash-IsLawful : Storage.RoundTrip.IsLawful toy_flash "RSA_key" 0x10000
toy_flash-IsLawful = record {
  listed = λ chip. refl;
  erase_ok = λ chip. refl;
  write_ok = λ chip bytes. refl;
  read-write-erase = λ chip bytes h. refl;
}

abbrev pub key_bytes : List ℕ
key_bytes = 1 ∷ 2 ∷ 3 ∷ 4 ∷ 5 ∷ []

-- A decoded key of five bytes in a buffer of 4096.
abbrev pub toy_der : List ℕ
toy_der = key_bytes ++ replicate (partition_size - 5) 0

pub toy_der_size : length toy_der ≡ partition_size
unfolding partition_size
toy_der_size = omega (
  arith,
  length-append key_bytes (replicate (partition_size - 5) 0),
  length-replicate {A = ℕ} (partition_size - 5) 0,
)

abbrev pub toy_decode : Base64Decode
toy_decode heap size text = (0, toy_der, 5)

-- `malloc(4096)`
abbrev pub toy_heap : List ℕ
toy_heap = 0 ∷ replicate (partition_size - 1) 0

pub toy_heap_size : length toy_heap ≡ partition_size
unfolding partition_size
toy_heap_size = omega (arith, length-replicate {A = ℕ} (partition_size - 1) 0)

pub roomy : 5 + 11 + 4 ≤ partition_size
unfolding partition_size
roomy = omega arith

pub ends_once : EndsOnce (ciphertext toy_crypto toy_key toy_der 5)
unfolding all_ff ecb
ends_once zero above below = absurd (omega arith)
ends_once (suc zero) above below = refl
ends_once (suc (suc zero)) above below = refl
ends_once (suc (suc (suc zero))) above below = refl
ends_once (suc (suc (suc (suc zero)))) above below = refl
ends_once (suc (suc (suc (suc (suc zero))))) above below = refl
ends_once (suc (suc (suc (suc (suc (suc zero)))))) above below = refl
ends_once (suc (suc (suc (suc (suc (suc (suc zero))))))) above below = refl
ends_once (suc (suc (suc (suc (suc (suc (suc (suc zero)))))))) above below = refl
ends_once (suc (suc (suc (suc (suc (suc (suc (suc (suc zero))))))))) above below = refl
ends_once (suc (suc (suc (suc (suc (suc (suc (suc (suc (suc zero)))))))))) above below = refl
ends_once (suc (suc (suc (suc (suc (suc (suc (suc (suc (suc (suc zero))))))))))) above below = refl
ends_once (suc (suc (suc (suc (suc (suc (suc (suc (suc (suc (suc (suc zero)))))))))))) above below =
    refl
ends_once (suc (suc (suc (suc (suc (suc (suc (suc (suc (suc (suc (suc (suc zero))))))))))))) above
      below =
    refl
ends_once (suc (suc (suc (suc (suc (suc (suc (suc (suc (suc (suc (suc (suc (suc zero))))))))))))))
      above below =
    refl
ends_once
      (suc (suc (suc (suc (suc (suc (suc (suc (suc (suc (suc (suc (suc (suc (suc zero)))))))))))))))
      above below =
    refl
ends_once
      (suc
        (suc (suc (suc (suc (suc (suc (suc (suc (suc (suc (suc (suc (suc (suc (suc j))))))))))))))))
      above below =
    absurd (omega arith)

pub erased_reads :
    toy_flash.flash_read [] 0x10000 partition_size ≡ (0, replicate partition_size 255)
erased_reads = ap (λ (n : ℕ). (0, replicate n 255)) (omega arith)

-- A reader with a card that always reads as the same 16 bytes, and a server that always says yes.
abbrev pub toy_env : Env
toy_env = record {
  local_array = λ n. replicate n 0;
  stale_length = λ h. 4;
  firmware_version = λ h. 0x32010607;
  passive_target =
      λ h. record { success = 1; uid = 1 ∷ 2 ∷ 3 ∷ 4 ∷ 5 ∷ 6 ∷ 7 ∷ []; uid_length = 7 };
  data_block = λ h number. (1, replicate 16 11);
  data_block_written = λ h number block. 1;
  connects = λ h. true;
  client_session = λ h. true;
  conn_written = λ h bytes. pos (length bytes);
  conn_reads = λ h size. record { ret = pos 6; bytes = codes "200 OK" };
  esp_random = λ h. 0x41424344;
  time = λ h. 5;
  clock_year = λ h. 126;
  nvs_status = λ h. 0;
  nvs_erase_status = λ h. 0;
}

abbrev pub toy_uid : List ℕ
toy_uid = 1 ∷ 2 ∷ 3 ∷ 4 ∷ 5 ∷ 6 ∷ 7 ∷ []

abbrev pub toy_json : Json
toy_json members = codes "{\"type\":\"UID_KEY\"}"

pub toy_arrays-ArraysFit : ArraysFit toy_env
toy_arrays-ArraysFit n = length-replicate n 0

said_yes : strstr (codes "200 OK") "200 OK" ≡ true
unfolding strstr contains starts_with
said_yes = refl

pub heard : strstr (codes "200 OK") "200 OK" ≢ false
heard deaf = let no : true ≡ false = sym said_yes ∙ deaf in cc

pub toy_server-Answers : (fuel : ℕ) → 0 < fuel → Answers toy_env fuel
toy_server-Answers fuel some_fuel = record {
  rank = λ h. 0;
  below = λ h. some_fuel;
  ok_falls = λ h go deaf. absurd (heard deaf);
  login_falls = λ h go deaf. absurd (heard deaf);
}

pub toy_driver-DriverFits : DriverFits toy_env
toy_driver-DriverFits = record { uid = λ h. refl; block = λ h number. refl }

pub toy_key_reads :
    (label : Bool)
    → flash_reader toy_crypto toy_flash 0 [] toy_heap toy_heap partition_size label
      ≡ some (1, 255 ∷ replicate (partition_size - 1) 0)
toy_key_reads label =
    flash_reader-erased toy_crypto toy_flash 0 [] 0x10000 label 0 toy_heap
      (replicate (partition_size - 1) 0) toy_key refl erased_reads toy_heap_size refl

pub toy_keys-KeysRead : KeysRead toy_crypto toy_flash 0 [] (λ h. toy_heap)
toy_keys-KeysRead label h = (_, toy_key_reads label)
