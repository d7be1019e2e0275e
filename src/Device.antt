-- ===== src/Device.antt =====
-- The state of the running firmware and its surroundings: the globals of main/main.c and
-- main/tls_connection.c, and the history of calls to the PN532 driver, ESP-IDF and FreeRTOS, newest
-- first. What such a call answers is a function of the history, so it may depend on all that went
-- before: `Env` has one field for each call whose answer the code uses.
use rfid_encryption.Base.{ℕ, List, [], ◌∷◌, Bool, false, ℤ}

pub data Colour : Type 0 where
  red green blue : Colour

-- The heap blocks of https_request, `key` and `crt` and the texts `json_data` and `new_key_data`, and
-- nfc_task's `card_key`.
pub data Block : Type 0 where
  key_block crt_block json_block new_key_block card_key_block : Block

-- pn532_readPassiveTargetID's result, `uid` and `*uidLength`; the last two matter on success only.
pub record Target : Type 0 where
  pub success : ℕ
  pub uid : List ℕ
  pub uid_length : ℕ

-- esp_tls_conn_read's result and the bytes that it put into the buffer.
pub record Read : Type 0 where
  pub ret : ℤ
  pub bytes : List ℕ

pub data Event : Type 0 where
  spi_init begin get_firmware_version sam_config : Event
  read_passive_target : Event
  authenticate_block : List ℕ → ℕ → ℕ → ℕ → List ℕ → Event
  read_data_block : ℕ → Event
  write_data_block : ℕ → List ℕ → Event
  -- certificate, key and whether a saved session is offered
  conn_http_new : List ℕ → List ℕ → Bool → Event
  conn_write : List ℕ → Event
  conn_read : Read → Event
  conn_destroy : Event
  alloc free : Block → Event
  random : Event
  get_time : Event
  task_create_blink : Colour → Event
  task_create_nfc : Event
  task_delay : ℕ → Event
  set_level : ℕ → ℕ → Event
  task_delete : Event
  sntp_setup read_clock : Event
  nvs_init nvs_erase : Event

abbrev pub History : Type 0
History = List Event

pub record Env : Type 0 where
  -- what a local array of so many bytes holds before it is written
  pub local_array : ℕ → List ℕ
  -- what nfc_task's `uidLength` holds before it is written
  pub stale_length : History → ℕ
  pub firmware_version : History → ℕ
  pub passive_target : History → Target
  -- result and the 16 bytes
  pub data_block : History → ℕ → ℕ × List ℕ
  pub data_block_written : History → ℕ → List ℕ → ℕ
  -- whether esp_tls_conn_http_new returns a connection
  pub connects : History → Bool
  -- whether esp_tls_get_client_session returns a session
  pub client_session : History → Bool
  pub conn_written : History → List ℕ → ℤ
  pub conn_reads : History → ℕ → Read
  pub esp_random : History → ℕ
  pub time : History → ℕ
  -- tm_year, years since 1900
  pub clock_year : History → ℕ
  pub nvs_status : History → ℕ
  pub nvs_erase_status : History → ℕ

-- `saved_client_session`, `start_time`, `end_time`, and the history.
pub record Device : Type 0 where
  pub saved_client_session : Bool
  pub start_time : ℕ
  pub end_time : ℕ
  pub history : History

abbrev pub log : Event → Device → Device
log e d = record d { history = e ∷ d.history }

abbrev pub booted : Device
booted = record { saved_client_session = false; start_time = 0; end_time = 0; history = [] }
