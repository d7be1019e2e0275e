-- ===== src/Wifi.antt =====
-- main/wifi_connect.c: the station's event handler, and wifi_connect, which registers it, starts the
-- station and waits for one of two bits. Events come in any order, as the driver posts them.
pub mod Bounds
pub mod Connect
pub mod Verdict
use rfid_encryption.Base.{
  ℕ, ◌+◌, List, [], ◌∷◌, Bool, true, false, Option, none, some, ◌||◌, if◌then◌else◌, ltb, ◌==◌,
}

-- EXAMPLE_ESP_MAXIMUM_RETRY
abbrev pub maximum_retry : ℕ
maximum_retry = 10

-- The events that the handler tells apart; `other` is any other base or id.
pub data Event : Type 0 where
  sta_start sta_disconnected sta_got_ip other : Event

-- `s_retry_num`, the two bits of `s_wifi_event_group`, and how often esp_wifi_connect was called.
pub record Station : Type 0 where
  pub s_retry_num : ℕ
  pub connected_bit : Bool
  pub fail_bit : Bool
  pub connects : ℕ

abbrev pub fresh : Station
fresh = record { s_retry_num = 0; connected_bit = false; fail_bit = false; connects = 0 }

unfoldable pub event_handler : Event → Station → Station
event_handler sta_start s = record s { connects = s.connects + 1 }
event_handler sta_disconnected s =
    if ltb s.s_retry_num maximum_retry
    then record s { connects = s.connects + 1; s_retry_num = s.s_retry_num + 1 }
    else record s { fail_bit = true }
event_handler sta_got_ip s = record s { s_retry_num = 0; connected_bit = true }
event_handler other s = s

-- The events in the order in which they are posted.
unfoldable pub handle_all : List Event → Station → Station
unfolding event_handler
handle_all [] s = s
handle_all (e ∷ events) s = handle_all events (event_handler e s)

-- xEventGroupWaitBits for either bit, with no timeout and none cleared: `none` while it blocks.
unfoldable pub wait_bits : List Event → Station → Option Station
unfolding event_handler
wait_bits [] s = if s.connected_bit || s.fail_bit then some s else none
wait_bits (e ∷ events) s =
    let later = wait_bits events (event_handler e s) in
    if s.connected_bit || s.fail_bit then some s else later

-- The calls whose status wifi_connect checks, in their order.
pub data Call : Type 0 where
  netif_init event_loop_create_default wifi_init : Call
  register_wifi_handler register_ip_handler : Call
  set_mode set_config start : Call

abbrev pub setup : List Call
setup =
    netif_init ∷ event_loop_create_default ∷ wifi_init ∷ register_wifi_handler ∷ register_ip_handler
    ∷ set_mode ∷ set_config ∷ start ∷ []

-- ESP_ERROR_CHECK on each status: the first that is not ESP_OK aborts the program.
unfoldable pub check_all : (Call → ℕ) → List Call → Option Call
check_all status [] = none
check_all status (c ∷ calls) =
    let later = check_all status calls in if status c == 0 then later else some c

pub data Outcome : Type 0 where
  aborted : Call → Outcome
  blocked : Outcome
  connected failed unexpected : Station → Outcome

abbrev pub report : Station → Outcome
report s = if s.connected_bit then connected s else if s.fail_bit then failed s else unexpected s

-- What comes of the checks and of the wait.
abbrev pub outcome : Option Call → Option Station → Outcome
outcome (some c) waited = aborted c
outcome none none = blocked
outcome none (some s) = report s

unfoldable pub wifi_connect : (Call → ℕ) → List Event → Outcome
unfolding check_all wait_bits
wifi_connect status events = outcome (check_all status setup) (wait_bits events fresh)
