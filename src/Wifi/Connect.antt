-- ===== src/Wifi/Connect.antt =====
-- When wifi_connect returns, and what it then reports.
use rfid_encryption.Base.{
  ℕ, zero, suc, ◌+◌, ◌≤◌, ◌<◌, ◌≡◌, ◌≢◌, refl, ap, List, [], ◌∷◌, ◌++◌, true, false, Option, none,
  some, arith, replicate, ◌||◌,
}
use rfid_encryption.Wifi.{
  Event, sta_disconnected, sta_got_ip, Station, fresh, event_handler, wait_bits, maximum_retry,
  Call, setup, check_all, connected, failed, unexpected, wifi_connect, report, outcome,
}

-- The wait ends at the first state that has a bit.
wait_bits-some :
    (events : List Event) (s s' : Station)
    → wait_bits events s ≡ some s'
    → (s'.connected_bit || s'.fail_bit) ≡ true
unfolding wait_bits
wait_bits-some [] s s' h = ground arith
wait_bits-some (e ∷ events) s s' h = ground (arith, wait_bits-some events (event_handler e s) s')

report_expected : (s t : Station) → (s.connected_bit || s.fail_bit) ≡ true → report s ≢ unexpected t
report_expected s t set h = ground arith

outcome_expected :
    (c : Option Call) (o : Option Station) (t : Station)
    → ((s : Station) → o ≡ some s → (s.connected_bit || s.fail_bit) ≡ true)
    → outcome c o ≢ unexpected t
outcome_expected (some c) o t set h = cc
outcome_expected none none t set h = cc
outcome_expected none (some s) t set h = report_expected s t (set s refl) h

-- wifi_connect never reaches its UNEXPECTED EVENT branch, whatever the driver posts.
pub wifi_connect-expected :
    (status : Call → ℕ) (events : List Event) (s : Station)
    → wifi_connect status events ≢ unexpected s
unfolding wifi_connect
wifi_connect-expected status events s =
    outcome_expected (check_all status setup) (wait_bits events fresh) s
      (wait_bits-some events fresh)

-- The wait goes on while neither bit is set.
pub wait_bits_waiting :
    (e : Event) (events : List Event) (s : Station)
    → s.connected_bit ≡ false
    → s.fail_bit ≡ false
    → wait_bits (e ∷ events) s ≡ wait_bits events (event_handler e s)
unfolding wait_bits
wait_bits_waiting e events s c f = rw (c, f)

pub wait_bits_set :
    (events : List Event) (s : Station)
    → (s.connected_bit || s.fail_bit) ≡ true
    → wait_bits events s ≡ some s
unfolding wait_bits
wait_bits_set [] s h = rw h
wait_bits_set (e ∷ events) s h = rw h

pub event_handler_retries :
    (s : Station)
    → s.s_retry_num < maximum_retry
    → event_handler sta_disconnected s
      ≡ record s { connects = s.connects + 1; s_retry_num = s.s_retry_num + 1 }
unfolding event_handler
event_handler_retries s h = ground arith

got_ip :
    (s : Station) → event_handler sta_got_ip s ≡ record s { s_retry_num = 0; connected_bit = true }
unfolding event_handler
got_ip s = refl

pub event_handler_gives_up :
    (s : Station)
    → s.s_retry_num ≡ maximum_retry
    → event_handler sta_disconnected s ≡ record s { fail_bit = true }
unfolding event_handler
event_handler_gives_up s h = ground arith

-- The state after `k` disconnections in a row.
abbrev retried : ℕ → Station
retried k = record { s_retry_num = k; connected_bit = false; fail_bit = false; connects = k }

wait_bits-retried :
    (n k : ℕ) (events : List Event)
    → k + n ≤ maximum_retry
    → wait_bits (replicate n sta_disconnected ++ events) (retried k)
      ≡ wait_bits events (retried (k + n))
wait_bits-retried zero k events h = ap (λ (m : ℕ). wait_bits events (retried m)) (omega arith)
wait_bits-retried (suc n) k events h =
    rw
      (
        wait_bits_waiting sta_disconnected (replicate n sta_disconnected ++ events) (retried k) refl
            refl,
        event_handler_retries (retried k) (omega arith),
        wait_bits-retried n (k + 1) events (omega arith),
      )
      (ap (λ (m : ℕ). wait_bits events (retried m)) (omega arith))

module _ (status : Call → ℕ) (ready : check_all status setup ≡ none) where
  -- When the setup succeeds and the driver first reports `k` disconnections, at most 10, and then
  -- an address, wifi_connect reports the connection after `k` calls of esp_wifi_connect, with the
  -- retries reset. After 11 disconnections in a row it reports the failure after 10 calls. Later
  -- events make no difference.
  wifi_connect_retries :
      (k : ℕ) (events : List Event)
      → k ≤ maximum_retry
      → (wifi_connect status (replicate k sta_disconnected ++ (sta_got_ip ∷ events))
          ≡ connected (record (retried k) { s_retry_num = 0; connected_bit = true }))
        × (wifi_connect status (replicate 11 sta_disconnected ++ events)
            ≡ failed (record (retried maximum_retry) { fail_bit = true }))
  unfolding wifi_connect
  wifi_connect_retries k events h = (
    rw
        (
          ready,
          wait_bits-retried k 0 (sta_got_ip ∷ events) (omega arith),
          wait_bits_waiting sta_got_ip events (retried (0 + k)) refl refl,
          got_ip (retried (0 + k)),
          wait_bits_set events (record (retried (0 + k)) { s_retry_num = 0; connected_bit = true })
              refl,
        )
        (ap (λ (m : ℕ). connected (record (retried m) { s_retry_num = 0; connected_bit = true }))
          (omega arith)),
    rw (
      ready,
      wait_bits-retried 10 0 (sta_disconnected ∷ events) (omega arith),
      wait_bits_waiting sta_disconnected events (retried 10) refl refl,
      event_handler_gives_up (retried 10) refl,
      wait_bits_set events (record (retried 10) { fail_bit = true }) refl,
    ),
  )
