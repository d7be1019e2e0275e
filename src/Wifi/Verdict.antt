-- ===== src/Wifi/Verdict.antt =====
-- What wifi_connect comes to, for every sequence of events.
use rfid_encryption.Base.{
  ℕ, ◌+◌, ◌≤◌, ◌<◌, ◌≡◌, refl, ap, sym, subst, ◌∙◌, List, [], ◌∷◌, ◌++◌, true, false, Option, none,
  ◌⊎◌, inl, inr, arith,
}
use rfid_encryption.Wifi.{
  Event, sta_start, sta_disconnected, sta_got_ip, other, Station, fresh, event_handler, wait_bits,
  maximum_retry, Call, setup, check_all, Outcome, blocked, connected, failed, wifi_connect, outcome,
}
use rfid_encryption.Wifi.Connect.{wait_bits_set, event_handler_retries, event_handler_gives_up}

-- How many of the events are of a kind.
abbrev pub count : (Event → ℕ) → List Event → ℕ
count kind [] = 0
count kind (e ∷ events) = kind e + count kind events

abbrev pub starts : Event → ℕ
starts sta_start = 1
starts _ = 0

abbrev pub losses : Event → ℕ
losses sta_disconnected = 1
losses _ = 0

abbrev pub addresses : Event → ℕ
addresses sta_got_ip = 1
addresses _ = 0

-- The station once it has an address or has given up, after so many calls of esp_wifi_connect.
abbrev pub joined : ℕ → Station
joined n = record { s_retry_num = 0; connected_bit = true; fail_bit = false; connects = n }

abbrev pub gave_up : ℕ → Station
gave_up n = record {
  s_retry_num = maximum_retry;
  connected_bit = false;
  fail_bit = true;
  connects = n;
}

-- What decides, when there were `k` losses and `c` calls before these events: an address before the
-- eleventh loss, the eleventh loss before an address, or neither.
pub data Verdict (k c : ℕ) (events : List Event) (out : Outcome) : Type 0 where
  joins :
      (before after : List Event)
      → events ≡ before ++ (sta_got_ip ∷ after)
      → count addresses before ≡ 0
      → k + count losses before ≤ 10
      → out ≡ connected (joined (c + (count starts before + count losses before)))
      → Verdict k c events out
  gives_up :
      (before after : List Event)
      → events ≡ before ++ (sta_disconnected ∷ after)
      → count addresses before ≡ 0
      → k + count losses before ≡ 10
      → out ≡ failed (gave_up (c + (count starts before + count losses before)))
      → Verdict k c events out
  waits :
      count addresses events ≡ 0
      → k + count losses events ≤ 10
      → out ≡ blocked
      → Verdict k c events out

-- One more event in front that decides nothing.
extend :
    (e : Event) (k c k' c' : ℕ) (events : List Event) (out : Outcome)
    → addresses e ≡ 0
    → k' ≡ k + losses e
    → c' ≡ c + (starts e + losses e)
    → Verdict k' c' events out
    → Verdict k c (e ∷ events) out
extend e k c k' c' events out no_address ek ec (joins before after split none_yet few o) =
    joins (e ∷ before) after (ap (λ (es : List Event). e ∷ es) split)
      (omega (arith, no_address, none_yet)) (omega (arith, ek, few))
      (o ∙ ap (λ (n : ℕ). connected (joined n)) (omega (arith, ec)))
extend e k c k' c' events out no_address ek ec (gives_up before after split none_yet all o) =
    gives_up (e ∷ before) after (ap (λ (es : List Event). e ∷ es) split)
      (omega (arith, no_address, none_yet)) (omega (arith, ek, all))
      (o ∙ ap (λ (n : ℕ). failed (gave_up n)) (omega (arith, ec)))
extend e k c k' c' events out no_address ek ec (waits none_yet few o) =
    waits (omega (arith, no_address, none_yet)) (omega (arith, ek, few)) o

-- The station while nothing is decided.
abbrev tried : ℕ → ℕ → Station
tried k c = record { s_retry_num = k; connected_bit = false; fail_bit = false; connects = c }

retry_or_not : (k : ℕ) → k ≤ 10 → (k < 10) ⊎ (k ≡ 10)
retry_or_not k h = ground arith

decides :
    (events : List Event) (k c : ℕ)
    → k ≤ 10
    → Verdict k c events (outcome none (wait_bits events (tried k c)))
unfolding wait_bits event_handler
decides [] k c h = waits refl (omega (arith, h)) refl
decides (sta_start ∷ events) k c h =
    extend sta_start k c k (c + 1) events _ refl (omega arith) (omega arith)
      (decides events k (c + 1) h)
decides (other ∷ events) k c h =
    extend other k c k c events _ refl (omega arith) (omega arith) (decides events k c h)
decides (sta_got_ip ∷ events) k c h = joins [] events refl refl (omega (arith, h)) (
    ap (outcome none) (wait_bits_set events (joined c) refl)
    ∙ ap (λ (n : ℕ). connected (joined n)) (omega arith))
decides (sta_disconnected ∷ events) k c h =
    let lost : Station = event_handler sta_disconnected (tried k c) in
    let motive = λ (s : Station).
      Verdict k c (sta_disconnected ∷ events) (outcome none (wait_bits events s)) in
    elim (retry_or_not k h) [
      | inl less ↦
          let again : lost ≡ tried (k + 1) (c + 1) = event_handler_retries (tried k c) less in
          subst motive (sym again) (
            extend sta_disconnected k c (k + 1) (c + 1) events _ refl (omega arith) (omega arith)
              (decides events (k + 1) (c + 1) (omega (arith, less))))
      | inr most ↦
          let over : lost ≡ gave_up c =
            event_handler_gives_up (tried k c) most
            ∙ ap
                (λ (m : ℕ). record {
                  s_retry_num = m;
                  connected_bit = false;
                  fail_bit = true;
                  connects = c;
                })
                most in
          subst motive (sym over) (
            gives_up [] events refl refl (omega (arith, most)) (
              ap (outcome none) (wait_bits_set events (gave_up c) refl)
              ∙ ap (λ (n : ℕ). failed (gave_up n)) (omega arith)))
    ]

-- When its checks succeed, and whatever events the driver posts, wifi_connect comes to one of three
-- ends. With an address before the eleventh disconnection it reports the connection, with the retries
-- reset. At the eleventh disconnection before an address it reports the failure. Otherwise it blocks.
-- In the first two cases it has called esp_wifi_connect once for each start of the station and once for
-- each disconnection before the deciding event, at most 10 of the latter.
pub wifi_connect_decides :
    (status : Call → ℕ) (events : List Event)
    → check_all status setup ≡ none
    → Verdict 0 0 events (wifi_connect status events)
unfolding wifi_connect
wifi_connect_decides status events ready =
    subst (λ (failing : Option Call). Verdict 0 0 events (outcome failing (wait_bits events fresh)))
      (sym ready) (decides events 0 0 (omega arith))
