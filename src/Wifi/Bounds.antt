-- ===== src/Wifi/Bounds.antt =====
-- Invariants of the handler over every sequence of events.
use rfid_encryption.Base.{ℕ, ◌+◌, ◌*◌, ◌≤◌, List, [], ◌∷◌, arith}
use rfid_encryption.Wifi.{
  Event, sta_start, sta_disconnected, sta_got_ip, other, Station, fresh, event_handler, handle_all,
  maximum_retry,
}

abbrev pub starts : List Event → ℕ
starts [] = 0
starts (sta_start ∷ events) = starts events + 1
starts (_ ∷ events) = starts events

abbrev pub leases : List Event → ℕ
leases [] = 0
leases (sta_got_ip ∷ events) = leases events + 1
leases (_ ∷ events) = leases events

-- The retries stay within the limit.
pub record IsValid (s : Station) : Type 0 where
  pub retries : s.s_retry_num ≤ maximum_retry

pub event_handler-IsValid : (e : Event) (s : Station) → IsValid s → IsValid (event_handler e s)
unfolding event_handler
event_handler-IsValid sta_start s v = ground arith
event_handler-IsValid sta_disconnected s v = ground arith
event_handler-IsValid sta_got_ip s v = ground arith
event_handler-IsValid other s v = v

handle_all-IsValid : (events : List Event) (s : Station) → IsValid s → IsValid (handle_all events s)
unfolding handle_all
handle_all-IsValid [] s v = v
handle_all-IsValid (e ∷ events) s v =
    handle_all-IsValid events (event_handler e s) (event_handler-IsValid e s v)

-- The calls that the events so far leave possible.
connects_bound :
    (events : List Event) (s : Station)
    → IsValid s
    → (handle_all events s).connects + s.s_retry_num
      ≤ s.connects + starts events + maximum_retry * (leases events + 1)
unfolding handle_all
connects_bound [] s v = omega arith
connects_bound (sta_start ∷ events) s v =
    omega (
      arith,
      connects_bound events (event_handler sta_start s) (event_handler-IsValid sta_start s v),
    )
connects_bound (sta_disconnected ∷ events) s v = ground (
  arith,
  connects_bound events (event_handler sta_disconnected s)
      (event_handler-IsValid sta_disconnected s v),
)
connects_bound (sta_got_ip ∷ events) s v = omega (
  arith,
  v,
  connects_bound events (event_handler sta_got_ip s) (event_handler-IsValid sta_got_ip s v),
)
connects_bound (other ∷ events) s v =
    connects_bound events (event_handler other s) (event_handler-IsValid other s v)

-- Whatever the driver posts, the retry counter stays at most 10, and the station tries to connect at
-- most once for each start of the station and ten times for each address obtained and once over.
handle_all_bounds :
    (events : List Event)
    → ((handle_all events fresh).s_retry_num ≤ maximum_retry)
      × ((handle_all events fresh).connects ≤ starts events + maximum_retry * (leases events + 1))
handle_all_bounds events = (
  omega (arith, handle_all-IsValid events fresh (omega arith)),
  omega (arith, connects_bound events fresh (omega arith)),
)
