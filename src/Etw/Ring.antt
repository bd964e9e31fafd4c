-- ===== src/Etw/Ring.antt =====
-- agent/cg-agent/src/etw/ring.rs: the bounded ring of captured events and its overflow warning.
-- An instant is a number of nanoseconds. A method that locks the ring is one step: it takes the
-- ring and returns it as it leaves it. The `AtomicU64` wraps at 2^64.
pub mod Valid
pub mod Fifo
pub mod Warning
mod Tests
use cyber_guard_enterprise.Prelude.{
  ℕ, ◌+◌, ◌-◌, ◌*◌, ◌%◌, ◌^◌, min, Bool, true, false, ◌&&◌, List, [], ◌∷◌, ◌++◌, map, Option, none,
  some, ltb, leb, length, take, drop, is_empty, if◌then◌else◌,
}
use cyber_guard_enterprise.Etw.Types.{CapturedEvent, RingEvent, process, network, logon}

pub record EventRing : Type 0 where
  pub capacity : ℕ
  pub events : List (ℕ × RingEvent)
  pub dropped_total : ℕ

abbrev pub u64_max : ℕ
u64_max = 2 ^ 64 - 1

-- `AtomicU64::fetch_add`.
abbrev pub fetch_add : ℕ → ℕ → ℕ
fetch_add total n = (total + n) % 2 ^ 64

unfoldable pub new : ℕ → EventRing
new capacity = record { capacity = capacity; events = []; dropped_total = 0 }

-- A process event that would render to an empty `process.name`.
abbrev pub is_unnamed : RingEvent → Bool
is_unnamed (process event) = is_empty event.image_file_name
is_unnamed (network event) = false
is_unnamed (logon event) = false

unfoldable pub make_room : EventRing → EventRing
make_room ring =
    if leb ring.capacity (length ring.events)
    then record ring { events = drop 1 ring.events; dropped_total = fetch_add ring.dropped_total 1 }
    else ring

-- The event, with the instant read before the lock is taken.
unfoldable pub enqueue_or_drop : RingEvent → ℕ → EventRing → EventRing
unfolding make_room
enqueue_or_drop event now ring =
    if is_unnamed event
    then ring
    else (let roomy = make_room ring in record roomy { events = roomy.events ++ (now, event) ∷ [] })

unfoldable pub events_dropped_total : EventRing → ℕ
events_dropped_total ring = ring.dropped_total

unfoldable pub add_dropped : ℕ → EventRing → EventRing
add_dropped n ring = record ring { dropped_total = fetch_add ring.dropped_total n }

unfoldable pub snapshot_events : EventRing → List RingEvent
snapshot_events ring = map (λ e. e.1) ring.events

unfoldable pub drain_up_to : ℕ → EventRing → List RingEvent × EventRing
drain_up_to max ring =
    let n = min max (length ring.events) in
    (map (λ e. e.1) (take n ring.events), record ring { events = drop n ring.events })

unfoldable pub drain_events : EventRing → List RingEvent × EventRing
unfolding drain_up_to
drain_events ring = drain_up_to u64_max ring

abbrev pub first_instant : List (ℕ × RingEvent) → Option ℕ
first_instant [] = none
first_instant ((at, event) ∷ rest) = some at

unfoldable pub oldest_enqueued_at : EventRing → Option ℕ
oldest_enqueued_at ring = first_instant ring.events

unfoldable pub len : EventRing → ℕ
len ring = length ring.events

pub record OverflowWarning : Type 0 where
  pub reported_total : ℕ
  pub last_warn : Option ℕ

-- `OverflowWarning::INTERVAL`, 60 s.
abbrev pub interval : ℕ
interval = 60 * 10 ^ 9

abbrev pub no_warning : OverflowWarning
no_warning = record { reported_total = 0; last_warn = none }

-- Whether the last warning is less than `interval` before `now`; `saturating_duration_since` is
-- the subtraction that stops at 0.
abbrev pub is_recent : Option ℕ → ℕ → Bool
is_recent none now = false
is_recent (some last) now = ltb (now - last) interval

-- The warning, and whether it warned.
unfoldable pub check : OverflowWarning → EventRing → ℕ → OverflowWarning × Bool
unfolding events_dropped_total
check w ring now =
    let total = events_dropped_total ring in
    if leb total w.reported_total
    then (w, false)
    else if is_recent w.last_warn now
    then (w, false)
    else (record { reported_total = total; last_warn = some now }, true)
