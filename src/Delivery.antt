-- ===== src/Delivery.antt =====
-- agent/cg-agent/src/delivery.rs: the secure path's delivery loop.
-- An `Instant` does not overflow. A round of the loop is one step: what it awaits (the server's
-- response, the shutdown) and what the capture enqueued before it are its input.
pub mod Batches
pub mod Run
pub mod Accounts
pub mod Lifetime
pub mod Steps
pub mod Order
pub mod Retry
pub mod Outage
pub mod Schedule
mod Tests
use cyber_guard_enterprise.Prelude.{
  ℕ, zero, suc, ◌+◌, ◌-◌, ◌*◌, ◌%◌, ◌^◌, min, Bool, true, false, not, ◌&&◌, ◌||◌, List, [], ◌∷◌,
  Option, none, some, Text, length, ltb, leb, if◌then◌else◌,
}
use mathlib.Core.Option
use cyber_guard_enterprise.Etw.Types.{RingEvent, process, network, logon}
use cyber_guard_enterprise.Etw.Ring.{
  EventRing, OverflowWarning, no_warning, enqueue_or_drop, add_dropped, drain_up_to,
  oldest_enqueued_at, check,
}
use cyber_guard_enterprise.Etw.Ring
use cyber_guard_enterprise.Paths.{Entry, Seen, note}
use cyber_guard_enterprise.Cges.{
  CgesEvent, process_activity, network_activity, authentication, render_process_activity,
  render_network_activity, render_authentication,
}
use cyber_guard_enterprise.Delivery.Batches.{
  Attempt, Batch, Delivery, Finished, HeartbeatConfig, Pending, Response, SendResult, classify,
  client_cert_fatal, delivered, drained, drop_rejected, form_batch, is_old, max_batch_events,
  max_batch_latency, new, next_backoff, rejected, render, render_all, ring_due, seal_failed,
  seconds, sent, server_cert_fatal, status, timed_out, transient, transient_failure,
}

-- `run_until` between two rounds.
pub record Loop : Type 0 where
  pub delivery : Delivery
  pub next_tick : ℕ
  pub heartbeat_due : Bool
  pub batch_post_since_tick : Bool
  pub in_flight : Option Pending

unfoldable pub start : Delivery → Loop
start d = record {
  delivery = d;
  next_tick = 0;
  heartbeat_due = false;
  batch_post_since_tick = false;
  in_flight = none;
}

-- `start_time + interval.saturating_mul(tick)`.
abbrev pub tick_at : Delivery → ℕ → ℕ
tick_at d tick = d.start_time + seconds d.heartbeat.interval_seconds * tick

-- The inner `while` over missed ticks, on fuel; the index is a `u32` that saturates.
unfoldable pub advance : ℕ → Delivery → ℕ → ℕ → ℕ
advance zero d now next_tick = next_tick
advance (suc fuel) d now next_tick = elim (leb (tick_at d next_tick) now) [
  | true ↦ advance fuel d now (min (next_tick + 1) (2 ^ 32 - 1))
  | false ↦ next_tick
]

unfoldable pub tick : ℕ → Loop → Loop
unfolding advance
tick now l =
    if leb (tick_at l.delivery l.next_tick) now
    then record l {
      heartbeat_due = l.heartbeat_due || not l.batch_post_since_tick;
      batch_post_since_tick = false;
      next_tick = advance (now + 1) l.delivery now l.next_tick;
    }
    else l

abbrev pub checked : OverflowWarning → Option EventRing → ℕ → OverflowWarning
checked w none now = w
checked w (some ring) now = (check w ring now).0

unfoldable pub watch : ℕ → Loop → Loop
watch now l =
    let d = l.delivery in
    record l { delivery = record d { overflow = checked d.overflow d.ring now } }

abbrev pub first_try : HeartbeatConfig → Batch → Pending
first_try heartbeat batch = record {
  batch = batch;
  transient_failures = 0;
  rejections = 0;
  backoff_ms = heartbeat.backoff_initial_ms;
}

-- Form a POST if none is in flight and one is due.
unfoldable pub form : ℕ → Option Pending → Loop → Loop
form now (some pending) l = l
form now none l =
    if l.heartbeat_due || ring_due l.delivery.ring now
    then (let (batch, d) = form_batch l.delivery in
        record l {
          delivery = d;
          batch_post_since_tick = l.batch_post_since_tick || not l.heartbeat_due;
          heartbeat_due = false;
          in_flight = some (first_try d.heartbeat batch);
        })
    else l

-- A round up to the first wait.
unfoldable pub prepare : ℕ → Loop → Loop
prepare now l = let l' = watch now (tick now l) in form now l'.in_flight l'

-- How a round ends: the loop goes on, or returns the POST in flight, or fails.
pub data Flow : Type 0 where
  goes_on : Loop → Flow
  returns : Loop → Flow
  fails : Loop → Flow

-- After an attempt that is to be retried: the wait, which a shutdown ends.
unfoldable pub back_off : Bool → Pending → Loop → Flow
back_off stopped pending l =
    let waited = record pending {
      backoff_ms = next_backoff pending.backoff_ms l.delivery.heartbeat;
    } in
    let l' = record l { in_flight = some waited } in if stopped then returns l' else goes_on l'

abbrev pub is_nil : List CgesEvent → Bool
is_nil [] = true
is_nil (e ∷ es) = false

-- What the loop makes of an attempt's result.
unfoldable pub settle : Option Attempt → Bool → Pending → Loop → Flow
settle none stopped pending l = fails l
settle (some delivered) stopped pending l = goes_on (record l { in_flight = none })
settle (some transient_failure) stopped pending l =
    let failed = record pending {
      transient_failures = (pending.transient_failures + 1) % 2 ^ 32;
    } in
    if is_nil pending.batch.events && leb l.delivery.heartbeat.max_retries failed.transient_failures
    then goes_on (record l { in_flight = none })
    else back_off stopped failed l
settle (some (rejected s)) stopped pending l =
    let refused = record pending { rejections = (pending.rejections + 1) % 2 ^ 32 } in
    if leb l.delivery.heartbeat.max_retries refused.rejections
    then goes_on (record l { in_flight = none; delivery = drop_rejected pending.batch l.delivery })
    else back_off stopped refused l

-- What a round awaits: the response, or the shutdown before it (`none`), and whether the shutdown
-- comes during an idle wait or a backoff.
pub record Round : Type 0 where
  pub captured : List (RingEvent × ℕ)
  pub now : ℕ
  pub response : Option Response
  pub stopped : Bool

unfoldable pub capture : List (RingEvent × ℕ) → EventRing → EventRing
capture [] ring = ring
capture ((event, at) ∷ events) ring = capture events (enqueue_or_drop event at ring)

abbrev pub capture_into : List (RingEvent × ℕ) → Loop → Loop
capture_into events l =
    let d = l.delivery in
    record l { delivery = record d { ring = Option.map (capture events) d.ring } }

unfoldable pub await : Option Pending → Round → Loop → Flow
await none r l = if r.stopped then returns l else goes_on l
await (some pending) r l = elim r.response [
  | none ↦ returns l
  | some response ↦ settle (classify response) r.stopped pending l
]

unfoldable pub round : Round → Loop → Flow
round r l = let l' = prepare r.now (capture_into r.captured l) in await l'.in_flight r l'

-- The final POST's timeout, and whether the deadline shortens it.
unfoldable pub final_timeout : Option ℕ → ℕ → HeartbeatConfig → ℕ × Bool
final_timeout none now heartbeat = (seconds heartbeat.request_timeout_seconds, false)
final_timeout (some deadline) now heartbeat =
    let left = deadline - now in
    let request_timeout = seconds heartbeat.request_timeout_seconds in
    (min left request_timeout, ltb left request_timeout)

abbrev pub is_delivered : Option Attempt → Bool
is_delivered (some delivered) = true
is_delivered _ = false

abbrev pub is_past : Option ℕ → ℕ → Bool
is_past none now = false
is_past (some deadline) now = leb deadline now

abbrev pub ring_len : Option EventRing → ℕ
ring_len none = 0
ring_len (some ring) = Ring.len ring

-- The final batch: the one in flight, or else the next.
unfoldable pub final_batch : Option Pending → Delivery → Batch × Delivery
final_batch (some pending) d = (pending.batch, d)
final_batch none d = form_batch d

-- The final attempt begins at `now`, with its response, and has ended at `now'`.
unfoldable pub finish :
    Option Pending → Option ℕ → ℕ → Response → ℕ → Delivery → Finished × Delivery
finish in_flight deadline now response now' d =
    let (batch, d') = final_batch in_flight d in
    let (timeout, bounded) = final_timeout deadline now d.heartbeat in
    let sent_it = is_delivered (classify response) in
    (
      record {
        undelivered = ring_len d'.ring + (if sent_it then 0 else length batch.events);
        expired = not sent_it && (bounded && is_past deadline now');
      },
      d',
    )

abbrev pub pending_count : Option Pending → ℕ
pending_count none = 0
pending_count (some pending) = length pending.batch.events

unfoldable pub undelivered : Option Pending → Delivery → ℕ
undelivered in_flight d = ring_len d.ring + pending_count in_flight
