-- ===== src/Delivery/Tests.antt =====
-- Tests of the delivery loop, and the theorems about it at concrete inputs.
use cyber_guard_enterprise.Prelude.{
  ℕ, ◌+◌, ◌*◌, ◌%◌, ◌^◌, ◌≡◌, refl, true, false, List, [], ◌∷◌, ◌++◌, none, some, All, arith, bytes,
  Text, leb, length,
}
use cyber_guard_enterprise.Etw.Types.{RingEvent, process, launch}
use cyber_guard_enterprise.Etw.Ring.{EventRing, enqueue_or_drop, drain_up_to}
use cyber_guard_enterprise.Etw.Ring
use cyber_guard_enterprise.Delivery.Batches.{
  Pending, Delivery, HeartbeatConfig, Response, timed_out, sent, status, new, form_batch, drained,
  render_all, render, seconds, ring_due, classify,
}
use cyber_guard_enterprise.Delivery.{
  Loop, Round, goes_on, start, finish, final_batch, ring_len, tick, tick_at, advance, first_try,
  capture, round, await, settle, back_off, prepare, form, watch,
}
use cyber_guard_enterprise.Delivery.Steps.{dropped_total}
use cyber_guard_enterprise.Delivery.Run.{run, ending, delivered_count, accepted_count}
use cyber_guard_enterprise.Delivery.Accounts.{held}
use cyber_guard_enterprise.Delivery.Lifetime.{finish_accounts}
use cyber_guard_enterprise.Delivery.Order.{Chain, run_orders}
use cyber_guard_enterprise.Delivery.Retry.{Keeps, run-Keeps}
use cyber_guard_enterprise.Delivery.Outage.{Fails, Acks, At, outage_delivers}
use cyber_guard_enterprise.Delivery.Schedule.{Reaches, tick_schedules}

-- An event that the ring takes and one that it refuses, for want of a name.
abbrev event : Text → RingEvent
event name = process (record {
  pid = 7;
  event_id = bytes "id";
  activity_id = launch;
  image_file_name = name;
  parent_pid = 4;
  command_line = bytes "";
  subject_user_sid = bytes "S-1-5-18";
  etw_timestamp_nanos = 100;
  created_time_nanos = some 100;
  exit_status = none;
})

abbrev thirty_seconds : HeartbeatConfig
thirty_seconds = record {
  interval_seconds = 30;
  request_timeout_seconds = 10;
  max_retries = 3;
  backoff_initial_ms = 500;
  scale = λ ms. ms * 2;
  backoff_max_ms = 30000;
}

abbrev two_slots : EventRing
two_slots = record { capacity = 2; events = []; dropped_total = 0 }

abbrev agent : Delivery
agent = new (bytes "agent") thirty_seconds 0 (some two_slots) []

abbrev stamped : List RingEvent → ℕ → List (RingEvent × ℕ)
stamped [] now = []
stamped (e ∷ es) now = (e, now) ∷ stamped es now

abbrev attempt_at : List RingEvent → ℕ → Response → Round
attempt_at events now response = record {
  captured = stamped events now;
  now = now;
  response = some response;
  stopped = false;
}

abbrev acknowledged : Response
acknowledged = sent (status 202)

-- Three events come for two slots, one without a name; the server is out for a POST, then back.
abbrev rounds : List Round
rounds =
    attempt_at (event (bytes "a.exe") ∷ []) 1 (sent (status 503))
    ∷ attempt_at (event [] ∷ event (bytes "b.exe") ∷ []) 2 acknowledged
    ∷ attempt_at (event (bytes "c.exe") ∷ event (bytes "d.exe") ∷ []) 3 acknowledged
    ∷ []

finish_accounts_example :
    let (trace, flow) = run rounds (start agent) in
    let last = ending flow in
    let final = (final_batch last.in_flight last.delivery).0 in
    let (finished, d) = finish last.in_flight none 4 timed_out 5 last.delivery in
    (dropped_total d.ring
        + finished.undelivered
        + delivered_count (trace.attempts ++ (final, timed_out) ∷ []))
      % 2 ^ 64
    ≡ (held (start agent) + accepted_count trace.captured) % 2 ^ 64
unfolding start new
finish_accounts_example = finish_accounts rounds (start agent) none 4 timed_out 5 (omega arith)

run_orders_example :
    Chain none
      (run rounds (start (new (bytes "agent") thirty_seconds 0 (some two_slots) []))).0.attempts
run_orders_example = run_orders rounds (bytes "agent") thirty_seconds 0 (some two_slots) []

run-Keeps_example : Keeps thirty_seconds (ending (run rounds (start agent)).1)
unfolding start new
run-Keeps_example = run-Keeps rounds thirty_seconds (start agent) (refl, tt)

-- A POST with an event in flight.
abbrev posted : Pending
posted = first_try thirty_seconds (record {
  sequence = 1;
  events = (render (bytes "agent") [] (event (bytes "a.exe")) []).0 ∷ [];
})

abbrev posting : Loop
posting = record (start agent) { in_flight = some posted }

-- The server is out for two rounds.
abbrev outage : List Round
outage = attempt_at [] 1 (sent (status 503)) ∷ attempt_at [] 2 timed_out ∷ []

outage-Fails : All Fails outage
unfolding classify
outage-Fails = (
  record { response = sent (status 503); answered = refl; failing = refl; running = refl },
  (record { response = timed_out; answered = refl; failing = refl; running = refl }, tt),
)

back-Acks : Acks (attempt_at [] 3 acknowledged)
unfolding classify
back-Acks = record { response = acknowledged; answered = refl; acked = refl }

outage_delivers_example :
    let (trace, flow) = run (outage ++ attempt_at [] 3 acknowledged ∷ []) posting in
    All (At posted.batch) trace.attempts
    × (length trace.attempts ≡ 3)
    × ((l' : Loop) × (flow ≡ goes_on l') × (l'.in_flight ≡ none))
outage_delivers_example =
    outage_delivers outage (attempt_at [] 3 acknowledged) posted posting refl refl outage-Fails
      back-Acks

-- Two ticks are missed.
tick_schedules_example :
    let l' = tick (seconds 61) (start agent) in
    Reaches agent (seconds 61) 0 l'.next_tick
    × (leb (tick_at agent 0) (seconds 61) ≡ true
        → false ≡ false
        → (l'.heartbeat_due ≡ true) × (l'.batch_post_since_tick ≡ false))
unfolding start new
tick_schedules_example =
    tick_schedules (seconds 61) (start agent) (omega arith) (omega arith) (omega arith)

-- The run of `rounds`: what is in flight and in the ring after it.
rounds_end :
    let last = ending (run rounds (start agent)).1 in
    (last.in_flight ≡ none) × (ring_len last.delivery.ring ≡ 2) × (last.delivery.sequence ≡ 1)
unfolding run round await settle prepare form watch tick back_off capture classify enqueue_or_drop
    form_batch drained drain_up_to ring_due advance start new Ring.len render_all
    Ring.oldest_enqueued_at
rounds_end = (refl, refl, refl)
