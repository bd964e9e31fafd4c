-- ===== src/Delivery/Batches.antt =====
-- agent/cg-agent/src/delivery.rs: the batches, what an attempt comes to and when a batch is due.
-- An instant and a duration are numbers of nanoseconds. Sealing, signing and sending are not
-- modelled; their result is. `(x as f64 * backoff_factor) as u64` is the function `scale` of the
-- configuration.
use cyber_guard_enterprise.Prelude.{
  ℕ, ◌+◌, ◌-◌, ◌*◌, ◌%◌, ◌^◌, min, Bool, false, ◌&&◌, ◌||◌, List, [], ◌∷◌, Option, none, some, Text,
  length, ltb, leb, if◌then◌else◌,
}
use mathlib.Core.Option
use cyber_guard_enterprise.Etw.Types.{RingEvent, process, network, logon}
use cyber_guard_enterprise.Etw.Ring.{
  EventRing, OverflowWarning, no_warning, enqueue_or_drop, add_dropped, drain_up_to,
  oldest_enqueued_at, check,
}
use cyber_guard_enterprise.Etw.Ring
use cyber_guard_enterprise.Paths.{Entry, Seen, note}
use cyber_guard_enterprise.Cges.{
  CgesEvent, process_activity, network_activity, authentication, render_process_activity,
  render_network_activity, render_authentication,
}

-- `HeartbeatConfig`.
pub record HeartbeatConfig : Type 0 where
  pub interval_seconds : ℕ
  pub request_timeout_seconds : ℕ
  pub max_retries : ℕ
  pub backoff_initial_ms : ℕ
  pub scale : ℕ → ℕ
  pub backoff_max_ms : ℕ

abbrev pub max_batch_events : ℕ
max_batch_events = 1024

-- 5000 ms.
abbrev pub max_batch_latency : ℕ
max_batch_latency = 5000 * 10 ^ 6

abbrev pub seconds : ℕ → ℕ
seconds n = n * 10 ^ 9

pub record Batch : Type 0 where
  pub sequence : ℕ
  pub events : List CgesEvent

pub record Pending : Type 0 where
  pub batch : Batch
  pub transient_failures : ℕ
  pub rejections : ℕ
  pub backoff_ms : ℕ

pub record Finished : Type 0 where
  pub undelivered : ℕ
  pub expired : Bool

-- The fields of `Delivery` that the loop reads or writes.
pub record Delivery : Type 0 where
  pub agent_id : Text
  pub heartbeat : HeartbeatConfig
  pub start_time : ℕ
  pub ring : Option EventRing
  pub paths : List Entry
  pub unresolved : Seen
  pub overflow : OverflowWarning
  pub sequence : ℕ

unfoldable pub new : Text → HeartbeatConfig → ℕ → Option EventRing → List Entry → Delivery
new agent_id heartbeat start_time ring paths = record {
  agent_id = agent_id;
  heartbeat = heartbeat;
  start_time = start_time;
  ring = ring;
  paths = paths;
  unresolved = [];
  overflow = no_warning;
  sequence = 0;
}

-- `SendResult`, of the TLS sender.
pub data SendResult : Type 0 where
  status : ℕ → SendResult
  transient : SendResult
  server_cert_fatal : SendResult
  client_cert_fatal : SendResult

-- What one attempt comes to: not sealed, timed out, or sent.
pub data Response : Type 0 where
  seal_failed : Response
  timed_out : Response
  sent : SendResult → Response

pub data Attempt : Type 0 where
  delivered : Attempt
  transient_failure : Attempt
  rejected : ℕ → Attempt

-- `attempt_within`; `none` is the error that ends the agent.
unfoldable pub classify : Response → Option Attempt
classify seal_failed = none
classify timed_out = some transient_failure
classify (sent (status s)) =
    if leb 200 s && ltb s 300
    then some delivered
    else if leb 500 s && ltb s 600
    then some transient_failure
    else some (rejected s)
classify (sent transient) = some transient_failure
classify (sent server_cert_fatal) = none
classify (sent client_cert_fatal) = none

unfoldable pub next_backoff : ℕ → HeartbeatConfig → ℕ
next_backoff current_ms heartbeat = min (heartbeat.scale current_ms) heartbeat.backoff_max_ms

abbrev pub is_old : Option ℕ → ℕ → Bool
is_old none now = false
is_old (some at) now = leb max_batch_latency (now - at)

-- `batch_due`.
unfoldable pub ring_due : Option EventRing → ℕ → Bool
ring_due none now = false
ring_due (some ring) now =
    leb max_batch_events (Ring.len ring) || is_old (oldest_enqueued_at ring) now

-- One event in the shape of its class, and the log of unresolved paths after it.
unfoldable pub render : Text → List Entry → RingEvent → Seen → CgesEvent × Seen
render agent_id paths (process event) seen =
    let rendered = render_process_activity event agent_id paths in
    (
      process_activity rendered,
      (note event.image_file_name rendered.process.image_file_name seen).0,
    )
render agent_id paths (network event) seen =
    (network_activity (render_network_activity event agent_id), seen)
render agent_id paths (logon event) seen = (authentication (render_authentication event), seen)

unfoldable pub render_all : Text → List Entry → List RingEvent → Seen → List CgesEvent × Seen
render_all agent_id paths [] seen = ([], seen)
render_all agent_id paths (event ∷ events) seen =
    let (rendered, seen') = render agent_id paths event seen in
    let (rest, final) = render_all agent_id paths events seen' in (rendered ∷ rest, final)

-- The events drained for a batch, and the ring left; an agent without capture has no ring.
unfoldable pub drained : Option EventRing → List RingEvent × Option EventRing
drained none = ([], none)
drained (some ring) = let (events, rest) = drain_up_to max_batch_events ring in (events, some rest)

unfoldable pub form_batch : Delivery → Batch × Delivery
form_batch d =
    let (captured, ring) = drained d.ring in
    let (events, seen) = render_all d.agent_id d.paths captured d.unresolved in
    let sequence = (d.sequence + 1) % 2 ^ 64 in
    (
      record { sequence = sequence; events = events },
      record d { ring = ring; unresolved = seen; sequence = sequence },
    )

-- `drop_rejected`.
unfoldable pub drop_rejected : Batch → Delivery → Delivery
drop_rejected batch d = record d { ring = Option.map (add_dropped (length batch.events)) d.ring }
