-- ===== src/Etw/Dispatch.antt =====
-- agent/cg-agent/src/etw/dispatch.rs: the work of the dispatch callback on one record.
-- The UUID of an event, which the uuid crate makes, and the instant at which it is enqueued are
-- arguments. A log line has no effect on the state.
pub mod Discards
pub mod Correlation
pub mod Own
mod Tests
use cyber_guard_enterprise.Prelude.{
  ℕ, suc, ◌+◌, ◌-◌, ◌*◌, ◌/◌, ◌%◌, ◌^◌, min, Bool, false, List, [], ◌∷◌, Option, none, some, Text,
  length, ◌==◌, if◌then◌else◌,
}
use Prim.Native.Nat.{bit_or}
use cyber_guard_enterprise.Prelude.Fallible.{◌>>=◌}
use cyber_guard_enterprise.Prelude.Int.{ℤ, pos, pos_part, checked_sub, is_negative}
use cyber_guard_enterprise.Etw.Types.{
  ActivityId, launch, terminate, process, network, CapturedEvent, NetworkEvent,
}
use cyber_guard_enterprise.Etw.Ring.{EventRing, enqueue_or_drop, fetch_add, u64_max}
use cyber_guard_enterprise.Etw.Cache
use cyber_guard_enterprise.Etw.Cache.{Entries}
use cyber_guard_enterprise.Etw.Network.{
  DecodedConnection, connection_direction, decode_pid, decode_connection,
}

pub record RawProcessRecord : Type 0 where
  pub activity_id : ActivityId
  pub pid : ℕ
  pub parent_pid : ℕ
  pub image_file_name : Text
  pub command_line : Text
  pub subject_user_sid : Text
  pub filetime_100ns : ℤ
  pub exit_status : Option ℤ

abbrev pub filetime_to_unix_100ns : ℕ
filetime_to_unix_100ns = 116_444_736_000_000_000

-- `u64::saturating_mul`.
abbrev pub saturating_mul : ℕ → ℕ → ℕ
saturating_mul a b = min (a * b) u64_max

unfoldable pub filetime_to_unix_nanos : ℤ → Option ℕ
filetime_to_unix_nanos filetime_100ns = do
  unix_100ns ← checked_sub filetime_100ns (pos filetime_to_unix_100ns)
  if is_negative unix_100ns then none else some (saturating_mul (pos_part unix_100ns) 100)

-- The creation time of a record's process, and the cache after it was asked.
unfoldable pub created : RawProcessRecord → ℕ → Entries → ActivityId → Option ℕ × Entries
created raw nanos cache launch = (some nanos, Cache.insert raw.pid nanos cache)
created raw nanos cache terminate = Cache.consult_and_purge raw.pid cache

abbrev pub captured : RawProcessRecord → Text → ℕ → Option ℕ → CapturedEvent
captured raw uuid nanos created_time_nanos = record {
  pid = raw.pid;
  event_id = uuid;
  activity_id = raw.activity_id;
  image_file_name = raw.image_file_name;
  parent_pid = raw.parent_pid;
  command_line = raw.command_line;
  subject_user_sid = raw.subject_user_sid;
  etw_timestamp_nanos = nanos;
  created_time_nanos = created_time_nanos;
  exit_status = raw.exit_status;
}

unfoldable pub dispatch_record :
    RawProcessRecord → Text → ℕ → Entries → EventRing → Entries × EventRing
dispatch_record raw uuid now cache ring = elim (filetime_to_unix_nanos raw.filetime_100ns) [
  | none ↦ (cache, ring)
  | some nanos ↦
      let (created_time_nanos, cache') = created raw nanos cache raw.activity_id in
      let event = captured raw uuid nanos created_time_nanos in
      (cache', enqueue_or_drop (process event) now ring)
]

pub record RawNetworkRecord : Type 0 where
  pub event_id : ℕ
  pub pid : Text
  pub saddr : Text
  pub daddr : Text
  pub sport : Text
  pub dport : Text
  pub filetime_100ns : ℤ

pub record DiscardSample : Type 0 where
  pub event_id : ℕ
  pub field_lengths : List ℕ

-- The two atomics, `first` holding the first discard packed.
pub record NetworkDiscards : Type 0 where
  pub total : ℕ
  pub first : ℕ

abbrev pub no_discards : NetworkDiscards
no_discards = record { total = 0; first = 0 }

abbrev pub present : ℕ
present = 2 ^ 63

-- `x << k` of a `u64`.
abbrev pub shl : ℕ → ℕ → ℕ
shl x k = x * 2 ^ k % 2 ^ 64

-- The loop of `record` over the lengths from index `i` on.
unfoldable pub pack_lengths : ℕ → List ℕ → ℕ → ℕ
pack_lengths i [] packed = packed
pack_lengths i (len ∷ lens) packed =
    pack_lengths (i + 1) lens (bit_or packed (shl (min len 255) (8 * i)))

unfoldable pub pack : ℕ → List ℕ → ℕ
unfolding pack_lengths
pack event_id field_lengths = pack_lengths 0 field_lengths (bit_or present (shl event_id 40))

-- `compare_exchange(0, packed)` writes the first only.
unfoldable pub record_discard : ℕ → List ℕ → NetworkDiscards → NetworkDiscards
record_discard event_id field_lengths d = record d {
  total = fetch_add d.total 1;
  first = if d.first == 0 then pack event_id field_lengths else d.first;
}

-- `(packed >> k) as u8`.
abbrev pub byte_at : ℕ → ℕ → ℕ
byte_at packed k = packed / 2 ^ k % 2 ^ 8

-- `packed & PRESENT == 0` says that a 64-bit word's highest bit is not set.
unfoldable pub first_discard : NetworkDiscards → Option DiscardSample
first_discard d =
    if d.first / 2 ^ 63 % 2 == 0
    then none
    else some (record {
      event_id = d.first / 2 ^ 40 % 2 ^ 16;
      field_lengths =
          byte_at d.first 0
          ∷ byte_at d.first 8
          ∷ byte_at d.first 16
          ∷ byte_at d.first 24
          ∷ byte_at d.first 32
          ∷ [];
    })

abbrev pub lengths : RawNetworkRecord → List ℕ
lengths raw =
    length raw.pid ∷ length raw.saddr ∷ length raw.daddr ∷ length raw.sport ∷ length raw.dport ∷ []

-- `excluded_pid.is_some() && decode_pid(&raw.pid) == excluded_pid`.
abbrev pub is_excluded : Option ℕ → Option ℕ → Bool
is_excluded none pid = false
is_excluded (some own) none = false
is_excluded (some own) (some pid) = pid == own

abbrev pub connected : DecodedConnection → Text → ℕ → Option ℕ → NetworkEvent
connected connection uuid nanos created_time_nanos = record {
  event_id = uuid;
  pid = connection.pid;
  direction = connection.direction;
  src = connection.src;
  dst = connection.dst;
  etw_timestamp_nanos = nanos;
  created_time_nanos = created_time_nanos;
}

-- From the decoding on: a discard, an anomaly that is dropped, or an event.
unfoldable pub dispatch_connection :
    RawNetworkRecord
    → Option DecodedConnection
    → Text
    → ℕ
    → Entries
    → EventRing
    → NetworkDiscards
    → EventRing × NetworkDiscards
dispatch_connection raw none uuid now cache ring discards =
    (ring, record_discard raw.event_id (lengths raw) discards)
dispatch_connection raw (some connection) uuid now cache ring discards =
    elim (filetime_to_unix_nanos raw.filetime_100ns) [
      | none ↦ (ring, discards)
      | some nanos ↦
          let held = Cache.created_time connection.pid cache in
          let event = connected connection uuid nanos held in
          (enqueue_or_drop (network event) now ring, discards)
    ]

unfoldable pub dispatch_network_record :
    RawNetworkRecord
    → Option ℕ
    → Text
    → ℕ
    → Entries
    → EventRing
    → NetworkDiscards
    → EventRing × NetworkDiscards
unfolding dispatch_connection
dispatch_network_record raw excluded_pid uuid now cache ring discards =
    elim (connection_direction raw.event_id) [
      | none ↦ (ring, record_discard raw.event_id (lengths raw) discards)
      | some direction ↦
          if is_excluded excluded_pid (decode_pid raw.pid)
          then (ring, discards)
          else dispatch_connection raw
              (decode_connection raw.event_id raw.pid raw.saddr raw.daddr raw.sport raw.dport) uuid
              now cache ring discards
    ]
