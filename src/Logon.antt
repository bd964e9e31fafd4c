-- ===== src/Logon.antt =====
-- agent/cg-agent/src/logon/mod.rs: Security-log records become logon events.
-- `parse` is `str::parse::<IpAddr>` and `uuid` the fresh event id. A counter is a `u64` that wraps.
pub mod Fields
pub mod Types
pub mod Privacy
pub mod Reported
pub mod Monitor
mod Tests
use cyber_guard_enterprise.Prelude.{
  ℕ, ◌+◌, ◌-◌, ◌*◌, ◌%◌, ◌^◌, Bool, true, false, not, ◌&&◌, ◌||◌, List, [], ◌∷◌, Option, none, some,
  Text, bytes, is_empty, text_eq, starts_with, ends_with_byte, eq_ignore_ascii_case, ltb, leb, ◌==◌,
  if◌then◌else◌,
}
use cyber_guard_enterprise.Prelude.Fallible.{◌>>=◌}
use cyber_guard_enterprise.Net.{IpAddr, v4, v6, to_ipv4_mapped}
use cyber_guard_enterprise.Etw.Types.{logon}
use cyber_guard_enterprise.Etw.Ring.{EventRing, enqueue_or_drop}
use cyber_guard_enterprise.Etw.Network.{unmapped}
use cyber_guard_enterprise.Etw.Dispatch.{filetime_to_unix_nanos}
use cyber_guard_enterprise.Logon.Types.{
  RawLogonRecord, LogonStatus, LogonSource, LogonEvent, success, failure,
}
use cyber_guard_enterprise.Logon.Fields.{
  LogonDecode, account_exists_codes, any_code, any_text, auth_protocol_id, before_epoch,
  canonical_ip, code_or_zero, elevated, event_logon_failure, event_logon_success, exact, excluded,
  failure_code, hostname, is_excluded_target, logon_type_id, name_is_kept, no_value, prefixes,
  read_is_exhausted, report, source, unusable, value_or_dash, withheld, without_zone,
}

abbrev pub is_failed : LogonStatus → Bool
is_failed success = false
is_failed failure = true

abbrev pub status_of : ℕ → Option LogonStatus
status_of event_id =
    if event_id == event_logon_success
    then some success
    else if event_id == event_logon_failure
    then some failure
    else none

abbrev pub usable_sid : Option Text → Option Text
usable_sid none = none
usable_sid (some sid) = if is_empty sid then none else some sid

-- Whether a record's name and domain are withheld.
unfoldable pub withholds : LogonStatus → RawLogonRecord → Bool
withholds status raw =
    is_failed status && not (name_is_kept (failure_code raw.status raw.sub_status))

unfoldable pub logon_event :
    (Text → Option IpAddr) → Text → RawLogonRecord → LogonStatus → Text → ℕ → LogonEvent
logon_event parse uuid raw status sid timestamp_nanos =
    let auth_protocol = value_or_dash raw.auth_package in
    let hidden = withholds status raw in
    record {
      event_id = uuid;
      status = status;
      user_uid = sid;
      user_name = if hidden then withheld else value_or_dash raw.target_user_name;
      user_domain = if hidden then withheld else value_or_dash raw.target_domain_name;
      logon_type_id = logon_type_id raw.logon_type;
      auth_protocol = auth_protocol;
      auth_protocol_id = auth_protocol_id auth_protocol;
      src = source parse raw.ip_address raw.workstation;
      status_code = if is_failed status then some (code_or_zero raw.status) else none;
      status_detail = if is_failed status then some (code_or_zero raw.sub_status) else none;
      elevated_token = if is_failed status then none else elevated raw.elevated_token;
      timestamp_nanos = timestamp_nanos;
    }

unfoldable pub decode_dated :
    (Text → Option IpAddr) → Text → RawLogonRecord → LogonStatus → Text → Option ℕ → LogonDecode
decode_dated parse uuid raw status sid none = before_epoch
decode_dated parse uuid raw status sid (some timestamp_nanos) =
    report (logon_event parse uuid raw status sid timestamp_nanos)

unfoldable pub decode_target :
    (Text → Option IpAddr) → Text → RawLogonRecord → Option LogonStatus → Option Text → LogonDecode
decode_target parse uuid raw none sid = unusable
decode_target parse uuid raw (some status) none = unusable
decode_target parse uuid raw (some status) (some sid) =
    if not (is_failed status) && is_excluded_target sid (value_or_dash raw.target_user_name)
    then excluded
    else decode_dated parse uuid raw status sid (filetime_to_unix_nanos raw.filetime_100ns)

unfoldable pub decode_logon : (Text → Option IpAddr) → Text → RawLogonRecord → LogonDecode
decode_logon parse uuid raw =
    decode_target parse uuid raw (status_of raw.event_id) (usable_sid raw.target_user_sid)

pub record UnusableSample : Type 0 where
  pub event_id : Option ℕ
  pub win32_code : Option ℕ

pub record LogonCounters : Type 0 where
  pub unusable : ℕ
  pub first_unusable : Option UnusableSample

abbrev pub get_or_insert : UnusableSample → Option UnusableSample → Option UnusableSample
get_or_insert sample none = some sample
get_or_insert sample (some first) = some first

unfoldable pub record_unusable : UnusableSample → LogonCounters → LogonCounters
record_unusable sample counters = record {
  unusable = (counters.unusable + 1) % 2 ^ 64;
  first_unusable = get_or_insert sample counters.first_unusable;
}

-- What a decoded record does to the ring and the counters.
unfoldable pub act : LogonDecode → ℕ → ℕ → EventRing → LogonCounters → EventRing × LogonCounters
act (report event) event_id now ring counters = (enqueue_or_drop (logon event) now ring, counters)
act excluded event_id now ring counters = (ring, counters)
act unusable event_id now ring counters =
    (ring, record_unusable (record { event_id = some event_id; win32_code = none }) counters)
act before_epoch event_id now ring counters = (ring, counters)

unfoldable pub dispatch_logon_record :
    (Text → Option IpAddr)
    → Text
    → ℕ
    → RawLogonRecord
    → EventRing
    → LogonCounters
    → EventRing × LogonCounters
unfolding act
dispatch_logon_record parse uuid now raw ring counters =
    act (decode_logon parse uuid raw) raw.event_id now ring counters

pub record UnusableMonitor : Type 0 where
  pub logged_total : ℕ
  pub last_log : Option ℕ

-- 60 s.
abbrev pub log_interval : ℕ
log_interval = 60 * 10 ^ 9

abbrev pub is_due : Option ℕ → ℕ → Bool
is_due none now = true
is_due (some last) now = leb log_interval (now - last)

-- The monitor, and the increase logged.
unfoldable pub observe : UnusableMonitor → LogonCounters → ℕ → UnusableMonitor × ℕ
observe m counters now =
    let delta = counters.unusable - m.logged_total in
    if delta == 0 || not (is_due m.last_log now)
    then (m, 0)
    else (record { logged_total = counters.unusable; last_log = some now }, delta)
