-- ===== src/Logon/Privacy.antt =====
-- agent/cg-agent/src/logon/mod.rs: the name and the domain of a failed logon.
use cyber_guard_enterprise.Prelude.{
  ℕ, ◌≡◌, refl, ap, false, Option, none, some, Text, inl, inr, Option-cases,
}
use cyber_guard_enterprise.Net.{IpAddr}
use cyber_guard_enterprise.Etw.Ring.{EventRing}
use cyber_guard_enterprise.Etw.Dispatch.{filetime_to_unix_nanos}
use cyber_guard_enterprise.Logon.Types.{RawLogonRecord, failure}
use cyber_guard_enterprise.Logon.Fields.{failure_code, name_is_kept, event_logon_failure}
use cyber_guard_enterprise.Logon.{
  LogonCounters, usable_sid, withholds, logon_event, decode_dated, decode_target, decode_logon, act,
  dispatch_logon_record,
}

-- The record with another name and domain.
abbrev pub renamed : Option Text → Option Text → RawLogonRecord → RawLogonRecord
renamed name domain raw = record raw { target_user_name = name; target_domain_name = domain }

decode_target-renamed :
    (parse : Text → Option IpAddr) (uuid : Text) (raw : RawLogonRecord) (name domain : Option Text)
    (sid : Option Text) (nanos : Option ℕ)
    → name_is_kept (failure_code raw.status raw.sub_status) ≡ false
    → decode_target parse uuid (renamed name domain raw) (some failure) sid
      ≡ decode_target parse uuid raw (some failure) sid
unfolding decode_target decode_dated logon_event withholds
decode_target-renamed parse uuid raw name domain none nanos hidden = refl
decode_target-renamed parse uuid raw name domain (some sid) nanos hidden =
    elim (Option-cases (filetime_to_unix_nanos raw.filetime_100ns)) [
      | inl early ↦ rw early refl
      | inr (t, e) ↦ rw (e, hidden) refl
    ]

-- A failed logon whose code does not name an existing account has the same effect on the ring and
-- the counters whatever its user name and its domain are: neither leaves the decoding.
pub dispatch_logon_record-renamed :
    (parse : Text → Option IpAddr) (uuid : Text) (now : ℕ) (raw : RawLogonRecord)
    (name domain : Option Text) (ring : EventRing) (counters : LogonCounters)
    → raw.event_id ≡ event_logon_failure
    → name_is_kept (failure_code raw.status raw.sub_status) ≡ false
    → dispatch_logon_record parse uuid now (renamed name domain raw) ring counters
      ≡ dispatch_logon_record parse uuid now raw ring counters
unfolding dispatch_logon_record decode_logon decode_target decode_dated logon_event withholds
dispatch_logon_record-renamed parse uuid now raw name domain ring counters failed hidden =
    rw failed (
      ap (λ d. act d event_logon_failure now ring counters)
        (decode_target-renamed parse uuid raw name domain (usable_sid raw.target_user_sid) none
          hidden))
