-- ===== src/Logon/Tests.antt =====
-- Tests of the logon decoding, and the theorems about it at concrete inputs.
use cyber_guard_enterprise.Prelude.{
  ℕ, ◌+◌, ◌≡◌, refl, true, List, [], ◌∷◌, map, All, text_eq, starts_with, ends_with_byte, Option,
  none, some, Text, bytes,
}
use cyber_guard_enterprise.Prelude.Int.{pos}
use cyber_guard_enterprise.Net.{IpAddr}
use cyber_guard_enterprise.Etw.Ring.{EventRing}
use cyber_guard_enterprise.Etw.Ring.Warning.{Spaced}
use cyber_guard_enterprise.Logon.Types.{RawLogonRecord, failure}
use cyber_guard_enterprise.Logon.Fields.{
  excluded, unusable, is_excluded_target, failure_code, name_is_kept,
}
use cyber_guard_enterprise.Logon.{
  LogonCounters, UnusableMonitor, decode_logon, decode_target, dispatch_logon_record, log_interval,
  observe, withholds,
}
use cyber_guard_enterprise.Logon.Privacy.{renamed, dispatch_logon_record-renamed}
use cyber_guard_enterprise.Logon.Reported.{Reported, dispatch_logons, dispatch_logons-Reported}
use cyber_guard_enterprise.Logon.Monitor.{lines, total, lines-Spaced}

abbrev no_address : Text → Option IpAddr
no_address text = none

-- A logon at the Unix epoch; 3221225572, 0xC000_0064, is the code of an unknown user name.
abbrev logon_of : ℕ → Text → Text → ℕ → RawLogonRecord
logon_of event_id sid name code = record {
  event_id = event_id;
  version = 2;
  filetime_100ns = pos 116444736000000001;
  target_user_sid = some sid;
  target_user_name = some name;
  target_domain_name = some (bytes "CORP");
  logon_type = some 3;
  auth_package = some (bytes "NTLM");
  workstation = none;
  ip_address = none;
  elevated_token = none;
  status = some 3221225581;
  sub_status = some code;
}

abbrev typed_password : RawLogonRecord
typed_password = logon_of 4625 (bytes "S-1-0-0") (bytes "hunter2") 3221225572

abbrev ring : EventRing
ring = record { capacity = 4; events = []; dropped_total = 0 }

abbrev no_unusable : LogonCounters
no_unusable = record { unusable = 0; first_unusable = none }

decoded :
    (decode_logon no_address (bytes "u") (logon_of 4624 (bytes "S-1-5-18") (bytes "SYSTEM") 0)
      ≡ excluded)
    × (decode_logon no_address (bytes "u") (logon_of 4624 (bytes "S-1-5-21") (bytes "PC$") 0)
        ≡ excluded)
    × (decode_logon no_address (bytes "u") (logon_of 4634 (bytes "S-1-5-21") (bytes "ann") 0)
        ≡ unusable)
    × (withholds failure typed_password ≡ true)
unfolding decode_logon decode_target is_excluded_target withholds name_is_kept failure_code text_eq
    starts_with ends_with_byte
decoded = (refl, refl, refl, refl)

dispatch_logon_record-renamed_example :
    dispatch_logon_record no_address
      (bytes "u")
      7
      (renamed (some (bytes "ann")) none typed_password)
      ring
      no_unusable
    ≡ dispatch_logon_record no_address (bytes "u") 7 typed_password ring no_unusable
unfolding name_is_kept failure_code
dispatch_logon_record-renamed_example =
    dispatch_logon_record-renamed no_address (bytes "u") 7 typed_password (some (bytes "ann")) none
      ring no_unusable refl refl

abbrev records : List (RawLogonRecord × Text × ℕ)
records =
    (typed_password, bytes "u1", 7)
    ∷ (logon_of 4624 (bytes "S-1-5-21") (bytes "ann") 0, bytes "u2", 8)
    ∷ []

dispatch_logons-Reported_example :
    All Reported (dispatch_logons no_address records (ring, no_unusable)).0.events
dispatch_logons-Reported_example =
    dispatch_logons-Reported no_address records (ring, no_unusable) tt

abbrev fresh_monitor : UnusableMonitor
fresh_monitor = record { logged_total = 0; last_log = none }

-- Two unusable records, a third within the minute, and the time to log it.
abbrev checks : List (LogonCounters × ℕ)
checks =
    (record { unusable = 2; first_unusable = none }, 10)
    ∷ (record { unusable = 3; first_unusable = none }, 20)
    ∷ (record { unusable = 3; first_unusable = none }, 10 + log_interval)
    ∷ []

checked : (lines fresh_monitor checks).0 ≡ (10, 2) ∷ (10 + log_interval, 1) ∷ []
unfolding lines observe
checked = refl

lines-Spaced_example :
    let (logged, final) = lines fresh_monitor checks in
    Spaced log_interval none (map (λ line. line.0) logged) × (final.logged_total ≡ 0 + total logged)
lines-Spaced_example = lines-Spaced fresh_monitor checks
