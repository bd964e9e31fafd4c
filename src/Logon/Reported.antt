-- ===== src/Logon/Reported.antt =====
-- agent/cg-agent/src/logon/mod.rs: the logons that enter the ring.
use cyber_guard_enterprise.Prelude.{
  ℕ, ◌≡◌, refl, sym, ap, ◌∙◌, false, not, ◌&&◌, List, [], ◌∷◌, Option, none, some, Text, is_empty,
  All, inl, inr, Bool-cases, Option-cases,
}
use cyber_guard_enterprise.Prelude.Fallible.{subst_some}
use cyber_guard_enterprise.Net.{IpAddr}
use cyber_guard_enterprise.Etw.Types.{RingEvent, process, network, logon}
use cyber_guard_enterprise.Etw.Ring.{EventRing}
use cyber_guard_enterprise.Etw.Ring.Valid.{enqueue-All}
use cyber_guard_enterprise.Etw.Dispatch.{filetime_to_unix_nanos}
use cyber_guard_enterprise.Logon.Types.{RawLogonRecord, LogonStatus, LogonEvent, success, failure}
use cyber_guard_enterprise.Logon.Fields.{
  withheld, value_or_dash, is_excluded_target, code_or_zero, failure_code, name_is_kept,
}
use cyber_guard_enterprise.Logon.{
  LogonCounters, is_failed, status_of, usable_sid, withholds, logon_event, decode_dated,
  decode_target, decode_logon, act, dispatch_logon_record,
}

-- A reported logon has an account's SID; a successful one is not of an excluded account; of a
-- failed one whose code names no existing account, name and domain are withheld.
pub record IsReported (e : LogonEvent) : Type 0 where
  pub identified : is_empty e.user_uid ≡ false
  pub personal : e.status ≡ success → is_excluded_target e.user_uid e.user_name ≡ false
  pub hidden :
      e.status ≡ failure
      → name_is_kept (failure_code e.status_code e.status_detail) ≡ false
      → (e.user_name ≡ withheld) × (e.user_domain ≡ withheld)

abbrev pub Reported : ℕ × RingEvent → Type 0
Reported (at, process event) = Unit
Reported (at, network event) = Unit
Reported (at, logon event) = IsReported event

code_kept :
    (status sub_status : Option ℕ)
    → failure_code (some (code_or_zero status)) (some (code_or_zero sub_status))
      ≡ failure_code status sub_status
unfolding failure_code
code_kept status none = refl
code_kept status (some code) = refl

logon_event-IsReported :
    (parse : Text → Option IpAddr) (uuid : Text) (raw : RawLogonRecord) (status : LogonStatus)
    (sid : Text) (nanos : ℕ)
    → is_empty sid ≡ false
    → (not (is_failed status) && is_excluded_target sid (value_or_dash raw.target_user_name))
      ≡ false
    → IsReported (logon_event parse uuid raw status sid nanos)
unfolding logon_event withholds
logon_event-IsReported parse uuid raw success sid nanos identified personal = record {
  identified = identified;
  personal = λ e. personal;
  hidden = λ e. absurd cc;
}
logon_event-IsReported parse uuid raw failure sid nanos identified personal = record {
  identified = identified;
  personal = λ e. absurd cc;
  hidden = λ e unknown.
      let hides : name_is_kept (failure_code raw.status raw.sub_status) ≡ false =
        ap name_is_kept (sym (code_kept raw.status raw.sub_status)) ∙ unknown in
      rw hides (refl, refl);
}

usable_sid-filled : (sid : Option Text) (s : Text) → usable_sid sid ≡ some s → is_empty s ≡ false
usable_sid-filled none s e = cc
usable_sid-filled (some []) s e = cc
usable_sid-filled (some (c ∷ cs)) s e = subst_some (λ s. is_empty s ≡ false) e refl

-- What acting on a decoded record leaves in the ring.
act-Reported :
    (parse : Text → Option IpAddr) (uuid : Text) (now : ℕ) (raw : RawLogonRecord)
    (status : Option LogonStatus) (sid : Option Text) (ring : EventRing) (counters : LogonCounters)
    → ((s : Text) → sid ≡ some s → is_empty s ≡ false)
    → All Reported ring.events
    → All Reported
        (act (decode_target parse uuid raw status sid) raw.event_id now ring counters).0.events
unfolding act decode_target decode_dated
act-Reported parse uuid now raw none sid ring counters filled a = a
act-Reported parse uuid now raw (some status) none ring counters filled a = a
act-Reported parse uuid now raw (some status) (some sid) ring counters filled a =
    elim (Bool-cases
      (not (is_failed status) && is_excluded_target sid (value_or_dash raw.target_user_name))) [
        | inl out ↦ rw out a
        | inr personal ↦ elim (Option-cases (filetime_to_unix_nanos raw.filetime_100ns)) [
          | inl early ↦ rw (personal, early) a
          | inr (nanos, e) ↦
              rw (personal, e)
                (enqueue-All Reported (logon (logon_event parse uuid raw status sid nanos)) now ring
                  a
                  (logon_event-IsReported parse uuid raw status sid nanos (filled sid refl)
                    personal))
        ]
      ]

-- The logon records of a sequence, each with its event id and instant.
unfoldable pub dispatch_logons :
    (Text → Option IpAddr)
    → List (RawLogonRecord × Text × ℕ)
    → EventRing × LogonCounters
    → EventRing × LogonCounters
dispatch_logons parse [] s = s
dispatch_logons parse ((raw, uuid, now) ∷ rest) s =
    dispatch_logons parse rest (dispatch_logon_record parse uuid now raw s.0 s.1)

-- Whatever logon records arrive, if each logon in the ring has an account's SID, is not a successful
-- one of an excluded account, and has its name and domain withheld when it failed with a code that
-- names no existing account, so does each after them.
pub dispatch_logons-Reported :
    (parse : Text → Option IpAddr) (raws : List (RawLogonRecord × Text × ℕ))
    (s : EventRing × LogonCounters)
    → All Reported s.0.events
    → All Reported (dispatch_logons parse raws s).0.events
unfolding dispatch_logons dispatch_logon_record decode_logon
dispatch_logons-Reported parse [] s a = a
dispatch_logons-Reported parse ((raw, uuid, now) ∷ rest) s a =
    dispatch_logons-Reported parse rest (dispatch_logon_record parse uuid now raw s.0 s.1) (
      act-Reported parse uuid now raw (status_of raw.event_id) (usable_sid raw.target_user_sid) s.0
        s.1 (usable_sid-filled raw.target_user_sid) a)
