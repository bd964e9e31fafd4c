-- ===== src/Logon/Types.antt =====
-- The values of agent/cg-agent/src/logon/mod.rs: a record as rendered, and a logon as reported.
use cyber_guard_enterprise.Prelude.{ℕ, Bool, Option, Text}
use cyber_guard_enterprise.Prelude.Int.{ℤ}
use cyber_guard_enterprise.Net.{IpAddr}

pub record RawLogonRecord : Type 0 where
  pub event_id : ℕ
  pub version : ℕ
  pub filetime_100ns : ℤ
  pub target_user_sid : Option Text
  pub target_user_name : Option Text
  pub target_domain_name : Option Text
  pub logon_type : Option ℕ
  pub auth_package : Option Text
  pub workstation : Option Text
  pub ip_address : Option Text
  pub elevated_token : Option Text
  pub status : Option ℕ
  pub sub_status : Option ℕ

pub data LogonStatus : Type 0 where
  success failure : LogonStatus

pub record LogonSource : Type 0 where
  pub ip : IpAddr
  pub hostname : Option Text

pub record LogonEvent : Type 0 where
  pub event_id : Text
  pub status : LogonStatus
  pub user_uid : Text
  pub user_name : Text
  pub user_domain : Text
  pub logon_type_id : ℕ
  pub auth_protocol : Text
  pub auth_protocol_id : ℕ
  pub src : Option LogonSource
  pub status_code : Option ℕ
  pub status_detail : Option ℕ
  pub elevated_token : Option Bool
  pub timestamp_nanos : ℕ
