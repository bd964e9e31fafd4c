-- ===== src/Cges.antt =====
-- agent/cg-agent/src/cges/emit.rs and etw/uid.rs: the events as the agent sends them.
-- A rendered event is the record that serde writes out; a field that serde skips is `none`.
pub mod Identity
pub mod Naming
mod Tests
use cyber_guard_enterprise.Prelude.{
  ℕ, ◌+◌, Bool, true, false, ◌||◌, List, [], ◌∷◌, ◌++◌, Option, none, some, Text, bytes, ◌==◌,
  if◌then◌else◌,
}
use mathlib.Core.Option
use cyber_guard_enterprise.Prelude.Int.{ℤ}
use cyber_guard_enterprise.Prelude.Print.{to_decimal, to_hex}
use cyber_guard_enterprise.Net.{SocketAddr}
use cyber_guard_enterprise.Net.Display.{ip_text}
use cyber_guard_enterprise.Etw.Types.{
  ActivityId, CapturedEvent, Direction, NetworkEvent, RingEvent, process, network, logon,
}
use cyber_guard_enterprise.Logon.Types.{LogonEvent, LogonSource, LogonStatus, success, failure}
use cyber_guard_enterprise.Paths.{Entry, translate}

pub record CgesProcess : Type 0 where
  pub pid : ℕ
  pub uid : Text
  pub name : Text
  pub created_time : Option Text
  pub exit_code : Option ℤ
  pub parent_pid : Option ℕ
  pub command_line : Text
  pub subject_user_sid : Text
  pub image_file_name : Text

pub record CgesProcessActivity : Type 0 where
  pub event_id : Text
  pub class_uid : ℕ
  pub activity_id : ActivityId
  pub process : CgesProcess
  pub time : Text

pub record CgesNetworkEndpoint : Type 0 where
  pub ip : Text
  pub port : ℕ

pub record CgesConnectionInfo : Type 0 where
  pub protocol_name : Text
  pub direction : Direction

pub record CgesActorProcess : Type 0 where
  pub pid : ℕ
  pub uid : Option Text

pub record CgesActor : Type 0 where
  pub process : CgesActorProcess

pub record CgesNetworkActivity : Type 0 where
  pub event_id : Text
  pub class_uid : ℕ
  pub activity_id : ℕ
  pub time : Text
  pub src_endpoint : CgesNetworkEndpoint
  pub dst_endpoint : CgesNetworkEndpoint
  pub connection_info : CgesConnectionInfo
  pub actor : CgesActor

pub record CgesLogonUser : Type 0 where
  pub uid : Text
  pub name : Text
  pub domain : Text

pub record CgesLogonSource : Type 0 where
  pub ip : Text
  pub hostname : Option Text

pub record CgesAuthentication : Type 0 where
  pub event_id : Text
  pub class_uid : ℕ
  pub category_uid : ℕ
  pub activity_id : ℕ
  pub time : Text
  pub status_id : ℕ
  pub user : CgesLogonUser
  pub logon_type_id : ℕ
  pub auth_protocol : Text
  pub auth_protocol_id : ℕ
  pub src_endpoint : Option CgesLogonSource
  pub status_code : Option Text
  pub status_detail : Option Text
  pub cg_elevated_token : Option Bool

pub data CgesEvent : Type 0 where
  process_activity : CgesProcessActivity → CgesEvent
  network_activity : CgesNetworkActivity → CgesEvent
  authentication : CgesAuthentication → CgesEvent

-- `<agent_id>:<pid>:<created_time>`.
unfoldable pub format_process_uid : Text → ℕ → ℕ → Text
unfolding to_decimal
format_process_uid agent_id pid created_time_nanos =
    agent_id ++ 58 ∷ (to_decimal pid ++ 58 ∷ to_decimal created_time_nanos)

abbrev pub is_failure : LogonStatus → Bool
is_failure success = false
is_failure failure = true

-- `format!("{code:#x}")`.
unfoldable pub hex_code : ℕ → Text
unfolding to_hex
hex_code code = 48 ∷ 120 ∷ to_hex code

abbrev pub value_or : Option ℕ → ℕ → ℕ
value_or none d = d
value_or (some n) d = n

abbrev logon_source : LogonSource → CgesLogonSource
logon_source src = record { ip = ip_text src.ip; hostname = src.hostname }

unfoldable pub render_authentication : LogonEvent → CgesAuthentication
unfolding hex_code to_decimal ip_text
render_authentication event =
    let failed = is_failure event.status in
    record {
      event_id = event.event_id;
      class_uid = 3002;
      category_uid = 3;
      activity_id = 1;
      time = to_decimal event.timestamp_nanos;
      status_id = if failed then 2 else 1;
      user = record { uid = event.user_uid; name = event.user_name; domain = event.user_domain };
      logon_type_id = event.logon_type_id;
      auth_protocol = event.auth_protocol;
      auth_protocol_id = event.auth_protocol_id;
      src_endpoint = Option.map logon_source event.src;
      status_code = if failed then some (hex_code (value_or event.status_code 0)) else none;
      status_detail = if failed then some (hex_code (value_or event.status_detail 0)) else none;
      cg_elevated_token = if failed then none else event.elevated_token;
    }

abbrev endpoint : SocketAddr → CgesNetworkEndpoint
endpoint a = record { ip = ip_text a.ip; port = a.port }

unfoldable pub render_network_activity : NetworkEvent → Text → CgesNetworkActivity
unfolding format_process_uid
render_network_activity event agent_id = record {
  event_id = event.event_id;
  class_uid = 4001;
  activity_id = 1;
  time = to_decimal event.etw_timestamp_nanos;
  src_endpoint = endpoint event.src;
  dst_endpoint = endpoint event.dst;
  connection_info = record { protocol_name = bytes "tcp"; direction = event.direction };
  actor = record {
    process = record {
      pid = event.pid;
      uid = Option.map (format_process_uid agent_id event.pid) event.created_time_nanos;
    };
  };
}

-- A separator of path components, `\` or `/`.
abbrev pub is_separator : ℕ → Bool
is_separator c = c == 92 || c == 47

-- What follows the last separator, with the component read so far.
unfoldable pub last_component : Text → Text → Text
last_component seen [] = seen
last_component seen (c ∷ s) = last_component (if is_separator c then [] else seen ++ c ∷ []) s

unfoldable pub derive_process_name : Text → Text
unfolding last_component
derive_process_name image_file_name = last_component [] image_file_name

unfoldable pub build : CapturedEvent → Option ℕ → Text → Text → CgesProcessActivity
unfolding format_process_uid derive_process_name
build event cached_created_time image_file_name agent_id =
    let uid_nanos = value_or cached_created_time event.etw_timestamp_nanos in
    record {
      event_id = event.event_id;
      class_uid = 1007;
      activity_id = event.activity_id;
      time = to_decimal event.etw_timestamp_nanos;
      process = record {
        pid = event.pid;
        uid = format_process_uid agent_id event.pid uid_nanos;
        name = derive_process_name image_file_name;
        created_time = Option.map to_decimal cached_created_time;
        exit_code = event.exit_status;
        parent_pid = if event.parent_pid == 0 then none else some event.parent_pid;
        command_line = event.command_line;
        subject_user_sid = event.subject_user_sid;
        image_file_name = image_file_name;
      };
    }

unfoldable pub render_process_activity : CapturedEvent → Text → List Entry → CgesProcessActivity
unfolding build translate
render_process_activity event agent_id paths =
    build event event.created_time_nanos (translate paths event.image_file_name) agent_id

unfoldable pub emit_process_activity : CapturedEvent → Text → CgesProcessActivity
unfolding render_process_activity
emit_process_activity event agent_id = render_process_activity event agent_id []

unfoldable pub emit_process_activity_with_cache :
    CapturedEvent → Option ℕ → Text → CgesProcessActivity
unfolding build translate
emit_process_activity_with_cache event cached_created_time agent_id =
    build event cached_created_time (translate [] event.image_file_name) agent_id
