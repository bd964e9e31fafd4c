-- ===== src/Etw/Types.antt =====
-- agent/cg-agent/src/etw/types.rs: the captured events, and why an ETW session did not start.
use cyber_guard_enterprise.Prelude.{
  ℕ, ◌^◌, ◌/◌, ◌%◌, ◌-◌, Bool, true, false, Option, none, some, Text, ◌==◌, if◌then◌else◌,
}
use cyber_guard_enterprise.Prelude.Int.{ℤ, pos, negsuc}
use cyber_guard_enterprise.Net.{SocketAddr}
use cyber_guard_enterprise.Logon.Types.{LogonEvent}

pub data ActivityId : Type 0 where
  launch terminate : ActivityId

-- `From<ActivityId> for u64`.
unfoldable pub activity_number : ActivityId → ℕ
activity_number launch = 1
activity_number terminate = 2

-- `TryFrom<u64> for ActivityId`; the message of the error is not modelled.
unfoldable pub activity_of_number : ℕ → Option ActivityId
activity_of_number n = if n == 1 then some launch else if n == 2 then some terminate else none

pub record CapturedEvent : Type 0 where
  pub pid : ℕ
  pub event_id : Text
  pub activity_id : ActivityId
  pub image_file_name : Text
  pub parent_pid : ℕ
  pub command_line : Text
  pub subject_user_sid : Text
  pub etw_timestamp_nanos : ℕ
  pub created_time_nanos : Option ℕ
  pub exit_status : Option ℤ

pub data Direction : Type 0 where
  outbound inbound : Direction

pub record NetworkEvent : Type 0 where
  pub event_id : Text
  pub pid : ℕ
  pub direction : Direction
  pub src : SocketAddr
  pub dst : SocketAddr
  pub etw_timestamp_nanos : ℕ
  pub created_time_nanos : Option ℕ

pub data RingEvent : Type 0 where
  process : CapturedEvent → RingEvent
  network : NetworkEvent → RingEvent
  logon : LogonEvent → RingEvent

unfoldable pub as_process : RingEvent → Option CapturedEvent
as_process (process event) = some event
as_process _ = none

unfoldable pub as_network : RingEvent → Option NetworkEvent
as_network (network event) = some event
as_network _ = none

unfoldable pub as_logon : RingEvent → Option LogonEvent
as_logon (logon event) = some event
as_logon _ = none

pub data StartMode : Type 0 where
  locked unlocked : StartMode

-- The system's message for a code is the operating system's, and is not part of the value.
pub data OpenError : Type 0 where
  privilege_not_held : OpenError
  access_denied : OpenError
  failed : ℕ → OpenError
  unsupported : OpenError

unfoldable pub from_win32 : ℕ → OpenError
from_win32 code =
    if code == 5 then access_denied else if code == 1314 then privilege_not_held else failed code

unfoldable pub is_privilege : OpenError → Bool
is_privilege privilege_not_held = true
is_privilege access_denied = true
is_privilege _ = false

unfoldable pub with_lock_mode : OpenError → StartMode → OpenError
with_lock_mode (failed code) unlocked = if code == 183 then privilege_not_held else failed code
with_lock_mode error _ = error

unfoldable pub must_stop_after_failed_start : OpenError → StartMode → Bool
unfolding is_privilege
must_stop_after_failed_start error locked = true
must_stop_after_failed_start error unlocked = is_privilege error

-- `raw as u32`.
abbrev pub as_u32 : ℤ → ℕ
as_u32 (pos n) = n % 2 ^ 32
as_u32 (negsuc n) = 2 ^ 32 - 1 - n % 2 ^ 32

-- `value & 0xFFFF_0000 == 0x8007_0000` tests the upper 16 bits, `value & 0xFFFF` is the lower 16.
unfoldable pub win32_from_os_error : ℤ → ℕ
win32_from_os_error raw =
    let value = as_u32 raw in if value / 2 ^ 16 == 0x8007 then value % 2 ^ 16 else value
