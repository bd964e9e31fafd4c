-- ===== src/InstanceLock.antt =====
-- agent/cg-agent/src/instance_lock.rs: what taking the instance lock comes to, by the token.
use cyber_guard_enterprise.Prelude.{
  ℕ, Bool, ◌||◌, ◌++◌, Option, none, some, Text, bytes, if◌then◌else◌,
}
use cyber_guard_enterprise.Prelude.Print.{to_decimal}
use cyber_guard_enterprise.Prelude.Results.{Result, ok, err}
use cyber_guard_enterprise.Errors.{line}

-- The outcome of taking the instance lock; an `InstanceLock` is a handle of the system.
pub data LockOutcome : Type 0 where
  acquired held controls_etw_outside_model unprivileged : LockOutcome
  lock_failed : (step : Text) (code : ℕ) → LockOutcome

unfoldable pub stderr_lock_failed : Text → ℕ → Text
stderr_lock_failed step code =
    line (bytes "instance lock failed: " ++ step ++ bytes ": Win32 error " ++ to_decimal code)

unfoldable pub lock_exit_code : LockOutcome → Option ℕ
lock_exit_code acquired = none
lock_exit_code unprivileged = none
lock_exit_code held = some 10
lock_exit_code controls_etw_outside_model = some 1
lock_exit_code (lock_failed step code) = some 1

unfoldable pub lock_stderr_line : LockOutcome → Option Text
lock_stderr_line acquired = none
lock_stderr_line unprivileged = none
lock_stderr_line held =
    some (line (bytes "another CyberGuard agent instance is running on this host"))
lock_stderr_line controls_etw_outside_model = some (
    line (
      bytes
        "instance lock failed: this token controls ETW sessions but is not an elevated administrator's or SYSTEM's"))
lock_stderr_line (lock_failed step code) = some (stderr_lock_failed step code)

pub data TokenClass : Type 0 where
  can_create controls_etw ordinary : TokenClass

-- What a token has: its enabled groups, and a privilege.
pub record Token : Type 0 where
  pub administrators : Bool
  pub performance_log_users : Bool
  pub local_service : Bool
  pub network_service : Bool
  pub system_profile : Bool

unfoldable pub classify_token : Token → TokenClass
classify_token token =
    if token.administrators
    then can_create
    else if token.performance_log_users || token.local_service || token.network_service
        || token.system_profile
    then controls_etw
    else ordinary

-- `acquire`: the process token or the error of opening it, and what making the mutex comes to.
unfoldable pub acquire : Result ℕ Token → LockOutcome → LockOutcome
unfolding classify_token
acquire (err code) created = lock_failed (bytes "open process token") code
acquire (ok token) created = elim (classify_token token) [
  | can_create ↦ created
  | controls_etw ↦ controls_etw_outside_model
  | ordinary ↦ unprivileged
]
