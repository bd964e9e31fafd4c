-- ===== src/Service/Exit.antt =====
-- agent/cg-agent/src/service/mod.rs: how the service ends, with its code and its log entry.
use cyber_guard_enterprise.Prelude.{ℕ, Bool, true, false, ◌++◌, Option, none, some, Text, bytes}
use cyber_guard_enterprise.Prelude.Print.{to_decimal}

-- `EXIT_STOP_DEADLINE`.
abbrev pub exit_stop_deadline : ℕ
exit_stop_deadline = 12

-- `EXIT_SERVICE_LOG`.
abbrev pub exit_service_log : ℕ
exit_service_log = 13

abbrev pub stderr_service_log : Text → Text
stderr_service_log reason = bytes "cg-agent: the service log cannot be written: " ++ reason

pub data ServiceExit : Type 0 where
  clean : (undelivered : ℕ) → ServiceExit
  failed : (code : ℕ) (line : Text) → ServiceExit
  deadline_expired : (pending : Text) (undelivered : Option ℕ) → ServiceExit

-- The Application log's entry.
pub record Entry : Type 0 where
  pub id : ℕ
  pub error : Bool
  pub text : Text

abbrev pub specific_code : ServiceExit → Option ℕ
specific_code (clean undelivered) = none
specific_code (failed code line) = some code
specific_code (deadline_expired pending undelivered) = some exit_stop_deadline

abbrev pub count_or_unknown : Option ℕ → Text
count_or_unknown none = bytes "unknown"
count_or_unknown (some n) = to_decimal n

unfoldable pub entry : ServiceExit → Entry
entry (clean undelivered) = record {
  id = 1001;
  error = false;
  text =
      bytes "cg-agent: the service stopped cleanly; events not delivered: "
      ++ to_decimal undelivered;
}
entry (failed code line) = record {
  id = 1002;
  error = true;
  text =
      bytes "cg-agent: the service stopped with code " ++ (to_decimal code ++ (bytes ": " ++ line));
}
entry (deadline_expired pending undelivered) = record {
  id = 1003;
  error = true;
  text =
      bytes "cg-agent: the service stop could not end within its 60 s deadline, with "
      ++ (pending ++ (bytes " pending; events not delivered: " ++ count_or_unknown undelivered));
}

-- Only a clean end takes the log's failure as its cause.
unfoldable pub with_log_failure : ServiceExit → Option Text → ServiceExit
with_log_failure (clean undelivered) (some reason) =
    failed exit_service_log (stderr_service_log reason)
with_log_failure (clean undelivered) none = clean undelivered
with_log_failure (failed code line) log_failure = failed code line
with_log_failure (deadline_expired pending undelivered) log_failure =
    deadline_expired pending undelivered
