-- ===== src/Service/Migration/Start.antt =====
-- agent/cg-agent/src/service/migration.rs: what a start does before it reads the configuration.
use cyber_guard_enterprise.Prelude.{
  Bool, true, false, ◌++◌, Option, none, some, Text, bytes, if◌then◌else◌,
}
use cyber_guard_enterprise.Prelude.Results.{Result, ok, err, Done, done}
use cyber_guard_enterprise.Config.{is_some}
use cyber_guard_enterprise.Service.Migration.Arguments.{Request, invalid_arguments}
use cyber_guard_enterprise.Service.Migration.Host.{
  Record, complete_commit, Injected, fails, crash, Stop, refused, crashed, Prepared, plain_start,
  console_layout, committed_start, Dir, Host, Environment, Step, gives, stops, continues, ◌>>>◌,
  at_point, asks_for, is_console, counts, identity_line,
}
use cyber_guard_enterprise.Service.Migration.Route.Staging.{
  in_place, check_staged, fresh, interrupted, continued,
}
use cyber_guard_enterprise.Service.Migration.Route.{
  rename_staging, both_directories, ends, reverse, take_lock, check_data_directories, route,
}

abbrev pub saved_of : Option Dir → Option Record
saved_of none = none
saved_of (some d) = d.saved

-- `staged_record`: a record that cannot be read now is neither there nor absent.
unfoldable pub staged_record : Environment → Host → Result Text (Option Record)
staged_record env h = elim env.record_unread [
  | none ↦ ok (saved_of h.staging)
  | some reason ↦
      err
        (bytes "the migration's record cannot be read: " ++ reason ++ bytes "; nothing was changed")
]

-- `data_root_record`.
unfoldable pub data_root_record : Environment → Host → Result Stop (Option Record)
data_root_record env h = elim env.record_unread [
  | none ↦ ok (saved_of h.data_root)
  | some reason ↦ err (
      refused 2 (
        bytes "cg-agent: invalid config "
        ++ env.data_root_path
        ++ bytes "\\migration.json: "
        ++ reason))
]

abbrev pub not_the_recorded : Text
not_the_recorded = bytes "they are not the ones the migration in progress recorded"

unfoldable pub check_recorded : Option Request → Record → Result Stop Done
check_recorded none r = ok done
check_recorded (some q) r =
    if asks_for r q then ok done else err (refused 2 (invalid_arguments not_the_recorded))

unfoldable pub other_combination : Environment → Stop
other_combination env = refused 5 (
    identity_line (
      env.data_root_path
      ++ bytes ", "
      ++ env.staging_path
      ++ bytes " and "
      ++ env.legacy_path
      ++ bytes " are in no state a migration leaves; nothing was changed"))

-- `plain`.
unfoldable pub plain : Environment → Option Request → Step Stop Prepared
plain env (some q) = stops (
    refused 2 (
      invalid_arguments
        (bytes "this host is neither a console layout nor a migration in progress")))
plain env none = check_data_directories env >>> λ h.
    continues (data_root_record env h, h) (λ r. gives plain_start)

abbrev pub goes_on : Result Stop Done → Result Stop Prepared
goes_on (ok d) = ok committed_start
goes_on (err stop) = err stop

abbrev pub is_recorded : Environment → Option Request → Option Record → Result Stop Prepared
is_recorded env request none = err (other_combination env)
is_recorded env request (some r) = goes_on (check_recorded request r)

-- `committed`.
unfoldable pub committed : Environment → Option Request → Step Stop Prepared
committed env request = check_data_directories env >>> λ h.
    continues (data_root_record env h, h) (λ r h. (is_recorded env request r, h))

unfoldable pub beside_recorded : Environment → Option Record → Option Request → Step Stop Prepared
beside_recorded env (some r) (some q) =
    if asks_for r q
    then route env q (continued r)
    else stops (in_place env 2 (invalid_arguments not_the_recorded))
beside_recorded env none (some q) = route env q interrupted
beside_recorded env (some r) none = stops (
    in_place env 5 (
      identity_line (
        bytes "a migration was interrupted, its staging directory at "
        ++ env.staging_path
        ++ bytes ": start the service again with the arguments it recorded")))
beside_recorded env none none = stops (
    in_place env 5 (
      identity_line (
        bytes "the service's creation of "
        ++ env.staging_path
        ++ bytes " was interrupted: start the migration again")))

unfoldable pub beside_read :
    Environment → Option Request → Result Text (Option Record) → Step Stop Prepared
beside_read env request (ok r) = beside_recorded env r request
beside_read env request (err reason) = stops (
    in_place env 5 (
      identity_line (
        reason
        ++ bytes
            "; if it stays so, an administrator who has checked it removes the staging directory and starts the migration again")))

-- `beside_a_console_layout`.
unfoldable pub beside_a_console_layout : Environment → Option Request → Step Stop Prepared
beside_a_console_layout env request h = beside_read env request (staged_record env h) h

unfoldable pub completed : Environment → Result Injected Done × Host → Result Stop Prepared × Host
completed env (ok d, h) = (check_data_directories env >>> gives committed_start) h
completed env (err crash, h) = (err crashed, h)
completed env (err (fails reason), h) = (err (both_directories env reason), h)

unfoldable pub complete_commit_step : Environment → Step Injected Done
complete_commit_step env =
    check_staged env >>> (at_point env complete_commit >>> rename_staging env)

-- The end of `between_the_renames`, under the lock, by the mark of a reversal.
unfoldable pub complete_or_reverse : Environment → Record → Bool → Step Stop Prepared
complete_or_reverse env r true h = ends (reverse env r (bytes "a reversal was interrupted") h)
complete_or_reverse env r false h = completed env (complete_commit_step env h)

unfoldable pub match_recorded : Option Request → Record → Step Stop Done
match_recorded request r h = (check_recorded request r, h)

unfoldable pub between_recorded : Environment → Option Request → Option Record → Step Stop Prepared
between_recorded env request none = stops (both_directories env (bytes "its record cannot be read"))
between_recorded env request (some r) =
    match_recorded request r >>> (take_lock env >>> complete_or_reverse env r r.reversal_pending)

unfoldable pub between_read :
    Environment → Option Request → Result Text (Option Record) → Step Stop Prepared
between_read env request (ok r) = between_recorded env request r
between_read env request (err reason) = stops (both_directories env reason)

-- `between_the_renames`.
unfoldable pub between_the_renames : Environment → Option Request → Step Stop Prepared
between_the_renames env request h = between_read env request (staged_record env h) h

-- A console layout with no migration in progress.
unfoldable pub on_console : Environment → Option Request → Step Stop Prepared
on_console env (some q) = route env q fresh
on_console env none = check_data_directories env >>> gives console_layout

-- `prepare`, by which of the directories are there and whether the data root is a console layout.
unfoldable pub choose_route :
    Environment → Option Request → (data_root console staging legacy : Bool) → Step Stop Prepared
choose_route env request false console true true = between_the_renames env request
choose_route env request true true true false = beside_a_console_layout env request
choose_route env request true false false true = committed env request
choose_route env request data_root true false false = on_console env request
choose_route env request data_root false false false = plain env request
choose_route env request data_root console staging legacy = stops (other_combination env)

unfoldable pub prepare : Environment → Option Request → Step Stop Prepared
prepare env request h =
    choose_route env request (is_some h.data_root) (is_console h.data_root)
      (counts env.sees_staging h.staging) (counts env.sees_legacy h.legacy) h
