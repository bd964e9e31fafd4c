-- ===== src/Service/Migration/Route.antt =====
-- agent/cg-agent/src/service/migration.rs: the route of a migration, its commit by two renames and
-- the reversal of a commit that failed.
pub mod Staging
use cyber_guard_enterprise.Prelude.{
  ℕ, Bool, true, false, ◌||◌, [], ◌∷◌, ◌++◌, map, Option, none, some, Text, bytes, starts_with,
  if◌then◌else◌,
}
use cyber_guard_enterprise.Prelude.Results.{map_err, Result, ok, err, Done, done}
use cyber_guard_enterprise.Custody.Security.{join}
use cyber_guard_enterprise.Service.Migration.Entries.{check_names_again}
use cyber_guard_enterprise.Service.Migration.Arguments.{Texts, Request}
use cyber_guard_enterprise.Service.Migration.Host.{
  paths_of, Record, Point, close_product_root, close_data_root, delete_interrupted_staging,
  create_staging, write_record, stage, check_staged_point, first_rename, second_rename,
  record_reversal, rename_back, clear_reversal, Injected, fails, crash, Stop, refused, crashed,
  Prepared, committed_start, Dir, Host, Verified, Environment, Step, gives, continues, with_errors,
  ◌>>>◌, at_point, staged_names, texts_eq, rename_failure, identity_line,
}
use cyber_guard_enterprise.Service.Migration.Route.Staging.{
  Attempt, account_of, add_name, begin_staging, check_staged, check_whole, clear, clear_staged,
  close_at, close_data_root_step, close_dir, close_directories, contains, continued,
  create_staging_step, cut_in_place, delete_staging, fresh, in_place, interrupted, is_whole, naming,
  record_and_stage, record_of, remove_staging, save, stage_all, stage_one, with_state,
  write_staged_record,
}

-- `rename`, never over an existing name: of the data root to the legacy directory, back, and of
-- the staging directory to the data root.
unfoldable pub rename_data_root : Environment → Step Injected Done
rename_data_root env h = elim h.data_root [
  | none ↦ (err (rename_failure env.data_root_path 2), h)
  | some d ↦ elim h.legacy [
    | some l ↦ (err (rename_failure env.data_root_path 183), h)
    | none ↦ (ok done, record h { data_root = none; legacy = some d })
  ]
]

unfoldable pub rename_legacy : Environment → Step Injected Done
rename_legacy env h = elim h.legacy [
  | none ↦ (err (rename_failure env.legacy_path 2), h)
  | some d ↦ elim h.data_root [
    | some l ↦ (err (rename_failure env.legacy_path 183), h)
    | none ↦ (ok done, record h { data_root = some d; legacy = none })
  ]
]

unfoldable pub rename_staging : Environment → Step Injected Done
rename_staging env h = elim h.staging [
  | none ↦ (err (rename_failure env.staging_path 2), h)
  | some d ↦ elim h.data_root [
    | some l ↦ (err (rename_failure env.staging_path 183), h)
    | none ↦ (ok done, record h { data_root = some d; staging = none })
  ]
]

unfoldable pub both_directories : Environment → Text → Stop
both_directories env reason = refused 5 (
    identity_line (
      bytes "a migration stopped between its renames, at "
      ++ env.staging_path
      ++ bytes " and "
      ++ env.legacy_path
      ++ bytes ": "
      ++ reason))

abbrev pub mark : Bool → Record → Record
mark pending r = record r { reversal_pending = pending }

-- The end of `reverse`, once the mark was cleared or was left behind.
unfoldable pub reversed : Environment → Text → Result Injected Done × Host → Stop × Host
reversed env cause (err crash, h) = (crashed, h)
reversed env cause (err (fails reason), h) =
    (in_place env 5 (identity_line (cause ++ bytes "; the commit was reversed")), h)
reversed env cause (ok d, h) =
    (in_place env 5 (identity_line (cause ++ bytes "; the commit was reversed")), h)

unfoldable pub renamed_back :
    Environment → Record → Text → Result Injected Done × Host → Stop × Host
renamed_back env r cause (ok d, h) =
    reversed env cause ((at_point env clear_reversal >>> write_staged_record (mark false r)) h)
renamed_back env r cause (err crash, h) = (crashed, h)
renamed_back env r cause (err (fails reason), h) = (
  refused 5 (
      identity_line (
        cause
        ++ bytes ", and renaming "
        ++ env.legacy_path
        ++ bytes " back failed ("
        ++ reason
        ++ bytes
            "): the data root is at that name, and the next start, with or without arguments, puts it back")),
  h,
)

unfoldable pub reverse : Environment → Record → Text → Host → Stop × Host
reverse env r cause h =
    renamed_back env r cause ((at_point env rename_back >>> rename_legacy env) h)

-- The second rename failed: the reversal is recorded first.
unfoldable pub marked : Environment → Record → Text → Result Injected Done × Host → Stop × Host
marked env r cause (ok d, h) = reverse env r (bytes "the commit failed (" ++ cause ++ bytes ")") h
marked env r cause (err crash, h) = (crashed, h)
marked env r cause (err (fails reason), h) = (
  both_directories env (
      bytes "the commit failed ("
      ++ cause
      ++ bytes "), and its reversal could not be recorded ("
      ++ reason
      ++ bytes "); the next start completes it"),
  h,
)

abbrev pub ends : {A : Type 0} → Stop × Host → Result Stop A × Host
ends (stop, h) = (err stop, h)

unfoldable pub second_done :
    Environment → Record → Result Injected Done × Host → Result Stop Done × Host
second_done env r (ok d, h) = (ok done, h)
second_done env r (err crash, h) = (err crashed, h)
second_done env r (err (fails cause), h) = ends (
    marked env (mark true r) cause
      ((at_point env record_reversal >>> write_staged_record (mark true r)) h))

unfoldable pub second_step : Environment → Record → Step Stop Done
second_step env r h = second_done env r ((at_point env second_rename >>> rename_staging env) h)

-- `check_names_again`, of what the directories hold by then.
unfoldable pub check_again : Environment → Record → Step Injected Done
check_again env r h = (
  map_err fails (
      check_names_again (paths_of env) env.root_entries env.data_root_entries
        (map (λ file. file.0) r.files)),
  h,
)

-- Item 2.6.
unfoldable pub commit : Environment → Record → Step Stop Done
commit env r =
    with_errors (cut_in_place env 5 identity_line)
      (at_point env first_rename >>> (check_again env r >>> rename_data_root env))
    >>> second_step env r

-- `check_data_directories`.
unfoldable pub check_data_directories : Environment → Step Stop Done
check_data_directories env h = elim env.directories_refused [
  | none ↦ (ok done, h)
  | some stop ↦ (err stop, h)
]

-- A refusal of the lock's, before a change.
abbrev pub lock_stop : Environment → Stop → Stop
lock_stop env (refused code line) = in_place env code line
lock_stop env crashed = crashed

unfoldable pub discard_interrupted : Environment → Attempt → Step Stop Done
discard_interrupted env interrupted =
    with_errors (cut_in_place env 5 identity_line) (delete_staging env)
discard_interrupted env fresh = gives done
discard_interrupted env (continued r) = gives done

unfoldable pub take_lock : Environment → Step Stop Done
take_lock env h = (env.lock, h)

-- Items 2.5 and 2.6, with what the checks found.
unfoldable pub stage_and_commit : Environment → Request → Attempt → Verified → Step Stop Prepared
stage_and_commit env request attempt verified =
    let r = record_of request attempt verified in
    with_errors (cut_in_place env 5 identity_line) (record_and_stage env attempt r)
    >>> (commit env r >>> (check_data_directories env >>> gives committed_start))

unfoldable pub verify_and_go_on : Environment → Request → Attempt → Step Stop Prepared
verify_and_go_on env request attempt h =
    continues (env.verifies h, h) (stage_and_commit env request attempt)

-- Item 2.
unfoldable pub route : Environment → Request → Attempt → Step Stop Prepared
route env request attempt =
    with_errors (lock_stop env) (take_lock env)
    >>> ((close_directories env >>> discard_interrupted env attempt)
        >>> verify_and_go_on env request attempt)
