-- ===== src/Service/Migration/Route/Staging.antt =====
-- agent/cg-agent/src/service/migration.rs: a route up to the whole staged tree.
use cyber_guard_enterprise.Service.Exit.{exit_service_log, stderr_service_log}
use cyber_guard_enterprise.Prelude.{
  ℕ, Bool, true, false, ◌||◌, [], ◌∷◌, ◌++◌, Option, none, some, Text, bytes, starts_with,
  if◌then◌else◌,
}
use cyber_guard_enterprise.Prelude.Results.{ok, err, Done, done}
use cyber_guard_enterprise.Custody.Security.{join}
use cyber_guard_enterprise.Service.Migration.Arguments.{Texts, Request}
use cyber_guard_enterprise.Service.Migration.Host.{
  Record, Point, close_product_root, close_data_root, delete_interrupted_staging, create_staging,
  write_record, stage, check_staged_point, Injected, fails, crash, Stop, refused, crashed, Dir,
  Verified, Environment, Step, gives, with_errors, ◌>>>◌, at_point, staged_names, texts_eq,
  rename_failure,
}

-- `with_state`.
unfoldable pub with_state : Environment → Text → Text
with_state env line = elim env.restricted [
  | [] ↦ line ++ bytes "; the console installation is in place, none of it restricted"
  | t ∷ ts ↦
      line
      ++ bytes "; the console installation is in place, restricted: "
      ++ join (bytes ", ") env.restricted
]

abbrev pub in_place : Environment → ℕ → Text → Stop
in_place env code line = refused code (with_state env line)

unfoldable pub cut_in_place : Environment → ℕ → (Text → Text) → Injected → Stop
cut_in_place env code render crash = crashed
cut_in_place env code render (fails reason) = in_place env code (render reason)

-- `str::contains`.
unfoldable pub contains : Text → Text → Bool
contains t [] = starts_with [] t
contains t (c ∷ s) = let rest = contains t s in starts_with (c ∷ s) t || rest

unfoldable pub naming : Text → Injected → Injected
naming path crash = crash
naming path (fails reason) =
    if contains path reason then fails reason else fails (path ++ bytes ": " ++ reason)

abbrev pub close_dir : Option Dir → Option Dir
close_dir none = none
close_dir (some d) = some (record d { closed = true })

-- Item 2.1, of the data root; the directory above it is not part of the state.
unfoldable pub close_data_root_step : Step Injected Done
close_data_root_step h = (ok done, record h { data_root = close_dir h.data_root })

-- `close` and its failure's line.
unfoldable pub close_at : Environment → Text → Point → Step Injected Done → Step Stop Done
close_at env path point m =
    with_errors (λ cut. cut_in_place env exit_service_log stderr_service_log (naming path cut))
      (at_point env point >>> m)

unfoldable pub close_directories : Environment → Step Stop Done
close_directories env =
    close_at env env.product_root_path close_product_root (gives done)
    >>> close_at env env.data_root_path close_data_root close_data_root_step

unfoldable pub remove_staging : Step Injected Done
remove_staging h = (ok done, record h { staging = none })

-- `delete_interrupted_staging`.
unfoldable pub delete_staging : Environment → Step Injected Done
delete_staging env =
    with_errors (naming env.staging_path)
      (at_point env delete_interrupted_staging >>> remove_staging)

-- `create_new_directory` of the staging directory, which must not exist.
unfoldable pub create_staging_step : Environment → Step Injected Done
create_staging_step env h = elim h.staging [
  | some d ↦ (err (rename_failure env.staging_path 183), h)
  | none ↦
      (ok done, record h { staging = some (record { closed = true; saved = none; names = [] }) })
]

-- Writing the staged record, also over an old one.
abbrev pub save : Record → Option Dir → Option Dir
save r none = none
save r (some d) = some (record d { saved = some r })

unfoldable pub write_staged_record : Record → Step Injected Done
write_staged_record r h = (ok done, record h { staging = save r h.staging })

abbrev pub clear : Option Dir → Option Dir
clear none = none
clear (some d) = some (record d { names = [] })

-- `clear_staged`: all but the record.
unfoldable pub clear_staged : Step Injected Done
clear_staged h = (ok done, record h { staging = clear h.staging })

abbrev pub add_name : Text → Option Dir → Option Dir
add_name n none = none
add_name n (some d) = some (record d { names = d.names ++ n ∷ [] })

-- One staged object after another.
unfoldable pub stage_one : Text → Step Injected Done
stage_one n h = (ok done, record h { staging = add_name n h.staging })

unfoldable pub stage_all : Environment → Texts → Step Injected Done
stage_all env [] = gives done
stage_all env (n ∷ names) = at_point env (stage n) >>> (stage_one n >>> stage_all env names)

abbrev pub is_whole : Option Dir → Bool
is_whole none = false
is_whole (some d) = texts_eq d.names staged_names

-- `check_staged`, of which files are there; what is in them is an answer at its point.
unfoldable pub check_whole : Environment → Step Injected Done
check_whole env h = (
  if is_whole h.staging then ok done else err (fails (env.staging_path ++ bytes " does not exist")),
  h,
)

unfoldable pub check_staged : Environment → Step Injected Done
check_staged env = at_point env check_staged_point >>> check_whole env

-- Which start of a migration this is.
pub data Attempt : Type 0 where
  fresh interrupted : Attempt
  continued : Record → Attempt

-- The record that a start writes.
abbrev pub account_of : Attempt → Option Text → Option Text
account_of attempt (some account) = some account
account_of (continued r) none = r.enrolling_account
account_of fresh none = none
account_of interrupted none = none

abbrev pub record_of : Request → Attempt → Verified → Record
record_of request attempt verified = record {
  choice = request.choice;
  fingerprints = request.fingerprints;
  agent_id = verified.agent_id;
  key_fingerprint = verified.key_fingerprint;
  enrolling_account = account_of attempt verified.enrolling_account;
  files = verified.files;
  reversal_pending = false;
  copies_not_reached = [];
}

-- The directory and the record of a start, by which one it is.
unfoldable pub begin_staging : Environment → Attempt → Record → Step Injected Done
begin_staging env (continued old) r =
    at_point env write_record >>> (write_staged_record r >>> clear_staged)
begin_staging env fresh r =
    at_point env create_staging
    >>> (create_staging_step env >>> (at_point env write_record >>> write_staged_record r))
begin_staging env interrupted r =
    at_point env create_staging
    >>> (create_staging_step env >>> (at_point env write_record >>> write_staged_record r))

-- `record_and_stage`, of which the record is known beforehand.
unfoldable pub record_and_stage : Environment → Attempt → Record → Step Injected Done
record_and_stage env attempt r =
    begin_staging env attempt r >>> (stage_all env staged_names >>> check_staged env)
