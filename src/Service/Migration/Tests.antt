-- ===== src/Service/Migration/Tests.antt =====
-- agent/cg-agent/src/service/migration.rs: a migration that is cut, resumed and reversed.
use cyber_guard_enterprise.Prelude.{
  List, map, eq_ignore_ascii_case, to_ascii_lowercase, ◌≡◌, refl, true, false, [], ◌∷◌, Option,
  none, some, bytes, text_eq, ◌⊎◌, subst,
}
use cyber_guard_enterprise.Prelude.Results.{ok, err}
use cyber_guard_enterprise.Service.Migration.Arguments.{remove, Texts, Request, insert}
use cyber_guard_enterprise.Service.Migration.Entries.{
  required_names, check_names_again, check_root_entries, root_loop, is_accepted, data_root_names,
  names_loop, take_name, known_name, check_required_names, check_appeared,
}
use cyber_guard_enterprise.Service.Migration.Host.{
  Record, Point, second_rename, rename_back, Injected, fails, crash, Dir, Host, Environment,
  Verified, committed_start, at_point, asks_for, identity_files, staged_names, is_console, any_name,
}
use cyber_guard_enterprise.Service.Migration.Route.Staging.{
  close_at, close_data_root_step, close_directories, remove_staging, delete_staging, with_state,
  cut_in_place, naming, contains, create_staging_step, write_staged_record, stage_one, stage_all,
  check_whole, check_staged, begin_staging, record_and_stage,
}
use cyber_guard_enterprise.Service.Migration.Route.{
  check_again, take_lock, rename_data_root, rename_legacy, rename_staging, marked, mark, reversed,
  renamed_back, reverse, second_done, second_step, commit, check_data_directories,
  discard_interrupted, stage_and_commit, verify_and_go_on, route, both_directories,
}
use cyber_guard_enterprise.Service.Migration.Start.{
  staged_record, check_recorded, completed, complete_commit_step, complete_or_reverse,
  match_recorded, between_recorded, between_read, between_the_renames, on_console, choose_route,
  prepare,
}
use cyber_guard_enterprise.Service.Migration.Phases.{After}
use cyber_guard_enterprise.Service.Migration.Starts.{prepare-Safe}
use cyber_guard_enterprise.Service.Migration.Passes.{Turn, starts}
use cyber_guard_enterprise.Service.Migration.Starts.Settled.{Kept, KeptEnds}
use cyber_guard_enterprise.Service.Migration.Recovers.{prepare_recovers}
use cyber_guard_enterprise.Service.Migration.Calm.{IsUnchanged, Names, calm}

abbrev names : Names
names = record {
  product_root = bytes "P";
  data_root_name = bytes "D";
  staging_name = bytes "S";
  legacy_name = bytes "L";
  restricted_names = [];
  root_listed = ok (bytes "D" ∷ bytes "s" ∷ []);
  data_root_listed = ok (
      bytes "Agent.toml"
      ∷ bytes "cert.pem"
      ∷ bytes "identity.json"
      ∷ bytes "key.dat"
      ∷ bytes "server-ca.pem"
      ∷ []);
}

abbrev request : Request
request = record { choice = remove; fingerprints = bytes "sha256:00" ∷ [] }

abbrev verified : Verified
verified = record {
  agent_id = bytes "018f";
  key_fingerprint = bytes "sha256:11";
  enrolling_account = none;
  files = map (λ name. (name, bytes "1:2")) required_names;
}

abbrev recorded : Record
recorded = record {
  choice = remove;
  fingerprints = bytes "sha256:00" ∷ [];
  agent_id = bytes "018f";
  key_fingerprint = bytes "sha256:11";
  enrolling_account = none;
  files = map (λ name. (name, bytes "1:2")) required_names;
  reversal_pending = false;
  copies_not_reached = [];
}

abbrev console_files : Texts
console_files = required_names

abbrev console : Host
console = record {
  data_root = some (record { closed = false; saved = none; names = console_files });
  staging = none;
  legacy = none;
}

abbrev staged : Dir
staged = record { closed = true; saved = some recorded; names = staged_names }

abbrev between_renames : Host
between_renames = record {
  data_root = none;
  staging = some staged;
  legacy = some (record { closed = true; saved = none; names = console_files });
}

abbrev migrated : Host
migrated = record {
  data_root = some staged;
  staging = none;
  legacy = some (record { closed = true; saved = none; names = console_files });
}

-- What goes wrong in a start: a crash between the renames, or a second rename and its reversal that
-- Windows refuses.
abbrev crashes : Point → Option Injected
crashes second_rename = some crash
crashes point = none

abbrev refuses : Point → Option Injected
refuses second_rename = some (fails (bytes "rename"))
refuses rename_back = some (fails (bytes "rename"))
refuses point = none

abbrev crashing : Environment
crashing = record (calm names verified) { at = crashes }

abbrev refusing : Environment
refusing = record (calm names verified) { at = refuses }

unchanged : IsUnchanged names verified
unfolding check_names_again check_root_entries root_loop is_accepted data_root_names names_loop
    take_name known_name check_required_names check_appeared eq_ignore_ascii_case to_ascii_lowercase
    text_eq
unchanged = refl

-- A name of another case is the same file's, a second one and a name of its own are not.
twice :
    names_loop (bytes "D") [] (bytes "cert.pem" ∷ bytes "CERT.pem" ∷ [])
    ≡ err (
        bytes
          "D holds CERT.pem, which is not the agent's; repair: an administrator who has checked that it is not the agent's removes it")
unfolding names_loop take_name known_name eq_ignore_ascii_case to_ascii_lowercase text_eq
twice = refl

-- A migration in one start; a crash between the renames; the start after it, which completes the
-- commit, also without arguments; and a reversal that stops, which is left marked.
runs :
    (prepare (calm names verified) (some request) console ≡ (ok committed_start, migrated))
    × ((prepare crashing (some request) console).1 ≡ between_renames)
    × (prepare (calm names verified) none between_renames ≡ (ok committed_start, migrated))
    × ((prepare refusing (some request) console).1 ≡ record between_renames {
      staging = some (record staged { saved = some (mark true recorded) });
    })
unfolding prepare check_again check_names_again check_root_entries root_loop is_accepted
    data_root_names names_loop take_name known_name check_required_names check_appeared
    eq_ignore_ascii_case to_ascii_lowercase is_console choose_route on_console route take_lock
    close_directories close_at close_data_root_step cut_in_place naming contains with_state at_point
    discard_interrupted delete_staging remove_staging verify_and_go_on stage_and_commit
    record_and_stage begin_staging create_staging_step write_staged_record stage_all stage_one
    check_staged check_whole text_eq commit rename_data_root rename_legacy second_step second_done
    rename_staging marked reverse renamed_back reversed both_directories check_data_directories
    between_the_renames between_read staged_record between_recorded match_recorded check_recorded
    complete_or_reverse complete_commit_step completed asks_for
runs = (refl, refl, refl, refl)

console_names : any_name identity_files console_files ≡ true
unfolding text_eq
console_names = refl

agrees : (r : Record) → ◌≡◌ {A = Option Record} (some recorded) (some r) → asks_for r request ≡ true
unfolding asks_for insert text_eq
agrees r same = let e : recorded ≡ r = cc in subst (λ r. asks_for r request ≡ true) e refl

-- A crash, and a start that commits and whose pass removes every copy.
abbrev turns : List Turn
turns =
    record { environment = crashing; request = some request; pass = none }
    ∷ record {
      environment = calm names verified;
      request = none;
      pass = some (record { legacy = none; not_reached = none });
    }
    ∷ []

prepare-Safe_example :
    After
      (Kept true console_files)
      (KeptEnds true console_files)
      (prepare (calm names verified) none (starts turns console))
prepare-Safe_example =
    prepare-Safe console_files turns (calm names verified) none console console_names (refl, tt)

prepare_recovers_example :
    let (ended, h') = prepare (calm names verified) (some request) between_renames in
    (ended ≡ ok committed_start)
    ⊎ ((prepare (calm names verified) (some request) h').0 ≡ ok committed_start)
prepare_recovers_example =
    prepare_recovers names verified request console_files between_renames unchanged console_names
      ((refl, refl), (refl, (recorded, refl), refl)) (tt, agrees)
