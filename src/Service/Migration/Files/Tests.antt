-- ===== src/Service/Migration/Files/Tests.antt =====
-- agent/cg-agent/src/service/migration.rs: files that pass the checks and files that fail them.
use cyber_guard_enterprise.Prelude.{
  ℕ, ◌≡◌, ◌++◌, refl, true, false, [], ◌∷◌, map, none, some, Text, bytes, text_eq,
  eq_ignore_ascii_case, to_ascii_lowercase, if◌then◌else◌,
}
use cyber_guard_enterprise.Prelude.Results.{Result, ok, err, is_ok}
use cyber_guard_enterprise.Custody.{owned_by, allowing, allow_entries}
use cyber_guard_enterprise.Custody.Security.{
  Sid, Sids, system, administrators, matches, any_matches, Ace, Handle,
}
use cyber_guard_enterprise.Service.Migration.Entries.{
  repair_anew, Paths, required_names, check_root_entries, root_loop, is_accepted, data_root_names,
  names_loop, take_name, known_name, check_required_names,
}
use cyber_guard_enterprise.Service.Migration.Host.{fails}
use cyber_guard_enterprise.Service.Migration.Files.{
  MigrationCustody, take_entry, take_entries, judge_allowed, check_identity_file, check_file,
  Checked, agree, Answers, check_each, names_to_check, check_what_is_there, check_closable,
  check_closable_entries,
}
use cyber_guard_enterprise.Service.Migration.Files.Checks.{IsChecked, check_what_is_there-IsChecked}

abbrev sids : Sids
sids = record {
  is_valid = λ s. true;
  is_local_system = λ s. text_eq s (18 ∷ []);
  is_administrators = λ s. text_eq s (32 ∷ []);
  equal = text_eq;
}

abbrev custody : MigrationCustody
custody = record {
  service = system;
  owners = system ∷ administrators ∷ [];
  trusted = system ∷ administrators ∷ [];
}

abbrev paths : Paths
paths = record { product_root = bytes "P"; data_root = bytes "P\\D"; staging = bytes "P\\S" }

abbrev allows : Sid → Result ℕ Ace
allows s = ok (record { ace_type = 0; inherit_only = false; mask = 2032127; ace_sid = s })

abbrev enrolled : Sid → Handle
enrolled account = record {
  information =
      ok (record {
        is_reparse_point = false;
        is_directory = false;
        number_of_links = 1;
        id = (1, 2);
      });
  security = ok (record {
    owner = ok (some (32 ∷ []));
    dacl = ok (some (allows (18 ∷ []) ∷ allows account ∷ []));
    is_protected = ok true;
  });
  contents = ok [];
}

abbrev answers : (Text → Sid) → Answers
answers account = record {
  root_entries = ok (bytes "d" ∷ []);
  is_case_sensitive = ok false;
  data_root_entries = ok (
      bytes "cert.pem"
      ∷ bytes "identity.json"
      ∷ bytes "key.dat"
      ∷ bytes "Server-CA.pem"
      ∷ bytes "agent.toml"
      ∷ []);
  at_check = λ name. none;
  opened = λ name. ok (enrolled (account name));
}

abbrev checked : Checked
checked = record {
  files = map (λ name. (name, (1, 2))) required_names;
  enrolling_account = some (100 ∷ []);
}

checks : check_what_is_there sids custody paths (answers (λ name. 100 ∷ [])) false ≡ ok checked
unfolding check_what_is_there names_to_check check_root_entries root_loop is_accepted
    data_root_names names_loop take_name known_name check_required_names check_each check_file
    owned_by check_identity_file allow_entries allowing take_entries take_entry judge_allowed agree
    any_matches matches eq_ignore_ascii_case to_ascii_lowercase text_eq
checks = refl

-- `key.dat` allows another account than `cert.pem`, and is told of.
refuses :
    check_what_is_there sids custody paths
      (answers (λ name. if text_eq name (bytes "key.dat") then 101 ∷ [] else 100 ∷ []))
      false
    ≡ err (
        fails (
          bytes "P\\D\\key.dat allows another account than the other identity files; "
          ++ repair_anew))
unfolding check_what_is_there names_to_check check_root_entries root_loop is_accepted
    data_root_names names_loop take_name known_name check_required_names check_each check_file
    owned_by check_identity_file allow_entries allowing take_entries take_entry judge_allowed agree
    any_matches matches eq_ignore_ascii_case to_ascii_lowercase text_eq
refuses = refl

-- An account that may change the DACL of a directory keeps it from being closed.
refuses_closing :
    is_ok (
      check_closable sids custody
        (record {
          owner = ok (some (18 ∷ []));
          dacl = ok (some (allows (100 ∷ []) ∷ []));
          is_protected = ok true;
        })
        (bytes "P"))
    ≡ false
unfolding check_closable check_closable_entries owned_by allow_entries allowing any_matches matches
    text_eq
refuses_closing = refl

check_what_is_there-IsChecked_example :
    IsChecked sids custody paths (answers (λ name. 100 ∷ [])) checked
check_what_is_there-IsChecked_example =
    check_what_is_there-IsChecked sids custody paths (answers (λ name. 100 ∷ [])) false checked
      checks
