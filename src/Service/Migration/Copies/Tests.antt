-- ===== src/Service/Migration/Copies/Tests.antt =====
-- agent/cg-agent/src/service/migration.rs: passes over the old copies.
use cyber_guard_enterprise.Prelude.{
  ◌≡◌, ◌⊎◌, refl, Bool, true, false, [], ◌∷◌, none, some, bytes, text_eq, eq_ignore_ascii_case,
  to_ascii_lowercase,
}
use cyber_guard_enterprise.Prelude.Print.{to_radix, to_hex}
use cyber_guard_enterprise.Prelude.Results.{ok, err, done}
use cyber_guard_enterprise.Custody.Security.{Handle, shape_of, check_shape}
use cyber_guard_enterprise.Service.Migration.Arguments.{remove, Texts, text_lt}
use cyber_guard_enterprise.Service.Migration.Entries.{known_name}
use cyber_guard_enterprise.Service.Migration.Host.{Record}
use cyber_guard_enterprise.Service.Migration.Copies.{
  Copies, no_copies, Directory, check_copy, restrict_legacy_directory, restrict_known,
  restrict_copy, remove_copy, remove_legacy_directory, removal, chosen, take_copy, take_copies,
  restricted_first, removed_last, empty_directory, rewrite_record, pass, copies,
}
use cyber_guard_enterprise.Service.Migration.Copies.Reports.{IsAccount, copies-IsAccount}

abbrev recorded : Record
recorded = record {
  choice = remove;
  fingerprints = [];
  agent_id = bytes "018f";
  key_fingerprint = bytes "sha256:11";
  enrolling_account = none;
  files =
      (bytes "cert.pem", bytes "00000001-0000000000000002")
      ∷ (bytes "key.dat", bytes "00000001-0000000000000003")
      ∷ [];
  reversal_pending = false;
  copies_not_reached = [];
}

abbrev object : Bool → Handle
object is_directory = record {
  information = ok (record {
    is_reparse_point = false;
    is_directory = is_directory;
    number_of_links = 1;
    id = (1, 2);
  });
  security = err [];
  contents = err [];
}

-- Every object is the file that `cert.pem` was when it was checked.
abbrev legacy : Texts → Texts → Directory
legacy listed listed_again = record {
  root_record = ok (some recorded);
  is_counted = true;
  legacy_path = bytes "P\\L";
  at_restrict = none;
  opened = ok (object true);
  secured = ok done;
  listed = ok listed;
  at_copy = λ name. none;
  copy_opened = λ name. ok (object false);
  copy_secured = λ name. ok done;
  copy_reopened = λ name. ok (object false);
  copy_deleted = λ name. ok done;
  listed_again = ok listed_again;
  at_remove = none;
  reopened = ok (object true);
  deleted = ok done;
  at_rewrite = none;
  rewritten = ok done;
}

abbrev one_missed : Copies
one_missed = record {
  restricted = bytes "CERT.pem" ∷ [];
  removed = bytes "CERT.pem" ∷ [];
  not_reached = bytes "key.dat" ∷ [];
  directory_removed = false;
}

removes_all :
    copies (legacy (bytes "CERT.pem" ∷ []) [])
    ≡ ok (
      record {
        restricted = bytes "CERT.pem" ∷ [];
        removed = bytes "CERT.pem" ∷ [];
        not_reached = [];
        directory_removed = true;
      },
      none,
    )
unfolding copies pass restricted_first restrict_legacy_directory check_shape shape_of take_copies
    take_copy restrict_copy restrict_known known_name check_copy chosen removal remove_copy
    empty_directory removed_last remove_legacy_directory rewrite_record text_lt eq_ignore_ascii_case
    to_ascii_lowercase text_eq to_hex to_radix
removes_all = refl

-- The object called `key.dat` is not the one that was checked.
misses_one :
    copies (legacy (bytes "key.dat" ∷ bytes "CERT.pem" ∷ []) (bytes "key.dat" ∷ []))
    ≡ ok (one_missed, some (record recorded { copies_not_reached = bytes "key.dat" ∷ [] }))
unfolding copies pass restricted_first restrict_legacy_directory check_shape shape_of take_copies
    take_copy restrict_copy restrict_known known_name check_copy chosen removal remove_copy
    empty_directory removed_last remove_legacy_directory rewrite_record text_lt eq_ignore_ascii_case
    to_ascii_lowercase text_eq to_hex to_radix
misses_one = refl

copies-IsAccount_example :
    (((legacy (bytes "key.dat" ∷ bytes "CERT.pem" ∷ []) (bytes "key.dat" ∷ [])).is_counted ≡ false)
      × (one_missed ≡ no_copies)
      × (some (record recorded { copies_not_reached = bytes "key.dat" ∷ [] }) ≡ none))
    ⊎ IsAccount
        (legacy (bytes "key.dat" ∷ bytes "CERT.pem" ∷ []) (bytes "key.dat" ∷ []))
        recorded
        one_missed
        (some (record recorded { copies_not_reached = bytes "key.dat" ∷ [] }))
copies-IsAccount_example =
    copies-IsAccount (legacy (bytes "key.dat" ∷ bytes "CERT.pem" ∷ []) (bytes "key.dat" ∷ []))
      recorded one_missed (some (record recorded { copies_not_reached = bytes "key.dat" ∷ [] }))
      refl misses_one
