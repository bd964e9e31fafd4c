-- ===== src/Custody/Tests.antt =====
-- agent/cg-agent/src/custody.rs: objects that pass the checks and objects that fail them.
use cyber_guard_enterprise.Prelude.{
  ℕ, ◌≡◌, refl, true, false, List, [], ◌∷◌, none, some, bytes, text_eq, starts_with,
}
use cyber_guard_enterprise.Prelude.Results.{Result, ok, err, done, Holds}
use cyber_guard_enterprise.Custody.{
  check_if_exists, check, refused, read_through, read_checked_within, failure, bounded, cancelled,
  timed_out, open_raw, open_existing,
}
use cyber_guard_enterprise.Custody.Security.{
  Sid, Sids, sid, system_only, configuration, matches, any_matches, directory, Ace, Descriptor,
  Handle, shape_of, check_shape, check_ace, check_aces, check_protected, check_dacl,
  check_descriptor,
}
use cyber_guard_enterprise.Custody.Secure.{Fails, Reads, read_checked_within-Judged}

abbrev local_system : Sid
local_system = 1 ∷ 1 ∷ 0 ∷ 0 ∷ 0 ∷ 0 ∷ 0 ∷ 5 ∷ 18 ∷ 0 ∷ 0 ∷ 0 ∷ []

abbrev everyone : Sid
everyone = 1 ∷ 1 ∷ 0 ∷ 0 ∷ 0 ∷ 0 ∷ 0 ∷ 1 ∷ 0 ∷ 0 ∷ 0 ∷ 0 ∷ []

abbrev builtin_administrators : Sid
builtin_administrators = 1 ∷ 2 ∷ 0 ∷ 0 ∷ 0 ∷ 0 ∷ 0 ∷ 5 ∷ 32 ∷ 0 ∷ 0 ∷ 0 ∷ 32 ∷ 2 ∷ 0 ∷ 0 ∷ []

abbrev sids : Sids
sids = record {
  is_valid = λ s. starts_with s (1 ∷ []);
  is_local_system = λ s. text_eq s local_system;
  is_administrators = λ s. text_eq s builtin_administrators;
  equal = text_eq;
}

abbrev entry : ℕ → Sid → Result ℕ Ace
entry ace_type s =
    ok (record { ace_type = ace_type; inherit_only = false; mask = 2032127; ace_sid = s })

abbrev descriptor : List (Result ℕ Ace) → Descriptor
descriptor aces = record {
  owner = ok (some local_system);
  dacl = ok (some aces);
  is_protected = ok true;
}

abbrev handle : ℕ → Handle
handle links = record {
  information = ok (record {
    is_reparse_point = false;
    is_directory = false;
    number_of_links = links;
    id = (7, 11);
  });
  security = ok (descriptor (entry 1 everyone ∷ entry 0 local_system ∷ []));
  contents = ok (bytes "key");
}

passes :
    check_descriptor sids
      (descriptor (entry 1 everyone ∷ entry 0 local_system ∷ []))
      (bytes "key.dat")
      system_only
    ≡ ok done
unfolding check_descriptor check_dacl check_protected check_aces check_ace any_matches matches
    starts_with text_eq
passes = refl

refuses_everyone :
    check_descriptor sids (descriptor (entry 0 everyone ∷ [])) (bytes "key.dat") configuration
    ≡ err (bytes "key.dat allows access to a principal other than SYSTEM and Administrators")
unfolding check_descriptor check_dacl check_protected check_aces check_ace any_matches matches
    starts_with text_eq
refuses_everyone = refl

-- A SID shorter than its number of subauthorities says is no principal's.
refuses_short_sid :
    matches sids (sid (1 ∷ 2 ∷ 0 ∷ 0 ∷ 0 ∷ 0 ∷ 0 ∷ 5 ∷ 18 ∷ [])) (some local_system) ≡ false
unfolding matches starts_with
refuses_short_sid = refl

reads_key :
    read_checked_within sids (ok (some (handle 1))) (bytes "key.dat") system_only
    ≡ ok (some (bytes "key"))
unfolding read_checked_within read_through shape_of check_descriptor check_dacl check_protected
    check_aces check_ace any_matches matches starts_with text_eq
reads_key = refl

refuses_linked :
    read_checked_within sids (ok (some (handle 2))) (bytes "key.dat") system_only
    ≡ err (refused (bytes "key.dat is hard-linked"))
unfolding read_checked_within read_through shape_of
refuses_linked = refl

refuses_absent :
    check sids (ok none) (bytes "identity") directory system_only
    ≡ err (bytes "identity does not exist")
unfolding check check_if_exists
refuses_absent = refl

refuses_file :
    check sids (ok (some (handle 1))) (bytes "identity") directory system_only
    ≡ err (bytes "identity is not a directory")
unfolding check check_if_exists check_shape shape_of
refuses_file = refl

waits_then_gives_up :
    bounded {A = ℕ} (bytes "key.dat") timed_out (λ tries. timed_out)
    ≡ err (bytes "key.dat is in use by another process")
unfolding bounded cancelled
waits_then_gives_up = refl

nothing_there : open_existing (bytes "key.dat") (err 2) ≡ ok none
unfolding open_existing open_raw
nothing_there = refl

sharing_violation :
    open_existing (bytes "key.dat") (err 32) ≡ err (bytes "key.dat is in use by another process")
unfolding open_existing open_raw failure
sharing_violation = refl

read_checked_within-Judged_example :
    Holds
      (Fails sids (ok (some (handle 1))) (bytes "key.dat") system_only)
      (Reads sids (ok (some (handle 1))) (bytes "key.dat") system_only)
      (read_checked_within sids (ok (some (handle 1))) (bytes "key.dat") system_only)
read_checked_within-Judged_example =
    read_checked_within-Judged sids (ok (some (handle 1))) (bytes "key.dat") system_only
