-- ===== src/Service/Migration/Files.antt =====
-- agent/cg-agent/src/service/migration.rs: what is checked of the directories that are closed and of
-- each file of the console installation.
-- A handle is what Windows answers about the object behind it.
pub mod Private
pub mod Trusted
pub mod Checks
mod Tests
use cyber_guard_enterprise.Prelude.{
  ℕ, ◌*◌, ◌/◌, ◌%◌, ◌+◌, Bool, true, false, ◌&&◌, ◌||◌, not, List, [], ◌∷◌, ◌++◌, Option, none,
  some, Text, bytes, length, text_eq, leb, ◌==◌, if◌then◌else◌,
}
use cyber_guard_enterprise.Prelude.Results.{
  Result, ok, err, Done, done, ◌>>=◌, ◌>>◌, guard, map_err,
}
use cyber_guard_enterprise.Custody.{AllowEntry, owned_by, allow_entries}
use cyber_guard_enterprise.Custody.Security.{
  Sid, Sids, Principal, administrators, matches, any_matches, Information, Descriptor, Handle,
}
use cyber_guard_enterprise.Service.Migration.Arguments.{Texts}
use cyber_guard_enterprise.Service.Migration.Entries.{
  has_name, required_names, temporary, repair_entry, repair_temporary, repair_anew, Paths,
  in_directory, check_root_entries, data_root_names, check_required_names,
}
use cyber_guard_enterprise.Service.Migration.Host.{Injected, fails, answer, identity_files}
use cyber_guard_enterprise.Service.Migration.Route.Staging.{naming}

abbrev repair_link : Text
repair_link =
    bytes
      "repair: an administrator gives it owner SYSTEM and a protected DACL for SYSTEM and Administrators, so that no one else can link it again, then removes its other names"

abbrev repair_owner : Text
repair_owner =
    bytes
      "repair: after a restart, before that account signs in again, an elevated administrator of another account who has checked that the owner is the account that set up or enrolled the agent makes Administrators its owner, and gives a directory SYSTEM and Administrators alone, then starts the migration again; an owner that cannot be so confirmed means enrolling anew"

-- `MigrationCustody`, of its principals.
pub record MigrationCustody : Type 0 where
  pub service : Principal
  pub owners : List Principal
  pub trusted : List Principal

-- The mask has WRITE_DAC, WRITE_OWNER or GENERIC_ALL, its bits 18, 19 and 28.
abbrev pub lets_change : ℕ → Bool
lets_change mask = not ((mask / 262144) % 4 == 0) || not ((mask / 268435456) % 2 == 0)

-- The loop of `check_closable`.
unfoldable pub check_closable_entries :
    Sids → MigrationCustody → Text → List AllowEntry → Result Text Done
check_closable_entries sids custody path [] = ok done
check_closable_entries sids custody path (e ∷ entries) =
    guard (any_matches sids custody.trusted (some e.entry_sid) || not (lets_change e.entry_mask)) (
      path
      ++ bytes "'s DACL lets another account change it or take its ownership; "
      ++ repair_owner)
    >> check_closable_entries sids custody path entries

unfoldable pub check_closable : Sids → MigrationCustody → Descriptor → Text → Result Text Done
check_closable sids custody descriptor path = owned_by sids descriptor custody.owners >>= λ owned.
    guard owned (path ++ bytes " is owned by another account; " ++ repair_owner)
    >> (map_err (λ reason. reason ++ bytes "; " ++ repair_owner) (allow_entries descriptor path)
        >>= λ entries. elim entries [
          | none ↦ err (path ++ bytes " has no DACL; " ++ repair_owner)
          | some entries ↦ check_closable_entries sids custody path entries
        ])

-- Whom the DACL of an identity file allows.
pub record Allowed : Type 0 where
  pub allows_service : Bool
  pub allows_administrators : Bool
  pub others : List Sid

abbrev pub nobody : Allowed
nobody = record { allows_service = false; allows_administrators = false; others = [] }

unfoldable pub take_entry : Sids → MigrationCustody → AllowEntry → Allowed → Allowed
take_entry sids custody e allowed =
    if matches sids custody.service (some e.entry_sid)
    then record allowed { allows_service = true }
    else if matches sids administrators (some e.entry_sid)
    then record allowed { allows_administrators = true }
    else if has_name e.entry_sid allowed.others
    then allowed
    else record allowed { others = allowed.others ++ e.entry_sid ∷ [] }

unfoldable pub take_entries : Sids → MigrationCustody → List AllowEntry → Allowed → Allowed
take_entries sids custody [] allowed = allowed
take_entries sids custody (e ∷ entries) allowed =
    take_entries sids custody entries (take_entry sids custody e allowed)

-- `Vec::pop`, of the value.
abbrev pub pop : List Sid → Option Sid
pop [] = none
pop (s ∷ []) = some s
pop (s ∷ t ∷ sids) = pop (t ∷ sids)

unfoldable pub judge_allowed : Text → Allowed → Result Text (Option Sid)
judge_allowed path allowed =
    guard
      (allowed.allows_service
        && leb (length allowed.others) 1
        && not (allowed.allows_administrators && leb 1 (length allowed.others)))
      (path ++ bytes "'s DACL allows more than the service and one account; " ++ repair_anew)
    >> ok (pop allowed.others)

-- The end of `check_file`, for an identity file.
unfoldable pub check_identity_file :
    Sids → MigrationCustody → Descriptor → Text → Result Text (Option Sid)
check_identity_file sids custody descriptor path = allow_entries descriptor path >>= λ entries.
    elim entries [
      | none ↦ err (path ++ bytes " has no DACL; " ++ repair_anew)
      | some entries ↦ judge_allowed path (take_entries sids custody entries nobody)
    ]

abbrev repair : Text → Text → Text
repair name other = if text_eq name temporary then repair_temporary else other

abbrev pub FileId : Type 0
FileId = ℕ × ℕ

unfoldable pub check_file :
    Sids → MigrationCustody → Result Text Handle → Text → Text → Result Text (FileId × Option Sid)
check_file sids custody opened path name = opened >>= λ handle. handle.information >>= λ info.
    guard (not (info.is_reparse_point || info.is_directory))
      (path ++ bytes " is not a regular file; " ++ repair name repair_entry)
    >> (guard (info.number_of_links == 1)
          (path ++ bytes " is hard-linked; " ++ repair name repair_link)
        >> (handle.security >>= λ descriptor. owned_by sids descriptor custody.owners >>= λ owned.
            guard owned (path ++ bytes " is owned by another account; " ++ repair name repair_owner)
            >> ((if has_name name identity_files
                  then check_identity_file sids custody descriptor path
                  else ok none)
                >>= λ others. ok (info.id, others))))

-- What item 2.2 found.
pub record Checked : Type 0 where
  pub files : List (Text × FileId)
  pub enrolling_account : Option Sid

-- The account of one file, beside the one of those before it.
unfoldable pub agree : Text → Option Sid → Option Sid → Result Text (Option Sid)
agree path account none = ok account
agree path none (some other) = ok (some other)
agree path (some account) (some other) =
    guard (text_eq account other)
      (path ++ bytes " allows another account than the other identity files; " ++ repair_anew)
    >> ok (some other)

-- What a start is answered while it checks the files.
pub record Answers : Type 0 where
  pub root_entries : Result Text Texts
  pub is_case_sensitive : Result Text Bool
  pub data_root_entries : Result Text Texts
  pub at_check : Text → Option Injected
  pub opened : Text → Result Text Handle

unfoldable pub check_each :
    Sids → MigrationCustody → Paths → Answers → Texts → Checked → Result Injected Checked
check_each sids custody paths answers [] checked = ok checked
check_each sids custody paths answers (name ∷ names) checked =
    map_err (naming (in_directory paths.data_root name)) (answer (answers.at_check name))
    >> (map_err fails
          (check_file sids custody (answers.opened name) (in_directory paths.data_root name) name)
        >>= λ found.
            map_err fails
              (agree (in_directory paths.data_root name) checked.enrolling_account found.1)
            >>= λ account. check_each sids custody paths answers names (record {
              files = checked.files ++ (name, found.0) ∷ [];
              enrolling_account = account;
            }))

-- `REQUIRED.iter().position`, or the number of the names.
abbrev pub position_in : Texts → Text → ℕ
position_in [] name = 0
position_in (n ∷ names) name =
    let rest = position_in names name in if text_eq n name then 0 else 1 + rest

-- `sort_by_key` by that position, which is stable.
abbrev pub insert_name : Text → Texts → Texts
insert_name name [] = name ∷ []
insert_name name (n ∷ names) =
    let rest = insert_name name names in
    if leb (position_in required_names name) (position_in required_names n)
    then name ∷ n ∷ names
    else n ∷ rest

abbrev pub sort_names : Texts → Texts
sort_names [] = []
sort_names (name ∷ names) = insert_name name (sort_names names)

-- The checks of `check_what_is_there` before the files themselves: the names, in their order.
unfoldable pub names_to_check : Paths → Answers → Bool → Result Text Texts
names_to_check paths answers continued =
    check_root_entries paths continued answers.root_entries
    >> (answers.is_case_sensitive >>= λ sensitive.
        guard (not sensitive) (
          paths.data_root
          ++ bytes " has case-sensitive lookup on; repair: an administrator turns it off")
        >> (data_root_names paths answers.data_root_entries >>= λ names.
            check_required_names paths names required_names >> ok (sort_names names)))

abbrev pub no_files : Checked
no_files = record { files = []; enrolling_account = none }

-- `check_what_is_there`; the caller adds the state of the installation to a failure's line.
unfoldable pub check_what_is_there :
    Sids → MigrationCustody → Paths → Answers → Bool → Result Injected Checked
check_what_is_there sids custody paths answers continued =
    map_err fails (names_to_check paths answers continued) >>= λ names.
    check_each sids custody paths answers names no_files
