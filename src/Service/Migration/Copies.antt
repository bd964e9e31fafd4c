-- ===== src/Service/Migration/Copies.antt =====
-- agent/cg-agent/src/service/migration.rs: one pass over the old copies in the legacy directory.
-- What Windows answers of the directory and of each object in it is an argument.
pub mod Objects
pub mod Extends
pub mod Taken
pub mod Reports
mod Tests
use cyber_guard_enterprise.Prelude.{
  ℕ, zero, suc, ◌-◌, Bool, true, false, ◌||◌, not, List, [], ◌∷◌, ◌++◌, Option, none, some, Text,
  bytes, length, text_eq, ◌==◌, if◌then◌else◌,
}
use cyber_guard_enterprise.Prelude.Results.{
  Result, ok, err, Done, ◌>>=◌, ◌>>◌, guard, ok_or, map_err,
}
use cyber_guard_enterprise.Prelude.Print.{to_hex}
use cyber_guard_enterprise.Custody.Security.{Handle, directory, check_shape}
use cyber_guard_enterprise.Service.Migration.Arguments.{Choice, remove, keep, Texts, text_lt}
use cyber_guard_enterprise.Service.Migration.Entries.{known_name, file_name, in_directory}
use cyber_guard_enterprise.Service.Migration.Host.{
  Record, Injected, fails, crash, Stop, answer, texts_eq,
}
use cyber_guard_enterprise.Service.Migration.Files.{FileId}

-- `Copies`.
pub record Copies : Type 0 where
  pub restricted : Texts
  pub removed : Texts
  pub not_reached : Texts
  pub directory_removed : Bool

-- `Copies::default`.
abbrev pub no_copies : Copies
no_copies = record { restricted = []; removed = []; not_reached = []; directory_removed = false }

-- What the pass is answered, of an object by its name: at its point, of the open to restrict it and
-- of that, and of the open to delete it and of that.
pub record Directory : Type 0 where
  pub root_record : Result Stop (Option Record)
  pub is_counted : Bool
  pub legacy_path : Text
  pub at_restrict : Option Injected
  pub opened : Result Text Handle
  pub secured : Result Text Done
  pub listed : Result Text Texts
  pub at_copy : Text → Option Injected
  pub copy_opened : Text → Result Text Handle
  pub copy_secured : Text → Result Text Done
  pub copy_reopened : Text → Result Text Handle
  pub copy_deleted : Text → Result Text Done
  pub listed_again : Result Text Texts
  pub at_remove : Option Injected
  pub reopened : Result Text Handle
  pub deleted : Result Text Done
  pub at_rewrite : Option Injected
  pub rewritten : Result Text Done

-- `Display` of a file's identity: two numbers in hexadecimal digits, padded.
abbrev pub zeros : ℕ → Text
zeros zero = []
zeros (suc n) = 48 ∷ zeros n

abbrev pub padded : ℕ → Text → Text
padded width digits = zeros (width - length digits) ++ digits

abbrev pub show_id : FileId → Text
show_id (volume, index) = padded 8 (to_hex volume) ++ 45 ∷ padded 16 (to_hex index)

abbrev pub id_of : Text → List (Text × Text) → Option Text
id_of name [] = none
id_of name ((n, id) ∷ files) =
    let rest = id_of name files in if text_eq n name then some id else rest

abbrev pub expected : Option Text → Record → Option Text
expected none r = none
expected (some known) r = id_of known r.files

abbrev pub is_expected : Option Text → Text → Bool
is_expected none id = false
is_expected (some own) id = text_eq own id

unfoldable pub check_copy : Handle → Text → Text → Record → Result Text Done
check_copy handle path name r = handle.information >>= λ info.
    guard (not (info.is_reparse_point || info.is_directory))
      (path ++ bytes " is not a regular file")
    >> (guard (is_expected (expected (known_name name) r) (show_id info.id))
          (path ++ bytes " is not the file the migration checked")
        >> guard (info.number_of_links == 1) (path ++ bytes " is hard-linked"))

unfoldable pub restrict_legacy_directory : Directory → Result Injected Done
restrict_legacy_directory d =
    answer d.at_restrict
    >> map_err fails
        (d.opened >>= λ handle. check_shape handle d.legacy_path directory >> d.secured)

-- `restrict_copy`, by the product's name for the object.
unfoldable pub restrict_known : Directory → Text → Record → Option Text → Result Injected Done
restrict_known d name r none =
    err (fails (in_directory d.legacy_path name ++ bytes " is not an object the migration checked"))
restrict_known d name r (some known) =
    answer (d.at_copy known)
    >> map_err fails (
        d.copy_opened name >>= λ handle.
        check_copy handle (in_directory d.legacy_path name) name r >> d.copy_secured name)

unfoldable pub restrict_copy : Directory → Text → Record → Result Injected Done
restrict_copy d name r = restrict_known d name r (known_name name)

unfoldable pub remove_copy : Directory → Text → Record → Result Text Done
remove_copy d name r = d.copy_reopened name >>= λ handle.
    check_copy handle (in_directory d.legacy_path name) name r >> d.copy_deleted name

unfoldable pub remove_legacy_directory : Directory → Result Injected Done
remove_legacy_directory d =
    answer d.at_remove
    >> map_err fails
        (d.reopened >>= λ handle. check_shape handle d.legacy_path directory >> d.deleted)

abbrev pub missed : Text → Copies → Copies
missed name report = record report { not_reached = report.not_reached ++ name ∷ [] }

abbrev pub cut_short : Text
cut_short = bytes "the pass was cut short"

-- A copy that was restricted, and is removed if that is the choice.
unfoldable pub removal : Text → Result Text Done → Copies → Copies
removal name (ok d) report = record report { removed = report.removed ++ name ∷ [] }
removal name (err reason) report = missed name report

unfoldable pub chosen : Directory → Text → Record → Choice → Copies → Copies
chosen d name r keep report = report
chosen d name r remove report = removal name (remove_copy d name r) report

unfoldable pub take_copy :
    Directory → Text → Record → Result Injected Done → Copies → Result Text Copies
take_copy d name r (ok x) report =
    ok (chosen d name r r.choice (record report { restricted = report.restricted ++ name ∷ [] }))
take_copy d name r (err crash) report = err cut_short
take_copy d name r (err (fails reason)) report = ok (missed name report)

-- The loop over the names.
unfoldable pub take_copies : Directory → Record → Texts → Copies → Result Text Copies
take_copies d r [] report = ok report
take_copies d r (name ∷ names) report =
    take_copy d name r (restrict_copy d name r) report >>= λ report. take_copies d r names report

-- `sort`.
abbrev pub place : Text → Texts → Texts
place name [] = name ∷ []
place name (n ∷ names) =
    let rest = place name names in if text_lt n name then n ∷ rest else name ∷ n ∷ names

abbrev pub sort : Texts → Texts
sort [] = []
sort (name ∷ names) = place name (sort names)

-- The legacy directory, at the start of the pass and, once it is empty, at its end.
unfoldable pub restricted_first : Directory → Result Injected Done → Result Text (Bool × Copies)
restricted_first d (ok x) = ok (true, no_copies)
restricted_first d (err crash) = err cut_short
restricted_first d (err (fails reason)) = ok (false, missed (file_name d.legacy_path) no_copies)

unfoldable pub removed_last : Directory → Copies → Result Injected Done → Result Text Copies
removed_last d report (ok x) = ok (record report { directory_removed = true })
removed_last d report (err crash) = err cut_short
removed_last d report (err (fails reason)) = ok (missed (file_name d.legacy_path) report)

abbrev pub is_nothing : Texts → Bool
is_nothing [] = true
is_nothing (n ∷ names) = false

unfoldable pub empty_directory : Directory → Choice → Bool → Copies → Result Text Copies
empty_directory d remove true report = d.listed_again >>= λ names.
    if is_nothing names then removed_last d report (remove_legacy_directory d) else ok report
empty_directory d remove false report = ok report
empty_directory d keep restricted report = ok report

-- The record as the pass leaves it, if it writes one.
unfoldable pub rewrite_record : Directory → Record → Copies → Option Record
rewrite_record d r report =
    if texts_eq r.copies_not_reached report.not_reached
    then none
    else (elim (answer d.at_rewrite >> map_err fails d.rewritten) [
      | ok x ↦ some (record r { copies_not_reached = report.not_reached })
      | err cut ↦ none
    ])

unfoldable pub pass : Directory → Record → Result Text (Copies × Option Record)
pass d r = restricted_first d (restrict_legacy_directory d) >>= λ first. d.listed >>= λ names.
    take_copies d r (sort names) first.1 >>= λ taken.
    empty_directory d r.choice first.0 taken >>= λ report. ok (report, rewrite_record d r report)

-- `copies`: its report, and the record that it writes, if it does.
unfoldable pub copies : Directory → Result Text (Copies × Option Record)
copies d = map_err (λ stop. bytes "the record cannot be read") d.root_record >>= λ found.
    ok_or found (bytes "the data root holds no record") >>= λ r.
    if d.is_counted then pass d r else ok (no_copies, none)
