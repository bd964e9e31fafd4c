-- ===== src/Service/Migration/Entries.antt =====
-- agent/cg-agent/src/service/migration.rs: the names that the product's directories may hold.
-- What `custody::entries` lists of a directory, or why it cannot, is an argument.
use cyber_guard_enterprise.Prelude.{
  Bool, true, false, ◌&&◌, ◌||◌, not, [], ◌∷◌, ◌++◌, map, Option, none, some, Text, bytes, text_eq,
  to_ascii_lowercase, eq_ignore_ascii_case, ◌==◌, if◌then◌else◌,
}
use cyber_guard_enterprise.Prelude.Results.{Result, ok, err, Done, done, ◌>>=◌, ◌>>◌, guard}
use cyber_guard_enterprise.Service.Migration.Arguments.{Texts}

abbrev pub has_name : Text → Texts → Bool
has_name t [] = false
has_name t (n ∷ names) = text_eq t n || has_name t names

-- `REQUIRED`, and `TEMPORARY`.
abbrev pub required_names : Texts
required_names =
    bytes "agent.toml"
    ∷ bytes "server-ca.pem"
    ∷ bytes "cert.pem"
    ∷ bytes "key.dat"
    ∷ bytes "identity.json"
    ∷ []

abbrev pub temporary : Text
temporary = bytes "agent.toml.hygiene-tmp"

abbrev pub repair_entry : Text
repair_entry =
    bytes "repair: an administrator who has checked that it is not the agent's removes it"

abbrev pub repair_temporary : Text
repair_temporary =
    bytes "repair: an administrator deletes it, since it holds at most a consumed token"

abbrev pub repair_anew : Text
repair_anew =
    bytes
      "repair: an administrator keeps the files aside, removes the CyberGuard directory and installs anew with a new token, the old agent removed on the server"

-- The first of the names that is the entry but for ASCII case.
abbrev pub find_name : Text → Texts → Option Text
find_name entry [] = none
find_name entry (n ∷ names) =
    let rest = find_name entry names in if eq_ignore_ascii_case n entry then some n else rest

unfoldable pub known_name : Text → Option Text
known_name entry = find_name entry (required_names ++ temporary ∷ [])

-- `file_name`, of a path whose separator is `\`.
abbrev pub last_part : Text → Text → Text
last_part [] part = part
last_part (c ∷ s) part = last_part s (if c == 92 then s else part)

abbrev pub file_name : Text → Text
file_name path = last_part path path

-- Where the migration finds its directories.
pub record Paths : Type 0 where
  pub product_root : Text
  pub data_root : Text
  pub staging : Text

-- `Path::join`.
abbrev pub in_directory : Text → Text → Text
in_directory path name = path ++ 92 ∷ name

-- The reason for an entry that is not the agent's.
abbrev pub foreign_entry : Text → Text → Text
foreign_entry path entry =
    path ++ bytes " holds " ++ entry ++ bytes ", which is not the agent's; " ++ repair_entry

unfoldable pub is_accepted : Paths → Bool → Text → Bool
is_accepted paths staging entry =
    eq_ignore_ascii_case entry (file_name paths.data_root)
    || (staging && eq_ignore_ascii_case entry (file_name paths.staging))

-- The loop of `check_root_entries`, with the names seen before.
unfoldable pub root_loop : Paths → Bool → Texts → Texts → Result Text Done
root_loop paths staging seen [] = ok done
root_loop paths staging seen (entry ∷ entries) =
    guard (is_accepted paths staging entry && not (has_name (map to_ascii_lowercase entry) seen))
      (foreign_entry paths.product_root entry)
    >> root_loop paths staging (map to_ascii_lowercase entry ∷ seen) entries

unfoldable pub check_root_entries : Paths → Bool → Result Text Texts → Result Text Done
check_root_entries paths staging listed = listed >>= λ entries. root_loop paths staging [] entries

unfoldable pub take_name : Text → Texts → Text → Option Text → Result Text Texts
take_name path names entry none = err (foreign_entry path entry)
take_name path names entry (some name) =
    guard (not (has_name name names)) (foreign_entry path entry) >> ok (names ++ name ∷ [])

-- The loop of `data_root_names`, with the names found before.
unfoldable pub names_loop : Text → Texts → Texts → Result Text Texts
names_loop path names [] = ok names
names_loop path names (entry ∷ entries) =
    take_name path names entry (known_name entry) >>= λ names. names_loop path names entries

unfoldable pub data_root_names : Paths → Result Text Texts → Result Text Texts
data_root_names paths listed = listed >>= λ entries. names_loop paths.data_root [] entries

-- `REQUIRED`'s names, each of which must be there.
unfoldable pub check_required_names : Paths → Texts → Texts → Result Text Done
check_required_names paths names [] = ok done
check_required_names paths names (r ∷ required) =
    guard (has_name r names)
      (r ++ bytes " is missing from " ++ paths.data_root ++ bytes "; " ++ repair_anew)
    >> check_required_names paths names required

-- The names that were not there when the files were checked.
unfoldable pub check_appeared : Paths → Texts → Texts → Result Text Done
check_appeared paths checked [] = ok done
check_appeared paths checked (n ∷ names) =
    guard (has_name n checked) (
      in_directory paths.data_root n
      ++ bytes " appeared after the check; "
      ++ (if text_eq n temporary then repair_temporary else repair_entry))
    >> check_appeared paths checked names

-- `check_names_again`, by the names of the files that were checked.
unfoldable pub check_names_again :
    Paths → (root_entries data_root_entries : Result Text Texts) → Texts → Result Text Done
check_names_again paths root_entries data_root_entries checked =
    check_root_entries paths true root_entries
    >> (data_root_names paths data_root_entries >>= λ names.
        check_appeared paths checked names >> check_required_names paths names required_names)
