-- ===== src/Paths.antt =====
-- agent/cg-agent/src/paths.rs: a kernel device path in its Win32 form.
-- Text is bytes. `path.get(..prefix.len())` fails inside a character too, but bytes that equal a
-- whole prefix, of whole characters, end where a character ends. `from_system` asks Windows.
pub mod Covered
pub mod Longest
pub mod Translates
pub mod Unresolved
mod Tests
use cyber_guard_enterprise.Prelude.{
  ℕ, zero, suc, Bool, true, false, not, ◌&&◌, ◌||◌, List, [], ◌∷◌, ◌++◌, Option, none, some, Text,
  bytes, is_empty, text_eq, starts_with, eq_ignore_ascii_case, length, take, drop, leb, ◌==◌,
  if◌then◌else◌,
}

-- A device prefix and its drive.
abbrev pub Entry : Type 0
Entry = Text × Text

abbrev pub backslash : ℕ
backslash = 92

abbrev pub mup_prefix : Text
mup_prefix = bytes "\\Device\\Mup\\"

abbrev pub unc_prefix : Text
unc_prefix = bytes "\\??\\UNC\\"

abbrev pub device_root : Text
device_root = bytes "\\Device\\"

-- `trim_end_matches('\\')`.
unfoldable pub trim_end : Text → Text
trim_end [] = []
trim_end (c ∷ s) = let t = trim_end s in if is_empty t && c == backslash then [] else c ∷ t

-- Each pair trimmed, those with a prefix left.
unfoldable pub trimmed : List Entry → List Entry
unfolding trim_end
trimmed [] = []
trimmed ((device, drive) ∷ pairs) =
    let name = trim_end device in
    if is_empty name then trimmed pairs else (name, drive) ∷ trimmed pairs

-- The stable sort, longest prefix first: a pair goes before the later ones of its length.
unfoldable pub insert_entry : Entry → List Entry → List Entry
insert_entry e [] = e ∷ []
insert_entry e (f ∷ fs) =
    if leb (length f.0) (length e.0) then e ∷ f ∷ fs else f ∷ insert_entry e fs

unfoldable pub sort_entries : List Entry → List Entry
unfolding insert_entry
sort_entries [] = []
sort_entries (e ∷ es) = insert_entry e (sort_entries es)

unfoldable pub from_pairs : List Entry → List Entry
unfolding trimmed sort_entries
from_pairs pairs = sort_entries (trimmed pairs)

unfoldable pub strip_prefix_ignore_ascii_case : Text → Text → Option Text
strip_prefix_ignore_ascii_case path prefix =
    if leb (length prefix) (length path) && eq_ignore_ascii_case (take (length prefix) path) prefix
    then some (drop (length prefix) path)
    else none

-- `rest.is_empty() || rest.starts_with('\\')`.
abbrev pub at_separator : Text → Bool
at_separator [] = true
at_separator (c ∷ s) = c == backslash

abbrev pub matched : Option Text → Bool
matched none = false
matched (some rest) = at_separator rest

-- Whether an entry's prefix is one of the path, up to a separator.
unfoldable pub entry_matches : Text → Text → Bool
unfolding strip_prefix_ignore_ascii_case
entry_matches path device = matched (strip_prefix_ignore_ascii_case path device)

unfoldable pub translate_device : List Entry → Text → Text
translate_device [] path = path
translate_device ((device, drive) ∷ entries) path =
    if entry_matches path device
    then drive ++ drop (length device) path
    else translate_device entries path

abbrev pub unc_or : Option Text → Text → Text
unc_or none other = other
unc_or (some rest) other = backslash ∷ backslash ∷ rest

unfoldable pub translate : List Entry → Text → Text
unfolding strip_prefix_ignore_ascii_case translate_device
translate entries path =
    unc_or (strip_prefix_ignore_ascii_case path mup_prefix)
      (unc_or (strip_prefix_ignore_ascii_case path unc_prefix) (translate_device entries path))

-- `splitn(4, '\\').take(3).join("\\")`: the text before the third separator.
unfoldable pub components : ℕ → Text → Text
components n [] = []
components zero (c ∷ s) = if c == backslash then [] else c ∷ components zero s
components (suc n) (c ∷ s) = c ∷ components (if c == backslash then n else suc n) s

unfoldable pub device_prefix : Text → Text
unfolding components
device_prefix original = components 2 original

-- `UnresolvedPathLog`: the prefixes seen.
abbrev pub Seen : Type 0
Seen = List Text

unfoldable pub contains : Text → Seen → Bool
contains t [] = false
contains t (s ∷ seen) = text_eq s t || contains t seen

-- `note`: the log after it, and the prefix that it logged.
unfoldable pub note : Text → Text → Seen → Seen × Option Text
note original rendered seen =
    if not (text_eq original rendered) || not (starts_with original device_root)
    then (seen, none)
    else (let prefix = device_prefix original in
        if contains prefix seen then (seen, none) else (prefix ∷ seen, some prefix))
