-- ===== src/Paths/Tests.antt =====
-- Tests of the path translation, and the theorems about it at concrete inputs.
use cyber_guard_enterprise.Prelude.{◌≡◌, refl, List, [], ◌∷◌, bytes, Text, eq_ignore_ascii_case}
use cyber_guard_enterprise.Paths.{Entry, from_pairs, translate, entry_matches}
use cyber_guard_enterprise.Paths.Unresolved.{IsLog, logged, logged-IsLog}
use cyber_guard_enterprise.Paths.Translates.{translate-IsTranslated}
use cyber_guard_enterprise.Paths.Covered.{Trims, IsTranslated}

abbrev volumes : List Entry
volumes =
    (bytes "\\Device\\HarddiskVolume1\\", bytes "D:")
    ∷ (bytes "\\Device\\HarddiskVolume10", bytes "E:")
    ∷ []

translations :
    (translate (from_pairs volumes) (bytes "\\device\\harddiskvolume10\\x.exe") ≡ bytes "E:\\x.exe")
    × (translate (from_pairs volumes) (bytes "\\Device\\HarddiskVolume1") ≡ bytes "D:")
    × (translate (from_pairs volumes) (bytes "\\??\\UNC\\srv\\x") ≡ bytes "\\\\srv\\x")
    × (translate (from_pairs volumes) (bytes "cmd.exe") ≡ bytes "cmd.exe")
unfolding translate from_pairs entry_matches eq_ignore_ascii_case
translations = (refl, refl, refl, refl)

abbrev untranslated : List (Text × Text)
untranslated =
    (bytes "\\Device\\Mup\\a", bytes "\\Device\\Mup\\a")
    ∷ (bytes "\\Device\\Mup\\b", bytes "\\Device\\Mup\\b")
    ∷ (bytes "\\Device\\CdRom0\\c", bytes "\\Device\\CdRom0\\c")
    ∷ []

translate-IsTranslated_example :
    (entries : List Entry) × Trims volumes entries
    × IsTranslated entries
        (bytes "\\Device\\HarddiskVolume10\\x")
        (translate (from_pairs volumes) (bytes "\\Device\\HarddiskVolume10\\x"))
translate-IsTranslated_example =
    translate-IsTranslated volumes (bytes "\\Device\\HarddiskVolume10\\x")

-- Two paths of one volume and one of another, all left untranslated.
logged-IsLog_example : IsLog untranslated [] (logged untranslated [])
logged-IsLog_example = logged-IsLog untranslated []
