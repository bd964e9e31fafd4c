-- ===== src/Version/Tests.antt =====
-- Tests of the release version, and the theorem about it at a concrete input.
use cyber_guard_enterprise.Prelude.{◌≡◌, ◌↔◌, refl, true, false, bytes}
use cyber_guard_enterprise.Version.{is_release_version, scan}
use cyber_guard_enterprise.Version.Grammar.{IsDotted, is_release_version-Dotted}

accepted :
    (is_release_version (bytes "10.0.3") ≡ true)
    × (is_release_version (bytes "1.02.3") ≡ false)
    × (is_release_version (bytes "1.2") ≡ false)
    × (is_release_version (bytes "1.2.3-dev") ≡ false)
unfolding is_release_version scan
accepted = (refl, refl, refl, refl)

is_release_version-Dotted_example :
    (is_release_version (bytes "1.2.3") ≡ true) ↔ IsDotted 2 (bytes "1.2.3")
is_release_version-Dotted_example = is_release_version-Dotted (bytes "1.2.3")
