-- ===== src/Version.antt =====
-- agent/cg-agent/src/version.rs: which text is a release version.
pub mod Grammar
mod Tests
use cyber_guard_enterprise.Prelude.{
  ℕ, suc, Bool, true, false, ◌&&◌, ◌||◌, [], ◌∷◌, Text, ltb, leb, ◌==◌, if◌then◌else◌,
}

-- `u8::is_ascii_digit`.
abbrev pub is_ascii_digit : ℕ → Bool
is_ascii_digit c = leb 48 c && leb c 57

-- The loop from one byte on, after so many dots, so many digits of the present number, and whether
-- that number began with a zero.
unfoldable pub scan : Text → ℕ → ℕ → Bool → Bool
scan [] dots digits leading_zero = dots == 2 && ltb 0 digits
scan (c ∷ s) dots digits leading_zero =
    let dotted = scan s (suc dots) 0 false in
    let counted = scan s dots (suc digits) (digits == 0 && c == 48) in
    if c == 46
    then (if digits == 0 || dots == 2 then false else dotted)
    else if is_ascii_digit c
    then (if leading_zero then false else counted)
    else false

unfoldable pub is_release_version : Text → Bool
is_release_version s = scan s 0 0 false
