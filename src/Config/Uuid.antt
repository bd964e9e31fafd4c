-- ===== src/Config/Uuid.antt =====
-- agent/cg-agent/src/config.rs: which text is a UUIDv7.
pub mod Form
use cyber_guard_enterprise.Prelude.{
  ℕ, zero, suc, ◌+◌, ◌≡◌, ◌≢◌, ◌↔◌, refl, sym, ap, subst, ◌∙◌, Bool, true, false, not, ◌&&◌, ◌||◌,
  List, [], ◌∷◌, ◌++◌, All, Text, length, leb, ◌==◌, if◌then◌else◌, arith, Bool-cases, inl, inr,
  starts_with, bytes,
}

-- `u8::is_ascii_hexdigit`, and not in upper case.
abbrev pub is_lower_hex : ℕ → Bool
is_lower_hex c = leb 48 c && leb c 57 || leb 97 c && leb c 102

abbrev pub all_hex : Text → Bool
all_hex [] = true
all_hex (c ∷ s) = is_lower_hex c && all_hex s

abbrev pub onto_first : ℕ → List Text → List Text
onto_first c [] = (c ∷ []) ∷ []
onto_first c (part ∷ parts) = (c ∷ part) ∷ parts

-- `s.split('-')`.
unfoldable pub split : Text → List Text
split [] = [] ∷ []
split (c ∷ s) = let parts = split s in if c == 45 then [] ∷ parts else onto_first c parts

-- The loop over the parts and their lengths, which `zip` ends with the shorter list.
unfoldable pub parts_fit : List Text → List ℕ → Bool
parts_fit [] lengths = true
parts_fit (p ∷ parts) [] = true
parts_fit (p ∷ parts) (n ∷ lengths) = length p == n && all_hex p && parts_fit parts lengths

abbrev pub expected_lengths : List ℕ
expected_lengths = 8 ∷ 4 ∷ 4 ∷ 4 ∷ 12 ∷ []

-- `parts[n]`, where there is one.
abbrev pub part : ℕ → List Text → Text
part n [] = []
part zero (p ∷ parts) = p
part (suc n) (p ∷ parts) = part n parts

abbrev pub is_variant : Text → Bool
is_variant [] = false
is_variant (c ∷ s) = c == 56 || c == 57 || c == 97 || c == 98

unfoldable pub is_uuidv7 : Text → Bool
unfolding split parts_fit starts_with
is_uuidv7 s =
    let parts = split s in
    length parts == 5
    && parts_fit parts expected_lengths
    && starts_with (part 2 parts) (bytes "7")
    && is_variant (part 3 parts)
