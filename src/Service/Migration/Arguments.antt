-- ===== src/Service/Migration/Arguments.antt =====
-- agent/cg-agent/src/service/migration.rs: what the start arguments ask for.
-- A `BTreeSet` of texts is their list in the order of their bytes, each once.
mod Words
pub mod Form
mod Tests
use cyber_guard_enterprise.Prelude.{
  ℕ, zero, suc, ◌≡◌, refl, Bool, true, false, ◌&&◌, ◌||◌, List, [], ◌∷◌, ◌++◌, Option, none, some,
  Text, bytes, length, leb, ltb, text_eq, ◌==◌, if◌then◌else◌,
}
use cyber_guard_enterprise.Prelude.Results.{Result, ok, err, ◌>>=◌}
use cyber_guard_enterprise.Config.Uuid.{is_lower_hex, all_hex}

pub data Choice : Type 0 where
  remove keep : Choice

abbrev pub Texts : Type 0
Texts = List Text

pub record Request : Type 0 where
  pub choice : Choice
  pub fingerprints : Texts

-- The order of `str`.
unfoldable pub text_lt : Text → Text → Bool
text_lt s [] = false
text_lt [] (d ∷ t) = true
text_lt (c ∷ s) (d ∷ t) = let rest = text_lt s t in ltb c d || (c == d && rest)

-- `BTreeSet::insert`.
unfoldable pub insert : Text → Texts → Texts
insert t [] = t ∷ []
insert t (u ∷ texts) =
    let rest = insert t texts in
    if text_lt t u then t ∷ u ∷ texts else if text_eq t u then u ∷ texts else u ∷ rest

abbrev pub invalid_arguments : Text → Text
invalid_arguments reason = bytes "cg-agent: invalid migration arguments: " ++ reason

-- `str::strip_prefix`, of the prefix and then the text.
unfoldable pub strip_prefix : Text → Text → Option Text
strip_prefix [] s = some s
strip_prefix (p ∷ prefix) [] = none
strip_prefix (p ∷ prefix) (c ∷ s) =
    let rest = strip_prefix prefix s in if p == c then rest else none

-- `is_fingerprint`.
unfoldable pub is_fingerprint : Text → Bool
is_fingerprint value = elim (strip_prefix (bytes "sha256:") value) [
  | none ↦ false
  | some digits ↦ length digits == 64 && all_hex digits
]

-- One start argument.
pub data Argument : Type 0 where
  choose : Choice → Argument
  trust : Text → Argument

abbrev pub migrate_legacy : Text
migrate_legacy = bytes "--migrate-legacy="

abbrev pub trust_anchor_sha256 : Text
trust_anchor_sha256 = bytes "--trust-anchor-sha256="

unfoldable pub parse_choice : Text → Result Text Argument
parse_choice value =
    if text_eq value (bytes "remove")
    then ok (choose remove)
    else if text_eq value (bytes "keep")
    then ok (choose keep)
    else err (invalid_arguments (bytes "--migrate-legacy is not remove or keep"))

unfoldable pub parse_trust : Text → Result Text Argument
parse_trust value =
    if is_fingerprint value
    then ok (trust value)
    else err (
        invalid_arguments
          (bytes "--trust-anchor-sha256 is not sha256: and 64 lowercase hexadecimal digits"))

unfoldable pub parse_argument : Text → Result Text Argument
parse_argument argument = elim (strip_prefix migrate_legacy argument) [
  | some value ↦ parse_choice value
  | none ↦ elim (strip_prefix trust_anchor_sha256 argument) [
    | some value ↦ parse_trust value
    | none ↦ err (
        invalid_arguments
          (bytes "a start argument is neither --migrate-legacy nor --trust-anchor-sha256"))
  ]
]

-- An argument that is read, and the loop over those that follow it.
unfoldable pub take_argument :
    Argument
    → Option Choice
    → Texts
    → (Option Choice → Texts → Result Text (Option Choice × Texts))
    → Result Text (Option Choice × Texts)
take_argument (choose c) none fingerprints rest = rest (some c) fingerprints
take_argument (choose c) (some given) fingerprints rest =
    err (invalid_arguments (bytes "--migrate-legacy is given more than once"))
take_argument (trust f) choice fingerprints rest = rest choice (insert f fingerprints)

-- The loop over the arguments, with the choice and the fingerprints so far.
unfoldable pub parse_loop : Texts → Option Choice → Texts → Result Text (Option Choice × Texts)
parse_loop [] choice fingerprints = ok (choice, fingerprints)
parse_loop (a ∷ arguments) choice fingerprints = parse_argument a >>= λ argument.
    take_argument argument choice fingerprints (λ c f. parse_loop arguments c f)

unfoldable pub requested : Option Choice × Texts → Result Text (Option Request)
requested (none, fingerprints) =
    err (invalid_arguments (bytes "--trust-anchor-sha256 is given without --migrate-legacy"))
requested (some choice, []) =
    err (invalid_arguments (bytes "--migrate-legacy is given without --trust-anchor-sha256"))
requested (some choice, f ∷ fingerprints) =
    ok (some (record { choice = choice; fingerprints = f ∷ fingerprints }))

unfoldable pub parse_start_arguments : Texts → Result Text (Option Request)
parse_start_arguments [] = ok none
parse_start_arguments (a ∷ arguments) = parse_loop (a ∷ arguments) none [] >>= requested
