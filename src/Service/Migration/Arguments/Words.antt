-- ===== src/Service/Migration/Arguments/Words.antt =====
-- agent/cg-agent/src/service/migration.rs: a start argument read for what it says, and what it says read back.
use cyber_guard_enterprise.Prelude.{
  ◌≡◌, ◌≢◌, ◌↔◌, refl, sym, ap, subst, ◌∙◌, true, List, [], ◌∷◌, ◌++◌, none, some, Text, bytes,
  length, text_eq, text_eq_iff, arith, Bool-cases, Option-cases, inl, inr,
}
use cyber_guard_enterprise.Prelude.Results.{ok}
use cyber_guard_enterprise.Config.Uuid.{all_hex}
use cyber_guard_enterprise.Service.Migration.Arguments.{
  Choice, remove, keep, Texts, Request, insert, strip_prefix, is_fingerprint, Argument, choose,
  trust, migrate_legacy, trust_anchor_sha256, parse_choice, parse_trust, parse_argument,
}

-- `sha256:` and 64 lower-case hexadecimal digits.
abbrev pub IsFingerprint : Text → Type 0
IsFingerprint f =
    (digits : Text) × (f ≡ bytes "sha256:" ++ digits)
    × (length digits ≡ 64)
    × (all_hex digits ≡ true)

abbrev pub word : Choice → Text
word remove = bytes "remove"
word keep = bytes "keep"

-- The choices and the fingerprints that a list of arguments gives, in their order.
pub data Gives : Texts → List Choice → Texts → Type 0 where
  nothing : Gives [] [] []
  a_choice :
      (c : Choice) (arguments : Texts) (cs : List Choice) (fs : Texts)
      → Gives arguments cs fs
      → Gives ((migrate_legacy ++ word c) ∷ arguments) (c ∷ cs) fs
  a_fingerprint :
      (f : Text) (arguments : Texts) (cs : List Choice) (fs : Texts)
      → IsFingerprint f
      → Gives arguments cs fs
      → Gives ((trust_anchor_sha256 ++ f) ∷ arguments) cs (f ∷ fs)

abbrev pub insert_all : Texts → Texts → Texts
insert_all [] set = set
insert_all (f ∷ fs) set = insert_all fs (insert f set)

-- One choice, and at least one fingerprint, of which the request has the set.
pub record Asks (arguments : Texts) (request : Request) : Type 0 where
  pub fs : Texts
  pub gives : Gives arguments (request.choice ∷ []) fs
  pub some_fingerprint : fs ≢ []
  pub collected : request.fingerprints ≡ insert_all fs []

strip_prefix-append : (p s r : Text) → (strip_prefix p s ≡ some r) ↔ (s ≡ p ++ r)
unfolding strip_prefix
strip_prefix-append [] s r = ground arith
strip_prefix-append (c ∷ p) [] r = ground arith
strip_prefix-append (c ∷ p) (d ∷ s) r = ground (arith, strip_prefix-append p s r)

is_fingerprint-IsFingerprint : (f : Text) → (is_fingerprint f ≡ true) ↔ IsFingerprint f
unfolding is_fingerprint
is_fingerprint-IsFingerprint f = elim (Option-cases (strip_prefix (bytes "sha256:") f)) [
  | inl other ↦ (
    λ h. absurd (ground (arith, h, other)),
    λ (digits, e, long, hex).
        absurd (ground (arith, other, (strip_prefix-append (bytes "sha256:") f digits).1 e)),
  )
  | inr (digits, there) ↦ (
    λ h. (
      digits,
      (strip_prefix-append (bytes "sha256:") f digits).0 there,
      ground (arith, h, there),
      ground (arith, h, there),
    ),
    λ (digits', e, long, hex).
        ground (arith, there, long, hex, (strip_prefix-append (bytes "sha256:") f digits').1 e),
  )
]

-- What an argument says.
abbrev pub Reads : Text → Argument → Type 0
Reads a (choose c) = a ≡ migrate_legacy ++ word c
Reads a (trust f) = (a ≡ trust_anchor_sha256 ++ f) × IsFingerprint f

parse_choice-word :
    (value : Text) (x : Argument)
    → parse_choice value ≡ ok x
    → (c : Choice) × (x ≡ choose c) × (value ≡ word c)
unfolding parse_choice
parse_choice-word value x h = elim (Bool-cases (text_eq value (bytes "remove"))) [
  | inl yes_ ↦ (remove, ground (arith, h, yes_), (text_eq_iff value (bytes "remove")).0 yes_)
  | inr other ↦ elim (Bool-cases (text_eq value (bytes "keep"))) [
    | inl yes_ ↦ (keep, ground (arith, h, yes_, other), (text_eq_iff value (bytes "keep")).0 yes_)
    | inr neither ↦ absurd (ground (arith, h, other, neither))
  ]
]

parse_trust-IsFingerprint :
    (value : Text) (x : Argument)
    → parse_trust value ≡ ok x
    → (x ≡ trust value) × IsFingerprint value
unfolding parse_trust
parse_trust-IsFingerprint value x h = elim (Bool-cases (is_fingerprint value)) [
  | inl fits ↦ (ground (arith, h, fits), (is_fingerprint-IsFingerprint value).0 fits)
  | inr other ↦ absurd (ground (arith, h, other))
]

choice-Reads :
    (a value : Text) (x : Argument)
    → a ≡ migrate_legacy ++ value
    → parse_choice value ≡ ok x
    → Reads a x
choice-Reads a value x e h =
    let (c, same, spelt) = parse_choice-word value x h in
    subst (Reads a) (sym same) (e ∙ ap (λ v. migrate_legacy ++ v) spelt)

trust-Reads :
    (a value : Text) (x : Argument)
    → a ≡ trust_anchor_sha256 ++ value
    → parse_trust value ≡ ok x
    → Reads a x
trust-Reads a value x e h =
    let (same, fits) = parse_trust-IsFingerprint value x h in subst (Reads a) (sym same) (e, fits)

pub parse_argument-Reads : (a : Text) (x : Argument) → parse_argument a ≡ ok x → Reads a x
unfolding parse_argument
parse_argument-Reads a x h = elim (Option-cases (strip_prefix migrate_legacy a)) [
  | inr (value, there) ↦
      choice-Reads a value x ((strip_prefix-append migrate_legacy a value).0 there)
        (ground (arith, h, there))
  | inl other ↦ elim (Option-cases (strip_prefix trust_anchor_sha256 a)) [
    | inr (value, there) ↦
        trust-Reads a value x ((strip_prefix-append trust_anchor_sha256 a value).0 there)
          (ground (arith, h, other, there))
    | inl neither ↦ absurd (ground (arith, h, other, neither))
  ]
]

parse_choice_of_word : (c : Choice) → parse_choice (word c) ≡ ok (choose c)
unfolding parse_choice text_eq
parse_choice_of_word remove = refl
parse_choice_of_word keep = refl

differs : (f : Text) → strip_prefix migrate_legacy (trust_anchor_sha256 ++ f) ≡ none
unfolding strip_prefix
differs f = refl

trusts : (f : Text) → IsFingerprint f → parse_trust f ≡ ok (trust f)
unfolding parse_trust
trusts f fits = rw ((is_fingerprint-IsFingerprint f).1 fits) refl

pub Reads-parse_argument : (a : Text) (x : Argument) → Reads a x → parse_argument a ≡ ok x
unfolding parse_argument strip_prefix
Reads-parse_argument a (choose c) e =
    rw ((strip_prefix-append migrate_legacy a (word c)).1 e) (parse_choice_of_word c)
Reads-parse_argument a (trust f) (e, fits) =
    let other : strip_prefix migrate_legacy a ≡ none =
      ap (strip_prefix migrate_legacy) e ∙ differs f in
    rw (other, (strip_prefix-append trust_anchor_sha256 a f).1 e) (trusts f fits)
