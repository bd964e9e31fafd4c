-- ===== src/Paths/Covered.antt =====
-- agent/cg-agent/src/paths.rs: which prefix covers a path, and what the path is translated to, said of
-- the texts alone.
use cyber_guard_enterprise.Prelude.{
  ℕ, zero, suc, ◌≡◌, ◌≢◌, ◌≤◌, ◌⊎◌, Bool, true, false, List, [], ◌∷◌, ◌++◌, Text, All, length,
  eq_ignore_ascii_case, ◌==◌,
}
use cyber_guard_enterprise.Paths.{Entry, mup_prefix, unc_prefix}
use cyber_guard_enterprise.Paths.Longest.{IsOf}

-- A path is a prefix, in whatever case of its ASCII letters, and a rest.
pub record Begins (path prefix rest : Text) : Type 0 where
  pub head : Text
  pub parts : path ≡ head ++ rest
  pub long : length head ≡ length prefix
  pub same : eq_ignore_ascii_case head prefix ≡ true

-- The end of a path, or a separator.
pub data Separated : Text → Type 0 where
  end : Separated []
  separator : (c : ℕ) (s : Text) → c ≡ 92 → Separated (c ∷ s)

abbrev pub Covers : Text → Text → Text → Type 0
Covers path device rest = Begins path device rest × Separated rest

abbrev pub IsCovered : Text → Text → Type 0
IsCovered path device = (rest : Text) × Covers path device rest

abbrev pub separators : ℕ → Text
separators zero = []
separators (suc n) = 92 ∷ separators n

abbrev pub ends_separated : Text → Bool
ends_separated [] = false
ends_separated (c ∷ []) = c == 92
ends_separated (c ∷ d ∷ s) = ends_separated (d ∷ s)

-- A text without the separators at its end.
pub record IsTrim (device name : Text) : Type 0 where
  pub count : ℕ
  pub parts : device ≡ name ++ separators count
  pub trims : ends_separated name ≡ false

-- The pairs without the separators at the ends of their prefixes, and without those that have no other
-- prefix.
pub data Trims : List Entry → List Entry → Type 0 where
  trims_none : Trims [] []
  trims_away :
      (device drive : Text) (pairs es : List Entry)
      → IsTrim device []
      → Trims pairs es
      → Trims ((device, drive) ∷ pairs) es
  trims_to :
      (device name drive : Text) (pairs es : List Entry)
      → IsTrim device name
      → name ≢ []
      → Trims pairs es
      → Trims ((device, drive) ∷ pairs) ((name, drive) ∷ es)

-- A UNC path, in one of its two forms.
abbrev pub IsUnc : Text → Text → Type 0
IsUnc path rest = Begins path mup_prefix rest ⊎ Begins path unc_prefix rest

-- What becomes of a path: a UNC path begins with two separators; another one has a prefix that covers
-- it replaced by its drive, where none that covers it is longer; and it is itself where none does.
abbrev pub IsTranslated : List Entry → Text → Text → Type 0
IsTranslated entries path result =
    ((rest : Text) × IsUnc path rest × (result ≡ 92 ∷ 92 ∷ rest))
    ⊎ (((rest : Text) → ¬ IsUnc path rest)
        × (((All (λ (e : Entry). ¬ IsCovered path e.0) entries) × (result ≡ path))
            ⊎ ((e : Entry) × IsOf e entries
                × ((rest : Text) × Covers path e.0 rest × (result ≡ e.1 ++ rest))
                × All (λ (f : Entry). IsCovered path f.0 → length f.0 ≤ length e.0) entries)))
