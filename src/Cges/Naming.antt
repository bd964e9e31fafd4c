-- ===== src/Cges/Naming.antt =====
-- agent/cg-agent/src/cges/emit.rs, derive_process_name: an image's path and the name of its
-- process.
use cyber_guard_enterprise.Prelude.{
  ℕ, ◌≡◌, refl, sym, ap, ◌∙◌, ◌⊎◌, inl, inr, true, false, [], ◌∷◌, ◌++◌, append_assoc, append-nil,
  All, All-append, Text, Bool-cases,
}
use cyber_guard_enterprise.Cges.{is_separator, last_component, derive_process_name}

-- Empty, or ending in a separator.
abbrev pub IsFolder : Text → Type 0
IsFolder folder =
    (folder ≡ []) ⊎ ((init : Text) × (c : ℕ) × (folder ≡ init ++ c ∷ []) × (is_separator c ≡ true))

-- A path split into a folder and a component without a separator.
pub record Splits (path folder name : Text) : Type 0 where
  pub whole : path ≡ folder ++ name
  pub folded : IsFolder folder
  pub simple : All (λ c. is_separator c ≡ false) name

prepend-IsFolder :
    (seen folder : Text) (c : ℕ)
    → is_separator c ≡ true
    → IsFolder folder
    → IsFolder (seen ++ c ∷ folder)
prepend-IsFolder seen folder c separates (inl e) =
    inr (seen, c, ap (λ f. seen ++ c ∷ f) e, separates)
prepend-IsFolder seen folder c separates (inr (init, d, e, d_separates)) = inr (
  seen ++ c ∷ init,
  d,
  ap (λ f. seen ++ c ∷ f) e ∙ sym (append_assoc seen (c ∷ init) (d ∷ [])),
  d_separates,
)

last_component-Splits :
    (seen path : Text)
    → All (λ c. is_separator c ≡ false) seen
    → (folder : Text) × Splits (seen ++ path) folder (last_component seen path)
unfolding last_component
last_component-Splits seen [] simple =
    ([], record { whole = append-nil seen; folded = inl refl; simple = simple })
last_component-Splits seen (c ∷ path) simple = elim (Bool-cases (is_separator c)) [
  | inl separates ↦
      (let (folder, s) = last_component-Splits [] path tt in
        rw separates (
          seen ++ c ∷ folder,
          record {
            whole = ap (λ t. seen ++ c ∷ t) s.whole ∙ sym (append_assoc seen (c ∷ folder) _);
            folded = prepend-IsFolder seen folder c separates s.folded;
            simple = s.simple;
          },
        ))
  | inr inside ↦
      (let (folder, s) =
          last_component-Splits (seen ++ c ∷ []) path
            (All-append _ seen (c ∷ []) simple (inside, tt)) in
        rw inside (
          folder,
          record {
            whole = sym (append_assoc seen (c ∷ []) path) ∙ s.whole;
            folded = s.folded;
            simple = s.simple;
          },
        ))
]

-- Every image path is a folder, empty or ended by `\` or `/`, followed by the derived process name,
-- which holds no `\` and no `/`.
pub derive_process_name-Splits :
    (path : Text) → (folder : Text) × Splits path folder (derive_process_name path)
unfolding derive_process_name
derive_process_name-Splits path = last_component-Splits [] path tt
