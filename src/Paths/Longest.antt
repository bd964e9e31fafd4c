-- ===== src/Paths/Longest.antt =====
-- agent/cg-agent/src/paths.rs: the prefix that gives a device path its drive.
use cyber_guard_enterprise.Prelude.{
  ◌≤◌, ◌≡◌, refl, ◌∙◌, ◌⊎◌, inl, inr, Bool, if◌then◌else◌, true, false, List, [], ◌∷◌, ◌++◌, Text,
  All, arith, length, drop, leb, Bool-cases,
}
use cyber_guard_enterprise.Paths.{
  Entry, trimmed, insert_entry, sort_entries, from_pairs, entry_matches, translate_device,
}

-- Each prefix is at least as long as those behind it.
abbrev pub IsDescending : List Entry → Type 0
IsDescending [] = Unit {0}
IsDescending (e ∷ es) = All (λ (f : Entry). length f.0 ≤ length e.0) es × IsDescending es

insert_entry-All :
    (P : Entry → Type 0) (e : Entry) (es : List Entry) → P e → All P es → All P (insert_entry e es)
unfolding insert_entry
insert_entry-All P e [] p h = (p, tt)
insert_entry-All P e (f ∷ fs) p h = elim (Bool-cases (leb (length f.0) (length e.0))) [
  | inl before ↦ rw before (p, (h.0, h.1))
  | inr after ↦ rw after (h.0, insert_entry-All P e fs p h.1)
]

insert_entry-All_back :
    (P : Entry → Type 0) (e : Entry) (es : List Entry) → All P (insert_entry e es) → P e × All P es
unfolding insert_entry
insert_entry-All_back P e [] h = h
insert_entry-All_back P e (f ∷ fs) h = elim (Bool-cases (leb (length f.0) (length e.0))) [
  | inl before ↦ let h' : P e × (P f × All P fs) = rw before at h in (h'.0, (h'.1.0, h'.1.1))
  | inr after ↦
      let h' : P f × All P (insert_entry e fs) = rw after at h in
      let (p, hs) = insert_entry-All_back P e fs h'.1 in (p, (h'.0, hs))
]

sort_entries-All_back : (P : Entry → Type 0) (es : List Entry) → All P (sort_entries es) → All P es
unfolding sort_entries
sort_entries-All_back P [] h = h
sort_entries-All_back P (e ∷ es) h =
    let (p, hs) = insert_entry-All_back P e (sort_entries es) h in
    (p, sort_entries-All_back P es hs)

All-mono :
    (P Q : Entry → Type 0) (es : List Entry) → ((e : Entry) → P e → Q e) → All P es → All Q es
All-mono P Q [] f h = tt
All-mono P Q (e ∷ es) f h = (f e h.0, All-mono P Q es f h.1)

insert_entry-IsDescending :
    (e : Entry) (es : List Entry) → IsDescending es → IsDescending (insert_entry e es)
unfolding insert_entry
insert_entry-IsDescending e [] h = (tt, tt)
insert_entry-IsDescending e (f ∷ fs) h = elim (Bool-cases (leb (length f.0) (length e.0))) [
  | inl before ↦ rw before (((ground arith), All-mono _ _ fs (λ g p. ground arith) h.0), h)
  | inr after ↦
      rw after (insert_entry-All _ e fs (ground arith) h.0, insert_entry-IsDescending e fs h.1)
]

sort_entries-IsDescending : (es : List Entry) → IsDescending (sort_entries es)
unfolding sort_entries
sort_entries-IsDescending [] = tt
sort_entries-IsDescending (e ∷ es) =
    insert_entry-IsDescending e (sort_entries es) (sort_entries-IsDescending es)

-- An entry is one of these.
abbrev pub IsOf : Entry → List Entry → Type 0
IsOf e [] = ⊥
IsOf e (f ∷ fs) = (e ≡ f) ⊎ IsOf e fs

insert_entry-IsOf_back :
    (g e : Entry) (es : List Entry) → IsOf g (insert_entry e es) → (g ≡ e) ⊎ IsOf g es
unfolding insert_entry
insert_entry-IsOf_back g e [] h = h
insert_entry-IsOf_back g e (f ∷ fs) h =
    by (leb (length f.0) (length e.0)) (insert_entry-IsOf_back g e fs) h
  where
    by :
        (b : Bool)
        → (IsOf g (insert_entry e fs) → (g ≡ e) ⊎ IsOf g fs)
        → IsOf g (if b then e ∷ f ∷ fs else f ∷ insert_entry e fs)
        → (g ≡ e) ⊎ IsOf g (f ∷ fs)
    by true rest h = h
    by false rest (inl same) = inr (inl same)
    by false rest (inr h) = beside (rest h)
      where
        beside : (g ≡ e) ⊎ IsOf g fs → (g ≡ e) ⊎ IsOf g (f ∷ fs)
        beside (inl same) = inl same
        beside (inr h) = inr (inr h)

sort_entries-IsOf_back : (g : Entry) (es : List Entry) → IsOf g (sort_entries es) → IsOf g es
unfolding sort_entries
sort_entries-IsOf_back g [] h = h
sort_entries-IsOf_back g (e ∷ es) h =
    by (insert_entry-IsOf_back g e (sort_entries es) h) (sort_entries-IsOf_back g es)
  where
    by :
        (g ≡ e) ⊎ IsOf g (sort_entries es)
        → (IsOf g (sort_entries es) → IsOf g es)
        → IsOf g (e ∷ es)
    by (inl same) rest = inl same
    by (inr h) rest = inr (rest h)

-- What the translation of a path by these entries must be.
abbrev pub Longest : List Entry → Text → Text → Type 0
Longest entries path result =
    (All (λ (e : Entry). entry_matches path e.0 ≡ false) entries × (result ≡ path))
    ⊎ ((e : Entry) × IsOf e entries
        × (entry_matches path e.0 ≡ true)
        × (result ≡ e.1 ++ drop (length e.0) path)
        × All (λ (f : Entry). entry_matches path f.0 ≡ true → length f.0 ≤ length e.0) entries)

translate_hit :
    (e : Entry) (es : List Entry) (path : Text)
    → entry_matches path e.0 ≡ true
    → translate_device (e ∷ es) path ≡ e.1 ++ drop (length e.0) path
unfolding translate_device
translate_hit e es path h = rw h

translate_miss :
    (e : Entry) (es : List Entry) (path : Text)
    → entry_matches path e.0 ≡ false
    → translate_device (e ∷ es) path ≡ translate_device es path
unfolding translate_device
translate_miss e es path h = rw h

translate_device-Longest :
    (entries : List Entry) (path : Text)
    → IsDescending entries
    → Longest entries path (translate_device entries path)
translate_device-Longest [] path h = inl (tt, unfold translate_device in refl)
translate_device-Longest (e ∷ es) path h = elim (Bool-cases (entry_matches path e.0)) [
  | inl hit ↦ inr (
    e,
    inl refl,
    hit,
    translate_hit e es path hit,
    (λ m. omega arith, All-mono _ _ es (λ f le m. le) h.0),
  )
  | inr miss ↦ elim (translate_device-Longest es path h.1) [
    | inl (absent, same) ↦ inl ((miss, absent), translate_miss e es path miss ∙ same)
    | inr (f, there, hit, same, longest) ↦
        inr (f, inr there, hit, translate_miss e es path miss ∙ same, (λ m. cc, longest))
  ]
]

-- By a map built from pairs, a path has one of the longest prefixes that match it replaced.
pub translate_device-from_pairs :
    (pairs : List Entry) (path : Text)
    → Longest (trimmed pairs) path (translate_device (from_pairs pairs) path)
unfolding from_pairs
translate_device-from_pairs pairs path =
    elim (translate_device-Longest (sort_entries (trimmed pairs)) path
      (sort_entries-IsDescending (trimmed pairs))) [
        | inl (absent, same) ↦ inl (sort_entries-All_back _ (trimmed pairs) absent, same)
        | inr (f, there, hit, same, longest) ↦ inr (
          f,
          sort_entries-IsOf_back f (trimmed pairs) there,
          hit,
          same,
          sort_entries-All_back _ (trimmed pairs) longest,
        )
      ]
