-- ===== src/Paths/Unresolved.antt =====
-- agent/cg-agent/src/paths.rs, UnresolvedPathLog: the device prefixes logged over a sequence of
-- rendered paths.
use cyber_guard_enterprise.Prelude.{
  ◌≡◌, sym, ap, subst, Option, ◌≢◌, ◌⊎◌, inl, inr, true, false, not, refl, All-map, text_eq_self,
  ◌||◌, List, [], ◌∷◌, none, some, Text, text_eq, text_eq_iff, starts_with, All, arith, Bool-cases,
}
use cyber_guard_enterprise.Paths.{Seen, contains, note, device_prefix, device_root}

abbrev pub prepend : Option Text → List Text → List Text
prepend none ts = ts
prepend (some t) ts = t ∷ ts

-- The prefixes logged over a sequence of (original, rendered) paths, in order.
unfoldable pub logged : List (Text × Text) → Seen → List Text
logged [] seen = []
logged ((original, rendered) ∷ paths) seen =
    let (seen', line) = note original rendered seen in prepend line (logged paths seen')

-- No two of these texts are equal.
abbrev pub AllDistinct : List Text → Type 0
AllDistinct [] = Unit {0}
AllDistinct (t ∷ ts) = All (λ u. u ≢ t) ts × AllDistinct ts

contains-false : (t u : Text) (seen : Seen) → contains t (u ∷ seen) ≡ false → t ≢ u
unfolding contains
contains-false t u seen h = ground (arith, text_eq_iff u t)

abbrev Fresh : Seen → Text → Type 0
Fresh seen t = contains t seen ≡ false

Fresh-tail :
    (u : Text) (seen : Seen) (ts : List Text) → All (Fresh (u ∷ seen)) ts → All (Fresh seen) ts
unfolding contains
Fresh-tail u seen [] h = tt
Fresh-tail u seen (t ∷ ts) h = (ground arith, Fresh-tail u seen ts h.1)

Fresh-ne :
    (u : Text) (seen : Seen) (ts : List Text) → All (Fresh (u ∷ seen)) ts → All (λ t. t ≢ u) ts
Fresh-ne u seen [] h = tt
Fresh-ne u seen (t ∷ ts) h = (contains-false t u seen h.0, Fresh-ne u seen ts h.1)

-- A path that the map left in its device form.
abbrev pub IsLeft : Text × Text → Type 0
IsLeft (original, rendered) = (original ≡ rendered) × (starts_with original device_root ≡ true)

-- `note` logs the prefix that it adds, of a path that was left; or nothing, where the path was not left
-- or its prefix was seen.
note-cases :
    (original rendered : Text) (seen : Seen)
    → ((note original rendered seen ≡ (seen, none))
        × (IsLeft (original, rendered) → contains (device_prefix original) seen ≡ true))
      ⊎ (IsLeft (original, rendered)
          × (contains (device_prefix original) seen ≡ false)
          × (note original rendered seen
              ≡ (device_prefix original ∷ seen, some (device_prefix original))))
unfolding note
note-cases original rendered seen =
    elim (Bool-cases (not (text_eq original rendered) || not (starts_with original device_root))) [
      | inl skip ↦ inl (
        rw skip refl,
        λ (same, device).
            absurd (ground (arith, skip, device, (text_eq_iff original rendered).1 same)),
      )
      | inr left ↦ elim (Bool-cases (contains (device_prefix original) seen)) [
        | inl old ↦ inl (rw (left, old) refl, λ l. old)
        | inr new ↦ inr (
          ((text_eq_iff original rendered).0 (ground (arith, left)), ground (arith, left)),
          new,
          rw (left, new) refl,
        )
      ]
    ]

-- None of these was seen, and no two of them are equal.
abbrev pub New : Seen → List Text → Type 0
New seen ts = All (λ t. contains t seen ≡ false) ts × AllDistinct ts

-- Some of these paths was left with this prefix.
pub data Leaves (t : Text) : List (Text × Text) → Type 0 where
  here :
      (original rendered : Text) (paths : List (Text × Text))
      → IsLeft (original, rendered)
      → device_prefix original ≡ t
      → Leaves t ((original, rendered) ∷ paths)
  later :
      (path : Text × Text) (paths : List (Text × Text)) → Leaves t paths → Leaves t (path ∷ paths)

-- The prefixes to log of some paths: those that one of them was left with and that were not seen.
pub record IsLog (paths : List (Text × Text)) (seen : Seen) (ts : List Text) : Type 0 where
  pub new : New seen ts
  pub left : All (λ t. Leaves t paths) ts
  pub whole : (t : Text) → Leaves t paths → (contains t seen ≡ true) ⊎ (contains t ts ≡ true)

-- What one path adds to the log.
then_logged : List (Text × Text) → Seen × Option Text → List Text
then_logged paths (seen', line) = prepend line (logged paths seen')

logged-New : (paths : List (Text × Text)) (seen : Seen) → New seen (logged paths seen)
unfolding logged then_logged
logged-New [] seen = (tt, tt)
logged-New ((original, rendered) ∷ paths) seen = elim (note-cases original rendered seen) [
  | inl (e, _) ↦ subst (New seen) (sym (ap (then_logged paths) e)) (logged-New paths seen)
  | inr (_, fresh, e) ↦
      let (new, distinct) = logged-New paths (device_prefix original ∷ seen) in
      subst (New seen) (sym (ap (then_logged paths) e)) (
        (fresh, Fresh-tail (device_prefix original) seen _ new),
        (Fresh-ne (device_prefix original) seen _ new, distinct),
      )
]

logged-Leaves :
    (paths : List (Text × Text)) (seen : Seen) → All (λ t. Leaves t paths) (logged paths seen)
unfolding logged then_logged
logged-Leaves [] seen = tt
logged-Leaves ((original, rendered) ∷ paths) seen = elim (note-cases original rendered seen) [
  | inl (e, _) ↦
      subst (All Left) (sym (ap (then_logged paths) e)) (more seen (logged-Leaves paths seen))
  | inr (left, _, e) ↦ subst (All Left) (sym (ap (then_logged paths) e)) (
    here original rendered paths left refl,
    more (device_prefix original ∷ seen) (logged-Leaves paths (device_prefix original ∷ seen)),
  )
]
  where
    Left : Text → Type 0
    Left t = Leaves t ((original, rendered) ∷ paths)

    more :
        (seen : Seen) → All (λ t. Leaves t paths) (logged paths seen) → All Left (logged paths seen)
    more seen h =
        All-map (λ t. Leaves t paths) Left (λ t. later (original, rendered) paths)
          (logged paths seen) h

-- A prefix that was seen, or is in the log.
abbrev Known : Text → Seen → List Text → Type 0
Known t seen ts = (contains t seen ≡ true) ⊎ (contains t ts ≡ true)

-- A prefix that is known after a path has been noted was known, or has been logged.
Known-later :
    (t u : Text) (seen : Seen) (ts : List Text) → Known t (u ∷ seen) ts → Known t seen (u ∷ ts)
unfolding contains
Known-later t u seen ts (inl h) = elim (Bool-cases (text_eq u t)) [
  | inl same ↦ inr (ground (arith, same))
  | inr other ↦ inl (ground (arith, other, h))
]
Known-later t u seen ts (inr h) = inr (ground (arith, h))

Known-own : (u : Text) (seen : Seen) (ts : List Text) → Known u seen (u ∷ ts)
unfolding contains
Known-own u seen ts = inr (ground (arith, text_eq_self u))

Leaves-Known :
    (paths : List (Text × Text)) (t : Text) (seen : Seen)
    → Leaves t paths
    → Known t seen (logged paths seen)
unfolding logged then_logged
Leaves-Known [] t seen there = elim there [ ]
Leaves-Known ((original, rendered) ∷ paths) t seen (here _ _ _ left e) =
    elim (note-cases original rendered seen) [
      | inl (_, old) ↦ inl (subst (λ u. contains u seen ≡ true) e (old left))
      | inr (_, _, noted) ↦ subst (Known t seen) (sym (ap (then_logged paths) noted)) (
          subst
            (λ u.
              Known u seen (device_prefix original ∷ logged paths (device_prefix original ∷ seen)))
            e (Known-own (device_prefix original) seen _))
    ]
Leaves-Known ((original, rendered) ∷ paths) t seen (later _ _ there) =
    elim (note-cases original rendered seen) [
      | inl (noted, _) ↦
          subst (Known t seen) (sym (ap (then_logged paths) noted))
            (Leaves-Known paths t seen there)
      | inr (_, _, noted) ↦ subst (Known t seen) (sym (ap (then_logged paths) noted)) (
          Known-later t (device_prefix original) seen _
            (Leaves-Known paths t (device_prefix original ∷ seen) there))
    ]

-- The prefixes logged over a sequence of rendered paths are those that one of them was left with and
-- that were not seen before, each once.
pub logged-IsLog : (paths : List (Text × Text)) (seen : Seen) → IsLog paths seen (logged paths seen)
logged-IsLog paths seen = record {
  new = logged-New paths seen;
  left = logged-Leaves paths seen;
  whole = λ t. Leaves-Known paths t seen;
}
