-- ===== src/Service/Rotation/Log/Shift.antt =====
-- agent/cg-agent/src/service/rotation.rs: the archives, and their text from the oldest on, while
-- they are shifted.
use cyber_guard_enterprise.Prelude.{
  ℕ, zero, suc, ◌≡◌, refl, sym, ap, subst, ◌∙◌, ◌⊎◌, inl, inr, Bool, true, false, [], ◌∷◌, ◌++◌,
  append_assoc, append-nil, Option, none, some, Text, length, arith, Bool-cases, Option-cases,
}
use mathlib.Core.Option
use cyber_guard_enterprise.Prelude.Fallible.{subst_some}
use cyber_guard_enterprise.Service.Rotation.Log.{
  Archives, content, first_free, remove_at, rename_at, attempt, make_free, shift, or_last,
  make_room, Failures,
}

-- The archives' text from the oldest on.
unfoldable pub archive_text : Archives → Text
archive_text [] = []
archive_text (place ∷ places) = archive_text places ++ content place

-- Place `n` is there and empty.
abbrev pub FreeAt : ℕ → Archives → Type 0
FreeAt n [] = ⊥
FreeAt zero (place ∷ places) = place ≡ none
FreeAt (suc n) (place ∷ places) = FreeAt n places

-- A change of the archives that keeps their text and number, and frees place `n`.
pub record Frees (n : ℕ) (places changed : Archives) : Type 0 where
  pub text : archive_text changed ≡ archive_text places
  pub number : length changed ≡ length places
  pub freed : FreeAt n changed

pub map-some {ℓ κ} :
    {A : Type ℓ} {B : Type κ} (f : A → B) (o : Option A) {b : B}
    → Option.map f o ≡ some b
    → (a : A) × (o ≡ some a) × (f a ≡ b)
map-some f none e = cc
map-some f (some a) e = (a, refl, cc)

rename_at-Frees :
    (n : ℕ) (places : Archives) {changed : Archives}
    → FreeAt (suc n) places
    → rename_at n places ≡ some changed
    → Frees n places changed
unfolding rename_at archive_text
rename_at-Frees n [] free e = absurd free
rename_at-Frees zero (none ∷ places) free e = cc
rename_at-Frees zero (some t ∷ []) free e = absurd free
rename_at-Frees zero (some t ∷ place ∷ places) free e =
    subst_some (Frees 0 (some t ∷ place ∷ places)) e (record {
      text = rw free (
          append-nil (archive_text places ++ t)
          ∙ ap (λ x. x ++ t) (sym (append-nil (archive_text places))));
      number = refl;
      freed = refl;
    })
rename_at-Frees (suc n) (place ∷ places) free e =
    let (changed, p, q) = map-some (λ ps. place ∷ ps) (rename_at n places) e in
    let f = rename_at-Frees n places free p in
    subst (Frees (suc n) (place ∷ places)) q (record {
      text = ap (λ t. t ++ content place) f.text;
      number = ap suc f.number;
      freed = f.freed;
    })

-- What holds of an attempt, done or not.
pub record Kept (n : ℕ) (places : Archives) (result : Bool × Archives) : Type 0 where
  pub text : archive_text result.1 ≡ archive_text places
  pub number : length result.1 ≡ length places
  pub freed : result.0 ≡ true → FreeAt n result.1

attempt-Kept :
    (n : ℕ) (fails : Bool) (places : Archives) (changed : Option Archives)
    → ((c : Archives) → changed ≡ some c → Frees n places c)
    → Kept n places (attempt fails places changed)
attempt-Kept n fails places none h = record { text = refl; number = refl; freed = λ e. absurd cc }
attempt-Kept n true places (some c) h = record {
  text = refl;
  number = refl;
  freed = λ e. absurd cc;
}
attempt-Kept n false places (some c) h =
    let f = h c refl in record { text = f.text; number = f.number; freed = λ e. f.freed }

pub shift-Kept :
    (moves : ℕ → Bool) (n : ℕ) (places : Archives)
    → FreeAt n places
    → Kept 0 places (shift moves n places)
unfolding shift
shift-Kept moves zero places free = record { text = refl; number = refl; freed = λ e. free }
shift-Kept moves (suc n) places free =
    let a =
      attempt-Kept n (moves n) places (rename_at n places)
        (λ c e. rename_at-Frees n places free e) in
    elim (Bool-cases (attempt (moves n) places (rename_at n places)).0) [
      | inl moved ↦
          (let s =
              shift-Kept moves n (attempt (moves n) places (rename_at n places)).1
                (a.freed moved) in
            rw moved
              (record { text = s.text ∙ a.text; number = s.number ∙ a.number; freed = s.freed }))
      | inr stuck ↦ rw stuck (record { text = a.text; number = a.number; freed = λ e. absurd cc })
    ]

pub first_free-FreeAt : (places : Archives) (n : ℕ) → first_free places ≡ some n → FreeAt n places
unfolding first_free
first_free-FreeAt [] n e = cc
first_free-FreeAt (none ∷ places) n e = subst_some (λ n. FreeAt n (none ∷ places)) e refl
first_free-FreeAt (some t ∷ places) n e =
    let (m, p, q) = map-some suc (first_free places) e in
    subst (λ n. FreeAt n (some t ∷ places)) q (first_free-FreeAt places m p)

-- Making room loses at most one text from the front, and that only if no place was free.
pub record Loses (places : Archives) (result : Bool × Archives) : Type 0 where
  pub lost : Text
  pub text : archive_text places ≡ lost ++ archive_text result.1
  pub full : (lost ≡ []) ⊎ (first_free places ≡ none)
  pub number : length result.1 ≡ length places
  pub freed : result.0 ≡ true → FreeAt 0 result.1

-- The deletion of the last archive.
remove_at-last :
    (n : ℕ) (places : Archives) {changed : Archives}
    → length places ≡ suc n
    → remove_at n places ≡ some changed
    → (lost : Text) × (archive_text places ≡ lost ++ archive_text changed)
      × (length changed ≡ length places)
      × FreeAt n changed
unfolding remove_at archive_text
remove_at-last n [] size e = cc
remove_at-last zero (none ∷ places) size e = cc
remove_at-last zero (some t ∷ []) size e =
    subst_some (λ c. (lost : Text) × (t ≡ lost ++ archive_text c) × (length c ≡ 1) × FreeAt 0 c) e
      (t, sym (append-nil t), refl, refl)
remove_at-last zero (some t ∷ place ∷ places) size e = absurd (omega (arith, size))
remove_at-last (suc n) (place ∷ places) size e =
    let (changed, p, q) = map-some (λ ps. place ∷ ps) (remove_at n places) e in
    let (lost, text, number, freed) = remove_at-last n places (omega (arith, size)) p in
    subst
      (λ c.
        (lost : Text) × (archive_text places ++ content place ≡ lost ++ archive_text c)
        × (length c ≡ suc (length places))
        × FreeAt (suc n) c)
      q
      (
        lost,
        ap (λ x. x ++ content place) text
            ∙ append_assoc lost (archive_text changed) (content place),
        ap suc number,
        freed,
      )

-- Freeing a place: what it loses, and that the place is then free.
make_free-Loses :
    (fails : Bool) (places : Archives)
    → length places ≡ 5
    → let result = make_free fails (first_free places) places in
      (lost : Text) × (archive_text places ≡ lost ++ archive_text result.1)
      × ((lost ≡ []) ⊎ (first_free places ≡ none))
      × (length result.1 ≡ length places)
      × (result.0 ≡ true → FreeAt (or_last (first_free places)) result.1)
unfolding make_free
make_free-Loses fails places size = elim (Option-cases (first_free places)) [
  | inr (n, e) ↦ rw e ([], refl, inl refl, refl, λ ok. first_free-FreeAt places n e)
  | inl full ↦ rw full (go fails (remove_at 4 places) (λ c e. remove_at-last 4 places size e))
]
  where
    go :
        (fails : Bool) (changed : Option Archives)
        → ((c : Archives)
            → changed ≡ some c
            → (lost : Text) × (archive_text places ≡ lost ++ archive_text c)
              × (length c ≡ length places)
              × FreeAt 4 c)
        → (lost : Text) × (archive_text places
            ≡ lost ++ archive_text (attempt fails places changed).1)
          × ((lost ≡ []) ⊎ (◌≡◌ {A = Option ℕ} none none))
          × (length (attempt fails places changed).1 ≡ length places)
          × ((attempt fails places changed).0 ≡ true → FreeAt 4 (attempt fails places changed).1)
    go fails none h = ([], refl, inl refl, refl, λ e. absurd cc)
    go true (some c) h = ([], refl, inl refl, refl, λ e. absurd cc)
    go false (some c) h =
        let (lost, text, number, freed) = h c refl in (lost, text, inr refl, number, λ e. freed)

pub make_room-Loses :
    (f : Failures) (places : Archives) → length places ≡ 5 → Loses places (make_room f places)
unfolding make_room
make_room-Loses f places size =
    let (lost, text, full, number, freed) = make_free-Loses f.removal places size in
    elim (Bool-cases (make_free f.removal (first_free places) places).0) [
      | inl ok ↦
          (let s = shift-Kept f.moves (or_last (first_free places)) _ (freed ok) in
            rw ok (record {
              lost = lost;
              text = text ∙ ap (λ x. lost ++ x) (sym s.text);
              full = full;
              number = s.number ∙ number;
              freed = s.freed;
            }))
      | inr stuck ↦ rw stuck (record {
        lost = lost;
        text = text;
        full = full;
        number = number;
        freed = λ e. absurd cc;
      })
    ]
