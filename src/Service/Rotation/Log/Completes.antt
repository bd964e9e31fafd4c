-- ===== src/Service/Rotation/Log/Completes.antt =====
-- agent/cg-agent/src/service/rotation.rs: a rotation in which nothing fails.
use cyber_guard_enterprise.Prelude.{
  ℕ, zero, suc, ◌≡◌, refl, ap, subst, ◌∙◌, inl, inr, true, false, [], ◌∷◌, Option, none, some, Text,
  length, arith, Option-cases,
}
use mathlib.Core.Option
use cyber_guard_enterprise.Prelude.Fallible.{subst_some}
use cyber_guard_enterprise.Service.Rotation.Log.{
  Archives, Log, Failures, reopen, rename_active, move_aside, first_free, remove_at, rename_at,
  make_free, shift, put_first, settle_first, make_room, archive_rotating, rotate,
}
use cyber_guard_enterprise.Service.Rotation.Log.Shift.{
  FreeAt, map-some, first_free-FreeAt, make_room-Loses,
}

abbrev IsTaken : Option Text → Type 0
IsTaken none = ⊥
IsTaken (some t) = Unit

-- The first `n` places are taken.
abbrev Below : ℕ → Archives → Type 0
Below zero places = Unit
Below (suc n) [] = ⊥
Below (suc n) (place ∷ places) = IsTaken place × Below n places

rename_at-some :
    (n : ℕ) (places : Archives)
    → Below (suc n) places
    → FreeAt (suc n) places
    → (c : Archives) × (rename_at n places ≡ some c) × Below n c × FreeAt n c
unfolding rename_at
rename_at-some n [] below free = absurd below
rename_at-some n (none ∷ places) below free = absurd below.0
rename_at-some zero (some t ∷ []) below free = absurd free
rename_at-some zero (some t ∷ place ∷ places) below free = (_, refl, tt, refl)
rename_at-some (suc n) (some t ∷ places) (taken, below) free =
    let (c, e, below', free') = rename_at-some n places below free in
    (some t ∷ c, ap (Option.map (λ ps. some t ∷ ps)) e, (tt, below'), free')

shift_completes :
    (n : ℕ) (places : Archives)
    → Below n places
    → FreeAt n places
    → (shift (λ k. false) n places).0 ≡ true
unfolding shift
shift_completes zero places below free = refl
shift_completes (suc n) places below free =
    let (c, e, below', free') = rename_at-some n places below free in
    rw e (shift_completes n c below' free')

first_free-Below : (places : Archives) (n : ℕ) → first_free places ≡ some n → Below n places
unfolding first_free
first_free-Below [] n e = cc
first_free-Below (none ∷ places) n e = subst_some (λ n. Below n (none ∷ places)) e tt
first_free-Below (some t ∷ places) n e =
    let (m, p, q) = map-some suc (first_free places) e in
    subst (λ n. Below n (some t ∷ places)) q (tt, first_free-Below places m p)

-- With every place taken the last one is deleted.
remove_at-some :
    (n : ℕ) (places : Archives)
    → length places ≡ suc n
    → first_free places ≡ none
    → (c : Archives) × (remove_at n places ≡ some c) × Below n c × FreeAt n c
unfolding remove_at first_free
remove_at-some n [] size full = absurd (omega (arith, size))
remove_at-some n (none ∷ places) size full = cc
remove_at-some zero (some t ∷ places) size full = (_, refl, tt, refl)
remove_at-some (suc n) (some t ∷ places) size full =
    let (c, e, below, free) =
      remove_at-some n places (omega (arith, size)) (map-none (first_free places) full) in
    (some t ∷ c, ap (Option.map (λ ps. some t ∷ ps)) e, (tt, below), free)
  where
    map-none : (o : Option ℕ) → Option.map suc o ≡ none → o ≡ none
    map-none none e = refl
    map-none (some k) e = cc

-- Nothing fails.
abbrev pub no_failures : Failures
no_failures = record {
  aside = false;
  reopening = false;
  removal = false;
  moves = λ n. false;
  last = false;
}

make_room_completes :
    (places : Archives) → length places ≡ 5 → (make_room no_failures places).0 ≡ true
unfolding make_room make_free
make_room_completes places size = elim (Option-cases (first_free places)) [
  | inr (n, e) ↦
      rw e (shift_completes n places (first_free-Below places n e) (first_free-FreeAt places n e))
  | inl full ↦
      (let (c, e, below, free) = remove_at-some 4 places size full in
        rw (full, e) (shift_completes 4 c below free))
]

abbrev pub newest : Archives → Option Text
newest [] = none
newest (place ∷ places) = place

put_first-newest :
    (t : Text) (places : Archives) → FreeAt 0 places → newest (put_first t places) ≡ some t
put_first-newest t [] free = absurd free
put_first-newest t (place ∷ places) free = refl

-- The file that a rotation archives, and the active one after it.
abbrev pub archived : Option Text → Text → Text
archived none active = active
archived (some rotating) active = rotating

abbrev pub left_active : Option Text → Text → Text
left_active none active = []
left_active (some rotating) active = active

abbrev aside_log : Option Text → Text → Log → Log
aside_log none active l = record {
  dir = record { active = some []; rotating = some active; archives = l.dir.archives };
  is_open = true;
  size = 0;
  unfinished = true;
}
aside_log (some rotating) active l = l

move_aside_completes :
    (rotating : Option Text) (active : Text) (l : Log)
    → l.dir.active ≡ some active
    → move_aside no_failures rotating l ≡ (true, aside_log rotating active l)
unfolding move_aside rename_active reopen
move_aside_completes (some t) active l a = refl
move_aside_completes none active l a = rw a refl

archive_rotating_completes :
    (l : Log) (t : Text)
    → length l.dir.archives ≡ 5
    → l.dir.rotating ≡ some t
    → let (ok, l') = archive_rotating no_failures l in
      (ok ≡ true)
      × (newest l'.dir.archives ≡ some t)
      × (l'.dir.rotating ≡ none)
      × (l'.dir.active ≡ l.dir.active)
      × (l'.unfinished ≡ false)
unfolding archive_rotating settle_first
archive_rotating_completes l t size e =
    let ok = make_room_completes l.dir.archives size in
    rw (ok, e)
      (
        refl,
        put_first-newest t (make_room no_failures l.dir.archives).1
            ((make_room-Loses no_failures l.dir.archives size).freed ok),
        refl,
        refl,
        refl,
      )

-- The rotation after its first step.
goes_on :
    (rotating : Option Text) (l : Log) (active : Text)
    → length l.dir.archives ≡ 5
    → l.dir.active ≡ some active
    → l.dir.rotating ≡ rotating
    → let (ok, l') = archive_rotating no_failures (aside_log rotating active l) in
      (ok ≡ true)
      × (newest l'.dir.archives ≡ some (archived rotating active))
      × (l'.dir.rotating ≡ none)
      × (l'.dir.active ≡ some (left_active rotating active))
      × (l'.unfinished ≡ false)
goes_on none l active size a e =
    archive_rotating_completes (aside_log none active l) active size refl
goes_on (some t) l active size a e =
    let (ok, first, idle, kept, finished) = archive_rotating_completes l t size e in
    (ok, first, idle, kept ∙ a, finished)

-- A rotation in which no call of the file system fails completes, whether it starts anew or goes on
-- with one that was interrupted: the active file, or the rotating one that was left, becomes the
-- newest archive, no rotating file is left, and the active file is empty, or as it was.
pub rotate_completes :
    (l : Log) (active : Text)
    → length l.dir.archives ≡ 5
    → l.dir.active ≡ some active
    → let (ok, l') = rotate no_failures l in
      (ok ≡ true)
      × (newest l'.dir.archives ≡ some (archived l.dir.rotating active))
      × (l'.dir.rotating ≡ none)
      × (l'.dir.active ≡ some (left_active l.dir.rotating active))
      × (l'.unfinished ≡ false)
unfolding rotate
rotate_completes l active size a =
    rw (move_aside_completes l.dir.rotating active l a)
      (goes_on l.dir.rotating l active size a refl)
