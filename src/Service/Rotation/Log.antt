-- ===== src/Service/Rotation/Log.antt =====
-- agent/cg-agent/src/service/rotation.rs: the files of the log and their rotation.
-- A directory is its files' contents. Whether a call of the file system fails is an input, and a
-- failed append leaves the part that it wrote.
pub mod Shift
pub mod Keeps
pub mod Completes
use mathlib.Core.Option
use cyber_guard_enterprise.Prelude.{
  ℕ, zero, suc, ◌*◌, Bool, true, false, not, ◌&&◌, List, [], ◌∷◌, Option, none, some, Text, length,
  if◌then◌else◌,
}

-- 10 MiB.
abbrev pub max_file_bytes : ℕ
max_file_bytes = 10 * 1024 * 1024

-- The places of the archives, the newest first.
abbrev pub Archives : Type 0
Archives = List (Option Text)

pub record Dir : Type 0 where
  pub active : Option Text
  pub rotating : Option Text
  pub archives : Archives

-- The fields of `RotatingLog` on its files; `is_open` is whether it has a writer.
pub record Log : Type 0 where
  pub dir : Dir
  pub is_open : Bool
  pub size : ℕ
  pub unfinished : Bool

-- Which calls of a rotation fail.
pub record Failures : Type 0 where
  pub aside : Bool
  pub reopening : Bool
  pub removal : Bool
  pub moves : ℕ → Bool
  pub last : Bool

abbrev pub content : Option Text → Text
content none = []
content (some t) = t

-- The opener creates a missing file.
unfoldable pub reopen : Bool → Log → Bool × Log
reopen fails l =
    let text = content l.dir.active in
    if fails then (false, record l { is_open = false }) else (
      true,
      record l { dir = record l.dir { active = some text }; is_open = true; size = length text },
    )

-- The active file renamed to the rotating one.
unfoldable pub rename_active : Bool → Option Text → Log → Bool × Log
rename_active fails none l = (false, l)
rename_active true (some text) l = (false, l)
rename_active false (some text) l =
    (true, record l { dir = record l.dir { active = none; rotating = some text } })

-- The first step: the active file renamed, if no rotation is under way, and opened anew.
unfoldable pub move_aside : Failures → Option Text → Log → Bool × Log
move_aside f (some rotating) l = (true, l)
move_aside f none l =
    let (renamed, l₁) = rename_active f.aside l.dir.active l in
    let (opened, l₂) = reopen f.reopening l₁ in
    if opened && renamed then (true, record l₂ { unfinished = true }) else (false, l₂)

unfoldable pub first_free : Archives → Option ℕ
first_free [] = none
first_free (none ∷ places) = some 0
first_free (some t ∷ places) = Option.map suc (first_free places)

-- Place `n` emptied: `rename` and `remove_file` fail on a missing file.
unfoldable pub remove_at : ℕ → Archives → Option Archives
remove_at n [] = none
remove_at zero (none ∷ places) = none
remove_at zero (some t ∷ places) = some (none ∷ places)
remove_at (suc n) (place ∷ places) = Option.map (λ ps. place ∷ ps) (remove_at n places)

-- Place `n` moved to the next one.
unfoldable pub rename_at : ℕ → Archives → Option Archives
rename_at n [] = none
rename_at zero (none ∷ places) = none
rename_at zero (some t ∷ []) = none
rename_at zero (some t ∷ place ∷ places) = some (none ∷ some t ∷ places)
rename_at (suc n) (place ∷ places) = Option.map (λ ps. place ∷ ps) (rename_at n places)

-- A call on the archives, which leaves them as they are if it fails.
abbrev pub attempt : Bool → Archives → Option Archives → Bool × Archives
attempt fails places none = (false, places)
attempt true places (some changed) = (false, places)
attempt false places (some changed) = (true, changed)

-- The first free place, or the last one, whose archive is deleted.
unfoldable pub make_free : Bool → Option ℕ → Archives → Bool × Archives
make_free fails (some n) places = (true, places)
make_free fails none places = attempt fails places (remove_at 4 places)

-- The archives of the places before `n` moved one on, the last one first.
unfoldable pub shift : (ℕ → Bool) → ℕ → Archives → Bool × Archives
shift moves zero places = (true, places)
shift moves (suc n) places =
    let (moved, places') = attempt (moves n) places (rename_at n places) in
    let (rest, final) = shift moves n places' in if moved then (rest, final) else (false, places')

abbrev pub put_first : Text → Archives → Archives
put_first t [] = []
put_first t (place ∷ places) = some t ∷ places

abbrev pub or_last : Option ℕ → ℕ
or_last none = 4
or_last (some n) = n

-- The last step: the rotating file becomes the newest archive.
unfoldable pub settle_first : Bool → Option Text → Log → Bool × Log
settle_first fails none l = (false, l)
settle_first fails (some t) l = if fails then (false, l) else (
  true,
  record l {
    dir = record l.dir { rotating = none; archives = put_first t l.dir.archives };
    unfinished = false;
  },
)

abbrev pub with_archives : Archives → Log → Log
with_archives places l = record l { dir = record l.dir { archives = places } }

-- The archives shifted into the first free place.
unfoldable pub make_room : Failures → Archives → Bool × Archives
make_room f places =
    let (freed, places₁) = make_free f.removal (first_free places) places in
    let (shifted, places₂) = shift f.moves (or_last (first_free places)) places₁ in
    if freed then (shifted, places₂) else (false, places₁)

-- The steps after the first one.
unfoldable pub archive_rotating : Failures → Log → Bool × Log
archive_rotating f l =
    let (room, places) = make_room f l.dir.archives in
    let l' = with_archives places l in
    if room then settle_first f.last l'.dir.rotating l' else (false, l')

unfoldable pub rotate : Failures → Log → Bool × Log
rotate f l =
    let (aside, l') = move_aside f l.dir.rotating l in
    if aside then archive_rotating f l' else (false, l')
