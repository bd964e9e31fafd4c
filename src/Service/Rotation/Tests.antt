-- ===== src/Service/Rotation/Tests.antt =====
-- Tests of the log, and the theorems about it at concrete inputs.
use cyber_guard_enterprise.Prelude.{
  bytes, ◌⊎◌, none, some, true, false, length, ◌++◌, ◌==◌, ◌≡◌, refl, List, [], ◌∷◌, Text,
}
use cyber_guard_enterprise.Service.Rotation.{nothing, kept, receive, end_line, write_rest, write}
use cyber_guard_enterprise.Service.Rotation.Log.{
  Log, Failures, rotate, archive_rotating, make_room, make_free, shift, rename_at, remove_at,
  first_free, move_aside, rename_active, reopen, settle_first,
}
use cyber_guard_enterprise.Service.Rotation.Log.Shift.{archive_text}
use cyber_guard_enterprise.Service.Rotation.Log.Keeps.{log_text, rotate_keeps}
use cyber_guard_enterprise.Service.Rotation.Log.Completes.{no_failures, newest, rotate_completes}
use cyber_guard_enterprise.Service.Rotation.Lines.{
  lines_from, AreRecords, Waits, write_all, joined, write_all-lines,
}

-- Two lines and a half in three writes.
abbrev cut : List Text
cut = (97 ∷ 98 ∷ []) ∷ (99 ∷ 10 ∷ 100 ∷ []) ∷ (10 ∷ 101 ∷ []) ∷ []

cut_records : (write_all cut nothing).0 ≡ kept (97 ∷ 98 ∷ 99 ∷ []) ∷ kept (100 ∷ []) ∷ []
unfolding write_all write write_rest receive end_line
cut_records = refl

write_all-lines_example :
    AreRecords (lines_from [] (joined cut)).0 (write_all cut nothing).0
    × Waits (lines_from [] (joined cut)).1 (write_all cut nothing).1
write_all-lines_example = write_all-lines cut

-- Five archives and a full active file; the second move of the shift fails.
abbrev full_log : Log
full_log = record {
  dir = record {
    active = some (bytes "new");
    rotating = none;
    archives =
        some (bytes "5")
        ∷ some (bytes "4")
        ∷ some (bytes "3")
        ∷ some (bytes "2")
        ∷ some (bytes "1")
        ∷ [];
  };
  is_open = true;
  size = 3;
  unfinished = false;
}

abbrev stuck_second : Failures
stuck_second = record no_failures { moves = λ n. n == 2 }

rotate_keeps_example :
    let l' = (rotate stuck_second full_log).1 in
    (length l'.dir.archives ≡ 5)
    × ((lost : Text) × (log_text full_log.dir ≡ lost ++ log_text l'.dir)
        × ((lost ≡ []) ⊎ (first_free full_log.dir.archives ≡ none)))
rotate_keeps_example = rotate_keeps stuck_second full_log refl

rotate_completes_example :
    let (ok, l') = rotate no_failures full_log in
    (ok ≡ true)
    × (newest l'.dir.archives ≡ some (bytes "new"))
    × (l'.dir.rotating ≡ none)
    × (l'.dir.active ≡ some [])
    × (l'.unfinished ≡ false)
rotate_completes_example = rotate_completes full_log (bytes "new") refl refl

-- The interrupted rotation has lost the oldest archive; the next one goes on with it.
resumed :
    let l' = (rotate stuck_second full_log).1 in
    (log_text l'.dir ≡ bytes "2345new")
    × (log_text (rotate no_failures l').1.dir ≡ bytes "2345new")
    × (newest (rotate no_failures l').1.dir.archives ≡ some (bytes "new"))
unfolding rotate archive_rotating make_room make_free shift rename_at remove_at first_free
    move_aside rename_active reopen settle_first archive_text
resumed = (refl, refl, refl)
