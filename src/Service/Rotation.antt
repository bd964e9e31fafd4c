-- ===== src/Service/Rotation.antt =====
-- agent/cg-agent/src/service/rotation.rs: how the log makes records of the bytes it is given.
-- `write_record`, which does not touch the line being received, is not modelled: a record is what
-- it is given.
pub mod Lines
pub mod Log
pub mod Writing
mod Tests
use cyber_guard_enterprise.Prelude.{
  ℕ, ◌+◌, ◌*◌, Bool, true, false, List, [], ◌∷◌, ◌++◌, Text, length, ltb, ◌==◌, if◌then◌else◌,
}

-- 64 KiB.
abbrev pub max_record_bytes : ℕ
max_record_bytes = 64 * 1024

-- The line being received: the fields of `RotatingLog` on it.
pub record Receiving : Type 0 where
  pub pending : Text
  pub discarding : Bool
  pub line_len : ℕ

abbrev pub nothing : Receiving
nothing = record { pending = []; discarding = false; line_len = 0 }

-- A record as it is, or the diagnostic (`oversized_record`) on one of so many bytes.
pub data Record : Type 0 where
  kept : Text → Record
  oversized : ℕ → Record

unfoldable pub receive : Text → Receiving → Receiving
receive buf r =
    let line_len = r.line_len + length buf in
    if r.discarding
    then record r { line_len = line_len }
    else if ltb max_record_bytes (length r.pending + length buf + 1)
    then record { pending = []; discarding = true; line_len = line_len }
    else record { pending = r.pending ++ buf; discarding = false; line_len = line_len }

-- The record of the line that ends.
unfoldable pub end_line : Receiving → Record
end_line r = if r.discarding then oversized r.line_len else kept r.pending

-- The loop of `write`, with the bytes read since the last newline.
unfoldable pub write_rest : Text → Text → Receiving → List Record × Receiving
write_rest line [] r = ([], receive line r)
write_rest line (c ∷ rest) r =
    let (records, final) = write_rest [] rest nothing in
    let more = write_rest (line ++ c ∷ []) rest r in
    if c == 10 then (end_line (receive line r) ∷ records, final) else more

unfoldable pub write : Text → Receiving → List Record × Receiving
write buf r = write_rest [] buf r
