-- ===== src/Service/Rotation/Lines.antt =====
-- agent/cg-agent/src/service/rotation.rs, `write`: the records of a text cut into writes.
use cyber_guard_enterprise.Prelude.{
  ◌+◌, ◌≡◌, ◌<◌, refl, sym, ap, ap₂, subst, ◌⊎◌, ◌∙◌, true, false, List, [], ◌∷◌, ◌++◌, map,
  append_assoc, append-nil, Text, length, length-append, arith, inl, inr, Bool-cases, ltb, ◌==◌,
  if◌then◌else◌,
}
use mathlib.Core.List.{map-append}
use cyber_guard_enterprise.Service.Rotation.{
  max_record_bytes, Receiving, nothing, Record, kept, oversized, receive, end_line, write_rest,
  write,
}

-- The lines of a text that go on from a beginning, and what follows the last newline.
unfoldable pub lines_from : Text → Text → List Text × Text
lines_from line [] = ([], line)
lines_from line (c ∷ rest) =
    let (lines, last) = lines_from [] rest in
    let more = lines_from (line ++ c ∷ []) rest in if c == 10 then (line ∷ lines, last) else more

-- A line is kept if it has at most 64 KiB with its newline.
abbrev pub record_of : Text → Record
record_of line =
    if ltb max_record_bytes (length line + 1) then oversized (length line) else kept line

-- The log after part of a line.
abbrev pub receiving : Text → Receiving
receiving line =
    if ltb max_record_bytes (length line + 1)
    then record { pending = []; discarding = true; line_len = length line }
    else record { pending = line; discarding = false; line_len = length line }

receive-receiving : (line buf : Text) → receive buf (receiving line) ≡ receiving (line ++ buf)
unfolding receive
receive-receiving line buf = elim (Bool-cases (ltb max_record_bytes (length line + 1))) [
  | inl long ↦
      (let longer : ltb max_record_bytes (length (line ++ buf) + 1) ≡ true =
          ground (arith, long, length-append line buf) in
        rw (long, longer, length-append line buf) refl)
  | inr short ↦ elim (Bool-cases (ltb max_record_bytes (length line + length buf + 1))) [
    | inl long ↦ rw (short, length-append line buf, long) refl
    | inr fits ↦ rw (short, length-append line buf, fits) refl
  ]
]

end_line-receiving : (line : Text) → end_line (receiving line) ≡ record_of line
unfolding end_line
end_line-receiving line = elim (Bool-cases (ltb max_record_bytes (length line + 1))) [
  | inl long ↦ rw long refl
  | inr short ↦ rw short refl
]

-- What a text makes of the log after the beginning of a line.
abbrev written : Text → Text → List Record × Receiving
written line buf = let (lines, last) = lines_from line buf in (map record_of lines, receiving last)

write_rest-lines :
    (line buf rest : Text) → write_rest buf rest (receiving line) ≡ written (line ++ buf) rest
unfolding write_rest lines_from
write_rest-lines line buf [] = ap (λ r. ([], r)) (receive-receiving line buf)
write_rest-lines line buf (c ∷ rest) = elim (Bool-cases (c == 10)) [
  | inl newline ↦ rw newline (
      ap₂ (λ x p. (x ∷ p.0, p.1))
        (ap end_line (receive-receiving line buf) ∙ end_line-receiving (line ++ buf))
        (write_rest-lines [] [] rest))
  | inr other ↦ rw other (
      write_rest-lines line (buf ++ c ∷ []) rest
      ∙ ap (λ l. written l rest) (sym (append_assoc line buf (c ∷ []))))
]

lines_from-append :
    (line x y : Text)
    → lines_from line (x ++ y) ≡ (
      (lines_from line x).0 ++ (lines_from (lines_from line x).1 y).0,
      (lines_from (lines_from line x).1 y).1,
    )
unfolding lines_from
lines_from-append line [] y = refl
lines_from-append line (c ∷ x) y = elim (Bool-cases (c == 10)) [
  | inl newline ↦
      rw newline (ap (λ (p : List Text × Text). (line ∷ p.0, p.1)) (lines_from-append [] x y))
  | inr other ↦ rw other (lines_from-append (line ++ c ∷ []) x y)
]

-- Successive writes.
unfoldable pub write_all : List Text → Receiving → List Record × Receiving
write_all [] r = ([], r)
write_all (buf ∷ bufs) r =
    let (records, r') = write buf r in
    let (later, final) = write_all bufs r' in (records ++ later, final)

unfoldable pub joined : List Text → Text
joined [] = []
joined (buf ∷ bufs) = buf ++ joined bufs

write-lines : (buf line : Text) → write buf (receiving line) ≡ written line buf
unfolding write
write-lines buf line = write_rest-lines line [] buf ∙ ap (λ l. written l buf) (append-nil line)

write_all-written :
    (bufs : List Text) (line : Text) → write_all bufs (receiving line) ≡ written line (joined bufs)
unfolding write_all joined lines_from
write_all-written [] line = refl
write_all-written (buf ∷ bufs) line =
    let l = lines_from line buf in
    let m = lines_from l.1 (joined bufs) in
    let first : write_all (buf ∷ bufs) (receiving line) ≡ (
      map record_of l.0 ++ (write_all bufs (receiving l.1)).0,
      (write_all bufs (receiving l.1)).1,
    ) =
      ap (λ (p : List Record × Receiving). (p.0 ++ (write_all bufs p.1).0, (write_all bufs p.1).1))
        (write-lines buf line) in
    let rest : written line (buf ++ joined bufs)
        ≡ (map record_of l.0 ++ map record_of m.0, receiving m.1) =
      ap (λ (p : List Text × Text). (map record_of p.0, receiving p.1))
        (lines_from-append line buf (joined bufs))
      ∙ ap (λ x. (x, receiving m.1)) (map-append record_of l.0 m.0) in
    first
    ∙ ap (λ (q : List Record × Receiving). (map record_of l.0 ++ q.0, q.1))
        (write_all-written bufs l.1)
    ∙ sym rest

-- The record of a line: the line below 64 KiB with its newline, the diagnostic with its length above,
-- and one of the two at 64 KiB.
pub record IsRecordOf (line : Text) (r : Record) : Type 0 where
  pub short : length line + 1 < max_record_bytes → r ≡ kept line
  pub long : max_record_bytes < length line + 1 → r ≡ oversized (length line)
  pub either : (r ≡ kept line) ⊎ (r ≡ oversized (length line))

abbrev pub AreRecords : List Text → List Record → Type 0
AreRecords [] [] = Unit {0}
AreRecords [] (r ∷ records) = ⊥
AreRecords (line ∷ lines) [] = ⊥
AreRecords (line ∷ lines) (r ∷ records) = IsRecordOf line r × AreRecords lines records

-- The log after a part of a line, which it holds while that can be kept.
pub record Waits (line : Text) (r : Receiving) : Type 0 where
  pub counts : r.line_len ≡ length line
  pub short : length line + 1 < max_record_bytes → (r.pending ≡ line) × (r.discarding ≡ false)
  pub long : max_record_bytes < length line + 1 → r.discarding ≡ true

record_of-IsRecordOf : (line : Text) → IsRecordOf line (record_of line)
record_of-IsRecordOf line = elim (Bool-cases (ltb max_record_bytes (length line + 1))) [
  | inl long ↦ rw long (record {
    short = λ h. absurd (ground (arith, long, h));
    long = λ h. refl;
    either = inr refl;
  })
  | inr short ↦ rw short (record {
    short = λ h. refl;
    long = λ h. absurd (ground (arith, short, h));
    either = inl refl;
  })
]

map-AreRecords : (lines : List Text) → AreRecords lines (map record_of lines)
map-AreRecords [] = tt
map-AreRecords (line ∷ lines) = (record_of-IsRecordOf line, map-AreRecords lines)

receiving-Waits : (line : Text) → Waits line (receiving line)
receiving-Waits line = elim (Bool-cases (ltb max_record_bytes (length line + 1))) [
  | inl long ↦
      rw long
        (record { counts = refl; short = λ h. absurd (ground (arith, long, h)); long = λ h. refl })
  | inr short ↦ rw short (record {
    counts = refl;
    short = λ h. (refl, refl);
    long = λ h. absurd (ground (arith, short, h));
  })
]

-- However a text is cut into writes, there is one record for each of its complete lines, in their
-- order: the line as it is below 64 KiB with its newline, the diagnostic with its length above 64 KiB,
-- and one of the two at just 64 KiB; and the log has counted the rest, which it holds below 64 KiB and
-- discards above.
pub write_all-lines :
    (bufs : List Text)
    → AreRecords (lines_from [] (joined bufs)).0 (write_all bufs nothing).0
      × Waits (lines_from [] (joined bufs)).1 (write_all bufs nothing).1
write_all-lines bufs =
    let (lines, last) = lines_from [] (joined bufs) in
    subst (λ (w : List Record × Receiving). AreRecords lines w.0 × Waits last w.1)
      (sym (write_all-written bufs [])) (map-AreRecords lines, receiving-Waits last)
