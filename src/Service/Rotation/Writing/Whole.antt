-- ===== src/Service/Rotation/Writing/Whole.antt =====
-- agent/cg-agent/src/service/rotation.rs: the lines of the active file over a record's writing.
use cyber_guard_enterprise.Prelude.{
  ℕ, ◌+◌, ◌≤◌, ◌≡◌, refl, sym, ap, subst, ◌∙◌, ◌⊎◌, inl, inr, Bool, true, false, [], ◌∷◌, ◌++◌,
  append_assoc, append-nil, Option, none, some, Text, length, length-append, take, arith, ltb,
  if◌then◌else◌, Bool-cases,
}
use cyber_guard_enterprise.Service.Rotation.Log.{Log, content, reopen}
use cyber_guard_enterprise.Service.Rotation.Writing.{
  Writer, Calls, rotate_if_due, append_raw, append, end_partial, retry, append_or_retry, bounded,
  write_bounded, write_record,
}
use cyber_guard_enterprise.Service.Rotation.Writing.Ready.{
  EndsLine, IsSound, IsReady, reopen-open, rotate_if_due-Readies,
}

-- A text written as a line of its own at the end of the active file, its size still that before.
pub record Wrote (text : Text) (l : Log) : Type 0 where
  pub before : Text
  pub ended : EndsLine before
  pub line : content l.dir.active ≡ before ++ (text ++ 10 ∷ [])
  pub open_ : l.is_open ≡ true
  pub sized : l.size ≡ length before

append-Wrote :
    (outcome : Option ℕ) (text : Text) (l : Log)
    → IsReady l
    → (append outcome text l).0 ≡ true
    → Wrote text (append outcome text l).1
unfolding append append_raw
append-Wrote none text l (open_, s) e = rw open_ (record {
  before = content l.dir.active;
  ended = s.ended;
  line = refl;
  open_ = refl;
  sized = s.sized open_;
})
append-Wrote (some n) text l (open_, s) e = (let h = rw open_ at e in cc)

-- What a failed append leaves.
append-part :
    (outcome : Option ℕ) (text : Text) (l : Log)
    → l.is_open ≡ true
    → (append outcome text l).0 ≡ false
    → let l' = (append outcome text l).1 in
      (part : Text) × (content l'.dir.active ≡ content l.dir.active ++ part)
unfolding append append_raw
append-part none text l open_ e = (let h = rw open_ at e in cc)
append-part (some n) text l open_ e = rw open_ (take n (text ++ 10 ∷ []), refl)

empty_part : (old part : Text) → length (old ++ part) ≤ length old → old ++ part ≡ old
empty_part old [] h = append-nil old
empty_part old (c ∷ part) h = absurd (omega (arith, h, length-append old (c ∷ part)))

nothing_left :
    (old part : Text) (l : Log)
    → EndsLine old
    → content l.dir.active ≡ old ++ part
    → l.size ≡ length (content l.dir.active)
    → ltb (length old) l.size ≡ false
    → IsSound l
nothing_left old part l ended e sized same =
    let short : length (old ++ part) ≤ length old = ground (arith, same, sized, ap length e) in
    record {
      ended = subst EndsLine (sym (e ∙ empty_part old part short)) ended;
      sized = λ o. sized;
    }

-- Ending what a failed append left leaves the file at the end of a line.
end_partial-IsReady :
    (outcome : Option ℕ) (old part : Text) (l : Log)
    → EndsLine old
    → content l.dir.active ≡ old ++ part
    → l.is_open ≡ true
    → l.size ≡ length (content l.dir.active)
    → (end_partial outcome (length old) l).0 ≡ true
    → IsReady (end_partial outcome (length old) l).1
unfolding end_partial append_raw
end_partial-IsReady none old part l ended e open_ sized ok =
    elim (Bool-cases (ltb (length old) l.size)) [
      | inl longer ↦
          rw (longer, open_)
            (
              refl,
              record {
                ended = inr (content l.dir.active, refl);
                sized = λ o. omega (arith, sized, length-append (content l.dir.active) (10 ∷ []));
              },
            )
      | inr same ↦ rw same (open_, nothing_left old part l ended e sized same)
    ]
end_partial-IsReady (some n) old part l ended e open_ sized ok =
    elim (Bool-cases (ltb (length old) l.size)) [
      | inl longer ↦ (let h = rw (longer, open_) at ok in cc)
      | inr same ↦ rw same (open_, nothing_left old part l ended e sized same)
    ]

-- What a reopened file holds.
reopen-content :
    (fails : Bool) (l : Log) → content (reopen fails l).1.dir.active ≡ content l.dir.active
unfolding reopen
reopen-content true l = refl
reopen-content false l = refl

reopen-size :
    (fails : Bool) (l : Log)
    → (reopen fails l).0 ≡ true
    → (reopen fails l).1.size ≡ length (content (reopen fails l).1.dir.active)
unfolding reopen
reopen-size true l e = cc
reopen-size false l e = refl

-- A step that, if it succeeds, has written the text on a line of its own.
abbrev Writes : Text → Bool × Log → Type 0
Writes text (ok, l) = ok ≡ true → Wrote text l

retry-Writes :
    (c : Calls) (text old part : Text) (l : Log)
    → EndsLine old
    → content l.dir.active ≡ old ++ part
    → Writes text (retry c text (length old) l)
unfolding retry
retry-Writes c text old part l ended e =
    let l₁ = (reopen c.reopening l).1 in
    elim (Bool-cases (reopen c.reopening l).0) [
      | inr closed ↦ rw closed (λ e. absurd cc)
      | inl opened ↦ elim (Bool-cases (end_partial c.newline (length old) l₁).0) [
        | inr failed ↦ rw (opened, failed) (λ e. absurd cc)
        | inl ends ↦
            rw (opened, ends)
              (append-Wrote c.second text (end_partial c.newline (length old) l₁).1 (
                end_partial-IsReady c.newline old part l₁ ended (reopen-content c.reopening l ∙ e)
                  (reopen-open c.reopening l opened) (reopen-size c.reopening l opened) ends))
      ]
    ]

append_or_retry-Writes :
    (c : Calls) (text : Text) (l : Log) → IsReady l → Writes text (append_or_retry c text l)
unfolding append_or_retry
append_or_retry-Writes c text l (open_, s) = elim (Bool-cases (append c.first text l).0) [
  | inl done ↦ rw done (λ e. append-Wrote c.first text l (open_, s) done)
  | inr failed ↦
      (let (part, e) = append-part c.first text l open_ failed in
        rw failed (
          subst (λ n. Writes text (retry c text n (append c.first text l).1)) (sym (s.sized open_))
            (retry-Writes c text (content l.dir.active) part (append c.first text l).1 s.ended e)))
]

-- The log after a text: stopped, or open at the end of a line that is the text.
abbrev pub Records : Text → Writer → Type 0
Records text w =
    (w.failed ≡ true)
    ⊎ ((before : Text) × EndsLine before
        × (content w.log.dir.active ≡ before ++ (text ++ 10 ∷ []))
        × IsReady w.log)

-- With its size counted, a written text leaves the log ready.
Wrote-IsReady :
    (text : Text) (l : Log)
    → Wrote text l
    → IsReady (record l { size = l.size + (length text + 1) })
Wrote-IsReady text l h = (
  h.open_,
  record {
    ended = inr (h.before ++ text, h.line ∙ sym (append_assoc h.before text (10 ∷ [])));
    sized = λ o. omega (
      arith,
      h.sized,
      ap length h.line,
      length-append h.before (text ++ 10 ∷ []),
      length-append text (10 ∷ []),
    );
  },
)

write_bounded-Records :
    (c : Calls) (text : Text) (w : Writer) → IsReady w.log → Records text (write_bounded c text w)
unfolding write_bounded
write_bounded-Records c text w ready =
    let due = rotate_if_due c (length text + 1) w in
    let written = append_or_retry c text due.1.log in
    elim (Bool-cases due.0) [
      | inr stuck ↦ rw stuck (inl refl)
      | inl ok ↦ elim (Bool-cases written.0) [
        | inr failed ↦ rw (ok, failed) (inl refl)
        | inl done ↦
            (let h =
                append_or_retry-Writes c text due.1.log
                  (rotate_if_due-Readies c (length text + 1) w ready ok) done in
              rw (ok, done) (inr (h.before, h.ended, h.line, Wrote-IsReady text written.1 h)))
      ]
    ]

-- Whatever calls of the file system fail, and with whatever part of an append done: from a log that
-- is open at the end of a line with its size known, writing a record either stops the log, or leaves
-- it so, and the active file then ends with the record, or with the diagnostic that replaces one too
-- long, on a line of its own.
pub write_record-Records :
    (diagnostic : ℕ → Text) (c : Calls) (text : Text) (w : Writer)
    → w.failed ≡ false
    → IsReady w.log
    → Records (bounded diagnostic text) (write_record diagnostic c text w)
unfolding write_record
write_record-Records diagnostic c text w working ready =
    let written = write_bounded c (bounded diagnostic text) w in
    subst (λ b. Records (bounded diagnostic text) (if b then w else written)) (sym working)
      (write_bounded-Records c (bounded diagnostic text) w ready)
