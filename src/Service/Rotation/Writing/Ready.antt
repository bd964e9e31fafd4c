-- ===== src/Service/Rotation/Writing/Ready.antt =====
-- agent/cg-agent/src/service/rotation.rs: when the log is ready for a record, and the rotation
-- before it.
use cyber_guard_enterprise.Prelude.{
  ℕ, ◌-◌, ◌≡◌, refl, ◌∙◌, ◌⊎◌, inl, inr, Bool, true, false, not, ◌&&◌, [], ◌∷◌, ◌++◌, Option, none,
  some, Text, length, leb, if◌then◌else◌, Bool-cases,
}
use cyber_guard_enterprise.Service.Rotation.Log.{
  Log, Failures, content, reopen, rename_active, move_aside, settle_first, with_archives, make_room,
  archive_rotating, rotate,
}
use cyber_guard_enterprise.Service.Rotation.Writing.{
  Writer, Calls, rotate_if_due, tolerate, failing_since, is_full, is_just_tried,
}

-- Empty, or ended by a newline.
abbrev pub EndsLine : Text → Type 0
EndsLine t = (t ≡ []) ⊎ ((s : Text) × (t ≡ s ++ 10 ∷ []))

-- The active file ends a line, and while it is open its size is known.
pub record IsSound (l : Log) : Type 0 where
  pub ended : EndsLine (content l.dir.active)
  pub sized : l.is_open ≡ true → l.size ≡ length (content l.dir.active)

reopen-IsSound :
    (fails : Bool) (l : Log) → EndsLine (content l.dir.active) → IsSound (reopen fails l).1
unfolding reopen
reopen-IsSound true l ended = record { ended = ended; sized = λ e. absurd cc }
reopen-IsSound false l ended = record { ended = ended; sized = λ e. refl }

rename_active-ended :
    (fails : Bool) (active : Option Text) (l : Log)
    → EndsLine (content l.dir.active)
    → EndsLine (content (rename_active fails active l).1.dir.active)
unfolding rename_active
rename_active-ended fails none l ended = ended
rename_active-ended true (some t) l ended = ended
rename_active-ended false (some t) l ended = inl refl

move_aside-IsSound :
    (f : Failures) (rotating : Option Text) (l : Log)
    → IsSound l
    → IsSound (move_aside f rotating l).1
unfolding move_aside
move_aside-IsSound f (some t) l s = s
move_aside-IsSound f none l s =
    let l₁ = (rename_active f.aside l.dir.active l).1 in
    let s' = reopen-IsSound f.reopening l₁ (rename_active-ended f.aside l.dir.active l s.ended) in
    elim (Bool-cases ((reopen f.reopening l₁).0 && (rename_active f.aside l.dir.active l).0)) [
      | inl ok ↦ rw ok (record { ended = s'.ended; sized = s'.sized })
      | inr failed ↦ rw failed s'
    ]

settle_first-IsSound :
    (fails : Bool) (rotating : Option Text) (l : Log)
    → IsSound l
    → IsSound (settle_first fails rotating l).1
unfolding settle_first
settle_first-IsSound fails none l s = s
settle_first-IsSound true (some t) l s = s
settle_first-IsSound false (some t) l s = record { ended = s.ended; sized = s.sized }

archive_rotating-IsSound : (f : Failures) (l : Log) → IsSound l → IsSound (archive_rotating f l).1
unfolding archive_rotating
archive_rotating-IsSound f l s =
    let l' = with_archives (make_room f l.dir.archives).1 l in
    let s' : IsSound l' = record { ended = s.ended; sized = s.sized } in
    elim (Bool-cases (make_room f l.dir.archives).0) [
      | inl room ↦ rw room (settle_first-IsSound f.last l'.dir.rotating l' s')
      | inr none_free ↦ rw none_free s'
    ]

rotate-IsSound : (f : Failures) (l : Log) → IsSound l → IsSound (rotate f l).1
unfolding rotate
rotate-IsSound f l s =
    let s' = move_aside-IsSound f l.dir.rotating l s in
    elim (Bool-cases (move_aside f l.dir.rotating l).0) [
      | inl aside ↦ rw aside (archive_rotating-IsSound f _ s')
      | inr failed ↦ rw failed s'
    ]

-- A log with its active file open.
abbrev pub IsReady : Log → Type 0
IsReady l = (l.is_open ≡ true) × IsSound l

pub reopen-open :
    (fails : Bool) (l : Log) → (reopen fails l).0 ≡ true → (reopen fails l).1.is_open ≡ true
unfolding reopen
reopen-open true l e = cc
reopen-open false l e = refl

and_left : (a b : Bool) → (a && b) ≡ true → a ≡ true
and_left true b h = refl
and_left false b h = cc

move_aside-open :
    (f : Failures) (rotating : Option Text) (l : Log)
    → l.is_open ≡ true
    → (move_aside f rotating l).0 ≡ true
    → (move_aside f rotating l).1.is_open ≡ true
unfolding move_aside
move_aside-open f (some t) l open_ e = open_
move_aside-open f none l open_ e =
    let l₁ = (rename_active f.aside l.dir.active l).1 in
    elim (Bool-cases ((reopen f.reopening l₁).0 && (rename_active f.aside l.dir.active l).0)) [
      | inl ok ↦ rw ok (reopen-open f.reopening l₁ (and_left _ _ ok))
      | inr failed ↦ (let h = rw failed at e in cc)
    ]

archive_rotating-open : (f : Failures) (l : Log) → (archive_rotating f l).1.is_open ≡ l.is_open
unfolding archive_rotating settle_first
archive_rotating-open f l = elim (Bool-cases (make_room f l.dir.archives).0) [
  | inl room ↦ rw room (go f.last l.dir.rotating (with_archives (make_room f l.dir.archives).1 l))
  | inr none_free ↦ rw none_free refl
]
  where
    go :
        (fails : Bool) (rotating : Option Text) (l : Log)
        → (settle_first fails rotating l).1.is_open ≡ l.is_open
    go fails none l = refl
    go true (some t) l = refl
    go false (some t) l = refl

pub rotate-open :
    (f : Failures) (l : Log)
    → l.is_open ≡ true
    → (rotate f l).0 ≡ true
    → (rotate f l).1.is_open ≡ true
unfolding rotate
rotate-open f l open_ e = elim (Bool-cases (move_aside f l.dir.rotating l).0) [
  | inl aside ↦
      rw aside (archive_rotating-open f _ ∙ move_aside-open f l.dir.rotating l open_ aside)
  | inr failed ↦ (let h = rw failed at e in cc)
]

-- A step that leaves the log ready if it succeeds.
abbrev pub Readies : Bool × Writer → Type 0
Readies (ok, w) = ok ≡ true → IsReady w.log

tolerate-Readies : (c : Calls) (w : Writer) → IsSound w.log → Readies (tolerate c w)
unfolding tolerate
tolerate-Readies c w s =
    elim (Bool-cases
      (leb w.rotation_retry_limit (c.now - failing_since w.rotation_failing c.now))) [
        | inl over ↦ rw over (λ e. absurd cc)
        | inr within ↦ rw within (go w.log.is_open refl)
      ]
  where
    go :
        (b : Bool)
        → w.log.is_open ≡ b
        → Readies (
            if b
            then (
              true,
              record w { rotation_failing = some (failing_since w.rotation_failing c.now, c.now) },
            )
            else (
              (reopen c.recovery w.log).0,
              record w {
                rotation_failing = some (failing_since w.rotation_failing c.now, c.now);
                log = (reopen c.recovery w.log).1;
              },
            ))
    go true open_ = λ e. (open_, s)
    go false closed =
        λ opened. (reopen-open c.recovery w.log opened, reopen-IsSound c.recovery w.log s.ended)

pub rotate_if_due-Readies :
    (c : Calls) (len : ℕ) (w : Writer) → IsReady w.log → Readies (rotate_if_due c len w)
unfolding rotate_if_due
rotate_if_due-Readies c len w (open_, s) =
    elim (Bool-cases (not w.log.unfinished && not (is_full len w.log))) [
      | inl not_due ↦ rw not_due (λ e. (open_, s))
      | inr due ↦ elim (Bool-cases (is_just_tried w.rotation_failing c.now)) [
        | inl tried ↦ rw (due, tried) (λ e. (open_, s))
        | inr first ↦ elim (Bool-cases (rotate c.rotation w.log).0) [
          | inl ok ↦
              rw (due, first, ok)
                (λ e. (rotate-open c.rotation w.log open_ ok, rotate-IsSound c.rotation w.log s))
          | inr failed ↦
              rw (due, first, failed)
                (tolerate-Readies c (record w { log = (rotate c.rotation w.log).1 })
                  (rotate-IsSound c.rotation w.log s))
        ]
      ]
    ]
