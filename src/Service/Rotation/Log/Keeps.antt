-- ===== src/Service/Rotation/Log/Keeps.antt =====
-- agent/cg-agent/src/service/rotation.rs: the text of the files over a rotation, whatever fails
-- in it.
use cyber_guard_enterprise.Prelude.{
  ◌≡◌, refl, sym, ap, subst, ◌∙◌, ◌⊎◌, inl, inr, Bool, true, false, ◌&&◌, [], ◌∷◌, ◌++◌,
  append_assoc, append-nil, Option, none, some, Text, length, Bool-cases,
}
use cyber_guard_enterprise.Service.Rotation.Log.{
  Archives, Dir, Log, Failures, content, reopen, rename_active, move_aside, first_free, put_first,
  settle_first, with_archives, make_room, archive_rotating, rotate,
}
use cyber_guard_enterprise.Service.Rotation.Log.Shift.{archive_text, FreeAt, make_room-Loses}

-- What the files hold, read from the oldest on.
abbrev pub log_text : Dir → Text
log_text dir = archive_text dir.archives ++ (content dir.rotating ++ content dir.active)

reopen-text :
    (fails : Bool) (l : Log)
    → let l' = (reopen fails l).1 in
      (content l'.dir.active ≡ content l.dir.active)
      × (l'.dir.rotating ≡ l.dir.rotating)
      × (l'.dir.archives ≡ l.dir.archives)
unfolding reopen
reopen-text true l = (refl, refl, refl)
reopen-text false l = (refl, refl, refl)

rename_active-text :
    (fails : Bool) (active : Option Text) (l : Log)
    → l.dir.active ≡ active
    → l.dir.rotating ≡ none
    → let l' = (rename_active fails active l).1 in
      (log_text l'.dir ≡ log_text l.dir) × (l'.dir.archives ≡ l.dir.archives)
unfolding rename_active
rename_active-text fails none l a e = (refl, refl)
rename_active-text true (some t) l a e = (refl, refl)
rename_active-text false (some t) l a e =
    (rw (a, e) (ap (λ x. archive_text l.dir.archives ++ x) (append-nil t)), refl)

-- The first step keeps the text and the archives.
move_aside-text :
    (f : Failures) (rotating : Option Text) (l : Log)
    → l.dir.rotating ≡ rotating
    → let l' = (move_aside f rotating l).1 in
      (log_text l'.dir ≡ log_text l.dir) × (l'.dir.archives ≡ l.dir.archives)
unfolding move_aside
move_aside-text f (some t) l e = (refl, refl)
move_aside-text f none l e =
    let l₁ = (rename_active f.aside l.dir.active l).1 in
    let (text, places) = rename_active-text f.aside l.dir.active l refl e in
    let (active, rotating, archives) = reopen-text f.reopening l₁ in
    let reopened : log_text (reopen f.reopening l₁).1.dir ≡ log_text l₁.dir =
      rw (active, rotating, archives) refl in
    elim (Bool-cases ((reopen f.reopening l₁).0 && (rename_active f.aside l.dir.active l).0)) [
      | inl ok ↦ rw ok (reopened ∙ text, archives ∙ places)
      | inr failed ↦ rw failed (reopened ∙ text, archives ∙ places)
    ]

put_first-text :
    (t : Text) (places : Archives)
    → FreeAt 0 places
    → (archive_text (put_first t places) ≡ archive_text places ++ t)
      × (length (put_first t places) ≡ length places)
unfolding archive_text
put_first-text t [] free = absurd free
put_first-text t (place ∷ places) free =
    (rw free (ap (λ x. x ++ t) (sym (append-nil (archive_text places)))), refl)

settle_first-text :
    (fails : Bool) (rotating : Option Text) (l : Log)
    → l.dir.rotating ≡ rotating
    → FreeAt 0 l.dir.archives
    → let l' = (settle_first fails rotating l).1 in
      (log_text l'.dir ≡ log_text l.dir) × (length l'.dir.archives ≡ length l.dir.archives)
unfolding settle_first
settle_first-text fails none l e free = (refl, refl)
settle_first-text true (some t) l e free = (refl, refl)
settle_first-text false (some t) l e free =
    let (text, number) = put_first-text t l.dir.archives free in
    (
      ap (λ x. x ++ content l.dir.active) text
          ∙ append_assoc (archive_text l.dir.archives) t (content l.dir.active)
          ∙ rw e refl,
      number,
    )

-- Whatever calls of the file system fail in a rotation, a log of five places for archives keeps
-- them, and its files, read from the oldest on, hold the text that they held, but for a text lost
-- from the front, which is empty unless all five places were taken.
pub rotate_keeps :
    (f : Failures) (l : Log)
    → length l.dir.archives ≡ 5
    → let l' = (rotate f l).1 in
      (length l'.dir.archives ≡ 5)
      × ((lost : Text) × (log_text l.dir ≡ lost ++ log_text l'.dir)
          × ((lost ≡ []) ⊎ (first_free l.dir.archives ≡ none)))
unfolding rotate archive_rotating
rotate_keeps f l size =
    let l₁ = (move_aside f l.dir.rotating l).1 in
    let (text, same) = move_aside-text f l.dir.rotating l refl in
    let room = make_room-Loses f l₁.dir.archives (ap length same ∙ size) in
    let l₂ = with_archives (make_room f l₁.dir.archives).1 l₁ in
    let text₂ : log_text l.dir ≡ room.lost ++ log_text l₂.dir =
      sym text
      ∙ ap (λ x. x ++ (content l₁.dir.rotating ++ content l₁.dir.active)) room.text
      ∙ append_assoc room.lost (archive_text (make_room f l₁.dir.archives).1) _ in
    let full : (room.lost ≡ []) ⊎ (first_free l.dir.archives ≡ none) =
      subst (λ a. (room.lost ≡ []) ⊎ (first_free a ≡ none)) same room.full in
    let five : length l₂.dir.archives ≡ 5 = room.number ∙ ap length same ∙ size in
    elim (Bool-cases (move_aside f l.dir.rotating l).0) [
      | inr failed ↦ rw failed (ap length same ∙ size, ([], sym text, inl refl))
      | inl aside ↦ elim (Bool-cases (make_room f l₁.dir.archives).0) [
        | inr failed ↦ rw (aside, failed) (five, (room.lost, text₂, full))
        | inl ok ↦
            (let (settled, number) =
                settle_first-text f.last l₂.dir.rotating l₂ refl (room.freed ok) in
              rw (aside, ok)
                (number ∙ five, (room.lost, text₂ ∙ ap (λ x. room.lost ++ x) (sym settled), full)))
      ]
    ]
