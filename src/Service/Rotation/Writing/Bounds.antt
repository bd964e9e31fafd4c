-- ===== src/Service/Rotation/Writing/Bounds.antt =====
-- agent/cg-agent/src/service/rotation.rs: the size of the active file while nothing fails.
use cyber_guard_enterprise.Prelude.{
  ℕ, ◌+◌, ◌≤◌, ◌≡◌, refl, sym, ap, subst, ◌∙◌, inl, inr, Bool, true, false, not, ◌&&◌, [], ◌∷◌,
  ◌++◌, Option, none, some, Text, length, length-append, arith, ltb, if◌then◌else◌, Bool-cases,
}
use cyber_guard_enterprise.Service.Rotation.{max_record_bytes}
use cyber_guard_enterprise.Service.Rotation.Log.{Log, Failures, content, rotate, max_file_bytes}
use cyber_guard_enterprise.Service.Rotation.Log.Completes.{
  no_failures, left_active, rotate_completes,
}
use cyber_guard_enterprise.Service.Rotation.Writing.{
  Writer, Calls, rotate_if_due, append_raw, append, append_or_retry, bounded, write_bounded,
  write_record, is_full, is_just_tried,
}
use cyber_guard_enterprise.Service.Rotation.Writing.Ready.{rotate-open}

-- No call fails.
pub record IsCalm (c : Calls) : Type 0 where
  pub rotation : c.rotation ≡ no_failures
  pub first : c.first ≡ none

-- A log at work: open, its size known and within the bound, no rotation under way or failing.
pub record IsWorking (w : Writer) : Type 0 where
  pub working : w.failed ≡ false
  pub open_ : w.log.is_open ≡ true
  pub active : Text
  pub present : w.log.dir.active ≡ some active
  pub sized : w.log.size ≡ length active
  pub within : length active ≤ max_file_bytes
  pub places : length w.log.dir.archives ≡ 5
  pub idle : w.log.dir.rotating ≡ none
  pub finished : w.log.unfinished ≡ false
  pub rotating : w.rotation_failing ≡ none

-- There is room for a record after the rotation that is due.
abbrev HasRoom : ℕ → Writer → Bool × Writer → Type 0
HasRoom len w (ok, w') =
    (ok ≡ true)
    × (w'.failed ≡ w.failed)
    × (w'.log.is_open ≡ true)
    × (length (content w'.log.dir.active) + len ≤ max_file_bytes)

calm_rotation :
    (f : Failures) (l : Log) (active : Text)
    → f ≡ no_failures
    → length l.dir.archives ≡ 5
    → l.dir.active ≡ some active
    → l.dir.rotating ≡ none
    → ((rotate f l).0 ≡ true) × ((rotate f l).1.dir.active ≡ some [])
calm_rotation f l active calm places present idle =
    let (ok, newest, gone, left, done) = rotate_completes l active places present in
    subst (λ f. ((rotate f l).0 ≡ true) × ((rotate f l).1.dir.active ≡ some [])) (sym calm)
      (ok, left ∙ ap (λ r. some (left_active r active)) idle)

not_full-fits :
    (len : ℕ) (l : Log)
    → is_full len l ≡ false
    → len ≤ max_record_bytes
    → l.size + len ≤ max_file_bytes
not_full-fits len l not_full short = ground (arith, not_full, short)

rotate_if_due-HasRoom :
    (c : Calls) (len : ℕ) (w : Writer)
    → IsCalm c
    → IsWorking w
    → len ≤ max_record_bytes
    → HasRoom len w (rotate_if_due c len w)
unfolding rotate_if_due
rotate_if_due-HasRoom c len w calm h short = elim (Bool-cases (is_full len w.log)) [
  | inr not_full ↦
      (let skip : (not w.log.unfinished && not (is_full len w.log)) ≡ true =
          ap (λ b. not b && not (is_full len w.log)) h.finished ∙ ap not not_full in
        rw skip (
          refl,
          refl,
          h.open_,
          omega (
            arith,
            not_full-fits len w.log not_full short,
            h.sized,
            ap (λ t. length (content t)) h.present,
          ),
        ))
  | inl full ↦
      (let due : (not w.log.unfinished && not (is_full len w.log)) ≡ false =
          ap (λ b. not b && not (is_full len w.log)) h.finished ∙ ap not full in
        let fresh : is_just_tried w.rotation_failing c.now ≡ false =
          ap (λ f. is_just_tried f c.now) h.rotating in
        let (ok, emptied) =
          calm_rotation c.rotation w.log h.active calm.rotation h.places h.present h.idle in
        rw (due, fresh, ok)
          (
            refl,
            refl,
            rotate-open c.rotation w.log h.open_ ok,
            omega (arith, short, ap (λ t. length (content t)) emptied),
          ))
]

-- Writing on to an open file.
calm-append :
    (outcome : Option ℕ) (text : Text) (l : Log)
    → outcome ≡ none
    → l.is_open ≡ true
    → let (ok, l') = append outcome text l in
      (ok ≡ true) × (content l'.dir.active ≡ content l.dir.active ++ (text ++ 10 ∷ []))
unfolding append append_raw
calm-append none text l e open_ = rw open_ (refl, refl)
calm-append (some n) text l e open_ = absurd cc

calm-written :
    (c : Calls) (text : Text) (l : Log)
    → IsCalm c
    → l.is_open ≡ true
    → let (ok, l') = append_or_retry c text l in
      (ok ≡ true) × (content l'.dir.active ≡ content l.dir.active ++ (text ++ 10 ∷ []))
unfolding append_or_retry
calm-written c text l calm open_ =
    let (ok, whole) = calm-append c.first text l calm.first open_ in rw ok (refl, whole)

write_bounded-within :
    (c : Calls) (text : Text) (w : Writer)
    → IsCalm c
    → IsWorking w
    → length text + 1 ≤ max_record_bytes
    → let w' = write_bounded c text w in
      (w'.failed ≡ false) × (length (content w'.log.dir.active) ≤ max_file_bytes)
unfolding write_bounded
write_bounded-within c text w calm h short =
    let (due_ok, same, open_, room) = rotate_if_due-HasRoom c (length text + 1) w calm h short in
    let w₁ = (rotate_if_due c (length text + 1) w).1 in
    let (ok, whole) = calm-written c text w₁.log calm open_ in
    rw (due_ok, ok)
      (
        same ∙ h.working,
        omega (
          arith,
          room,
          ap length whole,
          length-append (content w₁.log.dir.active) (text ++ 10 ∷ []),
          length-append text (10 ∷ []),
        ),
      )

bounded-short :
    (diagnostic : ℕ → Text) (text : Text)
    → ((n : ℕ) → length (diagnostic n) + 1 ≤ max_record_bytes)
    → length (bounded diagnostic text) + 1 ≤ max_record_bytes
bounded-short diagnostic text short = elim (Bool-cases (ltb max_record_bytes (length text + 1))) [
  | inl long ↦ rw long (short (length text))
  | inr fits ↦ rw fits (ground (arith, fits))
]

-- If every diagnostic fits a record and no call fails, then writing a record of whatever length to a
-- log at work, with the rotation before it if one is due, leaves the log writing and its active file
-- within 10 MiB.
pub write_record-within :
    (diagnostic : ℕ → Text) (c : Calls) (text : Text) (w : Writer)
    → ((n : ℕ) → length (diagnostic n) + 1 ≤ max_record_bytes)
    → IsCalm c
    → IsWorking w
    → let w' = write_record diagnostic c text w in
      (w'.failed ≡ false) × (length (content w'.log.dir.active) ≤ max_file_bytes)
unfolding write_record
write_record-within diagnostic c text w short calm h =
    let written = write_bounded c (bounded diagnostic text) w in
    subst
      (λ b.
        let w' = if b then w else written in
        (w'.failed ≡ false) × (length (content w'.log.dir.active) ≤ max_file_bytes))
      (sym h.working)
      (write_bounded-within c (bounded diagnostic text) w calm h
        (bounded-short diagnostic text short))
