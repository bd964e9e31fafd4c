-- ===== src/Service/Migration/Starts/Settled.antt =====
-- agent/cg-agent/src/service/migration.rs: a host whose old copies a pass has been asked to remove.
use cyber_guard_enterprise.Prelude.{
  ◌≡◌, refl, sym, subst, ◌∙◌, ◌⊎◌, inl, inr, Bool, true, false, Option, none, some, Option-cases,
}
use cyber_guard_enterprise.Prelude.Results.{Result, ok, err}
use cyber_guard_enterprise.Service.Migration.Arguments.{Choice, remove, keep, Texts, Request}
use cyber_guard_enterprise.Service.Migration.Host.{
  Record, Stop, Prepared, committed_start, plain_start, console_layout, Dir, Host, Environment,
  staged_names, counts,
}
use cyber_guard_enterprise.Service.Migration.Phases.{
  host_of, Safe, After, staged_is_no_console, Holds, IsStaged,
}
use cyber_guard_enterprise.Service.Migration.Route.{check_data_directories}
use cyber_guard_enterprise.Service.Migration.Start.{
  data_root_record, committed, plain, choose_route, prepare,
}
use cyber_guard_enterprise.Service.Migration.Passes.{
  Left, pass_with, pass_over, after_prepare, written_to, left_by,
}
use cyber_guard_enterprise.Service.Migration.Safety.States.{IsComplete}
use cyber_guard_enterprise.Service.Migration.Starts.Branches.{Ends}

-- The staged tree, whole and with a record that chooses to remove the old copies, as the data root.
abbrev pub SettledAs : (data_root staging legacy : Option Dir) → Type 0
SettledAs (some d) none l =
    (d.closed ≡ true)
    × (d.names ≡ staged_names)
    × ((r : Record) × (d.saved ≡ some r) × (r.choice ≡ remove))
SettledAs (some d) (some s) l = ⊥
SettledAs none s l = ⊥

abbrev pub IsSettled : Host → Type 0
IsSettled h = SettledAs h.data_root h.staging h.legacy

-- A state of a migration, or one in which a pass may have removed copies, if there was a pass.
abbrev pub Kept : Bool → Texts → Host → Type 0
Kept passed files h = Safe files h ⊎ ((passed ≡ true) × IsSettled h)

abbrev pub KeptEnds : Bool → Texts → Prepared → Host → Type 0
KeptEnds passed files prepared h = Ends files prepared h ⊎ ((passed ≡ true) × IsSettled h)

committed_same :
    (env : Environment) (request : Option Request) (h : Host) → (committed env request h).1 ≡ h
unfolding committed check_data_directories data_root_record
committed_same env request h = elim (Option-cases env.directories_refused) [
  | inl none_ ↦ elim (Option-cases env.record_unread) [
    | inl reads ↦ rw (none_, reads) refl
    | inr (reason, unread) ↦ rw (none_, unread) refl
  ]
  | inr (stop, refuses) ↦ rw refuses refl
]

plain_same : (env : Environment) (request : Option Request) (h : Host) → (plain env request h).1 ≡ h
unfolding plain check_data_directories data_root_record
plain_same env (some q) h = refl
plain_same env none h = elim (Option-cases env.directories_refused) [
  | inl none_ ↦ elim (Option-cases env.record_unread) [
    | inl reads ↦ rw (none_, reads) refl
    | inr (reason, unread) ↦ rw (none_, unread) refl
  ]
  | inr (stop, refuses) ↦ rw refuses refl
]

-- A start on such a host changes nothing.
settled_same :
    (env : Environment) (request : Option Request) (h : Host)
    → IsSettled h
    → (prepare env request h).1 ≡ h
unfolding prepare choose_route
settled_same env request h p = at h.data_root h.staging h.legacy p
  where
    chosen : (sees : Bool) (h : Host) → (choose_route env request true false false sees h).1 ≡ h
    chosen true h = committed_same env request h
    chosen false h = plain_same env request h

    at :
        (d s l : Option Dir)
        → SettledAs d s l
        → (prepare env request (host_of d s l)).1 ≡ host_of d s l
    at (some d) none l p =
        subst
          (λ c.
            (choose_route env request true c false (counts env.sees_legacy l)
              (host_of (some d) none l)).1
            ≡ host_of (some d) none l)
          (sym (staged_is_no_console d p.1))
          (chosen (counts env.sees_legacy l) (host_of (some d) none l))
    at (some d) (some s) l p = absurd p
    at none s l p = absurd p

pub prepare-Settled :
    (files : Texts) (passed : Bool) (env : Environment) (request : Option Request) (h : Host)
    → passed ≡ true
    → IsSettled h
    → After (Kept passed files) (KeptEnds passed files) (prepare env request h)
prepare-Settled files passed env request h e p =
    by (prepare env request h) (subst IsSettled (sym (settled_same env request h p)) p)
  where
    by :
        (r : Result Stop Prepared × Host)
        → IsSettled r.1
        → After (Kept passed files) (KeptEnds passed files) r
    by (ok prepared, h) p = inr (e, p)
    by (err stop, h) p = inr (e, p)

written-choice : (r : Record) (names : Option Texts) → (written_to r names).choice ≡ r.choice
written-choice r none = refl
written-choice r (some names) = refl

IsSettled-pass : (left : Left) (h : Host) → IsSettled h → IsSettled (pass_over left h.data_root h)
IsSettled-pass left h p = at h.data_root h.staging h.legacy p
  where
    at : (d s l : Option Dir) → SettledAs d s l → IsSettled (pass_over left d (host_of d s l))
    at (some d) none l (closed, names, (r, saved, removes)) =
        subst (λ o. IsSettled (pass_with left d o (host_of (some d) none l))) (sym saved)
          (
            closed,
            names,
            (written_to r left.not_reached, refl, written-choice r left.not_reached ∙ removes),
          )
    at (some d) (some s) l p = absurd p
    at none s l p = absurd p

IsComplete-pass :
    (files : Texts) (left : Left) (h : Host)
    → IsComplete files h
    → Kept true files (pass_over left h.data_root h)
IsComplete-pass files left h p = at h.data_root h.staging h.legacy p
  where
    by :
        (d l : Dir) (r : Record) (choice : Choice)
        → r.choice ≡ choice
        → Holds files l
        → IsStaged d
        → Kept true files (record (host_of (some d) none (some l)) {
          data_root = some (record d { saved = some (written_to r left.not_reached) });
          legacy = left_by choice (some l) left.legacy;
        })
    by d l r keep e holds (closed, saved, names) =
        inl (holds, (closed, (written_to r left.not_reached, refl), names))
    by d l r remove e holds (closed, saved, names) = inr (
      refl,
      (closed, names, (written_to r left.not_reached, refl, written-choice r left.not_reached ∙ e)),
    )

    at :
        (d s l : Option Dir)
        → IsComplete files (host_of d s l)
        → Kept true files (pass_over left d (host_of d s l))
    at (some d) none (some l) (holds, (closed, (r, saved), names)) =
        subst (λ o. Kept true files (pass_with left d o (host_of (some d) none (some l))))
          (sym saved) (by d l r r.choice refl holds (closed, (r, saved), names))
    at (some d) none none p = absurd p
    at (some d) (some s) l p = absurd p
    at none s l p = absurd p

-- What a start leaves, with the pass after it.
pub after_prepare-Kept :
    (files : Texts) (passed : Bool) (r : Result Stop Prepared × Host)
    → After (Kept passed files) (KeptEnds passed files) r
    → Kept passed files (after_prepare none r)
unfolding after_prepare
after_prepare-Kept files passed (ok prepared, h) (inl p) = inl p.0
after_prepare-Kept files passed (ok prepared, h) (inr p) = inr p
after_prepare-Kept files passed (err stop, h) p = p

weaken : (files : Texts) (passed : Bool) (h : Host) → Kept passed files h → Kept true files h
weaken files passed h (inl p) = inl p
weaken files passed h (inr p) = inr (refl, p.1)

pub pass-Kept :
    (files : Texts) (passed : Bool) (left : Left) (r : Result Stop Prepared × Host)
    → After (Kept passed files) (KeptEnds passed files) r
    → Kept true files (after_prepare (some left) r)
unfolding after_prepare
pass-Kept files passed left (ok committed_start, h) (inl p) =
    IsComplete-pass files left h (p.1 refl)
pass-Kept files passed left (ok committed_start, h) (inr p) = inr (refl, IsSettled-pass left h p.1)
pass-Kept files passed left (ok plain_start, h) (inl p) = inl p.0
pass-Kept files passed left (ok plain_start, h) (inr p) = inr (refl, p.1)
pass-Kept files passed left (ok console_layout, h) (inl p) = inl p.0
pass-Kept files passed left (ok console_layout, h) (inr p) = inr (refl, p.1)
pass-Kept files passed left (err stop, h) p = weaken files passed h p
