-- ===== src/Service/Migration/Phases.antt =====
-- agent/cg-agent/src/service/migration.rs: the states that a migration passes through.
use cyber_guard_enterprise.Prelude.{
  ◌≡◌, refl, ap, ◌∙◌, true, false, [], ◌∷◌, Option, none, some, text_eq, text_eq_iff, and_true,
}
use cyber_guard_enterprise.Prelude.Results.{Result, ok, err, Done, done}
use cyber_guard_enterprise.Service.Migration.Arguments.{Texts}
use cyber_guard_enterprise.Service.Migration.Host.{
  Record, Point, Injected, Dir, Host, Environment, Step, continues, renames, answer, at_point,
  identity_files, staged_names, any_name, texts_eq, is_console,
}

-- A staging directory, if there is one, passes the policy.
abbrev pub Closes : Option Dir → Type 0
Closes none = Unit
Closes (some s) = s.closed ≡ true

-- The console installation's directory: closed, and with the files that it had.
abbrev pub Holds : Texts → Dir → Type 0
Holds files d = (d.closed ≡ true) × (d.names ≡ files)

abbrev pub IsSaved : Dir → Type 0
IsSaved d = (r : Record) × (d.saved ≡ some r)

-- A whole staged tree, with its record.
abbrev pub IsStaged : Dir → Type 0
IsStaged s = (s.closed ≡ true) × IsSaved s × (s.names ≡ staged_names)

-- The three states: the console installation in the data root, perhaps beside a staging directory;
-- between the renames, when it is the legacy directory and the staged tree waits; and after the
-- commit, when the staged tree is the data root.
abbrev pub Phase : Texts → (data_root staging legacy : Option Dir) → Type 0
Phase files (some d) s none = (d.names ≡ files) × Closes s
Phase files none (some s) (some l) = Holds files l × IsStaged s
Phase files (some d) none (some l) = Holds files l × IsStaged d
Phase files none none l = ⊥
Phase files none (some s) none = ⊥
Phase files (some d) (some s) (some l) = ⊥

abbrev pub Safe : Texts → Host → Type 0
Safe files h = Phase files h.data_root h.staging h.legacy

-- Hosts by which of the directories are there, and what is so of these: the data root alone or with
-- a staging directory, both, both others, and all but the staging directory.
abbrev pub AtRoot : (Dir → Option Dir → Type 0) → (data_root staging legacy : Option Dir) → Type 0
AtRoot P (some d) s none = P d s
AtRoot P (some d) s (some l) = ⊥
AtRoot P none s l = ⊥

abbrev pub AtStaging : (Dir → Dir → Type 0) → (data_root staging legacy : Option Dir) → Type 0
AtStaging P (some d) (some s) none = P d s
AtStaging P (some d) none none = ⊥
AtStaging P (some d) s (some l) = ⊥
AtStaging P none s l = ⊥

abbrev pub Between : (Dir → Dir → Type 0) → (data_root staging legacy : Option Dir) → Type 0
Between P none (some s) (some l) = P s l
Between P none none l = ⊥
Between P none (some s) none = ⊥
Between P (some d) s l = ⊥

abbrev pub AtLegacy : (Dir → Dir → Type 0) → (data_root staging legacy : Option Dir) → Type 0
AtLegacy P (some d) none (some l) = P d l
AtLegacy P (some d) none none = ⊥
AtLegacy P (some d) (some s) l = ⊥
AtLegacy P none s l = ⊥

abbrev pub host_of : Option Dir → Option Dir → Option Dir → Host
host_of d s l = record { data_root = d; staging = s; legacy = l }

-- What is so of every host of a kind is so of one.
pub AtRoot_cases :
    (P : Dir → Option Dir → Type 0) (R : Host → Type 0)
    → ((d : Dir) (s : Option Dir) → P d s → R (host_of (some d) s none))
    → (h : Host) → AtRoot P h.data_root h.staging h.legacy
    → R h
AtRoot_cases P R f h p = from h.data_root h.staging h.legacy p
  where
    from : (d s l : Option Dir) → AtRoot P d s l → R (host_of d s l)
    from (some d) s none p = f d s p
    from (some d) s (some l) p = absurd p
    from none s l p = absurd p

pub AtStaging_cases :
    (P : Dir → Dir → Type 0) (R : Host → Type 0)
    → ((d s : Dir) → P d s → R (host_of (some d) (some s) none))
    → (h : Host) → AtStaging P h.data_root h.staging h.legacy
    → R h
AtStaging_cases P R f h p = from h.data_root h.staging h.legacy p
  where
    from : (d s l : Option Dir) → AtStaging P d s l → R (host_of d s l)
    from (some d) (some s) none p = f d s p
    from (some d) none none p = absurd p
    from (some d) s (some l) p = absurd p
    from none s l p = absurd p

pub Between_cases :
    (P : Dir → Dir → Type 0) (R : Host → Type 0)
    → ((s l : Dir) → P s l → R (host_of none (some s) (some l)))
    → (h : Host) → Between P h.data_root h.staging h.legacy
    → R h
Between_cases P R f h p = from h.data_root h.staging h.legacy p
  where
    from : (d s l : Option Dir) → Between P d s l → R (host_of d s l)
    from none (some s) (some l) p = f s l p
    from none none l p = absurd p
    from none (some s) none p = absurd p
    from (some d) s l p = absurd p

pub AtLegacy_cases :
    (P : Dir → Dir → Type 0) (R : Host → Type 0)
    → ((d l : Dir) → P d l → R (host_of (some d) none (some l)))
    → (h : Host) → AtLegacy P h.data_root h.staging h.legacy
    → R h
AtLegacy_cases P R f h p = from h.data_root h.staging h.legacy p
  where
    from : (d s l : Option Dir) → AtLegacy P d s l → R (host_of d s l)
    from (some d) none (some l) p = f d l p
    from (some d) none none p = absurd p
    from (some d) (some s) l p = absurd p
    from none s l p = absurd p

-- The first state, with the data root closed; with a saved record beside it; and with the whole
-- staged tree.
abbrev pub Rooted : Texts → (data_root staging legacy : Option Dir) → Type 0
Rooted files = AtRoot (λ d s. Holds files d × Closes s)

abbrev pub IsRooted : Texts → Host → Type 0
IsRooted files h = Rooted files h.data_root h.staging h.legacy

abbrev pub Recorded : (Dir → Type 0) → Texts → (data_root staging legacy : Option Dir) → Type 0
Recorded P files = AtStaging (λ d s. Holds files d × (s.closed ≡ true) × IsSaved s × P s)

abbrev pub IsRecorded : Texts → Host → Type 0
IsRecorded files h = Recorded (λ s. Unit) files h.data_root h.staging h.legacy

abbrev pub IsReady : Texts → Host → Type 0
IsReady files h = Recorded (λ s. s.names ≡ staged_names) files h.data_root h.staging h.legacy

-- What holds of the host after a step, by how it ended.
abbrev pub After {ℓ κ} :
    {E : Type ℓ} {A : Type κ} → (Host → Type 0) → (A → Host → Type 0) → Result E A × Host → Type 0
After P Q (ok a, h) = Q a h
After P Q (err e, h) = P h

module _ {ℓ κ} {E : Type ℓ} {A : Type κ} (P : Host → Type 0) (Q : A → Host → Type 0) where
  pub After-continues {ι} :
      {B : Type ι} (R : B → Host → Type 0) (r : Result E A × Host) (f : A → Step E B)
      → After P Q r
      → ((a : A) (h : Host) → Q a h → After P R (f a h))
      → After P R (continues r f)
  After-continues R (ok a, h) f q next = next a h q
  After-continues R (err e, h) f q next = q

  pub After-renames {ι} :
      {F : Type ι} (f : E → F) (r : Result E A × Host) → After P Q r → After P Q (renames f r)
  After-renames f (ok a, h) q = q
  After-renames f (err e, h) q = q

pub at_point-After :
    (P : Host → Type 0) (Q : Done → Host → Type 0) (env : Environment) (point : Point) (h : Host)
    → P h
    → Q done h
    → After P Q (at_point env point h)
unfolding at_point
at_point-After P Q env point h p q = answered (env.at point)
  where
    answered : (o : Option Injected) → After P Q (answer o, h)
    answered none = q
    answered (some cut) = p

pub texts_eq-eq : (s t : Texts) → texts_eq s t ≡ true → s ≡ t
texts_eq-eq [] [] h = refl
texts_eq-eq [] (u ∷ t) h = cc
texts_eq-eq (u ∷ s) [] h = cc
texts_eq-eq (u ∷ s) (v ∷ t) h =
    let (same, rest) = and_true _ _ h in
    ap (λ u. u ∷ s) ((text_eq_iff u v).0 same) ∙ ap (λ s. v ∷ s) (texts_eq-eq s t rest)

-- A staged tree is no console layout.
pub staged_is_no_console : (d : Dir) → d.names ≡ staged_names → is_console (some d) ≡ false
unfolding is_console text_eq
staged_is_no_console d e = ap (any_name identity_files) e
