-- ===== src/Service/Migration/Safety/States.antt =====
-- agent/cg-agent/src/service/migration.rs: the states of a route.
use cyber_guard_enterprise.Prelude.{◌≡◌, true, Option}
use cyber_guard_enterprise.Service.Migration.Arguments.{Texts}
use cyber_guard_enterprise.Service.Migration.Host.{Dir, Host}
use cyber_guard_enterprise.Service.Migration.Phases.{
  AtRoot, AtStaging, Between, AtLegacy, AtRoot_cases, AtStaging_cases, Between_cases,
  AtLegacy_cases, IsSaved, Closes, Holds, IsStaged, Safe, IsRooted, Recorded,
}

-- The states of a route, as predicates on the directories that they have.
module _ (files : Texts) where
  abbrev pub Console : Dir → Option Dir → Type 0
  Console d s = (d.names ≡ files) × Closes s

  abbrev pub Begins : Dir → Dir → Type 0
  Begins d s = Holds files d × (s.closed ≡ true)

  abbrev pub Aside : Dir → Dir → Type 0
  Aside d s = (d.names ≡ files) × (s.closed ≡ true)

  abbrev pub Waits : Dir → Dir → Type 0
  Waits s l = Holds files l × IsStaged s

  abbrev pub IsConsoled : Host → Type 0
  IsConsoled h = AtRoot Console h.data_root h.staging h.legacy

  abbrev pub IsBegun : Host → Type 0
  IsBegun h = AtStaging Begins h.data_root h.staging h.legacy

  abbrev pub IsBeside : Host → Type 0
  IsBeside h = AtStaging Aside h.data_root h.staging h.legacy

  abbrev pub IsMoved : Host → Type 0
  IsMoved h = Between Waits h.data_root h.staging h.legacy

  abbrev pub IsComplete : Host → Type 0
  IsComplete h = AtLegacy Waits h.data_root h.staging h.legacy

  pub consoled-Safe : (h : Host) → IsConsoled h → Safe files h
  consoled-Safe = AtRoot_cases Console (Safe files) (λ d s p. p)

  pub rooted-Consoled : (h : Host) → IsRooted files h → IsConsoled h
  rooted-Consoled =
      AtRoot_cases (λ d s. Holds files d × Closes s) IsConsoled (λ d s p. (p.0.1, p.1))

  pub begun-Rooted : (h : Host) → IsBegun h → IsRooted files h
  begun-Rooted = AtStaging_cases Begins (IsRooted files) (λ d s p. p)

  pub Recorded-Begun :
      (P : Dir → Type 0) (h : Host) → Recorded P files h.data_root h.staging h.legacy → IsBegun h
  Recorded-Begun P =
      AtStaging_cases (λ d s. Holds files d × (s.closed ≡ true) × IsSaved s × P s) IsBegun
        (λ d s p. (p.0, p.1))

  pub moved-Safe : (h : Host) → IsMoved h → Safe files h
  moved-Safe = Between_cases Waits (Safe files) (λ s l p. p)

  pub complete-Safe : (h : Host) → IsComplete h → Safe files h
  complete-Safe = AtLegacy_cases Waits (Safe files) (λ d l p. p)
