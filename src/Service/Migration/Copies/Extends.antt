-- ===== src/Service/Migration/Copies/Extends.antt =====
-- agent/cg-agent/src/service/migration.rs: a report of the pass that grows.
use cyber_guard_enterprise.Prelude.{◌≡◌, true, [], ◌∷◌, ◌++◌, Option, some, Text, inl, inr, ◌⊎◌}
use cyber_guard_enterprise.Service.Migration.Entries.{has_name}
use cyber_guard_enterprise.Service.Migration.Host.{Record}
use cyber_guard_enterprise.Service.Migration.Files.Private.{has_name-append}
use cyber_guard_enterprise.Service.Migration.Copies.{Copies, missed}

-- A copy is in the report: restricted, or not reached.
abbrev pub IsReported : Copies → Text → Type 0
IsReported report name =
    (has_name name report.restricted ≡ true) ⊎ (has_name name report.not_reached ≡ true)

pub some-some : {a b : Record} → ◌≡◌ {A = Option Record} (some a) (some b) → a ≡ b
some-some h = cc

-- One report after another: it loses no name.
pub record Extends (report report' : Copies) : Type 0 where
  pub restricts :
      (name : Text)
      → has_name name report.restricted ≡ true
      → has_name name report'.restricted ≡ true
  pub misses :
      (name : Text)
      → has_name name report.not_reached ≡ true
      → has_name name report'.not_reached ≡ true

pub Extends-IsReported :
    (report report' : Copies)
    → Extends report report'
    → (name : Text) → IsReported report name
    → IsReported report' name
Extends-IsReported report report' e name (inl h) = inl (e.restricts name h)
Extends-IsReported report report' e name (inr h) = inr (e.misses name h)

pub Extends-refl : (report : Copies) → Extends report report
Extends-refl report = record { restricts = λ name h. h; misses = λ name h. h }

pub Extends-trans : (a b c : Copies) → Extends a b → Extends b c → Extends a c
Extends-trans a b c f g = record {
  restricts = λ name h. g.restricts name (f.restricts name h);
  misses = λ name h. g.misses name (f.misses name h);
}

pub missed-Extends : (name : Text) (report : Copies) → Extends report (missed name report)
missed-Extends name report = record {
  restricts = λ n h. h;
  misses = λ n h. has_name-append n report.not_reached (name ∷ []) h;
}

pub restricted-Extends :
    (name : Text) (report : Copies)
    → Extends report (record report { restricted = report.restricted ++ name ∷ [] })
restricted-Extends name report = record {
  restricts = λ n h. has_name-append n report.restricted (name ∷ []) h;
  misses = λ n h. h;
}
