-- ===== src/Etw/Ring/Warning.antt =====
-- agent/cg-agent/src/etw/ring.rs: the overflow warning over a sequence of checks, as the delivery
-- loop makes them.
use cyber_guard_enterprise.Prelude.{
  ℕ, ◌+◌, ◌≤◌, ◌≡◌, false, List, [], ◌∷◌, Option, none, some, arith, leb, if◌then◌else◌, inl, inr,
  Bool-cases,
}
use cyber_guard_enterprise.Etw.Ring.{EventRing, OverflowWarning, check, interval, is_recent}

-- The instants at which a sequence of checks warned.
unfoldable pub warnings : OverflowWarning → List (EventRing × ℕ) → List ℕ
warnings w [] = []
warnings w ((ring, now) ∷ checks) =
    let (w', warned) = check w ring now in
    let later = warnings w' checks in if warned then now ∷ later else later

-- `gap` nanoseconds or more lie between each instant and the next.
abbrev pub Spaced : ℕ → Option ℕ → List ℕ → Type 0
Spaced gap last [] = Unit {0}
Spaced gap none (t ∷ ts) = Spaced gap (some t) ts
Spaced gap (some last) (t ∷ ts) = (last + gap ≤ t) × Spaced gap (some t) ts

due-Spaced :
    (last : Option ℕ) (now : ℕ) (ts : List ℕ)
    → is_recent last now ≡ false
    → Spaced interval (some now) ts
    → Spaced interval last (now ∷ ts)
due-Spaced none now ts due h = h
due-Spaced (some t) now ts due h = (ground arith, h)

-- However often it is checked, and whatever the ring and the clock do, the warning is given at most
-- once per 60 s, the last one before the checks included.
pub warnings-Spaced :
    (w : OverflowWarning) (checks : List (EventRing × ℕ))
    → Spaced interval w.last_warn (warnings w checks)
unfolding warnings check
warnings-Spaced w [] = tt
warnings-Spaced w ((ring, now) ∷ checks) =
    elim (Bool-cases (leb ring.dropped_total w.reported_total)) [
      | inl seen ↦ rw seen (warnings-Spaced w checks)
      | inr grown ↦ elim (Bool-cases (is_recent w.last_warn now)) [
        | inl recent ↦ rw (grown, recent) (warnings-Spaced w checks)
        | inr due ↦
            rw (grown, due)
              (due-Spaced w.last_warn now _ due (
                warnings-Spaced
                  (record { reported_total = ring.dropped_total; last_warn = some now }) checks))
      ]
    ]
