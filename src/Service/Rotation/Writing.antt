-- ===== src/Service/Rotation/Writing.antt =====
-- agent/cg-agent/src/service/rotation.rs: `write_record`, its rotation and its retry.
-- `diagnostic` is the text of `oversized_record`, which serde_json and chrono write. A record is
-- given without its newline, an instant is a number of nanoseconds.
pub mod Ready
pub mod Whole
pub mod Bounds
mod Tests
use cyber_guard_enterprise.Prelude.{
  ℕ, ◌+◌, ◌-◌, ◌*◌, ◌^◌, Bool, true, false, not, ◌&&◌, ◌||◌, List, [], ◌∷◌, ◌++◌, Option, none,
  some, Text, length, take, ltb, leb, if◌then◌else◌,
}
use cyber_guard_enterprise.Service.Rotation.{max_record_bytes}
use cyber_guard_enterprise.Service.Rotation.Log.{
  Log, Failures, content, reopen, rotate, max_file_bytes,
}

-- The other fields of `RotatingLog`.
pub record Writer : Type 0 where
  pub log : Log
  pub failed : Bool
  pub rotation_failing : Option (ℕ × ℕ)
  pub rotation_retry_limit : ℕ

-- What the calls of one `write_record` come to: an append that fails does so after some bytes.
pub record Calls : Type 0 where
  pub now : ℕ
  pub rotation : Failures
  pub recovery : Bool
  pub first : Option ℕ
  pub reopening : Bool
  pub newline : Option ℕ
  pub second : Option ℕ

-- 1 s.
abbrev pub rotation_retry_every : ℕ
rotation_retry_every = 10 ^ 9

abbrev pub is_just_tried : Option (ℕ × ℕ) → ℕ → Bool
is_just_tried none now = false
is_just_tried (some (since, tried)) now = ltb (now - tried) rotation_retry_every

abbrev pub failing_since : Option (ℕ × ℕ) → ℕ → ℕ
failing_since none now = now
failing_since (some (since, tried)) now = since

abbrev pub is_full : ℕ → Log → Bool
is_full len l = ltb 0 l.size && ltb max_file_bytes (l.size + len)

-- After a rotation that failed: given up, or tolerated.
unfoldable pub tolerate : Calls → Writer → Bool × Writer
tolerate c w =
    let since = failing_since w.rotation_failing c.now in
    let w' = record w { rotation_failing = some (since, c.now) } in
    let (opened, l) = reopen c.recovery w.log in
    if leb w.rotation_retry_limit (c.now - since)
    then (false, w')
    else if w.log.is_open
    then (true, w')
    else (opened, record w' { log = l })

unfoldable pub rotate_if_due : Calls → ℕ → Writer → Bool × Writer
rotate_if_due c len w =
    let (ok, l) = rotate c.rotation w.log in
    if not w.log.unfinished && not (is_full len w.log)
    then (true, w)
    else if is_just_tried w.rotation_failing c.now
    then (true, w)
    else if ok
    then (true, record w { log = l; rotation_failing = none })
    else tolerate c (record w { log = l })

-- `write_all` on the active file.
unfoldable pub append_raw : Option ℕ → Text → Log → Bool × Log
append_raw none bytes l =
    if l.is_open
    then (true, record l { dir = record l.dir { active = some (content l.dir.active ++ bytes) } })
    else (false, l)
append_raw (some n) bytes l =
    if l.is_open
    then (
      false,
      record l { dir = record l.dir { active = some (content l.dir.active ++ take n bytes) } },
    )
    else (false, l)

unfoldable pub append : Option ℕ → Text → Log → Bool × Log
append outcome text l = append_raw outcome (text ++ 10 ∷ []) l

-- The newline that ends what a failed append left, if it left anything.
unfoldable pub end_partial : Option ℕ → ℕ → Log → Bool × Log
end_partial outcome before l =
    let (ok, l') = append_raw outcome (10 ∷ []) l in
    if ltb before l.size
    then (if ok then (true, record l' { size = l'.size + 1 }) else (false, l'))
    else (true, l)

-- The retry on a reopened file.
unfoldable pub retry : Calls → Text → ℕ → Log → Bool × Log
retry c text before l =
    let (opened, l₁) = reopen c.reopening l in
    let (ended, l₂) = end_partial c.newline before l₁ in
    if not opened then (false, l₁) else if not ended then (false, l₂) else append c.second text l₂

abbrev pub fail : Writer → Writer
fail w = record w { failed = true; log = record w.log { is_open = false } }

-- An append that is done, or retried.
unfoldable pub append_or_retry : Calls → Text → Log → Bool × Log
append_or_retry c text l =
    let (ok, l') = append c.first text l in if ok then (true, l') else retry c text l.size l'

abbrev pub bounded : (ℕ → Text) → Text → Text
bounded diagnostic text =
    if ltb max_record_bytes (length text + 1) then diagnostic (length text) else text

-- A record, or its diagnostic, in a log that has not stopped.
unfoldable pub write_bounded : Calls → Text → Writer → Writer
write_bounded c text w =
    let len = length text + 1 in
    let (due_ok, w') = rotate_if_due c len w in
    let (ok, l) = append_or_retry c text w'.log in
    if not due_ok
    then fail w'
    else if ok
    then record w' { log = record l { size = l.size + len } }
    else fail (record w' { log = l })

unfoldable pub write_record : (ℕ → Text) → Calls → Text → Writer → Writer
write_record diagnostic c text w =
    let written = write_bounded c (bounded diagnostic text) w in if w.failed then w else written
