-- ===== src/Transport/Retries.antt =====
-- agent/cg-agent/src/transport.rs: how often a heartbeat is sent.
use cyber_guard_enterprise.Prelude.{
  ℕ, zero, suc, ◌+◌, ◌-◌, ◌≤◌, ◌<◌, ◌≡◌, refl, ap, subst, ◌⊎◌, inl, inr, true, false, All, Option,
  none, some, Text, bytes, arith, length, ltb, leb, if◌then◌else◌, Bool-cases,
}
use cyber_guard_enterprise.Delivery.Batches.{HeartbeatConfig, next_backoff}
use cyber_guard_enterprise.Transport.{
  Reply, is_success, error_text, delivered, retry_exhausted, Sent, after, send_loop, send,
}

-- The first of the `n` attempts after `attempt` that succeeds.
unfoldable pub first_success : ℕ → (ℕ → Reply) → ℕ → Option ℕ
first_success zero post attempt = none
first_success (suc n) post attempt =
    let rest = first_success n post (attempt + 1) in
    if is_success (post (attempt + 1)) then some (attempt + 1) else rest

-- The result of the attempts after `attempt`: delivered at the first success, or exhausted with the
-- error of the last attempt; a wait before each attempt but the first.
abbrev pub Follows : (ℕ → Reply) → ℕ → ℕ → Option ℕ → Sent → Type 0
Follows post attempt last (some k) sent =
    (sent.outcome ≡ delivered) × (attempt + length sent.waits + 1 ≡ k)
Follows post attempt last none sent =
    (sent.outcome ≡ retry_exhausted last (error_text (post last)))
    × (attempt + length sent.waits + 1 ≡ last)

abbrev pub IsWait : HeartbeatConfig → ℕ → Type 0
IsWait config w = (w ≡ config.backoff_initial_ms) ⊎ (w ≤ config.backoff_max_ms)

waited :
    (post : ℕ → Reply) (attempt last backoff_ms : ℕ) (first : Option ℕ) (sent : Sent)
    → Follows post (attempt + 1) last first sent
    → Follows post attempt last first (after backoff_ms sent)
waited post attempt last backoff_ms none sent (outcome, count) = (outcome, omega (arith, count))
waited post attempt last backoff_ms (some k) sent (outcome, count) = (outcome, omega (arith, count))

next-IsWait : (config : HeartbeatConfig) (ms : ℕ) → IsWait config (next_backoff ms config)
unfolding next_backoff
next-IsWait config ms = inr (omega arith)

send_loop-Follows :
    (fuel : ℕ) (post : ℕ → Reply) (config : HeartbeatConfig) (attempt backoff_ms : ℕ)
    (last_error : Text)
    → attempt + suc fuel ≡ config.max_retries
    → IsWait config backoff_ms
    → let sent = send_loop (suc fuel) post config attempt backoff_ms last_error in
      Follows post attempt config.max_retries (first_success (suc fuel) post attempt) sent
      × All (IsWait config) sent.waits
unfolding send_loop first_success
send_loop-Follows zero post config attempt backoff_ms last_error e w =
    let more : ltb attempt config.max_retries ≡ true = ground (arith, e) in
    let ends : leb config.max_retries (attempt + 1) ≡ true = ground (arith, e) in
    let last : attempt + 1 ≡ config.max_retries = omega (arith, e) in
    elim (Bool-cases (is_success (post (attempt + 1)))) [
      | inl ok ↦ rw (more, ok) ((refl, omega arith), tt)
      | inr failed ↦
          rw (more, failed, ends)
            ((ap (λ n. retry_exhausted n (error_text (post n))) last, omega (arith, last)), tt)
    ]
send_loop-Follows (suc fuel) post config attempt backoff_ms last_error e w =
    let more : ltb attempt config.max_retries ≡ true = ground (arith, e) in
    let goes : leb config.max_retries (attempt + 1) ≡ false = ground (arith, e) in
    let next = next_backoff backoff_ms config in
    let (follows, waits) =
      send_loop-Follows fuel post config (attempt + 1) next (error_text (post (attempt + 1)))
        (omega (arith, e)) (next-IsWait config backoff_ms) in
    elim (Bool-cases (is_success (post (attempt + 1)))) [
      | inl ok ↦ rw (more, ok) ((refl, omega arith), tt)
      | inr failed ↦
          rw (more, failed, goes)
            (
              waited post attempt config.max_retries backoff_ms
                  (first_success (suc fuel) post (attempt + 1))
                  (send_loop (suc fuel) post config (attempt + 1) next
                    (error_text (post (attempt + 1))))
                  follows,
              (w, waits),
            )
    ]

-- With at least one attempt configured, a heartbeat is delivered at the first of the `max_retries`
-- attempts that succeeds, with no attempt after it; if none succeeds it has made them all and fails
-- with the error of the last. Between two attempts it waits the initial backoff or at most
-- `backoff_max_ms`.
pub send-Follows :
    (post : ℕ → Reply) (config : HeartbeatConfig)
    → 0 < config.max_retries
    → let sent = send post config in
      Follows post 0 config.max_retries (first_success config.max_retries post 0) sent
      × All (IsWait config) sent.waits
unfolding send
send-Follows post config some_attempt =
    subst
      (λ n.
        let sent = send_loop n post config 0 config.backoff_initial_ms (bytes "no attempts made") in
        Follows post 0 config.max_retries (first_success n post 0) sent
        × All (IsWait config) sent.waits)
      (omega (arith, some_attempt))
      (send_loop-Follows (config.max_retries - 1) post config 0 config.backoff_initial_ms
        (bytes "no attempts made") (omega (arith, some_attempt)) (inl refl))
