-- ===== src/Transport.antt =====
-- agent/cg-agent/src/transport.rs: the retries of a plain heartbeat.
-- The replies of the server are a function of the number of the attempt; the client and the
-- envelope are not modelled.
pub mod Retries
mod Tests
use cyber_guard_enterprise.Prelude.{
  ℕ, zero, suc, ◌+◌, min, Bool, true, false, ◌&&◌, List, [], ◌∷◌, Text, bytes, ltb, leb, ◌++◌,
  if◌then◌else◌,
}
use cyber_guard_enterprise.Prelude.Print.{to_decimal}
use cyber_guard_enterprise.Delivery.Batches.{HeartbeatConfig, next_backoff}

-- An HTTP response's status, or the error of the request.
pub data Reply : Type 0 where
  response : ℕ → Reply
  network_error : Text → Reply

-- `StatusCode::is_success`.
abbrev pub is_success : Reply → Bool
is_success (response status) = leb 200 status && ltb status 300
is_success (network_error e) = false

abbrev pub error_text : Reply → Text
error_text (response status) = bytes "status " ++ to_decimal status
error_text (network_error e) = e

pub data Outcome : Type 0 where
  delivered : Outcome
  retry_exhausted : (attempts : ℕ) (last_error : Text) → Outcome

-- What `send` comes to, and the waits between its attempts, in milliseconds.
pub record Sent : Type 0 where
  pub outcome : Outcome
  pub waits : List ℕ

abbrev pub after : ℕ → Sent → Sent
after backoff_ms sent = record sent { waits = backoff_ms ∷ sent.waits }

-- The loop of `send`, on fuel.
unfoldable pub send_loop : ℕ → (ℕ → Reply) → HeartbeatConfig → ℕ → ℕ → Text → Sent
send_loop zero post config attempt backoff_ms last_error = record {
  outcome = retry_exhausted attempt last_error;
  waits = [];
}
send_loop (suc fuel) post config attempt backoff_ms last_error =
    let reply = post (attempt + 1) in
    let rest =
      send_loop fuel post config (attempt + 1) (next_backoff backoff_ms config)
        (error_text reply) in
    if ltb attempt config.max_retries
    then (if is_success reply
        then record { outcome = delivered; waits = [] }
        else if leb config.max_retries (attempt + 1)
        then record { outcome = retry_exhausted (attempt + 1) (error_text reply); waits = [] }
        else after backoff_ms rest)
    else record { outcome = retry_exhausted attempt last_error; waits = [] }

-- One unit of fuel for each attempt.
unfoldable pub send : (ℕ → Reply) → HeartbeatConfig → Sent
send post config =
    send_loop config.max_retries post config 0 config.backoff_initial_ms (bytes "no attempts made")

-- The final heartbeat: `BadStatus` and `Network` are the reply itself.
unfoldable pub send_single_attempt : (ℕ → Reply) → Bool
send_single_attempt post = is_success (post 1)
