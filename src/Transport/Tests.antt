-- ===== src/Transport/Tests.antt =====
-- Tests of the retries, and the theorem about them at a concrete input.
use cyber_guard_enterprise.Prelude.{ℕ, ◌*◌, ◌≡◌, ◌==◌, refl, [], ◌∷◌, All, arith, if◌then◌else◌}
use cyber_guard_enterprise.Delivery.Batches.{HeartbeatConfig, next_backoff}
use cyber_guard_enterprise.Transport.{Reply, response, send, send_loop}
use cyber_guard_enterprise.Transport.Retries.{first_success, Follows, IsWait, send-Follows}

abbrev five_tries : HeartbeatConfig
five_tries = record {
  interval_seconds = 30;
  request_timeout_seconds = 10;
  max_retries = 5;
  backoff_initial_ms = 500;
  scale = λ ms. ms * 2;
  backoff_max_ms = 1500;
}

-- The fourth attempt succeeds.
abbrev fourth : ℕ → Reply
fourth k = if k == 4 then response 202 else response 503

third_wait : (send fourth five_tries).waits ≡ 500 ∷ 1000 ∷ 1500 ∷ []
unfolding send send_loop next_backoff
third_wait = refl

send-Follows_example :
    let sent = send fourth five_tries in
    Follows fourth 0 5 (first_success 5 fourth 0) sent × All (IsWait five_tries) sent.waits
send-Follows_example = send-Follows fourth five_tries (omega arith)
