-- ===== src/Config/Rules.antt =====
-- agent/cg-agent/src/config.rs: the rules of a deserialized configuration, and the error of each.
use cyber_guard_enterprise.Prelude.{
  ◌≡◌, ◌≢◌, refl, ap, subst, ◌∙◌, Bool, true, false, ◌||◌, not, [], ◌∷◌, Option, none, some, Text,
  bytes, is_empty, text_eq, text_eq_iff, arith, Option-cases, inl, inr,
}
use cyber_guard_enterprise.Prelude.Results.{
  Result, ok, Done, ◌>>◌, guard, Holds, Holds-test, Holds-then,
}
use cyber_guard_enterprise.Delivery.Batches.{HeartbeatConfig}
use cyber_guard_enterprise.Config.{
  has_zero, is_some, is_https, says_version, says_form, heartbeat_target, check_heartbeat,
  check_enrollment, check_anchor, check_secure, check_heartbeat_url, validate,
}
use cyber_guard_enterprise.Config.Types.{
  ConfigError, EnrollmentConfig, TlsConfig, EnvelopeConfig, AgentConfig,
}
use cyber_guard_enterprise.Config.Accepted.{
  IsHttps, IsPositive, IsAccepted, Breaks, zero_field, low_factor, plain_enrollment,
  unanchored_enrollment, empty_anchor, plain_target, other_version, other_form, plain_heartbeat,
}

module _ (is_below_one : HeartbeatConfig → Bool) (c : AgentConfig) where
  abbrev Rule : Type 0 → Result ConfigError Done → Type 0
  Rule R r = Holds (Breaks is_below_one c) (λ d. R) r

  test :
      (R : Type 0) (b : Bool) (e : ConfigError)
      → (b ≡ false → Breaks is_below_one c e)
      → (b ≡ true → R)
      → Rule R (guard b e)
  test R b e bad good = Holds-test (Breaks is_below_one c) R b e bad good

  and_then :
      (R S : Type 0) (m k : Result ConfigError Done) → Rule R m → (R → Rule S k) → Rule S (m >> k)
  and_then R S m k h next = Holds-then (Breaks is_below_one c) (λ d. S) R m k h next

  check_heartbeat-Rule :
      Rule
        (IsPositive c.heartbeat × (is_below_one c.heartbeat ≡ false))
        (check_heartbeat is_below_one c.heartbeat)
  unfolding check_heartbeat
  check_heartbeat-Rule =
      and_then (IsPositive c.heartbeat)
        (IsPositive c.heartbeat × (is_below_one c.heartbeat ≡ false))
        (guard (not (has_zero c.heartbeat)) _) (guard (not (is_below_one c.heartbeat)) _)
        (test (IsPositive c.heartbeat) (not (has_zero c.heartbeat)) _
          (λ bad.
            zero_field (λ p. ground (arith, p.interval, p.timeout, p.initial, p.maximum, bad)))
          (λ fine. ground (arith, fine)))
        (λ positive.
          test (IsPositive c.heartbeat × (is_below_one c.heartbeat ≡ false))
            (not (is_below_one c.heartbeat)) _ (λ bad. low_factor (ground (arith, bad)))
            (λ fine. (positive, ground (arith, fine))))

  abbrev Enrolls : Option EnrollmentConfig → Type 0
  Enrolls o =
      (e : EnrollmentConfig)
      → o ≡ some e
      → IsHttps c.server.url × ((path : Text) × (c.server.trust_anchor_path ≡ some path))

  of_some : (o : Option Text) → is_some o ≡ true → (path : Text) × (o ≡ some path)
  of_some none h = cc
  of_some (some path) h = (path, refl)

  check_enrollment-Rule :
      (o : Option EnrollmentConfig)
      → c.enrollment ≡ o
      → Rule (Enrolls o) (check_enrollment c.server o)
  unfolding check_enrollment
  check_enrollment-Rule none absent = λ e present. cc
  check_enrollment-Rule (some e) present =
      let enrolled : c.enrollment ≢ none = λ absent. cc in
      and_then (IsHttps c.server.url) (Enrolls (some e)) (guard (is_https c.server.url) _)
        (guard (is_some c.server.trust_anchor_path) _)
        (test (IsHttps c.server.url) (is_https c.server.url) _
          (λ bad. plain_enrollment enrolled (λ https. cc)) (λ https. https))
        (λ https.
          test (Enrolls (some e)) (is_some c.server.trust_anchor_path) _
            (λ bad. unanchored_enrollment enrolled (ground (arith, bad)))
            (λ has e' _. (https, of_some c.server.trust_anchor_path has)))

  check_anchor-Rule :
      (o : Option Text)
      → c.server.trust_anchor_path ≡ o
      → Rule ((path : Text) → o ≡ some path → path ≢ []) (check_anchor o)
  unfolding check_anchor
  check_anchor-Rule none e = λ path present. cc
  check_anchor-Rule (some path) e =
      test ((p : Text) → some path ≡ some p → p ≢ []) (not (is_empty path)) _
        (λ bad. empty_anchor (e ∙ ap some (empty path bad)))
        (λ fine p same nil. ground (arith, fine, nil, same))
    where
      empty : (p : Text) → not (is_empty p) ≡ false → p ≡ []
      empty [] h = refl
      empty (x ∷ p) h = cc

  -- What `check_secure` adds to `check_anchor`.
  abbrev Reaches : Type 0
  Reaches =
      ((is_some c.server.heartbeat_url || is_https c.server.url) ≡ true)
      × ((t : TlsConfig) → c.tls ≡ some t → t.minimum_version ≡ bytes "1.3")
      × ((e : EnvelopeConfig) → c.envelope ≡ some e → e.canonical_form ≡ bytes "JCS")

  version_said :
      (o : Option TlsConfig)
      → says_version o ≡ true
      → (t : TlsConfig) → o ≡ some t
      → t.minimum_version ≡ bytes "1.3"
  version_said none h t e = cc
  version_said (some u) h t e = (text_eq_iff t.minimum_version (bytes "1.3")).0 (
      let same : u ≡ t = cc in
      subst (λ (t : TlsConfig). text_eq t.minimum_version (bytes "1.3") ≡ true) same h)

  version_unsaid :
      (o : Option TlsConfig)
      → says_version o ≡ false
      → (t : TlsConfig) × (o ≡ some t) × (t.minimum_version ≢ bytes "1.3")
  version_unsaid none h = cc
  version_unsaid (some t) h =
      (t, refl, λ e. ground (arith, h, (text_eq_iff t.minimum_version (bytes "1.3")).1 e))

  form_said :
      (o : Option EnvelopeConfig)
      → says_form o ≡ true
      → (t : EnvelopeConfig) → o ≡ some t
      → t.canonical_form ≡ bytes "JCS"
  form_said none h t e = cc
  form_said (some u) h t e = (text_eq_iff t.canonical_form (bytes "JCS")).0 (
      let same : u ≡ t = cc in
      subst (λ (t : EnvelopeConfig). text_eq t.canonical_form (bytes "JCS") ≡ true) same h)

  form_unsaid :
      (o : Option EnvelopeConfig)
      → says_form o ≡ false
      → (t : EnvelopeConfig) × (o ≡ some t) × (t.canonical_form ≢ bytes "JCS")
  form_unsaid none h = cc
  form_unsaid (some t) h =
      (t, refl, λ e. ground (arith, h, (text_eq_iff t.canonical_form (bytes "JCS")).1 e))

  check_secure-Rule :
      (o : Option Text)
      → c.server.trust_anchor_path ≡ o
      → Rule ((path : Text) → o ≡ some path → Reaches) (check_secure c o)
  unfolding check_secure
  check_secure-Rule none e = λ path present. cc
  check_secure-Rule (some path) e =
      let anchored : c.server.trust_anchor_path ≢ none = λ absent. cc in
      let R = (p : Text) → some path ≡ some p → Reaches in
      and_then ((is_some c.server.heartbeat_url || is_https c.server.url) ≡ true) R
        (guard (is_some c.server.heartbeat_url || is_https c.server.url) _)
        (guard (says_version c.tls) _ >> guard (says_form c.envelope) _)
        (test ((is_some c.server.heartbeat_url || is_https c.server.url) ≡ true)
          (is_some c.server.heartbeat_url || is_https c.server.url) _
          (λ bad.
            plain_target anchored (none_of c.server.heartbeat_url (ground (arith, bad)))
              (λ https. ground (arith, bad, https)))
          (λ fine. fine))
        (λ target.
          and_then (says_version c.tls ≡ true) R (guard (says_version c.tls) _)
            (guard (says_form c.envelope) _)
            (test (says_version c.tls ≡ true) (says_version c.tls) _
              (λ bad.
                let (t, present, other) = version_unsaid c.tls bad in
                other_version anchored t present other)
              (λ fine. fine))
            (λ version.
              test R (says_form c.envelope) _
                (λ bad.
                  let (t, present, other) = form_unsaid c.envelope bad in
                  other_form anchored t present other)
                (λ fine p _. (target, version_said c.tls version, form_said c.envelope fine))))
    where
      none_of : (o : Option Text) → is_some o ≡ false → o ≡ none
      none_of none h = refl
      none_of (some u) h = cc

  check_heartbeat_url-Rule :
      (o : Option Text)
      → c.server.heartbeat_url ≡ o
      → Rule ((url : Text) → o ≡ some url → IsHttps url) (check_heartbeat_url o)
  unfolding check_heartbeat_url
  check_heartbeat_url-Rule none e = λ url present. cc
  check_heartbeat_url-Rule (some url) e =
      test ((u : Text) → some url ≡ some u → IsHttps u) (is_https url) _
        (λ bad. plain_heartbeat url e (λ https. cc)) (λ https u same. cc)

  -- The target is the explicit URL, or the server's.
  target-IsHttps :
      ((is_some c.server.heartbeat_url || is_https c.server.url) ≡ true)
      → ((url : Text) → c.server.heartbeat_url ≡ some url → IsHttps url)
      → IsHttps (heartbeat_target c.server)
  unfolding heartbeat_target
  target-IsHttps either explicit = elim (Option-cases c.server.heartbeat_url) [
    | inl absent ↦ rw absent (ground (arith, either, absent))
    | inr (url, present) ↦ rw present (explicit url present)
  ]

  step :
      (R : Type 0) (m : Result ConfigError Done) (k : Result ConfigError AgentConfig)
      → Rule R m
      → (R → Holds (Breaks is_below_one c) (λ c'. (c' ≡ c) × IsAccepted is_below_one c) k)
      → Holds (Breaks is_below_one c) (λ c'. (c' ≡ c) × IsAccepted is_below_one c) (m >> k)
  step R m k h next =
      Holds-then (Breaks is_below_one c) (λ c'. (c' ≡ c) × IsAccepted is_below_one c) R m k h next

  -- A validation that succeeds returns the configuration, which keeps every rule that is tested; one
  -- that fails returns the error of one that is broken.
  pub validate-Rule :
      Holds
        (Breaks is_below_one c)
        (λ c'. (c' ≡ c) × IsAccepted is_below_one c)
        (validate is_below_one c)
  unfolding validate
  validate-Rule =
      let anchor = c.server.trust_anchor_path in
      let url = c.server.heartbeat_url in
      step (IsPositive c.heartbeat × (is_below_one c.heartbeat ≡ false))
        (check_heartbeat is_below_one c.heartbeat) _ check_heartbeat-Rule
        (λ heartbeat.
          step (Enrolls c.enrollment) (check_enrollment c.server c.enrollment) _
            (check_enrollment-Rule c.enrollment refl)
            (λ enrolls.
              step ((path : Text) → anchor ≡ some path → path ≢ []) (check_anchor anchor) _
                (check_anchor-Rule anchor refl)
                (λ named.
                  step ((path : Text) → anchor ≡ some path → Reaches) (check_secure c anchor) _
                    (check_secure-Rule anchor refl)
                    (λ reaches.
                      step ((u : Text) → url ≡ some u → IsHttps u) (check_heartbeat_url url) (ok c)
                        (check_heartbeat_url-Rule url refl)
                        (λ explicit. (
                          refl,
                          record {
                            positive = heartbeat.0;
                            factor = heartbeat.1;
                            enrolls = enrolls;
                            anchored = λ path present. record {
                              named = named path present;
                              target = target-IsHttps (reaches path present).0 explicit;
                              version = (reaches path present).1;
                              form = (reaches path present).2;
                            };
                            explicit = explicit;
                          },
                        ))))))
