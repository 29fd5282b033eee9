-- ===== src/Retention/Freshness.antt =====
-- What a policy and evidence that service/newsletter-retention.ts accepts satisfy.
use mailgun_ses_proxy.Base.{
  ℕ, zero, suc, ◌+◌, ◌-◌, ◌≤◌, ◌≡◌, String, true, false, not, ◌||◌, Option, none, some, ltb, str_eq,
  arith,
}
use mailgun_ses_proxy.Base.Attempt.{
  returned, throw_if_passed, throw_if_through, through, through_test,
}
use mailgun_ses_proxy.Base.Number.{
  Number, finite, pos, negsuc, nan, infinity, neg_infinity, is_finite, is_integer, is_not_positive,
  exceeds, floor, to_nat,
}
use mailgun_ses_proxy.ErrorClass.{codes}
use mailgun_ses_proxy.Retention.Instant.{parse_strict_utc_iso}
use mailgun_ses_proxy.Retention.Policy.{
  is_trimmed, normalize_site_id, clamp_positive_integer, PolicyInput, RetentionPolicy, applies,
  parse_newsletter_retention_policy, Evidence, EvidenceTimes, parse_times, ensure_fresh_evidence,
  ensure_all_fresh, parse_newsletter_retention_evidence, utc_message,
}

ensure_fresh_evidence_lem :
    (label : String) (time now max_age : ℕ) (u : Unit {0})
    → ensure_fresh_evidence label time now max_age ≡ returned u
    → (time ≤ now) × (now ≤ time + max_age)
unfolding ensure_fresh_evidence
ensure_fresh_evidence_lem label time now max_age u e =
    let (young, rest) = throw_if_through (ltb now time) _ _ u e in
    let old = throw_if_passed (ltb max_age (now - time)) _ u rest in ground (arith, young, old)

clamp_positive_integer_lem :
    (value : Option Number) (fallback max : ℕ) (field limit : String) (n : ℕ)
    → clamp_positive_integer value fallback max field limit ≡ returned n
    → (1 ≤ fallback) × (fallback ≤ max)
    → (1 ≤ n) × (n ≤ max)
unfolding clamp_positive_integer
clamp_positive_integer_lem none fallback max field limit n e h =
    let same : fallback ≡ n = cc in omega (arith, same, h)
clamp_positive_integer_lem (some value) fallback max field limit n e h =
    through_test (not (is_finite value) || not (is_integer value) || is_not_positive value) _ _ n e
      λ positive rest. through_test (exceeds value max) _ _ n rest λ bounded last.
        let same : to_nat (floor value) ≡ n = cc in bounds value positive bounded same
  where
    bounds :
        (value : Number)
        → (not (is_finite value) || not (is_integer value) || is_not_positive value) ≡ false
        → exceeds value max ≡ false
        → to_nat (floor value) ≡ n
        → (1 ≤ n) × (n ≤ max)
    bounds nan a b e = cc
    bounds infinity a b e = cc
    bounds neg_infinity a b e = cc
    bounds (finite (pos zero) false) a b e = cc
    bounds (finite (pos zero) true) a b e = cc
    bounds (finite (pos (suc m)) true) a b e = cc
    bounds (finite (pos (suc m)) false) a b e = ground (arith, b, e)
    bounds (finite (negsuc m) true) a b e = cc
    bounds (finite (negsuc m) false) a b e = cc

-- A policy that is accepted selects at most 100 batches and 10000 messages, and at least one of each
-- by its limits; it is a dry run unless `apply` is true; and its site is the one that was given.
pub policy_bounds :
    (input : PolicyInput) (policy : RetentionPolicy)
    → parse_newsletter_retention_policy input ≡ returned policy
    → ((1 ≤ policy.max_batches) × (policy.max_batches ≤ 100))
      × ((1 ≤ policy.max_messages) × (policy.max_messages ≤ 10000))
      × (policy.dry_run ≡ not (applies input.apply))
      × (policy.site_id ≡ input.site_id)
unfolding parse_newsletter_retention_policy normalize_site_id
policy_bounds input policy e =
    through (normalize_site_id input.site_id) _ policy e λ site_id site e1.
      through (parse_strict_utc_iso (utc_message "cutoff") input.cutoff) _ policy e1
        λ cutoff parsed e2.
          through (clamp_positive_integer input.max_batches 10 100 "maxBatches" "100") _ policy e2
            λ batches batches_parsed e3.
              through (clamp_positive_integer input.max_messages 1000 10000 "maxMessages" "10000") _
                policy e3
                λ messages messages_parsed e4.
                  through_test (not (is_trimmed (codes input.site_id)) || str_eq input.site_id "")
                    "siteId must be a non-empty string" (returned input.site_id) site_id site
                    λ trimmed given.
                      let batch_bounds =
                        clamp_positive_integer_lem input.max_batches 10 100 "maxBatches" "100"
                          batches batches_parsed (omega arith) in
                      let message_bounds =
                        clamp_positive_integer_lem input.max_messages 1000 10000 "maxMessages"
                          "10000" messages messages_parsed (omega arith) in
                      let same_batches : batches ≡ policy.max_batches = cc in
                      let same_messages : messages ≡ policy.max_messages = cc in
                      (
                        omega (arith, batch_bounds, same_batches),
                        omega (arith, message_bounds, same_messages),
                        cc,
                        cc,
                      )

-- Not from the future, and no older than `max_age`.
abbrev pub Recent : (time now max_age : ℕ) → Type 0
Recent time now max_age = (time ≤ now) × (now ≤ time + max_age)

pub record IsFresh (input : Evidence) : Type 0 where
  pub times : EvidenceTimes
  pub parsed : parse_times input ≡ returned times
  pub healthy : (input.queue_healthy ≡ true) × (input.proxy_healthy ≡ true)
  pub backup :
      Recent times.backup_verified times.now 86400000
      × Recent times.backup_restored times.now 86400000
  pub restore :
      Recent times.restore_verified times.now 86400000
      × Recent times.restore_restored times.now 86400000
  pub health :
      Recent times.queue_checked times.now 900000 × Recent times.proxy_checked times.now 900000

-- Evidence that is accepted is handed on as it is; it is healthy; and of its times none is in the
-- future, the backup's and the restore's are at most a day old, and the health checks' at most 15 minutes.
pub evidence-IsFresh :
    (input output : Evidence)
    → parse_newsletter_retention_evidence input ≡ returned output
    → IsFresh input × (output ≡ input)
unfolding parse_newsletter_retention_evidence ensure_all_fresh
evidence-IsFresh input output e = through (parse_times input) _ output e λ t parsed e1.
    through_test (not input.queue_healthy || not input.proxy_healthy) _ _ output e1 λ healthy e2.
      through (ensure_all_fresh t) _ output e2 λ u all_fresh e3.
        through (ensure_fresh_evidence "backup evidence" t.backup_verified t.now 86400000) _ u
          all_fresh
          λ u1 f1 r1.
            through (ensure_fresh_evidence "backup evidence" t.backup_restored t.now 86400000) _ u
              r1
              λ u2 f2 r2.
                through (ensure_fresh_evidence "restore evidence" t.restore_verified t.now 86400000)
                  _ u r2
                  λ u3 f3 r3.
                    through
                      (ensure_fresh_evidence "restore evidence" t.restore_restored t.now 86400000) _
                      u r3
                      λ u4 f4 r4.
                        through
                          (ensure_fresh_evidence "health evidence" t.queue_checked t.now 900000) _ u
                          r4
                          λ u5 f5 f6. (
                            record {
                              times = t;
                              parsed = parsed;
                              healthy = ground (arith, healthy);
                              backup = (
                                ensure_fresh_evidence_lem "backup evidence" t.backup_verified t.now
                                    86400000 u1 f1,
                                ensure_fresh_evidence_lem "backup evidence" t.backup_restored t.now
                                    86400000 u2 f2,
                              );
                              restore = (
                                ensure_fresh_evidence_lem "restore evidence" t.restore_verified
                                    t.now 86400000 u3 f3,
                                ensure_fresh_evidence_lem "restore evidence" t.restore_restored
                                    t.now 86400000 u4 f4,
                              );
                              health = (
                                ensure_fresh_evidence_lem "health evidence" t.queue_checked t.now
                                    900000 u5 f5,
                                ensure_fresh_evidence_lem "health evidence" t.proxy_checked t.now
                                    900000 u f6,
                              );
                            },
                            cc,
                          )
