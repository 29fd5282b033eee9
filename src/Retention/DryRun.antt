-- ===== src/Retention/DryRun.antt =====
-- What a dry run of service/newsletter-retention-coordinator.ts shows.
use mailgun_ses_proxy.Base.{
  ℕ, ◌≡◌, refl, sym, ap, ◌∙◌, String, not, ◌||◌, some, List, [], ◌∷◌, every, map, str_eq,
}
use mathlib.Core.Path.{subst}
use mailgun_ses_proxy.ErrorClass.{codes}
use mailgun_ses_proxy.Base.Attempt.{returned, map_attempt, through, through_test}
use mailgun_ses_proxy.Base.Number.{nat, is_finite, is_integer, is_negative, is_safe_integer}
use mailgun_ses_proxy.Retention.Instant.{parse_strict_utc_iso}
use mailgun_ses_proxy.Retention.Order.{Comparison, insert, sort, Sorted}
use mailgun_ses_proxy.Retention.Policy.{
  is_space, is_trimmed, normalize_site_id, normalize_policy_version, RetentionPolicy, Evidence,
  utc_message,
}
use mailgun_ses_proxy.Retention.Plan.{
  Candidate, SelectionInput, compare_selection_candidates,
  build_newsletter_retention_selection_plan,
}
use mailgun_ses_proxy.Retention.Selection.{IsSafe, plan-IsSafe}
use mailgun_ses_proxy.Retention.Manifest.{
  ManifestInput, normalize_manifest_batch_id, normalize_manifest_count, normalize_manifest_batch,
  build_newsletter_retention_manifest,
}
use mailgun_ses_proxy.Retention.Coordinator.{
  DryRunInput, DryRunResult, manifest_batch, plan_dry_run,
}

normalize_manifest_count_lem :
    (n k : ℕ) (field : String) → normalize_manifest_count (nat n) field ≡ returned k → k ≡ n
unfolding normalize_manifest_count
normalize_manifest_count_lem n k field e =
    through_test
      (not (is_finite (nat n))
        || not (is_integer (nat n))
        || is_negative (nat n)
        || not (is_safe_integer (nat n)))
      _ _ k e λ safe given. cc

normalize_manifest_batch-same :
    (c d : Candidate) → normalize_manifest_batch (manifest_batch c) ≡ returned d → d ≡ c
unfolding normalize_manifest_batch normalize_manifest_batch_id
normalize_manifest_batch-same c d e =
    through (normalize_manifest_batch_id c.batch_id) _ d e λ batch_id named e1.
      through_test (every is_space (codes c.batch_id)) _ _ batch_id named λ blank same_id.
        through (normalize_manifest_count (nat c.message_count) "messageCount") _ d e1
          λ messages m e3.
            through (normalize_manifest_count (nat c.notification_count) "notificationCount") _ d e3
              λ notifications n e4.
                through (normalize_manifest_count (nat c.error_count) "errorCount") _ d e4
                  λ errors x e5.
                    let same_m =
                      normalize_manifest_count_lem c.message_count messages "messageCount" m in
                    let same_n =
                      normalize_manifest_count_lem c.notification_count notifications
                        "notificationCount" n in
                    let same_x = normalize_manifest_count_lem c.error_count errors "errorCount" x in
                    cc

all_same :
    (cs ds : List Candidate)
    → map_attempt normalize_manifest_batch (map manifest_batch cs) ≡ returned ds
    → ds ≡ cs
unfolding map_attempt
all_same [] ds e = cc
all_same (c ∷ cs) ds e = through (normalize_manifest_batch (manifest_batch c)) _ ds e λ d first e1.
    through (map_attempt normalize_manifest_batch (map manifest_batch cs)) _ ds e1 λ rest others e2.
      let head = normalize_manifest_batch-same c d first in let tail = all_same cs rest others in cc

sort_of-Sorted :
    {A : Type 0} (compare : A → A → Comparison) (xs : List A)
    → Sorted compare xs
    → sort compare xs ≡ xs
unfolding sort
sort_of-Sorted compare [] v = refl
sort_of-Sorted compare (x ∷ []) v = refl
sort_of-Sorted compare (x ∷ y ∷ ys) v =
    ap (insert compare x) (sort_of-Sorted compare (y ∷ ys) v.1) ∙ rw v.0 refl

-- The manifest of a dry run lists exactly the batches of its plan, in the same order, for the same
-- site and cutoff, and the plan is a safe selection for the policy.
pub dry_run_manifest :
    (policy : RetentionPolicy) (evidence : Evidence) (input : DryRunInput) (result : DryRunResult)
    → plan_dry_run policy evidence input ≡ returned result
    → (result.manifest.batches ≡ result.plan.batches)
      × (result.manifest.site_id ≡ policy.site_id)
      × (result.manifest.cutoff ≡ result.plan.cutoff)
      × IsSafe
          (record {
            policy = policy;
            evidence = evidence;
            queue_healthy = input.queue_healthy;
            dlq_healthy = input.dlq_healthy;
            candidates = input.candidates;
          })
          result.plan
unfolding plan_dry_run build_newsletter_retention_manifest normalize_site_id
dry_run_manifest policy evidence input result e =
    let selection : SelectionInput = record {
      policy = policy;
      evidence = evidence;
      queue_healthy = input.queue_healthy;
      dlq_healthy = input.dlq_healthy;
      candidates = input.candidates;
    } in
    through (build_newsletter_retention_selection_plan selection) _ result e λ plan planned e1.
      let manifest_input : ManifestInput = record {
        site_id = policy.site_id;
        cutoff = plan.cutoff;
        policy_version = some (nat policy.policy_version);
        batches = map manifest_batch plan.batches;
      } in
      through (build_newsletter_retention_manifest manifest_input) _ result e1 λ manifest built e2.
        through (normalize_site_id policy.site_id) _ manifest built λ site_id site b1.
          through_test (not (is_trimmed (codes policy.site_id)) || str_eq policy.site_id "") _ _
            site_id site
            λ trimmed same_site.
              through (parse_strict_utc_iso (utc_message "cutoff") plan.cutoff) _ manifest b1
                λ cutoff_ms cutoff b2.
                  through (normalize_policy_version (some (nat policy.policy_version))) _ manifest
                    b2
                    λ version versioned b3.
                      through
                        (map_attempt normalize_manifest_batch (map manifest_batch plan.batches)) _
                        manifest b3
                        λ batches mapped b4.
                          let safe = plan-IsSafe selection plan planned in
                          let listed : batches ≡ plan.batches =
                            all_same plan.batches batches mapped in
                          let in_order : sort compare_selection_candidates batches ≡ plan.batches =
                            ap (sort compare_selection_candidates) listed
                            ∙ sort_of-Sorted compare_selection_candidates plan.batches
                                safe.sorted in
                          let same_plan : plan ≡ result.plan = cc in
                          let same_manifest : manifest ≡ result.manifest = cc in
                          let manifest_batches : sort compare_selection_candidates batches
                              ≡ manifest.batches =
                            cc in
                          let manifest_site : site_id ≡ manifest.site_id = cc in
                          let manifest_cutoff : plan.cutoff ≡ manifest.cutoff = cc in
                          (
                            sym (ap (λ m. m.batches) same_manifest)
                                ∙ sym manifest_batches
                                ∙ in_order
                                ∙ ap (λ p. p.batches) same_plan,
                            sym (ap (λ m. m.site_id) same_manifest) ∙ sym manifest_site ∙ (cc),
                            sym (ap (λ m. m.cutoff) same_manifest)
                                ∙ sym manifest_cutoff
                                ∙ ap (λ p. p.cutoff) same_plan,
                            subst (IsSafe selection) same_plan safe,
                          )
