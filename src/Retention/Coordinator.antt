-- ===== src/Retention/Coordinator.antt =====
-- `buildNewsletterRetentionDryRunResult` of service/newsletter-retention-coordinator.ts.
use mailgun_ses_proxy.Base.{ℕ, Bool, some, List, map}
use mailgun_ses_proxy.Base.Attempt.{Attempt, returned, threw, ◌>>=◌, ◌>>◌, throw_if}
use mailgun_ses_proxy.Base.Number.{nat}
use mailgun_ses_proxy.Retention.Policy.{
  PolicyInput, RetentionPolicy, Evidence, applies, parse_newsletter_retention_policy,
  parse_newsletter_retention_evidence,
}
use mailgun_ses_proxy.Retention.Plan.{
  Candidate, CandidateInput, SelectionPlan, build_newsletter_retention_selection_plan,
}
use mailgun_ses_proxy.Retention.Manifest.{
  ManifestBatchInput, printed, Manifest, build_newsletter_retention_manifest,
}
use mailgun_ses_proxy.Retention.Lock.{
  Lock, Held, create_process_local_anti_overlap_lock, with_process_local_anti_overlap_lock,
}

pub record DryRunInput : Type 0 where
  pub policy : PolicyInput
  pub evidence : Evidence
  pub queue_healthy : Bool
  pub dlq_healthy : Bool
  pub candidates : List CandidateInput

-- `dryRun` is true in every result.
pub record DryRunResult : Type 0 where
  pub policy_version : ℕ
  pub plan : SelectionPlan
  pub manifest : Manifest

unfoldable pub normalize_dry_run_policy : PolicyInput → Attempt RetentionPolicy
normalize_dry_run_policy policy = do
  throw_if (applies policy.apply) "apply is not enabled"
  parse_newsletter_retention_policy policy

abbrev pub manifest_batch : Candidate → ManifestBatchInput
manifest_batch c = record {
  batch_id = c.batch_id;
  created_at = printed c.created_at;
  message_count = nat c.message_count;
  notification_count = nat c.notification_count;
  error_count = nat c.error_count;
}

-- What is done while the lock is held.
unfoldable pub plan_dry_run : RetentionPolicy → Evidence → DryRunInput → Attempt DryRunResult
plan_dry_run policy evidence input = do
  plan ← build_newsletter_retention_selection_plan (record {
    policy = policy;
    evidence = evidence;
    queue_healthy = input.queue_healthy;
    dlq_healthy = input.dlq_healthy;
    candidates = input.candidates;
  })
  manifest ← build_newsletter_retention_manifest (record {
    site_id = policy.site_id;
    cutoff = plan.cutoff;
    policy_version = some (nat policy.policy_version);
    batches = map manifest_batch plan.batches;
  })
  returned (record { policy_version = policy.policy_version; plan = plan; manifest = manifest })

abbrev locked_run :
    RetentionPolicy → Evidence → DryRunInput → Held → Attempt Lock → Attempt DryRunResult × Held
locked_run policy evidence input held (threw e) = (threw e, held)
locked_run policy evidence input held (returned lock) =
    with_process_local_anti_overlap_lock lock (λ held. (plan_dry_run policy evidence input, held))
      held

abbrev checked_run :
    (token : ℕ)
    → DryRunInput
    → Held
    → RetentionPolicy
    → Attempt Evidence
    → Attempt DryRunResult × Held
checked_run token input held policy (threw e) = (threw e, held)
checked_run token input held policy (returned evidence) =
    locked_run policy evidence input held
      (create_process_local_anti_overlap_lock policy.site_id token)

abbrev parsed_run :
    (token : ℕ) → DryRunInput → Held → Attempt RetentionPolicy → Attempt DryRunResult × Held
parsed_run token input held (threw e) = (threw e, held)
parsed_run token input held (returned policy) =
    checked_run token input held policy (parse_newsletter_retention_evidence input.evidence)

-- `token` is the symbol of the lock that is created.
unfoldable pub build_newsletter_retention_dry_run_result :
    (token : ℕ) → DryRunInput → Held → Attempt DryRunResult × Held
build_newsletter_retention_dry_run_result token input held =
    parsed_run token input held (normalize_dry_run_policy input.policy)
