-- ===== src/Retention/Examples.antt =====
-- Runs of the retention modules.
use mailgun_ses_proxy.Base.{ℕ, ◌≡◌, refl, String, true, false, none, some, List, [], ◌∷◌}
use mailgun_ses_proxy.Base.Dict.{get}
use mailgun_ses_proxy.Base.Number.{nat}
use mailgun_ses_proxy.Base.Attempt.{Attempt, returned, threw, map_attempt}
use mailgun_ses_proxy.Retention.Instant.{parse_strict_utc_iso}
use mailgun_ses_proxy.Retention.Order.{sort, compare_canonical_strings}
use mailgun_ses_proxy.Retention.Policy.{
  PolicyInput, RetentionPolicy, Evidence, normalize_site_id, parse_times, ensure_fresh_evidence,
  ensure_all_fresh, parse_newsletter_retention_evidence,
}
use mailgun_ses_proxy.Retention.Freshness.{IsFresh, evidence-IsFresh}
use mailgun_ses_proxy.Retention.Plan.{
  text, CandidateInput, Candidate, SelectionPlan, SelectionInput, normalize_count,
  parse_candidate_created_at, safe_add_integers, normalize_selection_candidate, total_from,
  build_newsletter_retention_selection_plan,
}
use mailgun_ses_proxy.Retention.Selection.{IsSafe, IsCapped, plan-IsSafe, plan-IsCapped}
use mailgun_ses_proxy.Retention.Lock.{
  Lock, Held, try_acquire, is_held, LockEvent, acquires, releases, run_locks, lock_exclusive,
}
use mailgun_ses_proxy.Retention.Policy.{normalize_policy_version}
use mailgun_ses_proxy.Retention.Manifest.{
  build_newsletter_retention_manifest, normalize_manifest_batch, normalize_manifest_batch_id,
  normalize_manifest_count,
}
use mailgun_ses_proxy.Retention.Coordinator.{DryRunInput, DryRunResult, plan_dry_run}
use mailgun_ses_proxy.Retention.DryRun.{dry_run_manifest}

epoch : parse_strict_utc_iso "" "1970-01-01T00:00:00.000Z" ≡ returned 62167219200000
unfolding parse_strict_utc_iso
epoch = refl

no_such_day : parse_strict_utc_iso "bad" "2023-02-29T00:00:00.000Z" ≡ threw "bad"
unfolding parse_strict_utc_iso
no_such_day = refl

day_after_leap_day : parse_strict_utc_iso "" "2024-03-01T00:00:00.000Z" ≡ returned 63876470400000
unfolding parse_strict_utc_iso
day_after_leap_day = refl

abbrev policy_input : PolicyInput
policy_input = record {
  site_id = "site";
  cutoff = "2024-01-01T00:00:00.000Z";
  apply = none;
  max_batches = some (nat 2);
  max_messages = none;
}

abbrev policy : RetentionPolicy
policy = record {
  site_id = "site";
  cutoff = "2024-01-01T00:00:00.000Z";
  dry_run = true;
  max_batches = 2;
  max_messages = 1000;
  policy_version = 1;
}

abbrev evidence : Evidence
evidence = record {
  now = "2025-06-02T12:00:00.000Z";
  backup_verified_at = "2025-06-02T11:00:00.000Z";
  backup_restored_at = "2025-06-02T10:00:00.000Z";
  restore_verified_at = "2025-06-01T13:00:00.000Z";
  restore_restored_at = "2025-06-01T12:00:00.000Z";
  queue_checked_at = "2025-06-02T11:45:00.000Z";
  proxy_checked_at = "2025-06-02T12:00:00.000Z";
  queue_healthy = true;
  proxy_healthy = true;
}

evidence-IsFresh_example : IsFresh evidence × (evidence ≡ evidence)
unfolding parse_newsletter_retention_evidence parse_times parse_strict_utc_iso ensure_all_fresh
    ensure_fresh_evidence
evidence-IsFresh_example = evidence-IsFresh evidence evidence refl

abbrev candidate : String → String → CandidateInput
candidate batch_id created_at = record {
  site_id = "site";
  batch_id = batch_id;
  created_at = text created_at;
  message_count = nat 300;
  notification_count = nat 500;
  error_count = nat 2;
  orphan_count = nat 0;
  correlation_complete = true;
}

abbrev selection : SelectionInput
selection = record {
  policy = policy;
  evidence = evidence;
  queue_healthy = true;
  dlq_healthy = true;
  candidates =
      candidate "b" "2023-05-01T00:00:00.000Z" ∷ candidate "a" "2023-04-01T00:00:00.000Z" ∷ [];
}

abbrev selected : String → ℕ → Candidate
selected batch_id created_at = record {
  batch_id = batch_id;
  created_at = created_at;
  message_count = 300;
  notification_count = 500;
  error_count = 2;
}

abbrev plan : SelectionPlan
plan = record {
  site_id = "site";
  cutoff = "2024-01-01T00:00:00.000Z";
  batch_count = 2;
  totals = record { message_count = 600; notification_count = 1000; error_count = 4 };
  batches = selected "a" 63847526400000 ∷ selected "b" 63850118400000 ∷ [];
}

built : build_newsletter_retention_selection_plan selection ≡ returned plan
unfolding build_newsletter_retention_selection_plan parse_newsletter_retention_evidence parse_times
    parse_strict_utc_iso ensure_all_fresh ensure_fresh_evidence map_attempt
    normalize_selection_candidate normalize_count parse_candidate_created_at sort
    compare_canonical_strings total_from safe_add_integers
built = refl

plan-IsSafe_example : IsSafe selection plan
plan-IsSafe_example = plan-IsSafe selection plan built

plan-IsCapped_example : IsCapped policy plan
plan-IsCapped_example = plan-IsCapped selection plan built

abbrev lock : ℕ → Lock
lock token = record { name = "site"; token = token }

abbrev others : List LockEvent
others = acquires (lock 2) ∷ releases (lock 2) ∷ []

lock_exclusive_example :
    let after = run_locks others ((try_acquire (lock 1) []).1) in
    (is_held (lock 1) after ≡ true) × (try_acquire (lock 3) after ≡ (false, after))
unfolding try_acquire get
lock_exclusive_example = lock_exclusive (lock 1) 3 others [] refl (tt, (refl, tt))

abbrev work : Held → Attempt ℕ × Held
work held = (threw "no evidence", held)

abbrev dry_run : DryRunInput
dry_run = record {
  policy = policy_input;
  evidence = evidence;
  queue_healthy = true;
  dlq_healthy = true;
  candidates = selection.candidates;
}

abbrev result : DryRunResult
result = record {
  policy_version = 1;
  plan = plan;
  manifest = record {
    site_id = "site";
    cutoff = "2024-01-01T00:00:00.000Z";
    policy_version = 1;
    batches = plan.batches;
  };
}

dry_run_built : plan_dry_run policy evidence dry_run ≡ returned result
unfolding plan_dry_run build_newsletter_retention_manifest normalize_manifest_batch
    normalize_manifest_batch_id normalize_manifest_count normalize_site_id normalize_policy_version
    build_newsletter_retention_selection_plan parse_newsletter_retention_evidence parse_times
    parse_strict_utc_iso ensure_all_fresh ensure_fresh_evidence map_attempt
    normalize_selection_candidate normalize_count parse_candidate_created_at sort
    compare_canonical_strings total_from safe_add_integers
dry_run_built = refl

dry_run_manifest_example :
    (result.manifest.batches ≡ result.plan.batches)
    × (result.manifest.site_id ≡ policy.site_id)
    × (result.manifest.cutoff ≡ result.plan.cutoff)
    × IsSafe selection plan
dry_run_manifest_example = dry_run_manifest policy evidence dry_run result dry_run_built
