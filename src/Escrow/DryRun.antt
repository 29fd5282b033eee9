-- ===== src/Escrow/DryRun.antt =====
-- `buildNewsletterRetentionEscrowDryRunResult` of service/newsletter-retention-coordinator.ts: a dry run
-- that also writes the escrow file. JSON.parse, SHA-256 and the sink are parameters; a chunk that is
-- written stays written, whatever fails after it.
pub mod Committed
mod Examples
use mailgun_ses_proxy.Base.{
  ℕ, String, Bool, true, not, ◌||◌, Option, none, some, List, [], map, ◌==◌,
}
use mailgun_ses_proxy.Base.Attempt.{
  Attempt, returned, threw, throw_if, ◌>>=◌ as and_then, ◌>>◌ as then,
}
use mailgun_ses_proxy.Base.Number.{Number, nat}
use mailgun_ses_proxy.Retention.Policy.{
  PolicyInput, RetentionPolicy, Evidence, parse_newsletter_retention_evidence,
}
use mailgun_ses_proxy.Retention.Plan.{CandidateInput, text, SelectionPlan}
use mailgun_ses_proxy.Retention.Manifest.{Manifest}
use mailgun_ses_proxy.Retention.Lock.{
  Lock, Held, create_process_local_anti_overlap_lock, with_process_local_anti_overlap_lock,
}
use mailgun_ses_proxy.Retention.Coordinator.{
  DryRunInput, DryRunResult, normalize_dry_run_policy, plan_dry_run,
}
use mailgun_ses_proxy.Escrow.Text.{Text, of, ◌===◌}
use mailgun_ses_proxy.Escrow.Value.{Value}
use mailgun_ses_proxy.Escrow.Record.{Header, VerificationResult}
use mailgun_ses_proxy.Escrow.ManifestHash.{manifest_hash}
use mailgun_ses_proxy.Escrow.Writer.{Writing, lift, ◌>>=◌, ◌>>◌, write_escrow}
use mailgun_ses_proxy.Escrow.Loader.{Delegate, stream_escrow_records}
use mailgun_ses_proxy.Escrow.Loader.Candidates.{CandidateRecord}

-- A candidate as the candidate loader returns it.
pub record EscrowCandidate : Type 0 where
  pub site_id : String
  pub batch_record_id : String
  pub batch_id : String
  pub created_at : String
  pub message_count : Number
  pub notification_count : Number
  pub error_count : Number
  pub orphan_count : Number
  pub correlation_complete : Bool

-- The same as the plan reads it, and as the escrow loader does.
abbrev pub plan_candidate : EscrowCandidate → CandidateInput
plan_candidate c = record {
  site_id = c.site_id;
  batch_id = c.batch_id;
  created_at = text c.created_at;
  message_count = c.message_count;
  notification_count = c.notification_count;
  error_count = c.error_count;
  orphan_count = c.orphan_count;
  correlation_complete = c.correlation_complete;
}

abbrev pub loader_candidate : EscrowCandidate → CandidateRecord
loader_candidate c = record {
  site_id = of c.site_id;
  batch_record_id = of c.batch_record_id;
  batch_id = of c.batch_id;
  created_at = of c.created_at;
  message_count = c.message_count;
  notification_count = c.notification_count;
  error_count = c.error_count;
  orphan_count = c.orphan_count;
  correlation_complete = c.correlation_complete;
}

pub record EscrowDryRunInput : Type 0 where
  pub policy : PolicyInput
  pub evidence : Evidence
  pub queue_healthy : Bool
  pub dlq_healthy : Bool
  pub candidates : List EscrowCandidate
  pub delegate : Delegate
  pub schema_fingerprint : String

pub record EscrowDryRunResult : Type 0 where
  pub run : DryRunResult
  pub escrow : VerificationResult

-- What a dry run without an escrow is given.
abbrev pub without_escrow : EscrowDryRunInput → DryRunInput
without_escrow input = record {
  policy = input.policy;
  evidence = input.evidence;
  queue_healthy = input.queue_healthy;
  dlq_healthy = input.dlq_healthy;
  candidates = map plan_candidate input.candidates;
}

-- The policy, where it is read as an input again.
abbrev pub as_input : RetentionPolicy → PolicyInput
as_input policy = record {
  site_id = policy.site_id;
  cutoff = policy.cutoff;
  apply = none;
  max_batches = some (nat policy.max_batches);
  max_messages = some (nat policy.max_messages);
}

module _ (sha256_hex : Text → Text) where
  unfoldable pub assert_escrow_matches_plan :
      VerificationResult → SelectionPlan → Manifest → Attempt (Unit {0})
  assert_escrow_matches_plan escrow plan manifest =
      throw_if
        (not (escrow.site_id === of plan.site_id)
          || not (escrow.cutoff === of plan.cutoff)
          || not (escrow.policy_version == manifest.policy_version)
          || not (escrow.public_manifest_hash === manifest_hash sha256_hex manifest)
          || not (escrow.counts.batches == plan.batch_count)
          || not (escrow.counts.messages == plan.totals.message_count)
          || not (escrow.counts.errors == plan.totals.error_count)
          || not (escrow.counts.notifications == plan.totals.notification_count))
        "escrow commitment does not match the retention plan"

  abbrev pub escrow_header : RetentionPolicy → EscrowDryRunInput → Manifest → Header
  escrow_header policy input manifest = record {
    version = 1;
    site_id = of policy.site_id;
    cutoff = of policy.cutoff;
    policy_version = policy.policy_version;
    public_manifest_hash = manifest_hash sha256_hex manifest;
    schema_fingerprint = of input.schema_fingerprint;
  }

  module _ (json_parse : Text → Option Value) (accepts : List Text → Text → Bool) where
    -- What is done while the lock is held. The plan and the manifest are made as without an escrow.
    unfoldable pub plan_escrow_dry_run :
        RetentionPolicy → Evidence → EscrowDryRunInput → Writing EscrowDryRunResult
    unfolding assert_escrow_matches_plan
    plan_escrow_dry_run policy evidence input = do
      run ← lift (plan_dry_run policy evidence (without_escrow input))
      escrow ←
          write_escrow json_parse sha256_hex accepts (escrow_header policy input run.manifest) (
            stream_escrow_records input.delegate (as_input policy)
              (map loader_candidate input.candidates))
      lift (assert_escrow_matches_plan escrow run.plan run.manifest)
      lift (returned (record { run = run; escrow = escrow }))

    -- What has been written, and the result, which is an error also if nothing was run.
    abbrev pub settled :
        Attempt (List Text × Attempt EscrowDryRunResult) × Held
        → (List Text × Attempt EscrowDryRunResult) × Held
    settled (returned outcome, held) = (outcome, held)
    settled (threw message, held) = (([], threw message), held)

    abbrev pub locked_escrow_run :
        EscrowDryRunInput
        → Held
        → Attempt (RetentionPolicy × Evidence × Lock)
        → (List Text × Attempt EscrowDryRunResult) × Held
    locked_escrow_run input held (threw message) = (([], threw message), held)
    locked_escrow_run input held (returned (policy, evidence, lock)) = settled (
        with_process_local_anti_overlap_lock lock
          (λ held. (returned (plan_escrow_dry_run policy evidence input []), held)) held)

    -- `token` is the symbol of the lock that is created.
    unfoldable pub build_newsletter_retention_escrow_dry_run_result :
        (token : ℕ) → EscrowDryRunInput → Held → (List Text × Attempt EscrowDryRunResult) × Held
    unfolding plan_escrow_dry_run
    build_newsletter_retention_escrow_dry_run_result token input held =
        locked_escrow_run input held (
          and_then (normalize_dry_run_policy input.policy) (λ policy.
            and_then (parse_newsletter_retention_evidence input.evidence) (λ evidence.
              and_then (create_process_local_anti_overlap_lock policy.site_id token)
                (λ lock. returned (policy, evidence, lock)))))
