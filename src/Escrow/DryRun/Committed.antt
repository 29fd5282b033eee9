-- ===== src/Escrow/DryRun/Committed.antt =====
-- What a dry run of service/newsletter-retention-coordinator.ts has written when it returns a result.
use mailgun_ses_proxy.Base.{
  ℕ, ◌≡◌, refl, sym, ap, Bool, true, false, not, ◌||◌, Option, List, [], map, ◌==◌, ==→eq, arith,
  Bool-cases, inl, inr,
}
use mathlib.Core.Path.{subst}
use mailgun_ses_proxy.Base.Attempt.{
  Attempt, returned, threw, through, threw_not_returned, throw_if_passed, value_of_returned,
}
use mailgun_ses_proxy.Retention.Policy.{
  RetentionPolicy, Evidence, parse_newsletter_retention_evidence,
}
use mailgun_ses_proxy.Retention.Plan.{SelectionPlan}
use mailgun_ses_proxy.Retention.Manifest.{Manifest}
use mailgun_ses_proxy.Retention.Lock.{
  Lock, Held, create_process_local_anti_overlap_lock, with_process_local_anti_overlap_lock,
  try_acquire,
}
use mailgun_ses_proxy.Retention.Selection.{IsSafe}
use mailgun_ses_proxy.Retention.Coordinator.{DryRunResult, normalize_dry_run_policy, plan_dry_run}
use mailgun_ses_proxy.Retention.DryRun.{dry_run_manifest}
use mailgun_ses_proxy.Escrow.Text.{Text, of, ◌===◌, ===-eq}
use mailgun_ses_proxy.Escrow.Value.{Value}
use mailgun_ses_proxy.Escrow.Record.{Counts, VerificationResult}
use mailgun_ses_proxy.Escrow.Accumulator.{no_options}
use mailgun_ses_proxy.Escrow.Verify.{text_line, verify_lines}
use mailgun_ses_proxy.Escrow.Step.{same_parts}
use mailgun_ses_proxy.Escrow.Stage.{IsEscrow, texts_from}
use mailgun_ses_proxy.Escrow.Refinement.{verify-IsEscrow}
use mailgun_ses_proxy.Escrow.ManifestHash.{manifest_hash}
use mailgun_ses_proxy.Escrow.Writer.{write_escrow}
use mailgun_ses_proxy.Escrow.Writer.Verified.{chunks_onto, written-verified, lifted, wrote}
use mailgun_ses_proxy.Escrow.Loader.{stream_escrow_records}
use mailgun_ses_proxy.Escrow.DryRun.{
  EscrowDryRunInput, EscrowDryRunResult, without_escrow, plan_candidate, as_input, loader_candidate,
  assert_escrow_matches_plan, escrow_header, plan_escrow_dry_run, locked_escrow_run,
  build_newsletter_retention_escrow_dry_run_result,
}

abbrev pub counts_of_plan : SelectionPlan → Counts
counts_of_plan plan = record {
  batches = plan.batch_count;
  messages = plan.totals.message_count;
  errors = plan.totals.error_count;
  notifications = plan.totals.notification_count;
}

all_hold :
    (a b c d e f g h : Bool)
    → (not a || not b || not c || not d || not e || not f || not g || not h) ≡ false
    → (a ≡ true)
      × (b ≡ true)
      × (c ≡ true)
      × (d ≡ true)
      × (e ≡ true)
      × (f ≡ true)
      × (g ≡ true)
      × (h ≡ true)
all_hold a b c d e f g h none = (
  ground (arith, none),
  ground (arith, none),
  ground (arith, none),
  ground (arith, none),
  ground (arith, none),
  ground (arith, none),
  ground (arith, none),
  ground (arith, none),
)

module _ (sha256_hex : Text → Text) where
  -- The fields in which a file agrees with a plan.
  pub record Agrees (escrow : VerificationResult) (plan : SelectionPlan) (manifest : Manifest)
      : Type 0 where
    pub site : escrow.site_id ≡ of plan.site_id
    pub cutoff : escrow.cutoff ≡ of plan.cutoff
    pub policy_version : escrow.policy_version ≡ manifest.policy_version
    pub hash : escrow.public_manifest_hash ≡ manifest_hash sha256_hex manifest
    pub counts : escrow.counts ≡ counts_of_plan plan

  plan-Agrees :
      (escrow : VerificationResult) (plan : SelectionPlan) (manifest : Manifest) (u : Unit {0})
      → assert_escrow_matches_plan sha256_hex escrow plan manifest ≡ returned u
      → Agrees escrow plan manifest
  unfolding assert_escrow_matches_plan
  plan-Agrees escrow plan manifest u e =
      let (site, cutoff, version, hash, batches, messages, errors, notifications) =
        all_hold (escrow.site_id === of plan.site_id) (escrow.cutoff === of plan.cutoff)
          (escrow.policy_version == manifest.policy_version)
          (escrow.public_manifest_hash === manifest_hash sha256_hex manifest)
          (escrow.counts.batches == plan.batch_count)
          (escrow.counts.messages == plan.totals.message_count)
          (escrow.counts.errors == plan.totals.error_count)
          (escrow.counts.notifications == plan.totals.notification_count)
          (throw_if_passed _ _ u e) in
      record {
        site = ===-eq escrow.site_id (of plan.site_id) site;
        cutoff = ===-eq escrow.cutoff (of plan.cutoff) cutoff;
        policy_version = ==→eq escrow.policy_version manifest.policy_version version;
        hash = ===-eq escrow.public_manifest_hash (manifest_hash sha256_hex manifest) hash;
        counts =
            same_parts
              (λ (b m x n : ℕ). record { batches = b; messages = m; errors = x; notifications = n })
              (==→eq escrow.counts.batches plan.batch_count batches)
              (==→eq escrow.counts.messages plan.totals.message_count messages)
              (==→eq escrow.counts.errors plan.totals.error_count errors)
              (==→eq escrow.counts.notifications plan.totals.notification_count notifications);
      }

  module _ (json_parse : Text → Option Value) (accepts : List Text → Text → Bool) where
    -- A dry run that a file and its plan came from.
    pub record IsCommitted (policy : RetentionPolicy) (evidence : Evidence)
        (input : EscrowDryRunInput) (written : List Text) (result : EscrowDryRunResult)
        : Type 0 where
      pub lines : List Text
      pub as_written : written ≡ chunks_onto lines []
      pub verified :
          verify_lines json_parse sha256_hex no_options (map text_line lines)
          ≡ returned result.escrow
      pub encoded :
          IsEscrow json_parse sha256_hex (texts_from (map text_line lines) []) result.escrow
      pub agrees : Agrees result.escrow result.run.plan result.run.manifest
      pub listed : result.run.manifest.batches ≡ result.run.plan.batches
      pub safe :
          IsSafe
            (record {
              policy = policy;
              evidence = evidence;
              queue_healthy = input.queue_healthy;
              dlq_healthy = input.dlq_healthy;
              candidates = map plan_candidate input.candidates;
            })
            result.run.plan

    -- The file that was written, once it agrees with the plan.
    file-IsCommitted :
        (policy : RetentionPolicy) (evidence : Evidence) (input : EscrowDryRunInput)
        (written : List Text) (run : DryRunResult) (escrow : VerificationResult) (u : Unit {0})
        → plan_dry_run policy evidence (without_escrow input) ≡ returned run
        → write_escrow json_parse sha256_hex accepts
            (escrow_header sha256_hex policy input run.manifest)
            (stream_escrow_records input.delegate
              (as_input policy)
              (map loader_candidate input.candidates))
            []
          ≡ (written, returned escrow)
        → assert_escrow_matches_plan sha256_hex escrow run.plan run.manifest ≡ returned u
        → IsCommitted policy evidence input written (record { run = run; escrow = escrow })
    file-IsCommitted policy evidence input written run escrow u is_run is_escrow matched =
        let (lines, as_written, verified) =
          written-verified json_parse sha256_hex accepts
            (escrow_header sha256_hex policy input run.manifest)
            (stream_escrow_records input.delegate (as_input policy)
              (map loader_candidate input.candidates))
            written escrow is_escrow in
        let manifest = dry_run_manifest policy evidence (without_escrow input) run is_run in
        record {
          lines = lines;
          as_written = as_written;
          verified = verified;
          encoded =
              verify-IsEscrow json_parse sha256_hex no_options (map text_line lines) escrow
                verified;
          agrees = plan-Agrees escrow run.plan run.manifest u matched;
          listed = manifest.0;
          safe = manifest.3;
        }

    run-IsCommitted :
        (policy : RetentionPolicy) (evidence : Evidence) (input : EscrowDryRunInput)
        (written : List Text) (result : EscrowDryRunResult)
        → plan_escrow_dry_run sha256_hex json_parse accepts policy evidence input []
          ≡ (written, returned result)
        → IsCommitted policy evidence input written result
    unfolding plan_escrow_dry_run
    run-IsCommitted policy evidence input written result e =
        lifted (plan_dry_run policy evidence (without_escrow input)) _ [] written result e
          λ run is_run e1.
            wrote
              (write_escrow json_parse sha256_hex accepts
                (escrow_header sha256_hex policy input run.manifest)
                (stream_escrow_records input.delegate (as_input policy)
                  (map loader_candidate input.candidates))
                [])
              _ written result e1
              λ escrow is_escrow e2.
                lifted (assert_escrow_matches_plan sha256_hex escrow run.plan run.manifest) _ _
                  written result e2
                  λ u matched e3.
                    subst (λ x. IsCommitted policy evidence input written x)
                      (value_of_returned _ result (ap (λ x. x.1) e3))
                      (subst
                        (λ x.
                          IsCommitted policy evidence input x
                            (record { run = run; escrow = escrow }))
                        (ap (λ x. x.0) e3)
                        (file-IsCommitted policy evidence input _ run escrow u is_run is_escrow
                          matched))

    locked-IsCommitted :
        (policy : RetentionPolicy) (evidence : Evidence) (input : EscrowDryRunInput) (lock : Lock)
        (held after : Held) (written : List Text) (result : EscrowDryRunResult)
        → locked_escrow_run sha256_hex json_parse accepts input held
            (returned (policy, evidence, lock))
          ≡ ((written, returned result), after)
        → IsCommitted policy evidence input written result
    unfolding with_process_local_anti_overlap_lock
    locked-IsCommitted policy evidence input lock held after written result e =
        elim (Bool-cases (try_acquire lock held).0) [
          | inl acquired ↦
              run-IsCommitted policy evidence input written result
                (ap (λ x. x.0) (rw (with_process_local_anti_overlap_lock, acquired) at e))
          | inr taken ↦ absurd (
              threw_not_returned
                (ap (λ x. x.0.1) (rw (with_process_local_anti_overlap_lock, taken) at e)))
        ]

    -- A result comes from a policy, evidence and a lock that were accepted.
    run_prepared :
        (input : EscrowDryRunInput) (held after : Held) (written : List Text)
        (result : EscrowDryRunResult) (r : Attempt (RetentionPolicy × Evidence × Lock))
        → locked_escrow_run sha256_hex json_parse accepts input held r
          ≡ ((written, returned result), after)
        → (t : RetentionPolicy × Evidence × Lock) × (r ≡ returned t)
          × (locked_escrow_run sha256_hex json_parse accepts input held (returned t)
              ≡ ((written, returned result), after))
    run_prepared input held after written result (threw message) e =
        absurd (threw_not_returned (ap (λ x. x.0.1) e))
    run_prepared input held after written result (returned t) e = (t, refl, e)

    -- If a dry run with an escrow returns a result, then the chunks that were written are lines that
    -- verify with the result's escrow, and encode well-formed batches in the canonical form; the
    -- escrow agrees with the plan and the manifest in its site, cutoff, policy version, manifest hash
    -- and counts; the manifest lists the plan's batches; and the plan is a safe selection for the
    -- policy and the evidence, which were accepted.
    pub dry_run-IsCommitted :
        (token : ℕ) (input : EscrowDryRunInput) (held after : Held) (written : List Text)
        (result : EscrowDryRunResult)
        → build_newsletter_retention_escrow_dry_run_result sha256_hex json_parse accepts token input
            held
          ≡ ((written, returned result), after)
        → (policy : RetentionPolicy) × (evidence : Evidence) × (normalize_dry_run_policy
              input.policy
            ≡ returned policy)
          × (parse_newsletter_retention_evidence input.evidence ≡ returned evidence)
          × IsCommitted policy evidence input written result
    unfolding build_newsletter_retention_escrow_dry_run_result
    dry_run-IsCommitted token input held after written result e =
        let (t, is_t, e1) = run_prepared input held after written result _ e in
        through (normalize_dry_run_policy input.policy) _ t is_t λ policy p r1.
          through (parse_newsletter_retention_evidence input.evidence) _ t r1 λ evidence q r2.
            through (create_process_local_anti_overlap_lock policy.site_id token) _ t r2
              λ lock l r3.
                let same = value_of_returned (policy, evidence, lock) t r3 in
                (
                  policy,
                  evidence,
                  p,
                  q,
                  locked-IsCommitted policy evidence input lock held after written result (
                      subst
                        (λ x.
                          locked_escrow_run sha256_hex json_parse accepts input held (returned x)
                          ≡ ((written, returned result), after))
                        (sym same) e1),
                )
