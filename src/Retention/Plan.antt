-- ===== src/Retention/Plan.antt =====
-- `buildNewsletterRetentionSelectionPlan` of service/newsletter-retention-plan.ts. Timestamps in the
-- plan stand for their canonical texts, which compare as they do for the years 0 to 9999.
use mailgun_ses_proxy.Base.{
  ℕ, ◌+◌, ◌-◌, String, Bool, not, ◌||◌, Option, none, some, List, [], ◌∷◌, ltb, leb, ◌==◌, length,
  str_eq,
}
use Prim.Native.String.{◌++◌ as concat}
use mailgun_ses_proxy.Base.Attempt.{Attempt, returned, threw, ◌>>=◌, ◌>>◌, throw_if, map_attempt}
use mailgun_ses_proxy.Base.Number.{
  Number, is_negative, is_safe_integer, floor, to_nat, max_safe_integer,
}
use mailgun_ses_proxy.Retention.Instant.{parse_strict_utc_iso}
use mailgun_ses_proxy.Retention.Order.{
  Comparison, ◌or_else◌, compare_numbers, compare_canonical_strings, sort,
}
use mailgun_ses_proxy.Retention.Policy.{
  RetentionPolicy, Evidence, parse_newsletter_retention_evidence, utc_message,
}

-- `string | Date`; an invalid date is `none`.
pub data CreatedAt : Type 0 where
  text : String → CreatedAt
  date : Option ℕ → CreatedAt

pub record CandidateInput : Type 0 where
  pub site_id : String
  pub batch_id : String
  pub created_at : CreatedAt
  pub message_count : Number
  pub notification_count : Number
  pub error_count : Number
  pub orphan_count : Number
  pub correlation_complete : Bool

pub record Candidate : Type 0 where
  pub batch_id : String
  pub created_at : ℕ
  pub message_count : ℕ
  pub notification_count : ℕ
  pub error_count : ℕ

pub record Totals : Type 0 where
  pub message_count : ℕ
  pub notification_count : ℕ
  pub error_count : ℕ

pub record SelectionPlan : Type 0 where
  pub site_id : String
  pub cutoff : String
  pub batch_count : ℕ
  pub totals : Totals
  pub batches : List Candidate

pub record SelectionInput : Type 0 where
  pub policy : RetentionPolicy
  pub evidence : Evidence
  pub queue_healthy : Bool
  pub dlq_healthy : Bool
  pub candidates : List CandidateInput

unfoldable pub parse_candidate_created_at : CreatedAt → Attempt ℕ
parse_candidate_created_at (date none) =
    threw "createdAt must be a strict UTC ISO-8601 string or Date"
parse_candidate_created_at (date (some timestamp)) = returned timestamp
parse_candidate_created_at (text value) = parse_strict_utc_iso (utc_message "createdAt") value

unfoldable pub normalize_count : Number → String → Attempt ℕ
normalize_count value field = do
  throw_if (not (is_safe_integer value) || is_negative value)
      (concat field " must be a non-negative integer")
  returned (to_nat (floor value))

unfoldable pub safe_add_integers : ℕ → ℕ → String → Attempt ℕ
safe_add_integers left right field = do
  throw_if (not (leb left max_safe_integer) || not (leb right max_safe_integer))
      (concat field " must be a non-negative integer")
  throw_if (ltb (max_safe_integer - right) left)
      (concat field " sum exceeds Number.MAX_SAFE_INTEGER")
  returned (left + right)

unfoldable pub normalize_selection_candidate :
    (site_id : String) (cutoff_ms : ℕ) → CandidateInput → Attempt Candidate
normalize_selection_candidate site_id cutoff_ms candidate = do
  throw_if (not (str_eq candidate.site_id site_id))
      "candidate batch tenant scope must exactly match policy siteId"
  throw_if (str_eq candidate.batch_id "") "batchId must be a non-empty string"
  created_at_ms ← parse_candidate_created_at candidate.created_at
  throw_if (leb cutoff_ms created_at_ms)
      "candidate batch createdAt must be strictly before the retention cutoff"
  message_count ← normalize_count candidate.message_count "messageCount"
  notification_count ← normalize_count candidate.notification_count "notificationCount"
  error_count ← normalize_count candidate.error_count "errorCount"
  orphan_count ← normalize_count candidate.orphan_count "orphanCount"
  throw_if (not candidate.correlation_complete) "candidate batch correlation must be complete"
  throw_if (not (orphan_count == 0)) "candidate batch orphanCount must be zero"
  returned (record {
    batch_id = candidate.batch_id;
    created_at = created_at_ms;
    message_count = message_count;
    notification_count = notification_count;
    error_count = error_count;
  })

abbrev pub compare_selection_candidates : Candidate → Candidate → Comparison
compare_selection_candidates left right =
    compare_numbers left.created_at right.created_at
    or_else compare_canonical_strings left.batch_id right.batch_id
    or_else compare_numbers left.message_count right.message_count
    or_else compare_numbers left.notification_count right.notification_count
    or_else compare_numbers left.error_count right.error_count

abbrev pub add_candidate : Totals → Candidate → Attempt Totals
add_candidate totals candidate = do
  message_count ←
      safe_add_integers totals.message_count candidate.message_count "selectedTotals.messageCount"
  notification_count ←
      safe_add_integers totals.notification_count candidate.notification_count
        "selectedTotals.notificationCount"
  error_count ←
      safe_add_integers totals.error_count candidate.error_count "selectedTotals.errorCount"
  returned (record {
    message_count = message_count;
    notification_count = notification_count;
    error_count = error_count;
  })

-- `selectedCandidates.reduce`.
unfoldable pub total_from : Totals → List Candidate → Attempt Totals
unfolding safe_add_integers
total_from totals [] = returned totals
total_from totals (candidate ∷ candidates) = do
  next ← add_candidate totals candidate
  total_from next candidates

unfoldable pub build_newsletter_retention_selection_plan : SelectionInput → Attempt SelectionPlan
build_newsletter_retention_selection_plan input = do
  _ ← parse_newsletter_retention_evidence input.evidence
  throw_if (not input.queue_healthy || not input.dlq_healthy)
      "queue or DLQ evidence must be healthy"
  cutoff_ms ← parse_strict_utc_iso (utc_message "cutoff") input.policy.cutoff
  normalized ←
      map_attempt (normalize_selection_candidate input.policy.site_id cutoff_ms) input.candidates
  throw_if (ltb input.policy.max_batches (length (sort compare_selection_candidates normalized)))
      "selected batch count exceeds the hard batch cap"
  totals ←
      total_from (record { message_count = 0; notification_count = 0; error_count = 0 })
        (sort compare_selection_candidates normalized)
  throw_if (ltb input.policy.max_messages totals.message_count)
      "selected message count exceeds the hard message cap"
  returned (record {
    site_id = input.policy.site_id;
    cutoff = input.policy.cutoff;
    batch_count = length (sort compare_selection_candidates normalized);
    totals = totals;
    batches = sort compare_selection_candidates normalized;
  })
