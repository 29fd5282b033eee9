-- ===== src/Escrow/Loader/Candidates.antt =====
-- The candidates that service/newsletter-retention-escrow-loader.ts is given. Their fields have the
-- types that are declared.
use mailgun_ses_proxy.Base.{
  ℕ, ◌+◌, String, Bool, true, false, not, ◌&&◌, ◌||◌, Option, none, some, List, [], ◌∷◌, ltb, leb,
  ◌==◌, length, if◌then◌else◌,
}
use Prim.Native.String.{◌++◌ as concat}
use mailgun_ses_proxy.Base.Attempt.{Attempt, returned, threw, ◌>>=◌, ◌>>◌, throw_if}
use mailgun_ses_proxy.Base.Number.{
  Number, is_safe_integer, is_negative, floor, to_nat, max_safe_integer,
}
use mailgun_ses_proxy.Retention.Instant.{Civil, matched, is_date, timestamp_of}
use mailgun_ses_proxy.Retention.Order.{Comparison, compare_units, compare_numbers, ◌or_else◌, sort}
use mailgun_ses_proxy.Retention.Policy.{RetentionPolicy, is_trimmed, utc_message}
use mailgun_ses_proxy.Escrow.Text.{Text, of, ◌===◌, has}

pub record CandidateRecord : Type 0 where
  pub site_id : Text
  pub batch_record_id : Text
  pub batch_id : Text
  pub created_at : Text
  pub message_count : Number
  pub notification_count : Number
  pub error_count : Number
  pub orphan_count : Number
  pub correlation_complete : Bool

pub record NormalizedCandidate : Type 0 where
  pub site_id : Text
  pub batch_record_id : Text
  pub batch_id : Text
  pub created_at : Text
  pub created_at_ms : ℕ
  pub message_count : ℕ
  pub notification_count : ℕ
  pub error_count : ℕ

abbrev is_empty : Text → Bool
is_empty [] = true
is_empty (c ∷ cs) = false

unfoldable pub normalize_strict_string : Text → (field : String) → Attempt Text
normalize_strict_string value field = do
  throw_if (is_empty value || not (is_trimmed value)) (concat field " must be a non-empty string")
  returned value

unfoldable pub normalize_count : Number → (field : String) → Attempt ℕ
normalize_count value field = do
  throw_if (not (is_safe_integer value) || is_negative value)
      (concat field " must be a non-negative safe integer")
  returned (to_nat (floor value))

abbrev pub date_of : Option Civil → Option ℕ
date_of none = none
date_of (some civil) = if is_date civil then some (timestamp_of civil) else none

-- `Date.parse` of a text in the canonical form; none is NaN.
abbrev pub date_parse : Text → Option ℕ
date_parse value = date_of (matched value)

-- `left >= right`, which is false for NaN.
abbrev pub is_not_earlier : Option ℕ → Option ℕ → Bool
is_not_earlier (some left) (some right) = leb right left
is_not_earlier _ _ = false

abbrev parsed : Option ℕ → (message : String) → Attempt ℕ
parsed none message = threw message
parsed (some timestamp) message = returned timestamp

unfoldable pub parse_strict_utc_iso : Text → (field : String) → Attempt ℕ
parse_strict_utc_iso value field = parsed (date_parse value) (utc_message field)

-- `normalizeUtcMillis`, with the timestamp that `Date.parse` then gives.
unfoldable pub normalize_utc_millis : Text → (field : String) → Attempt ℕ
normalize_utc_millis value field =
    parsed (date_parse value) (concat field " must be a canonical UTC millisecond string")

-- For numbers that are not negative.
unfoldable pub safe_add : (left right : ℕ) → (field : String) → Attempt ℕ
safe_add left right field = do
  throw_if (not (leb left max_safe_integer) || not (leb right max_safe_integer))
      (concat field " must be a non-negative safe integer")
  throw_if (ltb max_safe_integer (left + right))
      (concat field " sum exceeds Number.MAX_SAFE_INTEGER")
  returned (left + right)

unfoldable pub normalize_candidate :
    CandidateRecord → (policy_site_id : Text) → (cutoff_ms : ℕ) → Attempt NormalizedCandidate
normalize_candidate candidate policy_site_id cutoff_ms = do
  site_id ← normalize_strict_string candidate.site_id "siteId"
  throw_if (not (site_id === policy_site_id)) "candidate siteId must exactly match policy siteId"
  created_at_ms ← normalize_utc_millis candidate.created_at "createdAt"
  throw_if (leb cutoff_ms created_at_ms) "candidate createdAt must be strictly before the cutoff"
  message_count ← normalize_count candidate.message_count "messageCount"
  notification_count ← normalize_count candidate.notification_count "notificationCount"
  error_count ← normalize_count candidate.error_count "errorCount"
  orphan_count ← normalize_count candidate.orphan_count "orphanCount"
  throw_if (not candidate.correlation_complete) "candidate correlationComplete must be true"
  throw_if (not (orphan_count == 0)) "candidate orphanCount must be zero"
  throw_if (message_count == 0 && not (notification_count == 0))
      "candidate with zero messages must have zero notifications"
  batch_record_id ← normalize_strict_string candidate.batch_record_id "batchRecordId"
  batch_id ← normalize_strict_string candidate.batch_id "batchId"
  returned (record {
    site_id = site_id;
    batch_record_id = batch_record_id;
    batch_id = batch_id;
    created_at = candidate.created_at;
    created_at_ms = created_at_ms;
    message_count = message_count;
    notification_count = notification_count;
    error_count = error_count;
  })

unfoldable pub compare_candidates : NormalizedCandidate → NormalizedCandidate → Comparison
compare_candidates left right =
    compare_units left.created_at right.created_at
    or_else compare_units left.batch_id right.batch_id
    or_else compare_numbers left.message_count right.message_count
    or_else compare_numbers left.notification_count right.notification_count
    or_else compare_numbers left.error_count right.error_count
    or_else compare_units left.batch_record_id right.batch_record_id

pub record Totals : Type 0 where
  pub messages : ℕ
  pub records : ℕ

unfoldable pub add_candidate : NormalizedCandidate → Totals → Attempt Totals
unfolding safe_add
add_candidate candidate totals = do
  messages ← safe_add totals.messages candidate.message_count "candidate messageCount total"
  with_messages ← safe_add 1 candidate.message_count "candidate record total"
  with_errors ← safe_add with_messages candidate.error_count "candidate record total"
  so_far ← safe_add totals.records with_errors "candidate record total"
  records ← safe_add so_far candidate.notification_count "candidate record total"
  returned (record { messages = messages; records = records })

module _ (policy_site_id : Text) (cutoff_ms : ℕ) where
  -- The loop over the candidates; the ids seen are the last first.
  unfoldable pub normalize_from :
      List CandidateRecord → List Text → Totals → Attempt (List NormalizedCandidate × Totals)
  unfolding normalize_candidate add_candidate
  normalize_from [] seen totals = returned ([], totals)
  normalize_from (candidate ∷ candidates) seen totals = do
    normalized ← normalize_candidate candidate policy_site_id cutoff_ms
    throw_if (has seen normalized.batch_record_id) "candidate batchRecordId must be unique"
    added ← add_candidate normalized totals
    rest ← normalize_from candidates (normalized.batch_record_id ∷ seen) added
    returned (normalized ∷ rest.0, rest.1)

abbrev pub max_stream_records : ℕ
max_stream_records = 250000

unfoldable pub normalize_candidates :
    List CandidateRecord → RetentionPolicy → Attempt (List NormalizedCandidate)
unfolding normalize_from parse_strict_utc_iso compare_candidates
normalize_candidates candidates policy = do
  throw_if (ltb policy.max_batches (length candidates)) "candidate count exceeds policy maxBatches"
  cutoff_ms ← parse_strict_utc_iso (of policy.cutoff) "cutoff"
  normalized ←
      normalize_from (of policy.site_id) cutoff_ms candidates []
        (record { messages = 0; records = 0 })
  throw_if (ltb policy.max_messages normalized.1.messages)
      "candidate messageCount total exceeds policy maxMessages"
  throw_if (ltb max_stream_records normalized.1.records)
      "expected escrow record count exceeds hard limit"
  returned (sort compare_candidates normalized.0)
