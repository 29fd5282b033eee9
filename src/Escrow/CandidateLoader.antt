-- ===== src/Escrow/CandidateLoader.antt =====
-- service/newsletter-retention-candidate-loader.ts: the candidates of the retention, read from the
-- database. The rows have the shape that the delegate's types declare; a `Date` is the text of its
-- `toISOString`, none if it is invalid; and the delegate's calls, which may throw, are a parameter.
pub mod Read
pub mod Origins
pub mod Order
pub mod Loaded
mod Examples
use mailgun_ses_proxy.Base.{
  ℕ, ◌+◌, String, Bool, true, false, not, ◌||◌, Option, none, some, List, [], ◌∷◌, map, every, ltb,
  leb, ◌==◌, length,
}
use Prim.Native.String.{◌++◌ as concat}
use mailgun_ses_proxy.Base.Attempt.{Attempt, returned, threw, ◌>>=◌, ◌>>◌, throw_if, map_attempt}
use mailgun_ses_proxy.Base.Number.{
  Number, nat, is_safe_integer, is_negative, floor, to_nat, max_safe_integer,
}
use mailgun_ses_proxy.Retention.Order.{Comparison, compare_units, compare_numbers, ◌or_else◌, sort}
use mailgun_ses_proxy.Retention.Policy.{RetentionPolicy, is_space, is_trimmed, utc_message}
use mailgun_ses_proxy.Escrow.Text.{Text, of, has}
use mailgun_ses_proxy.Escrow.Loader.Candidates.{CandidateRecord, date_parse}
use mailgun_ses_proxy.Escrow.Loader.Rows.{Date}

pub record MessageAggregate : Type 0 where
  pub message_id : Text
  pub notification_events : Number

pub record BatchAggregate : Type 0 where
  pub id : Text
  pub batch_id : Text
  pub created : Date
  pub newsletters_errors : Number
  pub newsletters_messages : Number

pub record CandidateDelegate : Type 0 where
  pub find_batches :
      (site_id : Text) (created_before : ℕ) (take : ℕ) → Attempt (List BatchAggregate)
  pub find_messages : (newsletter_batch_id : Text) (take : ℕ) → Attempt (List MessageAggregate)
  pub count_orphans : (message_ids : List Text) → Attempt Number

pub record BatchSummary : Type 0 where
  pub batch_record_id : Text
  pub batch_id : Text
  pub created_at : Text
  pub message_count : ℕ
  pub error_count : ℕ

pub record CandidateState : Type 0 where
  pub batch_record_id : Text
  pub batch_id : Text
  pub created_at : Text
  pub message_count : ℕ
  pub notification_count : ℕ
  pub error_count : ℕ
  pub message_ids : List Text
  pub orphan_count : ℕ

abbrev is_empty : Text → Bool
is_empty [] = true
is_empty (c ∷ cs) = false

unfoldable pub normalize_count : Number → (field : String) → Attempt ℕ
normalize_count value field = do
  throw_if (not (is_safe_integer value) || is_negative value)
      (concat field " must be a non-negative integer")
  returned (to_nat (floor value))

unfoldable pub normalize_created_at : Date → Attempt Text
normalize_created_at none = threw "newsletterBatch.created must be a Date"
normalize_created_at (some iso) = returned iso

unfoldable pub normalize_row_id : Text → Attempt Text
normalize_row_id value = do
  throw_if (is_empty value) "newsletterBatch.id must be a non-empty string"
  returned value

-- Empty, or of white space alone.
unfoldable pub normalize_batch_id : Text → Attempt Text
normalize_batch_id value = do
  throw_if (is_empty value || every is_space value)
      "newsletterBatch.batchId must be a non-empty string"
  returned value

unfoldable pub normalize_message_id : Text → Attempt Text
normalize_message_id value = do
  throw_if (is_empty value || every is_space value)
      "newsletterMessages.messageId must be a non-empty string"
  returned value

unfoldable pub normalize_site_id : Text → Attempt Text
normalize_site_id value = do
  throw_if (not (is_trimmed value) || is_empty value) "siteId must be a non-empty string"
  returned value

abbrev parsed : Option ℕ → (message : String) → Attempt ℕ
parsed none message = threw message
parsed (some timestamp) message = returned timestamp

unfoldable pub parse_strict_utc_iso : Text → (field : String) → Attempt ℕ
parse_strict_utc_iso value field = parsed (date_parse value) (utc_message field)

-- For numbers that are not negative.
unfoldable pub normalize_positive_integer : ℕ → (field : String) → Attempt ℕ
normalize_positive_integer value field = do
  throw_if (not (leb value max_safe_integer) || value == 0)
      (concat field " must be a positive integer")
  returned value

-- `limit` is the text of `max`.
unfoldable pub normalize_limited_positive_integer :
    (value : ℕ) (field : String) (max : ℕ) (limit : String) → Attempt ℕ
normalize_limited_positive_integer value field max limit = do
  throw_if (ltb max value) (concat field (concat " must not exceed " limit))
  returned value

unfoldable pub safe_add_integers : (left right : ℕ) → (field : String) → Attempt ℕ
safe_add_integers left right field = do
  throw_if (not (leb left max_safe_integer) || not (leb right max_safe_integer))
      (concat field " must be a non-negative integer")
  throw_if (ltb max_safe_integer (left + right))
      (concat field " sum exceeds Number.MAX_SAFE_INTEGER")
  returned (left + right)

-- `values.reduce((total, value) => safeAddIntegers(total, value, field), total)`.
unfoldable pub sum_from : ℕ → List ℕ → (field : String) → Attempt ℕ
unfolding safe_add_integers
sum_from total [] field = returned total
sum_from total (value ∷ values) field = do
  added ← safe_add_integers total value field
  sum_from added values field

unfoldable pub normalize_batch_aggregate_row : BatchAggregate → Attempt BatchSummary
normalize_batch_aggregate_row row = do
  errors ← normalize_count row.newsletters_errors "newsletterBatch._count.NewslettersErrors"
  messages ← normalize_count row.newsletters_messages "newsletterBatch._count.NewslettersMessages"
  batch_record_id ← normalize_row_id row.id
  batch_id ← normalize_batch_id row.batch_id
  created_at ← normalize_created_at row.created
  returned (record {
    batch_record_id = batch_record_id;
    batch_id = batch_id;
    created_at = created_at;
    message_count = messages;
    error_count = errors;
  })

-- A message id and its notification events.
abbrev pub MessageCount : Type 0
MessageCount = Text × ℕ

-- The callback over the rows; the ids seen are the last first.
unfoldable pub normalize_messages_from :
    List MessageAggregate → List Text → Attempt (List MessageCount)
normalize_messages_from [] seen = returned []
normalize_messages_from (row ∷ rows) seen = do
  message_id ← normalize_message_id row.message_id
  throw_if (has seen message_id) "newsletterMessages.findMany returned duplicate messageId"
  events ← normalize_count row.notification_events "newsletterMessages._count.notificationEvents"
  rest ← normalize_messages_from rows (message_id ∷ seen)
  returned ((message_id, events) ∷ rest)

unfoldable pub normalize_message_rows :
    List MessageAggregate → (expected_message_count : ℕ) → Attempt (List MessageCount)
unfolding normalize_messages_from
normalize_message_rows rows expected_message_count = do
  throw_if (not (length rows == expected_message_count))
      "newsletterMessages.findMany returned unexpected number of rows"
  normalize_messages_from rows []

unfoldable pub compare_normalized_candidates : CandidateState → CandidateState → Comparison
compare_normalized_candidates left right =
    compare_units left.created_at right.created_at
    or_else compare_units left.batch_id right.batch_id
    or_else compare_numbers left.message_count right.message_count
    or_else compare_numbers left.notification_count right.notification_count
    or_else compare_numbers left.error_count right.error_count
    or_else compare_units left.batch_record_id right.batch_record_id

abbrev pub without_messages : BatchSummary → CandidateState
without_messages summary = record {
  batch_record_id = summary.batch_record_id;
  batch_id = summary.batch_id;
  created_at = summary.created_at;
  message_count = 0;
  notification_count = 0;
  error_count = summary.error_count;
  message_ids = [];
  orphan_count = 0;
}

module _ (delegate : CandidateDelegate) where
  unfoldable pub count_batch_linked_orphans : List Text → Attempt ℕ
  count_batch_linked_orphans message_ids = do
    orphan_count ← delegate.count_orphans message_ids
    normalize_count orphan_count "newsletterNotificationOrphan.count"

  unfoldable pub load_with_messages : BatchSummary → Attempt CandidateState
  unfolding count_batch_linked_orphans normalize_message_rows sum_from
  load_with_messages summary = do
    rows ← delegate.find_messages summary.batch_record_id (summary.message_count + 1)
    messages ← normalize_message_rows rows summary.message_count
    notification_count ←
        sum_from 0 (map (λ m. m.1) messages) "newsletterMessages._count.notificationEvents"
    orphan_count ← count_batch_linked_orphans (map (λ m. m.0) messages)
    returned (record {
      batch_record_id = summary.batch_record_id;
      batch_id = summary.batch_id;
      created_at = summary.created_at;
      message_count = summary.message_count;
      notification_count = notification_count;
      error_count = summary.error_count;
      message_ids = map (λ m. m.0) messages;
      orphan_count = orphan_count;
    })

  unfoldable pub load_candidate : BatchSummary → Attempt CandidateState
  unfolding load_with_messages
  load_candidate summary = elim (summary.message_count == 0) [
    | true ↦ returned (without_messages summary)
    | false ↦ load_with_messages summary
  ]

  abbrev pub record_of : Text → CandidateState → CandidateRecord
  record_of site_id candidate = record {
    site_id = site_id;
    batch_record_id = candidate.batch_record_id;
    batch_id = candidate.batch_id;
    created_at = candidate.created_at;
    message_count = nat candidate.message_count;
    notification_count = nat candidate.notification_count;
    error_count = nat candidate.error_count;
    orphan_count = nat candidate.orphan_count;
    correlation_complete = candidate.orphan_count == 0;
  }

  unfoldable pub load_candidate_records : RetentionPolicy → Attempt (List CandidateRecord)
  unfolding normalize_site_id parse_strict_utc_iso normalize_positive_integer
      normalize_limited_positive_integer normalize_batch_aggregate_row sum_from load_candidate
      compare_normalized_candidates
  load_candidate_records policy = do
    site_id ← normalize_site_id (of policy.site_id)
    cutoff ← parse_strict_utc_iso (of policy.cutoff) "cutoff"
    positive_batches ← normalize_positive_integer policy.max_batches "maxBatches"
    max_batches ← normalize_limited_positive_integer positive_batches "maxBatches" 100 "100"
    positive_messages ← normalize_positive_integer policy.max_messages "maxMessages"
    max_messages ← normalize_limited_positive_integer positive_messages "maxMessages" 10000 "10000"
    rows ← delegate.find_batches site_id cutoff (max_batches + 1)
    throw_if (ltb max_batches (length rows))
        "newsletterBatch.findMany returned more batches than maxBatches"
    summaries ← map_attempt normalize_batch_aggregate_row rows
    total_messages ←
        sum_from 0 (map (λ s. s.message_count) summaries)
          "newsletterBatch._count.NewslettersMessages"
    throw_if (ltb max_messages total_messages)
        "sum of newsletterBatch._count.NewslettersMessages exceeds maxMessages"
    candidates ← map_attempt load_candidate summaries
    returned (map (record_of site_id) (sort compare_normalized_candidates candidates))
