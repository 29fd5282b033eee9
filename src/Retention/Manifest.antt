-- ===== src/Retention/Manifest.antt =====
-- `buildNewsletterRetentionManifest` of service/newsletter-retention.ts, without its hash, which is a
-- function of the fields that are here: Escrow.ManifestHash has it.
use mailgun_ses_proxy.Base.{ℕ, String, not, ◌||◌, Option, List, every}
use Prim.Native.String.{◌++◌ as concat}
use mailgun_ses_proxy.Base.Attempt.{Attempt, returned, ◌>>=◌, ◌>>◌, throw_if, map_attempt}
use mailgun_ses_proxy.Base.Number.{
  Number, is_finite, is_integer, is_negative, is_safe_integer, floor, to_nat,
}
use mailgun_ses_proxy.ErrorClass.{codes}
use mailgun_ses_proxy.Retention.Instant.{parse_strict_utc_iso}
use mailgun_ses_proxy.Retention.Order.{sort}
use mailgun_ses_proxy.Retention.Policy.{
  is_space, normalize_site_id, normalize_policy_version, utc_message,
}
use mailgun_ses_proxy.Retention.Plan.{Candidate, compare_selection_candidates}

-- A text, or the one that `toISOString` prints of a timestamp.
pub data CreatedText : Type 0 where
  written : String → CreatedText
  printed : ℕ → CreatedText

pub record ManifestBatchInput : Type 0 where
  pub batch_id : String
  pub created_at : CreatedText
  pub message_count : Number
  pub notification_count : Number
  pub error_count : Number

pub record ManifestInput : Type 0 where
  pub site_id : String
  pub cutoff : String
  pub policy_version : Option Number
  pub batches : List ManifestBatchInput

-- Its batches have the fields of the plan's, and are compared alike.
pub record Manifest : Type 0 where
  pub site_id : String
  pub cutoff : String
  pub policy_version : ℕ
  pub batches : List Candidate

abbrev pub created_at_ms : CreatedText → Attempt ℕ
created_at_ms (written value) = parse_strict_utc_iso (utc_message "createdAt") value
created_at_ms (printed timestamp) = returned timestamp

unfoldable pub normalize_manifest_batch_id : String → Attempt String
normalize_manifest_batch_id batch_id = do
  throw_if (every is_space (codes batch_id)) "batchId must be a non-empty string"
  returned batch_id

unfoldable pub normalize_manifest_count : Number → String → Attempt ℕ
normalize_manifest_count value field = do
  throw_if
      (not (is_finite value)
        || not (is_integer value)
        || is_negative value
        || not (is_safe_integer value))
      (concat field " must be a non-negative safe integer")
  returned (to_nat (floor value))

unfoldable pub normalize_manifest_batch : ManifestBatchInput → Attempt Candidate
normalize_manifest_batch batch = do
  batch_id ← normalize_manifest_batch_id batch.batch_id
  created_at ← created_at_ms batch.created_at
  message_count ← normalize_manifest_count batch.message_count "messageCount"
  notification_count ← normalize_manifest_count batch.notification_count "notificationCount"
  error_count ← normalize_manifest_count batch.error_count "errorCount"
  returned (record {
    batch_id = batch_id;
    created_at = created_at;
    message_count = message_count;
    notification_count = notification_count;
    error_count = error_count;
  })

unfoldable pub build_newsletter_retention_manifest : ManifestInput → Attempt Manifest
build_newsletter_retention_manifest input = do
  site_id ← normalize_site_id input.site_id
  _ ← parse_strict_utc_iso (utc_message "cutoff") input.cutoff
  policy_version ← normalize_policy_version input.policy_version
  batches ← map_attempt normalize_manifest_batch input.batches
  returned (record {
    site_id = site_id;
    cutoff = input.cutoff;
    policy_version = policy_version;
    batches = sort compare_selection_candidates batches;
  })
