-- ===== src/Escrow/Normalize.antt =====
-- What service/newsletter-retention-escrow.ts accepts as a header, a record or a footer.
use mailgun_ses_proxy.Base.{ℕ, String, Bool, false, List, [], ◌∷◌, if◌then◌else◌}
use mailgun_ses_proxy.Base.Attempt.{Attempt, returned, threw, ◌>>=◌}
use mailgun_ses_proxy.Escrow.Text.{Text, of, ◌===◌}
use mailgun_ses_proxy.Escrow.Value.{
  Value, string, object, member, done, get_member, expect_plain_object_with_exact_keys,
  normalize_version, normalize_positive_safe_integer, normalize_non_negative_safe_integer,
  normalize_manifest_index, normalize_strict_site_id, normalize_utc_millis, normalize_hash,
}
use mailgun_ses_proxy.Escrow.Record.{
  Header, Row, newsletter_batch, newsletter_message, newsletter_error, newsletter_notification,
  EscrowRecord, Counts, Footer, VerificationResult,
}
use mailgun_ses_proxy.Escrow.Rows.{
  texts, normalize_batch_row, normalize_message_row, normalize_error_row,
  normalize_notification_row,
}

abbrev header_keys : List Text
header_keys = texts (
    "kind" ∷ "version" ∷ "siteId" ∷ "cutoff" ∷ "policyVersion" ∷ "publicManifestHash"
    ∷ "schemaFingerprint" ∷ [])

abbrev footer_keys : List Text
footer_keys = texts ("kind" ∷ "counts" ∷ "contentHash" ∷ [])

abbrev verification_result_keys : List Text
verification_result_keys = texts (
    "version" ∷ "siteId" ∷ "cutoff" ∷ "policyVersion" ∷ "publicManifestHash" ∷ "schemaFingerprint"
    ∷ "contentHash" ∷ "counts" ∷ [])

abbrev count_keys : List Text
count_keys = texts ("batches" ∷ "messages" ∷ "errors" ∷ "notifications" ∷ [])

abbrev record_keys : List Text
record_keys = texts ("kind" ∷ "manifestIndex" ∷ "row" ∷ [])

unfoldable pub normalize_escrow_header : Value → Attempt Header
normalize_escrow_header value = do
  header ← expect_plain_object_with_exact_keys value header_keys "header"
  version ← normalize_version (get_member (of "version") header)
  site_id ← normalize_strict_site_id (get_member (of "siteId") header) "siteId"
  cutoff ← normalize_utc_millis (get_member (of "cutoff") header) "cutoff"
  policy_version ←
      normalize_positive_safe_integer (get_member (of "policyVersion") header) "policyVersion"
  public_manifest_hash ←
      normalize_hash (get_member (of "publicManifestHash") header) "publicManifestHash"
  schema_fingerprint ←
      normalize_hash (get_member (of "schemaFingerprint") header) "schemaFingerprint"
  returned (record {
    version = version;
    site_id = site_id;
    cutoff = cutoff;
    policy_version = policy_version;
    public_manifest_hash = public_manifest_hash;
    schema_fingerprint = schema_fingerprint;
  })

unfoldable pub normalize_counts : Value → Attempt Counts
normalize_counts value = do
  counts ← expect_plain_object_with_exact_keys value count_keys "footer counts"
  batches ← normalize_non_negative_safe_integer (get_member (of "batches") counts) "batches"
  messages ← normalize_non_negative_safe_integer (get_member (of "messages") counts) "messages"
  errors ← normalize_non_negative_safe_integer (get_member (of "errors") counts) "errors"
  notifications ←
      normalize_non_negative_safe_integer (get_member (of "notifications") counts) "notifications"
  returned (record {
    batches = batches;
    messages = messages;
    errors = errors;
    notifications = notifications;
  })

unfoldable pub normalize_escrow_footer : Value → Attempt Footer
normalize_escrow_footer value = do
  footer ← expect_plain_object_with_exact_keys value footer_keys "footer"
  counts ← normalize_counts (get_member (of "counts") footer)
  content_hash ← normalize_hash (get_member (of "contentHash") footer) "contentHash"
  returned (record { counts = counts; content_hash = content_hash })

-- `value === text`.
abbrev pub is_text : Value → String → Bool
is_text (string t) s = t === of s
is_text _ s = false

-- An index and a row, each checked, the index first.
abbrev indexed : {A : Type 0} → Attempt ℕ → Attempt A → (A → Row) → Attempt EscrowRecord
indexed index row kind = do
  i ← index
  r ← row
  returned (record { manifest_index = i; row = kind r })

abbrev normalize_members : (kind index row : Value) → Attempt EscrowRecord
normalize_members kind index row =
    if is_text kind "newsletterBatch"
    then indexed (normalize_manifest_index index) (normalize_batch_row row) newsletter_batch
    else if is_text kind "newsletterMessages"
    then indexed (normalize_manifest_index index) (normalize_message_row row) newsletter_message
    else if is_text kind "newsletterErrors"
    then indexed (normalize_manifest_index index) (normalize_error_row row) newsletter_error
    else if is_text kind "newsletterNotifications"
    then indexed (normalize_manifest_index index) (normalize_notification_row row)
        newsletter_notification
    else threw "record kind must be a known model"

unfoldable pub normalize_escrow_record : Value → Attempt EscrowRecord
normalize_escrow_record value = do
  members ← expect_plain_object_with_exact_keys value record_keys "record"
  normalize_members (get_member (of "kind") members) (get_member (of "manifestIndex") members)
      (get_member (of "row") members)

unfoldable pub parse_verification_result : Value → Attempt VerificationResult
parse_verification_result value = do
  candidate ←
      expect_plain_object_with_exact_keys value verification_result_keys
        "escrow verification result"
  header ← normalize_escrow_header (
      object (
        member (of "kind") (string (of "header")) (
          member (of "version") (get_member (of "version") candidate) (
            member (of "siteId") (get_member (of "siteId") candidate) (
              member (of "cutoff") (get_member (of "cutoff") candidate) (
                member (of "policyVersion") (get_member (of "policyVersion") candidate) (
                  member (of "publicManifestHash") (get_member (of "publicManifestHash") candidate)
                    (member (of "schemaFingerprint") (get_member (of "schemaFingerprint") candidate)
                      done))))))))
  footer ← normalize_escrow_footer (
      object (
        member (of "kind") (string (of "footer")) (
          member (of "counts") (get_member (of "counts") candidate)
            (member (of "contentHash") (get_member (of "contentHash") candidate) done))))
  returned (record {
    version = header.version;
    site_id = header.site_id;
    cutoff = header.cutoff;
    policy_version = header.policy_version;
    public_manifest_hash = header.public_manifest_hash;
    schema_fingerprint = header.schema_fingerprint;
    content_hash = footer.content_hash;
    counts = footer.counts;
  })
