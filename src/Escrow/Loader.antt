-- ===== src/Escrow/Loader.antt =====
-- service/newsletter-retention-escrow-loader.ts: the records of an escrow, read from the database. The
-- rows have the shape that the delegate's types declare; a `Date` is the text of its `toISOString`,
-- none if it is invalid; and the delegate's calls, which may throw, are a parameter.
pub mod Candidates
pub mod Rows
pub mod Checks
pub mod Snapshot
pub mod Batch
pub mod Sorted
pub mod Stream
mod Examples
use mailgun_ses_proxy.Base.{
  ℕ, suc, ◌+◌, String, Bool, true, false, not, ◌&&◌, ◌||◌, Option, none, some, List, [], ◌∷◌, map,
  ltb, leb, ◌==◌, if◌then◌else◌,
}
use mailgun_ses_proxy.Base.Attempt.{Attempt, returned, threw, ◌>>=◌, ◌>>◌, throw_if}
use mailgun_ses_proxy.Base.Number.{Number}
use mailgun_ses_proxy.Retention.Order.{sort}
use mailgun_ses_proxy.Retention.Policy.{
  PolicyInput, RetentionPolicy, parse_newsletter_retention_policy,
}
use mailgun_ses_proxy.Escrow.Text.{Text, of, ◌===◌, has}
use mailgun_ses_proxy.Escrow.Record.{
  BatchRow, MessageRow, ErrorRow, NotificationRow, Row, newsletter_batch, newsletter_message,
  newsletter_error, newsletter_notification, EscrowRecord,
}
use mailgun_ses_proxy.Escrow.Loader.Candidates.{
  CandidateRecord, NormalizedCandidate, normalize_candidates, date_parse, is_not_earlier,
  normalize_count,
}
use mailgun_ses_proxy.Escrow.Loader.Rows.{
  BatchDatabaseRow, MessageDatabaseRow, ErrorDatabaseRow, NotificationDatabaseRow,
  normalize_batch_row, normalize_message_rows, normalize_error_rows, normalize_notification_rows,
}

-- The calls of the database; `take` is the number of rows asked for.
pub record Delegate : Type 0 where
  pub find_batch : (id site_id : Text) → Attempt (Option BatchDatabaseRow)
  pub find_messages : (newsletter_batch_id : Text) (take : ℕ) → Attempt (List MessageDatabaseRow)
  pub find_errors : (newsletter_batch_id : Text) (take : ℕ) → Attempt (List ErrorDatabaseRow)
  pub find_notifications :
      (newsletter_batch_id : Text) (take : ℕ) → Attempt (List NotificationDatabaseRow)
  pub count_orphans : (message_ids : List Text) → Attempt Number

-- The keys seen in the batches so far, the last first.
pub record SnapshotUniqueKeys : Type 0 where
  pub message_ids : List Text
  pub message_row_ids : List Text
  pub error_message_ids : List Text
  pub error_row_ids : List Text
  pub notification_ids : List Text
  pub notification_row_ids : List Text

abbrev pub no_keys : SnapshotUniqueKeys
no_keys = record {
  message_ids = [];
  message_row_ids = [];
  error_message_ids = [];
  error_row_ids = [];
  notification_ids = [];
  notification_row_ids = [];
}

-- The rows of a batch, the last first of each kind.
pub record Loaded : Type 0 where
  pub batch : BatchRow
  pub messages : List MessageRow
  pub errors : List ErrorRow
  pub notifications : List NotificationRow

-- The message ids of rows that are the last first, in their order before others.
abbrev pub ids_in_order : List MessageRow → List Text → List Text
ids_in_order [] ids = ids
ids_in_order (m ∷ ms) ids = ids_in_order ms (m.message_id ∷ ids)

module _ (delegate : Delegate) where
  unfoldable pub load_batch_row : NormalizedCandidate → (cutoff : Text) → Attempt BatchRow
  load_batch_row candidate cutoff = do
    row ← delegate.find_batch candidate.batch_record_id candidate.site_id
    normalized ← normalize_batch_row row
    throw_if (not (normalized.id === candidate.batch_record_id))
        "candidate batchRecordId does not match the stored batch row"
    throw_if (not (normalized.site_id === candidate.site_id))
        "candidate siteId does not match the stored batch row"
    throw_if (not (normalized.batch_id === candidate.batch_id))
        "candidate batchId does not match the stored batch row"
    throw_if (not (normalized.created === candidate.created_at))
        "candidate createdAt does not match the stored batch row"
    throw_if (is_not_earlier (date_parse normalized.created) (date_parse cutoff))
        "stored batch row must be strictly before the cutoff"
    returned normalized

  unfoldable pub load_message_rows : NormalizedCandidate → Attempt (List MessageRow)
  load_message_rows candidate = do
    rows ← delegate.find_messages candidate.batch_record_id (candidate.message_count + 1)
    normalize_message_rows rows candidate.message_count candidate.batch_record_id

  unfoldable pub load_error_rows : NormalizedCandidate → Attempt (List ErrorRow)
  load_error_rows candidate = do
    rows ← delegate.find_errors candidate.batch_record_id (candidate.error_count + 1)
    normalize_error_rows rows candidate.error_count candidate.batch_record_id

  unfoldable pub load_notification_rows :
      NormalizedCandidate → List MessageRow → Attempt (List NotificationRow)
  load_notification_rows candidate messages = do
    rows ← delegate.find_notifications candidate.batch_record_id (candidate.notification_count + 1)
    normalize_notification_rows rows candidate.notification_count (map (λ r. r.message_id) messages)

  unfoldable pub validate_orphan_count : List MessageRow → Attempt (Unit {0})
  validate_orphan_count [] = returned tt
  validate_orphan_count (m ∷ ms) = do
    orphan_count ← delegate.count_orphans (ids_in_order (m ∷ ms) [])
    normalized ← normalize_count orphan_count "newsletterNotificationOrphan.count"
    throw_if (not (normalized == 0)) "candidate orphan count must remain zero"

module _ {A : Type 0} (key : A → Text) (message : String) where
  -- One key of rows in their order, on the keys seen before.
  unfoldable pub remember_key : A → List Text → Attempt (List Text)
  remember_key row seen = do throw_if (has seen (key row)) message; returned (key row ∷ seen)

abbrev pub Seen : Type 0
Seen = List Text × List Text

-- The rows of a kind in their order, the row id before the other key.
module _ {A : Type 0} (id key : A → Text) (id_message message : String) where
  unfoldable pub remember_rows : List A → Seen → Attempt Seen
  unfolding remember_key
  remember_rows [] seen = returned seen
  remember_rows (row ∷ rows) seen = do
    before ← remember_rows rows seen
    ids ← remember_key id id_message row before.0
    keys ← remember_key key message row before.1
    returned (ids, keys)

unfoldable pub assert_snapshot_unique_keys :
    Loaded → SnapshotUniqueKeys → Attempt SnapshotUniqueKeys
unfolding remember_rows
assert_snapshot_unique_keys loaded seen = do
  messages ←
      remember_rows (λ r. r.id) (λ r. r.message_id) "newsletterMessages id must be globally unique"
        "newsletterMessages.messageId must be globally unique" loaded.messages
        (seen.message_row_ids, seen.message_ids)
  errors ←
      remember_rows (λ r. r.id) (λ r. r.message_id) "newsletterErrors id must be globally unique"
        "newsletterErrors.messageId must be globally unique" loaded.errors
        (seen.error_row_ids, seen.error_message_ids)
  notifications ←
      remember_rows (λ r. r.id) (λ r. r.notification_id)
        "newsletterNotifications id must be globally unique"
        "newsletterNotifications.notificationId must be globally unique" loaded.notifications
        (seen.notification_row_ids, seen.notification_ids)
  returned (record {
    message_ids = messages.1;
    message_row_ids = messages.0;
    error_message_ids = errors.1;
    error_row_ids = errors.0;
    notification_ids = notifications.1;
    notification_row_ids = notifications.0;
  })

abbrev pub zero_messages : String
zero_messages = "candidate with zero messages must have zero notifications"

module _ (delegate : Delegate) (cutoff : Text) where
  -- What is read for a candidate before its records are yielded, with the keys seen after it.
  unfoldable pub load_batch :
      NormalizedCandidate → SnapshotUniqueKeys → Attempt (Loaded × SnapshotUniqueKeys)
  unfolding assert_snapshot_unique_keys load_batch_row load_message_rows load_error_rows
      load_notification_rows validate_orphan_count
  load_batch candidate seen = do
    batch ← load_batch_row delegate candidate cutoff
    messages ← load_message_rows delegate candidate
    errors ← load_error_rows delegate candidate
    notifications ←
        if ltb 0 candidate.message_count
        then load_notification_rows delegate candidate messages
        else returned []
    keys ←
        assert_snapshot_unique_keys
          (record {
            batch = batch;
            messages = messages;
            errors = errors;
            notifications = notifications;
          })
          seen
    _ ←
        if ltb 0 candidate.message_count
        then validate_orphan_count delegate messages
        else throw_if (not (candidate.notification_count == 0)) zero_messages
    returned (
      record { batch = batch; messages = messages; errors = errors; notifications = notifications },
      keys,
    )

module _ {A : Type 0} (index : ℕ) (kind : A → Row) where
  -- Rows, the last first, as records in their order before others.
  abbrev pub yielded : List A → List (Attempt EscrowRecord) → List (Attempt EscrowRecord)
  yielded [] rest = rest
  yielded (row ∷ rows) rest =
      yielded rows (returned (record { manifest_index = index; row = kind row }) ∷ rest)

abbrev pub yielded_batch : ℕ → Loaded → List (Attempt EscrowRecord) → List (Attempt EscrowRecord)
yielded_batch index loaded rest =
    returned (record { manifest_index = index; row = newsletter_batch loaded.batch })
    ∷ yielded index newsletter_message loaded.messages (
        yielded index newsletter_error loaded.errors
          (yielded index newsletter_notification loaded.notifications rest))

-- What is yielded for a candidate and those after it.
abbrev pub after_load :
    ℕ
    → Attempt (Loaded × SnapshotUniqueKeys)
    → (SnapshotUniqueKeys → List (Attempt EscrowRecord))
    → List (Attempt EscrowRecord)
after_load index (threw message) rest = threw message ∷ []
after_load index (returned loaded) rest = yielded_batch index loaded.0 (rest loaded.1)

module _ (delegate : Delegate) (cutoff : Text) where
  -- What the generator yields for candidates from an index on; a throw ends it.
  unfoldable pub stream_from :
      ℕ → List NormalizedCandidate → SnapshotUniqueKeys → List (Attempt EscrowRecord)
  unfolding load_batch
  stream_from index [] seen = []
  stream_from index (candidate ∷ candidates) seen =
      after_load index (load_batch delegate cutoff candidate seen)
        (λ keys. stream_from (suc index) candidates keys)

-- The policy and the candidates, checked before the first read.
unfoldable pub prepare :
    PolicyInput → List CandidateRecord → Attempt (RetentionPolicy × List NormalizedCandidate)
prepare policy candidates = do
  normalized_policy ← parse_newsletter_retention_policy policy
  normalized ← normalize_candidates candidates normalized_policy
  returned (normalized_policy, normalized)

abbrev pub streamed :
    Delegate → Attempt (RetentionPolicy × List NormalizedCandidate) → List (Attempt EscrowRecord)
streamed delegate (threw message) = threw message ∷ []
streamed delegate (returned prepared) =
    stream_from delegate (of prepared.0.cutoff) 0 prepared.1 no_keys

unfoldable pub stream_escrow_records :
    Delegate → PolicyInput → List CandidateRecord → List (Attempt EscrowRecord)
unfolding stream_from prepare
stream_escrow_records delegate policy candidates = streamed delegate (prepare policy candidates)
