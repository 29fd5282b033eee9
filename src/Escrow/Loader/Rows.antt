-- ===== src/Escrow/Loader/Rows.antt =====
-- The rows that service/newsletter-retention-escrow-loader.ts reads, and its checks of them.
use mailgun_ses_proxy.Base.{
  ℕ, String, Bool, false, not, Option, none, some, List, [], ◌∷◌, map, ltb, ◌==◌, length,
}
use Prim.Native.String.{◌++◌ as concat}
use mailgun_ses_proxy.Base.Attempt.{Attempt, returned, threw, ◌>>=◌, ◌>>◌, throw_if}
use mailgun_ses_proxy.Escrow.Text.{Text, ◌===◌, ge, has}
use mailgun_ses_proxy.Escrow.Record.{BatchRow, MessageRow, ErrorRow, NotificationRow}
use mailgun_ses_proxy.Escrow.Loader.Candidates.{normalize_strict_string}

abbrev pub Date : Type 0
Date = Option Text

pub record BatchDatabaseRow : Type 0 where
  pub id : Text
  pub site_id : Text
  pub from_email : Text
  pub contents : Text
  pub batch_id : Text
  pub created : Date

pub record MessageDatabaseRow : Type 0 where
  pub id : Text
  pub message_id : Text
  pub to_email : Text
  pub newsletter_batch_id : Text
  pub created : Date
  pub formated_contents : Text
  pub recipient_data : Option Text

pub record ErrorDatabaseRow : Type 0 where
  pub id : Text
  pub to_email : Text
  pub error : Text
  pub created : Date
  pub newsletter_batch_id : Text
  pub message_id : Text
  pub formated_contents : Text
  pub recipient_data : Option Text

pub record NotificationDatabaseRow : Type 0 where
  pub id : Text
  pub type : Text
  pub notification_id : Text
  pub message_id : Text
  pub raw_event : Text
  pub timestamp : Date
  pub created : Date

unfoldable pub normalize_prisma_date : Date → (field : String) → Attempt Text
normalize_prisma_date none field = threw (concat field " must be a valid Date")
normalize_prisma_date (some iso) field = returned iso

unfoldable pub normalize_batch_row : Option BatchDatabaseRow → Attempt BatchRow
normalize_batch_row none = threw "candidate batch row must exist"
normalize_batch_row (some row) = do
  id ← normalize_strict_string row.id "id"
  site_id ← normalize_strict_string row.site_id "siteId"
  from_email ← normalize_strict_string row.from_email "fromEmail"
  batch_id ← normalize_strict_string row.batch_id "batchId"
  created ← normalize_prisma_date row.created "created"
  returned (record {
    id = id;
    site_id = site_id;
    from_email = from_email;
    contents = row.contents;
    batch_id = batch_id;
    created = created;
  })

unfoldable pub normalize_message_row : MessageDatabaseRow → Attempt MessageRow
normalize_message_row row = do
  id ← normalize_strict_string row.id "id"
  message_id ← normalize_strict_string row.message_id "messageId"
  to_email ← normalize_strict_string row.to_email "toEmail"
  newsletter_batch_id ← normalize_strict_string row.newsletter_batch_id "newsletterBatchId"
  created ← normalize_prisma_date row.created "created"
  returned (record {
    id = id;
    message_id = message_id;
    to_email = to_email;
    newsletter_batch_id = newsletter_batch_id;
    created = created;
    formated_contents = row.formated_contents;
    recipient_data = row.recipient_data;
  })

unfoldable pub normalize_error_row : ErrorDatabaseRow → Attempt ErrorRow
normalize_error_row row = do
  id ← normalize_strict_string row.id "id"
  to_email ← normalize_strict_string row.to_email "toEmail"
  created ← normalize_prisma_date row.created "created"
  newsletter_batch_id ← normalize_strict_string row.newsletter_batch_id "newsletterBatchId"
  message_id ← normalize_strict_string row.message_id "messageId"
  returned (record {
    id = id;
    to_email = to_email;
    error = row.error;
    created = created;
    newsletter_batch_id = newsletter_batch_id;
    message_id = message_id;
    formated_contents = row.formated_contents;
    recipient_data = row.recipient_data;
  })

unfoldable pub normalize_notification_row : NotificationDatabaseRow → Attempt NotificationRow
normalize_notification_row row = do
  id ← normalize_strict_string row.id "id"
  type ← normalize_strict_string row.type "type"
  notification_id ← normalize_strict_string row.notification_id "notificationId"
  message_id ← normalize_strict_string row.message_id "messageId"
  timestamp ← normalize_prisma_date row.timestamp "timestamp"
  created ← normalize_prisma_date row.created "created"
  returned (record {
    id = id;
    type = type;
    notification_id = notification_id;
    message_id = message_id;
    raw_event = row.raw_event;
    timestamp = timestamp;
    created = created;
  })

-- `previousId !== undefined && compareStrings(previousId, id) >= 0`; the ids read are the last first.
abbrev pub is_unordered : List Text → Text → Bool
is_unordered [] id = false
is_unordered (previous ∷ ids) id = ge previous id

-- The loop over the rows of a table: each normalized, checked to belong to the batch, to come after
-- the one before and to repeat no id and no other key. The rows read are the last first.
module _ {D R : Type 0} (normalize : D → Attempt R) (belongs : R → Bool) (id key : R → Text)
    (stranger unsorted repeated_id repeated_key : String) where
  unfoldable pub normalize_rows : List D → List R → Attempt (List R)
  normalize_rows [] read = returned read
  normalize_rows (d ∷ ds) read = do
    row ← normalize d
    throw_if (not (belongs row)) stranger
    throw_if (is_unordered (map id read) (id row)) unsorted
    throw_if (has (map id read) (id row)) repeated_id
    throw_if (has (map key read) (key row)) repeated_key
    normalize_rows ds (row ∷ read)

unfoldable pub normalize_message_rows :
    List MessageDatabaseRow
    → (expected_count : ℕ) → (batch_record_id : Text) → Attempt (List MessageRow)
unfolding normalize_rows normalize_message_row
normalize_message_rows rows expected_count batch_record_id = do
  throw_if (ltb expected_count (length rows))
      "newsletterMessages.findMany returned more rows than expected"
  throw_if (not (length rows == expected_count))
      "newsletterMessages.findMany returned unexpected number of rows"
  normalize_rows normalize_message_row (λ r. r.newsletter_batch_id === batch_record_id) (λ r. r.id)
      (λ r. r.message_id) "newsletterMessages row must belong to the current batch"
      "newsletterMessages rows must be sorted by id and unique"
      "newsletterMessages id must be unique" "newsletterMessages.messageId must be unique" rows []

unfoldable pub normalize_error_rows :
    List ErrorDatabaseRow
    → (expected_count : ℕ) → (batch_record_id : Text) → Attempt (List ErrorRow)
unfolding normalize_rows normalize_error_row
normalize_error_rows rows expected_count batch_record_id = do
  throw_if (ltb expected_count (length rows))
      "newsletterErrors.findMany returned more rows than expected"
  throw_if (not (length rows == expected_count))
      "newsletterErrors.findMany returned unexpected number of rows"
  normalize_rows normalize_error_row (λ r. r.newsletter_batch_id === batch_record_id) (λ r. r.id)
      (λ r. r.message_id) "newsletterErrors row must belong to the current batch"
      "newsletterErrors rows must be sorted by id and unique" "newsletterErrors id must be unique"
      "newsletterErrors.messageId must be unique" rows []

unfoldable pub normalize_notification_rows :
    List NotificationDatabaseRow
    → (expected_count : ℕ) → (message_ids : List Text) → Attempt (List NotificationRow)
unfolding normalize_rows normalize_notification_row
normalize_notification_rows rows expected_count message_ids = do
  throw_if (ltb expected_count (length rows))
      "newsletterNotifications.findMany returned more rows than expected"
  throw_if (not (length rows == expected_count))
      "newsletterNotifications.findMany returned unexpected number of rows"
  normalize_rows normalize_notification_row (λ r. has message_ids r.message_id) (λ r. r.id)
      (λ r. r.notification_id) "newsletterNotifications.messageId must belong to the current batch"
      "newsletterNotifications rows must be sorted by id and unique"
      "newsletterNotifications id must be unique"
      "newsletterNotifications.notificationId must be unique" rows []
