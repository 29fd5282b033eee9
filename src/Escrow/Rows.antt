-- ===== src/Escrow/Rows.antt =====
-- What service/newsletter-retention-escrow.ts accepts as the row of a record.
use mailgun_ses_proxy.Base.{String, List, [], ◌∷◌}
use mailgun_ses_proxy.Base.Attempt.{Attempt, returned, ◌>>=◌}
use mailgun_ses_proxy.Escrow.Text.{Text, of}
use mailgun_ses_proxy.Escrow.Value.{
  Value, get_member, expect_plain_object_with_exact_keys, normalize_strict_identifier,
  normalize_strict_site_id, normalize_string, normalize_utc_millis, normalize_recipient_data,
}
use mailgun_ses_proxy.Escrow.Record.{BatchRow, MessageRow, ErrorRow, NotificationRow}

-- The texts of a list of names.
abbrev pub texts : List String → List Text
texts [] = []
texts (s ∷ ss) = of s ∷ texts ss

abbrev batch_row_keys : List Text
batch_row_keys = texts ("id" ∷ "siteId" ∷ "fromEmail" ∷ "contents" ∷ "batchId" ∷ "created" ∷ [])

abbrev message_row_keys : List Text
message_row_keys = texts (
    "id" ∷ "messageId" ∷ "toEmail" ∷ "newsletterBatchId" ∷ "created" ∷ "formatedContents"
    ∷ "recipientData" ∷ [])

abbrev error_row_keys : List Text
error_row_keys = texts (
    "id" ∷ "toEmail" ∷ "error" ∷ "created" ∷ "newsletterBatchId" ∷ "messageId" ∷ "formatedContents"
    ∷ "recipientData" ∷ [])

abbrev notification_row_keys : List Text
notification_row_keys =
    texts
      ("id" ∷ "type" ∷ "notificationId" ∷ "messageId" ∷ "rawEvent" ∷ "timestamp" ∷ "created" ∷ [])

unfoldable pub normalize_batch_row : Value → Attempt BatchRow
normalize_batch_row value = do
  row ← expect_plain_object_with_exact_keys value batch_row_keys "record row"
  id ← normalize_strict_identifier (get_member (of "id") row) "id"
  site_id ← normalize_strict_site_id (get_member (of "siteId") row) "siteId"
  from_email ← normalize_strict_identifier (get_member (of "fromEmail") row) "fromEmail"
  contents ← normalize_string (get_member (of "contents") row) "contents"
  batch_id ← normalize_strict_identifier (get_member (of "batchId") row) "batchId"
  created ← normalize_utc_millis (get_member (of "created") row) "created"
  returned (record {
    id = id;
    site_id = site_id;
    from_email = from_email;
    contents = contents;
    batch_id = batch_id;
    created = created;
  })

unfoldable pub normalize_message_row : Value → Attempt MessageRow
normalize_message_row value = do
  row ← expect_plain_object_with_exact_keys value message_row_keys "record row"
  id ← normalize_strict_identifier (get_member (of "id") row) "id"
  message_id ← normalize_strict_identifier (get_member (of "messageId") row) "messageId"
  to_email ← normalize_strict_identifier (get_member (of "toEmail") row) "toEmail"
  newsletter_batch_id ←
      normalize_strict_identifier (get_member (of "newsletterBatchId") row) "newsletterBatchId"
  created ← normalize_utc_millis (get_member (of "created") row) "created"
  formated_contents ← normalize_string (get_member (of "formatedContents") row) "formatedContents"
  recipient_data ← normalize_recipient_data (get_member (of "recipientData") row)
  returned (record {
    id = id;
    message_id = message_id;
    to_email = to_email;
    newsletter_batch_id = newsletter_batch_id;
    created = created;
    formated_contents = formated_contents;
    recipient_data = recipient_data;
  })

unfoldable pub normalize_error_row : Value → Attempt ErrorRow
normalize_error_row value = do
  row ← expect_plain_object_with_exact_keys value error_row_keys "record row"
  id ← normalize_strict_identifier (get_member (of "id") row) "id"
  to_email ← normalize_strict_identifier (get_member (of "toEmail") row) "toEmail"
  error ← normalize_string (get_member (of "error") row) "error"
  created ← normalize_utc_millis (get_member (of "created") row) "created"
  newsletter_batch_id ←
      normalize_strict_identifier (get_member (of "newsletterBatchId") row) "newsletterBatchId"
  message_id ← normalize_strict_identifier (get_member (of "messageId") row) "messageId"
  formated_contents ← normalize_string (get_member (of "formatedContents") row) "formatedContents"
  recipient_data ← normalize_recipient_data (get_member (of "recipientData") row)
  returned (record {
    id = id;
    to_email = to_email;
    error = error;
    created = created;
    newsletter_batch_id = newsletter_batch_id;
    message_id = message_id;
    formated_contents = formated_contents;
    recipient_data = recipient_data;
  })

unfoldable pub normalize_notification_row : Value → Attempt NotificationRow
normalize_notification_row value = do
  row ← expect_plain_object_with_exact_keys value notification_row_keys "record row"
  id ← normalize_strict_identifier (get_member (of "id") row) "id"
  type ← normalize_strict_identifier (get_member (of "type") row) "type"
  notification_id ←
      normalize_strict_identifier (get_member (of "notificationId") row) "notificationId"
  message_id ← normalize_strict_identifier (get_member (of "messageId") row) "messageId"
  raw_event ← normalize_string (get_member (of "rawEvent") row) "rawEvent"
  timestamp ← normalize_utc_millis (get_member (of "timestamp") row) "timestamp"
  created ← normalize_utc_millis (get_member (of "created") row) "created"
  returned (record {
    id = id;
    type = type;
    notification_id = notification_id;
    message_id = message_id;
    raw_event = raw_event;
    timestamp = timestamp;
    created = created;
  })
