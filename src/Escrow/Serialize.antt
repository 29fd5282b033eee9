-- ===== src/Escrow/Serialize.antt =====
-- The one encoding of a header, a record and a footer as a line, in
-- service/newsletter-retention-escrow.ts. Each is checked again, as the object it is.
use mailgun_ses_proxy.Base.{String, Option, none, some, List, [], ◌∷◌, ◌++◌}
use mailgun_ses_proxy.Base.Attempt.{Attempt, returned, ◌>>=◌}
use mailgun_ses_proxy.Base.Number.{nat}
use mailgun_ses_proxy.Escrow.Text.{Text, of, stringify_string, stringify_number}
use mailgun_ses_proxy.Escrow.Value.{Value, null, number, string, object, Members, done, member}
use mailgun_ses_proxy.Escrow.Record.{
  Header, Row, newsletter_batch, newsletter_message, newsletter_error, newsletter_notification,
  EscrowRecord, Counts, Footer,
}
use mailgun_ses_proxy.Escrow.Normalize.{
  normalize_escrow_header, normalize_escrow_footer, normalize_escrow_record,
}

abbrev nullable : Option Text → Value
nullable none = null
nullable (some t) = string t

-- An object of members with text values, and then others.
abbrev text_members : List (String × Text) → Members → Members
text_members [] rest = rest
text_members ((key, t) ∷ ms) rest = member (of key) (string t) (text_members ms rest)

abbrev pub header_value : Header → Value
header_value h = object (
    member (of "kind") (string (of "header")) (
      member (of "version") (number (nat h.version)) (
        member (of "siteId") (string h.site_id) (
          member (of "cutoff") (string h.cutoff) (
            member (of "policyVersion") (number (nat h.policy_version)) (
              member (of "publicManifestHash") (string h.public_manifest_hash)
                (member (of "schemaFingerprint") (string h.schema_fingerprint) done)))))))

abbrev pub counts_value : Counts → Value
counts_value c = object (
    member (of "batches") (number (nat c.batches)) (
      member (of "messages") (number (nat c.messages)) (
        member (of "errors") (number (nat c.errors))
          (member (of "notifications") (number (nat c.notifications)) done))))

abbrev pub footer_value : Footer → Value
footer_value f = object (
    member (of "kind") (string (of "footer")) (
      member (of "counts") (counts_value f.counts)
        (member (of "contentHash") (string f.content_hash) done)))

abbrev pub kind_of : Row → Text
kind_of (newsletter_batch row) = of "newsletterBatch"
kind_of (newsletter_message row) = of "newsletterMessages"
kind_of (newsletter_error row) = of "newsletterErrors"
kind_of (newsletter_notification row) = of "newsletterNotifications"

abbrev pub row_value : Row → Value
row_value (newsletter_batch row) = object (
    text_members
      (("id", row.id)
        ∷ ("siteId", row.site_id)
        ∷ ("fromEmail", row.from_email)
        ∷ ("contents", row.contents)
        ∷ ("batchId", row.batch_id)
        ∷ ("created", row.created)
        ∷ [])
      done)
row_value (newsletter_message row) = object (
    text_members
      (("id", row.id)
        ∷ ("messageId", row.message_id)
        ∷ ("toEmail", row.to_email)
        ∷ ("newsletterBatchId", row.newsletter_batch_id)
        ∷ ("created", row.created)
        ∷ ("formatedContents", row.formated_contents)
        ∷ [])
      (member (of "recipientData") (nullable row.recipient_data) done))
row_value (newsletter_error row) = object (
    text_members
      (("id", row.id)
        ∷ ("toEmail", row.to_email)
        ∷ ("error", row.error)
        ∷ ("created", row.created)
        ∷ ("newsletterBatchId", row.newsletter_batch_id)
        ∷ ("messageId", row.message_id)
        ∷ ("formatedContents", row.formated_contents)
        ∷ [])
      (member (of "recipientData") (nullable row.recipient_data) done))
row_value (newsletter_notification row) = object (
    text_members
      (("id", row.id)
        ∷ ("type", row.type)
        ∷ ("notificationId", row.notification_id)
        ∷ ("messageId", row.message_id)
        ∷ ("rawEvent", row.raw_event)
        ∷ ("timestamp", row.timestamp)
        ∷ ("created", row.created)
        ∷ [])
      done)

abbrev pub record_value : EscrowRecord → Value
record_value r = object (
    member (of "kind") (string (kind_of r.row)) (
      member (of "manifestIndex") (number (nat r.manifest_index))
        (member (of "row") (row_value r.row) done)))

abbrev joined : List (String × Text) → Text
joined [] = []
joined ((key, value) ∷ []) = stringify_string (of key) ++ b':' ∷ value
joined ((key, value) ∷ entry ∷ entries) =
    stringify_string (of key) ++ b':' ∷ (value ++ b',' ∷ joined (entry ∷ entries))

unfoldable pub join_canonical_object : List (String × Text) → Text
join_canonical_object entries = b'{' ∷ (joined entries ++ b'}' ∷ [])

abbrev stringify_nullable : Option Text → Text
stringify_nullable none = of "null"
stringify_nullable (some t) = stringify_string t

unfoldable pub serialize_record_row : Row → Text
serialize_record_row (newsletter_batch row) = join_canonical_object (
    ("id", stringify_string row.id)
    ∷ ("siteId", stringify_string row.site_id)
    ∷ ("fromEmail", stringify_string row.from_email)
    ∷ ("contents", stringify_string row.contents)
    ∷ ("batchId", stringify_string row.batch_id)
    ∷ ("created", stringify_string row.created)
    ∷ [])
serialize_record_row (newsletter_message row) = join_canonical_object (
    ("id", stringify_string row.id)
    ∷ ("messageId", stringify_string row.message_id)
    ∷ ("toEmail", stringify_string row.to_email)
    ∷ ("newsletterBatchId", stringify_string row.newsletter_batch_id)
    ∷ ("created", stringify_string row.created)
    ∷ ("formatedContents", stringify_string row.formated_contents)
    ∷ ("recipientData", stringify_nullable row.recipient_data)
    ∷ [])
serialize_record_row (newsletter_error row) = join_canonical_object (
    ("id", stringify_string row.id)
    ∷ ("toEmail", stringify_string row.to_email)
    ∷ ("error", stringify_string row.error)
    ∷ ("created", stringify_string row.created)
    ∷ ("newsletterBatchId", stringify_string row.newsletter_batch_id)
    ∷ ("messageId", stringify_string row.message_id)
    ∷ ("formatedContents", stringify_string row.formated_contents)
    ∷ ("recipientData", stringify_nullable row.recipient_data)
    ∷ [])
serialize_record_row (newsletter_notification row) = join_canonical_object (
    ("id", stringify_string row.id)
    ∷ ("type", stringify_string row.type)
    ∷ ("notificationId", stringify_string row.notification_id)
    ∷ ("messageId", stringify_string row.message_id)
    ∷ ("rawEvent", stringify_string row.raw_event)
    ∷ ("timestamp", stringify_string row.timestamp)
    ∷ ("created", stringify_string row.created)
    ∷ [])

unfoldable pub serialize_header : Header → Attempt Text
serialize_header header = do
  normalized ← normalize_escrow_header (header_value header)
  returned (
      join_canonical_object (
        ("kind", stringify_string (of "header"))
        ∷ ("version", stringify_number normalized.version)
        ∷ ("siteId", stringify_string normalized.site_id)
        ∷ ("cutoff", stringify_string normalized.cutoff)
        ∷ ("policyVersion", stringify_number normalized.policy_version)
        ∷ ("publicManifestHash", stringify_string normalized.public_manifest_hash)
        ∷ ("schemaFingerprint", stringify_string normalized.schema_fingerprint)
        ∷ []))

unfoldable pub serialize_record : EscrowRecord → Attempt Text
serialize_record r = do
  normalized ← normalize_escrow_record (record_value r)
  returned (
      join_canonical_object (
        ("kind", stringify_string (kind_of normalized.row))
        ∷ ("manifestIndex", stringify_number normalized.manifest_index)
        ∷ ("row", serialize_record_row normalized.row)
        ∷ []))

unfoldable pub serialize_footer : Footer → Attempt Text
serialize_footer footer = do
  normalized ← normalize_escrow_footer (footer_value footer)
  returned (
      join_canonical_object (
        ("kind", stringify_string (of "footer"))
        ∷ (
          "counts",
          join_canonical_object (
              ("batches", stringify_number normalized.counts.batches)
              ∷ ("messages", stringify_number normalized.counts.messages)
              ∷ ("errors", stringify_number normalized.counts.errors)
              ∷ ("notifications", stringify_number normalized.counts.notifications)
              ∷ []),
        )
        ∷ ("contentHash", stringify_string normalized.content_hash)
        ∷ []))
