-- ===== src/Escrow/Examples.antt =====
-- Runs of the escrow modules.
use mailgun_ses_proxy.Base.{
  ◌≡◌, refl, String, true, Option, none, some, List, [], ◌∷◌, map, if◌then◌else◌, ◌⊎◌,
}
use mailgun_ses_proxy.Base.Attempt.{returned, threw}
use mailgun_ses_proxy.Escrow.Text.{Text, of}
use mailgun_ses_proxy.Escrow.Value.{Value}
use mailgun_ses_proxy.Escrow.Record.{
  Header, BatchRow, MessageRow, NotificationRow, Row, newsletter_batch, newsletter_message,
  newsletter_notification, EscrowRecord, Footer,
}
use mailgun_ses_proxy.Escrow.Serialize.{header_value, record_value, footer_value}
use mailgun_ses_proxy.Escrow.Scanner.{invalid, repeated}
use mailgun_ses_proxy.Escrow.Scanner.Termination.{scanner-ends}
use mailgun_ses_proxy.Escrow.Accumulator.{no_options}
use mailgun_ses_proxy.Escrow.Verify.{text_line}
use mailgun_ses_proxy.Escrow.Stage.{IsEscrow, texts_from, result_of}
use mailgun_ses_proxy.Escrow.Refinement.{verify-IsEscrow}
use mailgun_ses_proxy.Escrow.Writer.Verified.{chunks_onto, written-verified}
use mailgun_ses_proxy.Escrow.Text.{
  ◌===◌, ge, has, digits_of, stringify_number, quoted_units, stringify_string,
}
use mailgun_ses_proxy.Escrow.Value.{
  get_member, has_member, count_members, expect_plain_object_with_exact_keys, normalize_version,
  normalize_positive_safe_integer, normalize_non_negative_safe_integer, normalize_manifest_index,
  normalize_strict_identifier, normalize_strict_site_id, normalize_string, normalize_utc_millis,
  normalize_hash, normalize_recipient_data, normalize_escrow_limit,
}
use mailgun_ses_proxy.Escrow.Rows.{
  normalize_batch_row, normalize_message_row, normalize_error_row, normalize_notification_row,
}
use mailgun_ses_proxy.Escrow.Normalize.{
  normalize_escrow_header, normalize_counts, normalize_escrow_footer, normalize_escrow_record,
  parse_verification_result,
}
use mailgun_ses_proxy.Escrow.Serialize.{
  join_canonical_object, serialize_record_row, serialize_header, serialize_record, serialize_footer,
}
use mailgun_ses_proxy.Escrow.Scanner.{
  skip_whitespace, skip_digits, parse_digits, parse_number, parse_literal, parse_string_rest,
  parse_string, ensure_unique_json_keys, parse_value, parse_members, parse_items,
}
use mailgun_ses_proxy.Escrow.Accumulator.{normalize_limits, create_accumulator}
use mailgun_ses_proxy.Escrow.Consume.{
  add_safe_integer, consume_header, start_manifest, enter_manifest, assert_ascending_id,
  assert_unique_row_id, assert_unique, consume_batch_record, consume_message_record,
  consume_error_record, consume_notification_record, consume_row, consume_record,
}
use mailgun_ses_proxy.Escrow.Verify.{
  byte_length, normalize_raw_line, parse_escrow_line, consume_footer, consume_parsed, consume_line,
  consume, finalize, consume_lines, verify_lines,
}
use mailgun_ses_proxy.Escrow.Writer.{
  add_one, increment_count, write_canonical_line, write_records, write_escrow,
}
use mailgun_ses_proxy.Escrow.Scanner.Tokens.{IsError}

abbrev pub hash_text : Text
hash_text = of "00112233445566778899aabbccddeeff00112233445566778899aabbccddeeff"

abbrev pub constant_hash : Text → Text
constant_hash content = hash_text

abbrev pub header : Header
header = record {
  version = 1;
  site_id = of "site";
  cutoff = of "2024-02-01T00:00:00.000Z";
  policy_version = 1;
  public_manifest_hash = hash_text;
  schema_fingerprint = hash_text;
}

abbrev pub batch : BatchRow
batch = record {
  id = of "b1";
  site_id = of "site";
  from_email = of "a@b.c";
  contents = of "{\"x\":\n1}";
  batch_id = of "n1";
  created = of "2024-01-01T00:00:00.000Z";
}

abbrev pub message : MessageRow
message = record {
  id = of "m1";
  message_id = of "ses1";
  to_email = of "d@e.f";
  newsletter_batch_id = of "b1";
  created = of "2024-01-01T00:00:00.000Z";
  formated_contents = of "hello";
  recipient_data = none;
}

abbrev pub notification : NotificationRow
notification = record {
  id = of "e1";
  type = of "Delivery";
  notification_id = of "x1";
  message_id = of "ses1";
  raw_event = of "{}";
  timestamp = of "2024-01-01T00:00:01.000Z";
  created = of "2024-01-01T00:00:02.000Z";
}

abbrev pub in_first : Row → EscrowRecord
in_first row = record { manifest_index = 0; row = row }

abbrev pub footer : Footer
footer = record {
  counts = record { batches = 1; messages = 1; errors = 0; notifications = 1 };
  content_hash = hash_text;
}

abbrev pub lines : List Text
lines =
    of
      "{\"kind\":\"header\",\"version\":1,\"siteId\":\"site\",\"cutoff\":\"2024-02-01T00:00:00.000Z\",\"policyVersion\":1,\"publicManifestHash\":\"00112233445566778899aabbccddeeff00112233445566778899aabbccddeeff\",\"schemaFingerprint\":\"00112233445566778899aabbccddeeff00112233445566778899aabbccddeeff\"}"
    ∷ of
        "{\"kind\":\"newsletterBatch\",\"manifestIndex\":0,\"row\":{\"id\":\"b1\",\"siteId\":\"site\",\"fromEmail\":\"a@b.c\",\"contents\":\"{\\\"x\\\":\\n1}\",\"batchId\":\"n1\",\"created\":\"2024-01-01T00:00:00.000Z\"}}"
    ∷ of
        "{\"kind\":\"newsletterMessages\",\"manifestIndex\":0,\"row\":{\"id\":\"m1\",\"messageId\":\"ses1\",\"toEmail\":\"d@e.f\",\"newsletterBatchId\":\"b1\",\"created\":\"2024-01-01T00:00:00.000Z\",\"formatedContents\":\"hello\",\"recipientData\":null}}"
    ∷ of
        "{\"kind\":\"newsletterNotifications\",\"manifestIndex\":0,\"row\":{\"id\":\"e1\",\"type\":\"Delivery\",\"notificationId\":\"x1\",\"messageId\":\"ses1\",\"rawEvent\":\"{}\",\"timestamp\":\"2024-01-01T00:00:01.000Z\",\"created\":\"2024-01-01T00:00:02.000Z\"}}"
    ∷ of
        "{\"kind\":\"footer\",\"counts\":{\"batches\":1,\"messages\":1,\"errors\":0,\"notifications\":1},\"contentHash\":\"00112233445566778899aabbccddeeff00112233445566778899aabbccddeeff\"}"
    ∷ []

abbrev values : List Value
values =
    header_value header
    ∷ record_value (in_first (newsletter_batch batch))
    ∷ record_value (in_first (newsletter_message message))
    ∷ record_value (in_first (newsletter_notification notification))
    ∷ footer_value footer
    ∷ []

-- The value of a line, by looking it up.
abbrev looked_up : List Text → List Value → Text → Option Value
looked_up (t ∷ ts) (v ∷ vs) text =
    let rest = looked_up ts vs text in if t === text then some v else rest
looked_up ts vs text = none

abbrev pub parse : Text → Option Value
parse = looked_up lines values

batch_line :
    serialize_record (in_first (newsletter_batch batch))
    ≡ returned (
        of
          "{\"kind\":\"newsletterBatch\",\"manifestIndex\":0,\"row\":{\"id\":\"b1\",\"siteId\":\"site\",\"fromEmail\":\"a@b.c\",\"contents\":\"{\\\"x\\\":\\n1}\",\"batchId\":\"n1\",\"created\":\"2024-01-01T00:00:00.000Z\"}}")
unfolding ◌===◌ ge has digits_of stringify_number quoted_units stringify_string get_member
    has_member count_members expect_plain_object_with_exact_keys normalize_version
    normalize_positive_safe_integer normalize_non_negative_safe_integer normalize_manifest_index
    normalize_strict_identifier normalize_strict_site_id normalize_string normalize_utc_millis
    normalize_hash normalize_recipient_data normalize_escrow_limit normalize_batch_row
    normalize_message_row normalize_error_row normalize_notification_row normalize_escrow_header
    normalize_counts normalize_escrow_footer normalize_escrow_record parse_verification_result
    join_canonical_object serialize_record_row serialize_header serialize_record serialize_footer
batch_line = refl

pub written_and_read :
    write_escrow parse constant_hash
      (λ written line. true)
      header
      (returned (in_first (newsletter_batch batch))
        ∷ returned (in_first (newsletter_message message))
        ∷ returned (in_first (newsletter_notification notification))
        ∷ [])
      []
    ≡ (chunks_onto lines [], returned (result_of header hash_text footer.counts))
unfolding ◌===◌ ge has digits_of stringify_number quoted_units stringify_string get_member
    has_member count_members expect_plain_object_with_exact_keys normalize_version
    normalize_positive_safe_integer normalize_non_negative_safe_integer normalize_manifest_index
    normalize_strict_identifier normalize_strict_site_id normalize_string normalize_utc_millis
    normalize_hash normalize_recipient_data normalize_escrow_limit normalize_batch_row
    normalize_message_row normalize_error_row normalize_notification_row normalize_escrow_header
    normalize_counts normalize_escrow_footer normalize_escrow_record parse_verification_result
    join_canonical_object serialize_record_row serialize_header serialize_record serialize_footer
    skip_whitespace skip_digits parse_digits parse_number parse_literal parse_string_rest
    parse_string ensure_unique_json_keys parse_value parse_members parse_items normalize_limits
    create_accumulator add_safe_integer consume_header start_manifest enter_manifest
    assert_ascending_id assert_unique_row_id assert_unique consume_batch_record
    consume_message_record consume_error_record consume_notification_record consume_row
    consume_record byte_length normalize_raw_line parse_escrow_line consume_footer consume_parsed
    consume_line consume finalize consume_lines verify_lines add_one increment_count
    write_canonical_line write_records write_escrow
written_and_read = refl

verified :
    verify_lines parse constant_hash no_options (map text_line lines)
    ≡ returned (result_of header hash_text footer.counts)
unfolding ◌===◌ ge has digits_of stringify_number quoted_units stringify_string get_member
    has_member count_members expect_plain_object_with_exact_keys normalize_version
    normalize_positive_safe_integer normalize_non_negative_safe_integer normalize_manifest_index
    normalize_strict_identifier normalize_strict_site_id normalize_string normalize_utc_millis
    normalize_hash normalize_recipient_data normalize_escrow_limit normalize_batch_row
    normalize_message_row normalize_error_row normalize_notification_row normalize_escrow_header
    normalize_counts normalize_escrow_footer normalize_escrow_record parse_verification_result
    join_canonical_object serialize_record_row serialize_header serialize_record serialize_footer
    skip_whitespace skip_digits parse_digits parse_number parse_literal parse_string_rest
    parse_string ensure_unique_json_keys parse_value parse_members parse_items normalize_limits
    create_accumulator add_safe_integer consume_header start_manifest enter_manifest
    assert_ascending_id assert_unique_row_id assert_unique consume_batch_record
    consume_message_record consume_error_record consume_notification_record consume_row
    consume_record byte_length normalize_raw_line parse_escrow_line consume_footer consume_parsed
    consume_line consume finalize consume_lines verify_lines
verified = refl

verify-IsEscrow_example :
    IsEscrow parse constant_hash
      (texts_from (map text_line lines) [])
      (result_of header hash_text footer.counts)
verify-IsEscrow_example =
    verify-IsEscrow parse constant_hash no_options (map text_line lines)
      (result_of header hash_text footer.counts) verified

written-verified_example :
    (read : List Text) × (chunks_onto lines [] ≡ chunks_onto read [])
    × (verify_lines parse constant_hash no_options (map text_line read)
        ≡ returned (result_of header hash_text footer.counts))
written-verified_example =
    written-verified parse constant_hash (λ written line. true) header
      (returned (in_first (newsletter_batch batch))
        ∷ returned (in_first (newsletter_message message))
        ∷ returned (in_first (newsletter_notification notification))
        ∷ [])
      (chunks_onto lines []) (result_of header hash_text footer.counts) written_and_read

scanner-ends_example :
    (ensure_unique_json_keys (of "[1") ≡ returned tt)
    ⊎ ((error : String) × (ensure_unique_json_keys (of "[1") ≡ threw error) × IsError error)
scanner-ends_example = scanner-ends (of "[1")

accepted : ensure_unique_json_keys (of "{\"a\":[1,-2.5e3,true],\"b\":{\"a\":null}}") ≡ returned tt
unfolding ◌===◌ has skip_whitespace skip_digits parse_digits parse_number parse_literal
    parse_string_rest parse_string ensure_unique_json_keys parse_value parse_members parse_items
accepted = refl

repeats : ensure_unique_json_keys (of "{\"a\":1,\"\\u0061\":2}") ≡ threw repeated
unfolding ◌===◌ has skip_whitespace skip_digits parse_digits parse_number parse_literal
    parse_string_rest parse_string ensure_unique_json_keys parse_value parse_members parse_items
repeats = refl

broken : ensure_unique_json_keys (of "{\"a\":01}") ≡ threw invalid
unfolding ◌===◌ has skip_whitespace skip_digits parse_digits parse_number parse_literal
    parse_string_rest parse_string ensure_unique_json_keys parse_value parse_members parse_items
broken = refl
