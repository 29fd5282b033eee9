-- ===== src/Escrow/Loader/Examples.antt =====
-- A run of service/newsletter-retention-escrow-loader.ts.
use mailgun_ses_proxy.Base.{◌≡◌, refl, true, none, some, List, [], ◌∷◌}
use mailgun_ses_proxy.Base.Attempt.{returned}
use mailgun_ses_proxy.Base.Number.{nat}
use mailgun_ses_proxy.Retention.Policy.{PolicyInput, RetentionPolicy}
use mailgun_ses_proxy.Escrow.Text.{Text, of}
use mailgun_ses_proxy.Escrow.Record.{
  newsletter_batch, newsletter_message, newsletter_notification, EscrowRecord,
}
use mailgun_ses_proxy.Escrow.Loader.{Delegate}
use mailgun_ses_proxy.Escrow.Loader.Candidates.{CandidateRecord}
use mailgun_ses_proxy.Escrow.Loader.Rows.{
  BatchDatabaseRow, MessageDatabaseRow, NotificationDatabaseRow,
}
use mailgun_ses_proxy.Escrow.Loader.Stream.{history, AreRecords, stream_records-AreRecords}
use mailgun_ses_proxy.Escrow.Text.{◌===◌, ge, has}
use mailgun_ses_proxy.Escrow.Loader.{
  load_batch_row, load_message_rows, load_error_rows, load_notification_rows, validate_orphan_count,
  remember_key, remember_rows, assert_snapshot_unique_keys, load_batch, stream_from, prepare,
  stream_escrow_records,
}
use mailgun_ses_proxy.Escrow.Loader.Candidates.{
  normalize_strict_string, normalize_count, parse_strict_utc_iso, normalize_utc_millis, safe_add,
  normalize_candidate, compare_candidates, add_candidate, normalize_from, normalize_candidates,
}
use mailgun_ses_proxy.Escrow.Loader.Rows.{
  normalize_prisma_date, normalize_batch_row, normalize_message_row, normalize_error_row,
  normalize_notification_row, normalize_rows, normalize_message_rows, normalize_error_rows,
  normalize_notification_rows,
}
use mailgun_ses_proxy.Retention.Policy.{
  parse_newsletter_retention_policy, normalize_site_id, clamp_positive_integer,
}
use mailgun_ses_proxy.Retention.Order.{sort}
use mailgun_ses_proxy.Retention.Instant.{parse_strict_utc_iso as parse_policy_utc}

abbrev created : Text
created = of "2024-01-01T00:00:00.000Z"

abbrev batch : BatchDatabaseRow
batch = record {
  id = of "b1";
  site_id = of "site";
  from_email = of "a@b.c";
  contents = of "{}";
  batch_id = of "n1";
  created = some created;
}

abbrev message : MessageDatabaseRow
message = record {
  id = of "m1";
  message_id = of "ses1";
  to_email = of "d@e.f";
  newsletter_batch_id = of "b1";
  created = some created;
  formated_contents = of "hello";
  recipient_data = none;
}

abbrev notification : NotificationDatabaseRow
notification = record {
  id = of "e1";
  type = of "Delivery";
  notification_id = of "x1";
  message_id = of "ses1";
  raw_event = of "{}";
  timestamp = some created;
  created = some created;
}

abbrev delegate : Delegate
delegate = record {
  find_batch = λ id site. returned (some batch);
  find_messages = λ id n. returned (message ∷ []);
  find_errors = λ id n. returned [];
  find_notifications = λ id n. returned (notification ∷ []);
  count_orphans = λ ids. returned (nat 0);
}

abbrev candidate : CandidateRecord
candidate = record {
  site_id = of "site";
  batch_record_id = of "b1";
  batch_id = of "n1";
  created_at = created;
  message_count = nat 1;
  notification_count = nat 1;
  error_count = nat 0;
  orphan_count = nat 0;
  correlation_complete = true;
}

abbrev input : PolicyInput
input = record {
  site_id = "site";
  cutoff = "2024-02-01T00:00:00.000Z";
  apply = none;
  max_batches = none;
  max_messages = none;
}

abbrev policy : RetentionPolicy
policy = record {
  site_id = "site";
  cutoff = "2024-02-01T00:00:00.000Z";
  dry_run = true;
  max_batches = 10;
  max_messages = 1000;
  policy_version = 1;
}

abbrev records : List EscrowRecord
records =
    record {
      manifest_index = 0;
      row = newsletter_notification (record {
        id = of "e1";
        type = of "Delivery";
        notification_id = of "x1";
        message_id = of "ses1";
        raw_event = of "{}";
        timestamp = created;
        created = created;
      });
    }
    ∷ record {
      manifest_index = 0;
      row = newsletter_message (record {
        id = of "m1";
        message_id = of "ses1";
        to_email = of "d@e.f";
        newsletter_batch_id = of "b1";
        created = created;
        formated_contents = of "hello";
        recipient_data = none;
      });
    }
    ∷ record {
      manifest_index = 0;
      row = newsletter_batch (record {
        id = of "b1";
        site_id = of "site";
        from_email = of "a@b.c";
        contents = of "{}";
        batch_id = of "n1";
        created = created;
      });
    }
    ∷ []

accepted : parse_newsletter_retention_policy input ≡ returned policy
unfolding parse_newsletter_retention_policy normalize_site_id clamp_positive_integer
    parse_policy_utc
accepted = refl

streamed_records : history (stream_escrow_records delegate input (candidate ∷ [])) [] ≡ some records
unfolding ◌===◌ ge has load_batch_row load_message_rows load_error_rows load_notification_rows
    validate_orphan_count remember_key remember_rows assert_snapshot_unique_keys load_batch
    stream_from prepare stream_escrow_records normalize_strict_string normalize_count
    parse_strict_utc_iso normalize_utc_millis safe_add normalize_candidate compare_candidates
    add_candidate normalize_from normalize_candidates normalize_prisma_date normalize_batch_row
    normalize_message_row normalize_error_row normalize_notification_row normalize_rows
    normalize_message_rows normalize_error_rows normalize_notification_rows
    parse_newsletter_retention_policy normalize_site_id clamp_positive_integer sort parse_policy_utc
streamed_records = refl

stream_records-AreRecords_example : AreRecords (of "site") 1 records
stream_records-AreRecords_example =
    stream_records-AreRecords delegate input policy (candidate ∷ []) records accepted
      streamed_records
