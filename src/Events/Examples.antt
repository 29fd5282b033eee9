-- ===== src/Events/Examples.antt =====
-- Runs of lib/core/event-processor.ts and of the reconciliation.
use mailgun_ses_proxy.Base.{◌≡◌, refl, ◌⊎◌, true, false, none, some, [], ◌∷◌}
use mailgun_ses_proxy.Base.Dict.{get}
use mailgun_ses_proxy.Database.{
  Database, MessageRow, OrphanRow, reconciled, already_reconciled, parent_missing,
  reconcile_newsletter_notification_orphan, save_newsletter_notification,
  save_newsletter_notification_orphan, is_newsletter_notification_foreign_key_error,
}
use mailgun_ses_proxy.Events.{
  Reader, SesEvent, SqsMessage, event_of, notification, event_processor, NotificationEvent, row_of,
  Surroundings, resolves, database, handle_event, newsletter_events,
}
use mailgun_ses_proxy.Events.Capture.{
  Kept, calm, tracked_event_stored, redelivery_idempotent, throws_unchanged,
}
use mailgun_ses_proxy.Events.Reconcile.{reconcile_once, late_parent_reconciled}

abbrev opened : NotificationEvent
opened = record {
  notification_id = "sqs-1";
  type = "opened";
  is_newsletter_email_event = true;
  is_transactional_email_event = false;
  message_id = "ses-1";
  timestamp = 1000;
  raw = "{}";
}

abbrev parent : MessageRow
parent = record {
  newsletter_batch_id = "row-1";
  to_email = "ann@x";
  message_id = "ses-1";
  recipient_data = "";
  formated_contents = "";
}

abbrev no_rows : Database
no_rows = record {
  batches = [];
  messages = [];
  errors = [];
  notifications = [];
  orphans = [];
  system_mails = [];
  system_notifications = [];
}

-- The parent's row goes between the lookup and the save.
abbrev retention_runs : Surroundings
retention_runs = record calm { meanwhile = λ db. record db { messages = [] } }

abbrev with_parent : Database
with_parent = record no_rows { messages = parent ∷ [] }

abbrev kept : OrphanRow
kept = record { notification = row_of opened; reason = "missing_parent"; reconciled_at = none }

abbrev orphaned : Database
orphaned = record no_rows { orphans = ("sqs-1", kept) ∷ [] }

tracked_event_stored_example : Kept (row_of opened) orphaned
unfolding save_newsletter_notification save_newsletter_notification_orphan
    is_newsletter_notification_foreign_key_error
tracked_event_stored_example =
    tracked_event_stored retention_runs opened with_parent orphaned refl refl

abbrev down : Surroundings
down = record calm { save_up = false }

throws_unchanged_example : (with_parent ≡ with_parent) ⊎ (with_parent ≡ with_parent)
unfolding save_newsletter_notification is_newsletter_notification_foreign_key_error
throws_unchanged_example =
    throws_unchanged down opened with_parent with_parent
      (database (record { code = none; field_name = none })) refl

reconcile_once_example :
    (db' : Database) × (reconcile_newsletter_notification_orphan "sqs-1" 50
        (record orphaned { messages = parent ∷ [] })
      ≡ (reconciled, db'))
    × (get "sqs-1" db'.notifications ≡ some (row_of opened))
    × (reconcile_newsletter_notification_orphan "sqs-1" 60 db' ≡ (already_reconciled, db'))
unfolding get
reconcile_once_example =
    reconcile_once 50 60 (record orphaned { messages = parent ∷ [] }) kept refl refl refl

late_parent_reconciled_example :
    (kept after : Database) × (handle_event newsletter_events calm opened no_rows ≡ resolves kept)
    × (reconcile_newsletter_notification_orphan "sqs-1" 50 kept ≡ (parent_missing, kept))
    × (reconcile_newsletter_notification_orphan "sqs-1" 50
          (record kept { messages = parent ∷ kept.messages })
        ≡ (reconciled, after))
    × (get "sqs-1" after.notifications ≡ some (row_of opened))
unfolding get
late_parent_reconciled_example = late_parent_reconciled opened parent 50 no_rows refl refl refl refl

-- An SNS notification is unwrapped once, and the type is the Mailgun one.
abbrev reader : Reader
reader = record {
  parse_envelope = λ text. some (notification "inner");
  parse_event = λ text. some (record {
    event_type = some "Bounce";
    mail_message_id = "ses-1";
    mail_timestamp = none;
    ghost_email_tags = some 1;
    transactional_email_tags = none;
    open_timestamp = none;
  });
  parse_date = λ text. none;
}

wrapped_bounce :
    event_processor newsletter_events reader 7 calm
      (record { body = some "text"; message_id = some "sqs-2" })
      with_parent
    ≡ resolves (record with_parent {
      notifications =
          (
            "sqs-2",
            record {
              message_id = "ses-1";
              raw_event = "text";
              type = "failed";
              notification_id = "sqs-2";
              timestamp = 7;
            },
          )
          ∷ [];
    })
unfolding event_processor save_newsletter_notification
wrapped_bounce = refl

abbrev bounce : SesEvent
bounce = record {
  event_type = some "Bounce";
  mail_message_id = "ses-1";
  mail_timestamp = some "2026-01-01T00:00:00.000Z";
  ghost_email_tags = some 1;
  transactional_email_tags = none;
  open_timestamp = none;
}

abbrev clock_reader : Reader
clock_reader = record {
  parse_envelope = λ text. some (notification "inner");
  parse_event = λ text. some bounce;
  parse_date = λ text. some 1767225600000;
}

abbrev bounce_message : SqsMessage
bounce_message = record { body = some "text"; message_id = some "sqs-2" }

abbrev bounce_kept : OrphanRow
bounce_kept = record {
  notification = row_of (event_of clock_reader "sqs-2" "text" 7 bounce);
  reason = "missing_parent";
  reconciled_at = none;
}

abbrev bounce_orphaned : Database
bounce_orphaned = record no_rows { orphans = ("sqs-2", bounce_kept) ∷ [] }

redelivery_idempotent_example :
    event_processor newsletter_events clock_reader 9 calm bounce_message bounce_orphaned
    ≡ resolves bounce_orphaned
unfolding event_processor save_newsletter_notification_orphan
redelivery_idempotent_example =
    redelivery_idempotent clock_reader bounce_message bounce
      (record {
        read = refl;
        text = "2026-01-01T00:00:00.000Z";
        given = refl;
        filled = refl;
        time = 1767225600000;
        valid = refl;
        tracked = refl;
      })
      7 9 no_rows bounce_orphaned refl
