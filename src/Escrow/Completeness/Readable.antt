-- ===== src/Escrow/Completeness/Readable.antt =====
-- The batches that an escrow file can hold under limits, and what they are without their last record:
-- for the records that service/newsletter-retention-escrow.ts reads one by one.
use mailgun_ses_proxy.Base.{◌≤◌, ◌≡◌, false, some, List, [], ◌∷◌, length, All, arith}
use mailgun_ses_proxy.Base.Number.{max_safe_integer}
use mailgun_ses_proxy.Escrow.Text.{Text}
use mailgun_ses_proxy.Escrow.Record.{BatchRow, MessageRow, ErrorRow, NotificationRow}
use mailgun_ses_proxy.Escrow.Accumulator.{Limits}
use mailgun_ses_proxy.Escrow.Consume.{is_missing}
use mailgun_ses_proxy.Escrow.Spec.{
  Manifest, message_row_ids, error_row_ids, notification_row_ids, Ascending, IsWellFormed,
}
use mailgun_ses_proxy.Escrow.Step.{manifest}

-- Batches that an escrow file can hold under limits.
pub record IsReadable (limits : Limits) (site_id : Text) (ms : List Manifest) : Type 0 where
  pub well_formed : IsWellFormed site_id ms
  pub identified : All (λ m. is_missing (some m.batch.id) ≡ false) ms
  pub batches : length ms ≤ limits.batches
  pub messages : length (message_row_ids ms) ≤ limits.messages
  pub errors : length (error_row_ids ms) ≤ max_safe_integer
  pub notifications : length (notification_row_ids ms) ≤ max_safe_integer

Ascending-rest : (id : Text) (ids : List Text) → Ascending (id ∷ ids) → Ascending ids
Ascending-rest id [] h = tt
Ascending-rest id (x ∷ ids) h = h.1

module _ (limits : Limits) (site_id : Text) where
  pub without_notification :
      (b : BatchRow) (messages : List MessageRow) (errors : List ErrorRow) (row : NotificationRow)
      (notifications : List NotificationRow) (ms : List Manifest)
      → IsReadable limits site_id (manifest b messages errors (row ∷ notifications) ∷ ms)
      → IsReadable limits site_id (manifest b messages errors notifications ∷ ms)
  without_notification b messages errors row notifications ms h = record {
    well_formed = record {
      complete = (
        record {
          site = w.complete.0.site;
          messages_ascend = w.complete.0.messages_ascend;
          errors_ascend = w.complete.0.errors_ascend;
          notifications_ascend = Ascending-rest _ _ w.complete.0.notifications_ascend;
          messages_belong = w.complete.0.messages_belong;
          errors_belong = w.complete.0.errors_belong;
          notifications_belong = w.complete.0.notifications_belong.1;
        },
        w.complete.1,
      );
      batches = w.batches;
      message_rows = w.message_rows;
      messages = w.messages;
      error_rows = w.error_rows;
      error_messages = w.error_messages;
      notification_rows = w.notification_rows.1;
      notifications = w.notifications.1;
    };
    identified = h.identified;
    batches = h.batches;
    messages = h.messages;
    errors = h.errors;
    notifications = omega (arith, h.notifications);
  }
    where
      w : IsWellFormed site_id (manifest b messages errors (row ∷ notifications) ∷ ms)
      w = h.well_formed

  pub without_error :
      (b : BatchRow) (messages : List MessageRow) (row : ErrorRow) (errors : List ErrorRow)
      (ms : List Manifest)
      → IsReadable limits site_id (manifest b messages (row ∷ errors) [] ∷ ms)
      → IsReadable limits site_id (manifest b messages errors [] ∷ ms)
  without_error b messages row errors ms h = record {
    well_formed = record {
      complete = (
        record {
          site = w.complete.0.site;
          messages_ascend = w.complete.0.messages_ascend;
          errors_ascend = Ascending-rest _ _ w.complete.0.errors_ascend;
          notifications_ascend = tt;
          messages_belong = w.complete.0.messages_belong;
          errors_belong = w.complete.0.errors_belong.1;
          notifications_belong = tt;
        },
        w.complete.1,
      );
      batches = w.batches;
      message_rows = w.message_rows;
      messages = w.messages;
      error_rows = w.error_rows.1;
      error_messages = w.error_messages.1;
      notification_rows = w.notification_rows;
      notifications = w.notifications;
    };
    identified = h.identified;
    batches = h.batches;
    messages = h.messages;
    errors = omega (arith, h.errors);
    notifications = h.notifications;
  }
    where
      w : IsWellFormed site_id (manifest b messages (row ∷ errors) [] ∷ ms)
      w = h.well_formed

  pub without_message :
      (b : BatchRow) (row : MessageRow) (messages : List MessageRow) (ms : List Manifest)
      → IsReadable limits site_id (manifest b (row ∷ messages) [] [] ∷ ms)
      → IsReadable limits site_id (manifest b messages [] [] ∷ ms)
  without_message b row messages ms h = record {
    well_formed = record {
      complete = (
        record {
          site = w.complete.0.site;
          messages_ascend = Ascending-rest _ _ w.complete.0.messages_ascend;
          errors_ascend = tt;
          notifications_ascend = tt;
          messages_belong = w.complete.0.messages_belong.1;
          errors_belong = tt;
          notifications_belong = tt;
        },
        w.complete.1,
      );
      batches = w.batches;
      message_rows = w.message_rows.1;
      messages = w.messages.1;
      error_rows = w.error_rows;
      error_messages = w.error_messages;
      notification_rows = w.notification_rows;
      notifications = w.notifications;
    };
    identified = h.identified;
    batches = h.batches;
    messages = omega (arith, h.messages);
    errors = h.errors;
    notifications = h.notifications;
  }
    where
      w : IsWellFormed site_id (manifest b (row ∷ messages) [] [] ∷ ms)
      w = h.well_formed

  pub without_batch :
      (b : BatchRow) (ms : List Manifest)
      → IsReadable limits site_id (manifest b [] [] [] ∷ ms)
      → IsReadable limits site_id ms
  without_batch b ms h = record {
    well_formed = record {
      complete = w.complete.1;
      batches = w.batches.1;
      message_rows = w.message_rows;
      messages = w.messages;
      error_rows = w.error_rows;
      error_messages = w.error_messages;
      notification_rows = w.notification_rows;
      notifications = w.notifications;
    };
    identified = h.identified.1;
    batches = omega (arith, h.batches);
    messages = h.messages;
    errors = h.errors;
    notifications = h.notifications;
  }
    where
      w : IsWellFormed site_id (manifest b [] [] [] ∷ ms)
      w = h.well_formed
