-- ===== src/Escrow/Step/Notifications.antt =====
-- A notification record that `consumeNotificationRecord` accepts is the last of the last batch.
use mailgun_ses_proxy.Base.{
  ℕ, suc, ◌≡◌, refl, ◌∙◌, true, false, not, Option, some, List, ◌∷◌, map, length, ltb, ◌==◌, arith,
}
use mailgun_ses_proxy.Base.Number.{max_safe_integer}
use mailgun_ses_proxy.Base.Attempt.{returned, through, through_test}
use mailgun_ses_proxy.Escrow.Text.{Text, has}
use mailgun_ses_proxy.Escrow.Record.{
  Header, BatchRow, MessageRow, ErrorRow, NotificationRow, newsletter_notification,
}
use mailgun_ses_proxy.Escrow.Accumulator
use mailgun_ses_proxy.Escrow.Accumulator.{
  message_kind, error_kind, notification_kind, set_kind, ByKind, phase_rank, Limits, Rows,
}
use mailgun_ses_proxy.Escrow.Consume.{
  add_safe_integer, assert_ascending_id, assert_unique_row_id, assert_unique, is_missing,
  is_not_after, consume_notification_record,
}
use mailgun_ses_proxy.Escrow.Spec.{
  IsWellFormed, latest, view, phase_of, notification_row_ids, notification_ids, Manifest,
}
use mailgun_ses_proxy.Escrow.Step.{
  add_safe_integer_lem, ascending_lem, unique_row_lem, unique_lem, Ascending-more, Step, manifest,
  same_parts,
}

-- The last assignments of the handler.
abbrev with_row :
    NotificationRow → ByKind (Option Text) → ByKind (List Text) → List Text → ℕ → Rows → Rows
with_row row last rows ids n s = record s {
  last_ids = last;
  seen_row_ids = rows;
  seen_notification_ids = ids;
  phase = Accumulator.notifications;
  counts = record s.counts { notifications = n };
}

module _ (h : Header) (b : BatchRow) (messages : List MessageRow) (errors : List ErrorRow)
    (notifications : List NotificationRow) (ms : List Manifest) where
  abbrev so_far : List Manifest
  so_far = manifest b messages errors notifications ∷ ms

  abbrev Accepted : NotificationRow → List Text → Type 0
  Accepted row current =
      (is_not_after (latest (map (λ r. r.id) notifications)) row.id ≡ false)
      × (has (notification_row_ids so_far) row.id ≡ false)
      × (has current row.notification_id ≡ false)
      × (has (map (λ r. r.message_id) messages) row.message_id ≡ true)

after_row :
    (row : NotificationRow) (h : Header) (b : BatchRow) (messages : List MessageRow)
    (errors : List ErrorRow) (notifications : List NotificationRow) (ms : List Manifest)
    → ltb 3 (phase_rank (phase_of errors notifications)) ≡ false
    → Accepted h b messages errors notifications ms row
        (notification_ids (so_far h b messages errors notifications ms))
    → IsWellFormed h.site_id (so_far h b messages errors notifications ms)
    → Step h
        (so_far h b messages errors notifications ms)
        (record { manifest_index = length ms; row = newsletter_notification row })
        (with_row row
          (set_kind notification_kind
            (some row.id)
            (view h (so_far h b messages errors notifications ms)).last_ids)
          (set_kind notification_kind
            (row.id ∷ notification_row_ids (so_far h b messages errors notifications ms))
            (view h (so_far h b messages errors notifications ms)).seen_row_ids)
          (row.notification_id ∷ notification_ids (so_far h b messages errors notifications ms))
          (suc (length (notification_row_ids (so_far h b messages errors notifications ms))))
          (view h (so_far h b messages errors notifications ms)))
after_row row h b messages errors notifications ms o a w = record {
  after = manifest b messages errors (row ∷ notifications) ∷ ms;
  state = refl;
  history = refl;
  well_formed = record {
    complete = (
      record {
        notifications_ascend =
            Ascending-more (map (λ r. r.id) notifications) row.id a.0
              w.complete.0.notifications_ascend;
        notifications_belong = (a.3, w.complete.0.notifications_belong);
        site = w.complete.0.site;
        messages_ascend = w.complete.0.messages_ascend;
        errors_ascend = w.complete.0.errors_ascend;
        messages_belong = w.complete.0.messages_belong;
        errors_belong = w.complete.0.errors_belong;
      },
      w.complete.1,
    );
    notification_rows = (a.1, w.notification_rows);
    notifications = (a.2, w.notifications);
    batches = w.batches;
    message_rows = w.message_rows;
    messages = w.messages;
    error_rows = w.error_rows;
    error_messages = w.error_messages;
  };
}

pub notification-Step :
    (row : NotificationRow) (h : Header) (b : BatchRow) (messages : List MessageRow)
    (errors : List ErrorRow) (notifications : List NotificationRow) (ms : List Manifest) (t : Rows)
    → consume_notification_record
        (length ms)
        row
        (view h (so_far h b messages errors notifications ms))
      ≡ returned t
    → IsWellFormed h.site_id (so_far h b messages errors notifications ms)
    → Step h
        (so_far h b messages errors notifications ms)
        (record { manifest_index = length ms; row = newsletter_notification row })
        t
unfolding consume_notification_record
notification-Step row h b messages errors notifications ms t e w =
    through_test (is_missing (some b.id)) _ _ t e λ exists e1.
      through_test (not (length ms == length ms)) _ _ t e1 λ current e2.
        through_test (ltb 3 (phase_rank (phase_of errors notifications))) _ _ t e2 λ order e3.
          through (assert_ascending_id notification_kind row.id s) _ t e3 λ last last_ok e4.
            through_test (not (has (map (λ r. r.message_id) messages) row.message_id)) _ _ t e4
              λ belongs e5.
                through (assert_unique_row_id notification_kind row.id s) _ t e5 λ rows rows_ok e6.
                  through
                    (assert_unique (notification_ids ns) row.notification_id
                      "notificationId must be unique")
                    _ t e6
                    λ ids ids_ok e7.
                      through
                        (add_safe_integer (length (notification_row_ids ns)) 1 max_safe_integer
                          "escrow count overflow")
                        _ t e7
                        λ n counted e8.
                          let (after, is_last) =
                            ascending_lem notification_kind row.id s last last_ok in
                          let (new_row, are_rows) =
                            unique_row_lem notification_kind row.id s rows rows_ok in
                          let (new_id, are_ids) =
                            unique_lem (notification_ids ns) row.notification_id _ ids ids_ok in
                          let count : n ≡ suc (length (notification_row_ids ns)) = omega (
                            arith,
                            add_safe_integer_lem (length (notification_row_ids ns)) 1
                                max_safe_integer _ n counted,
                          ) in
                          let found =
                            after_row row h b messages errors notifications ms order
                              (after, new_row, new_id, (ground (arith, belongs))) w in
                          let state : t ≡ with_row row last rows ids n s = cc in
                          record {
                            after = found.after;
                            state =
                                state
                                ∙ same_parts (λ l r i c. with_row row l r i c s) is_last are_rows
                                    are_ids count
                                ∙ found.state;
                            history = found.history;
                            well_formed = found.well_formed;
                          }
  where
    ns : List Manifest
    ns = so_far h b messages errors notifications ms

    s : Rows
    s = view h ns
