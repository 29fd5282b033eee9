-- ===== src/Escrow/Step/Messages.antt =====
-- A message record that `consumeMessageRecord` accepts is the last message of the last batch.
use mailgun_ses_proxy.Base.{
  ℕ, suc, ◌≡◌, refl, ◌∙◌, false, not, Option, some, List, [], ◌∷◌, map, length, ltb, ◌==◌, arith,
}
use mailgun_ses_proxy.Base.Attempt.{returned, through, through_test}
use mailgun_ses_proxy.Escrow.Text.{Text, has}
use mailgun_ses_proxy.Escrow.Record.{
  Header, BatchRow, MessageRow, ErrorRow, NotificationRow, newsletter_message,
}
use mailgun_ses_proxy.Escrow.Accumulator
use mailgun_ses_proxy.Escrow.Accumulator.{
  message_kind, error_kind, notification_kind, set_kind, ByKind, phase_rank, Limits, Rows,
}
use mailgun_ses_proxy.Escrow.Consume.{
  add_safe_integer, assert_ascending_id, assert_unique_row_id, assert_unique, is_missing, is_id,
  is_not_after, consume_message_record,
}
use mailgun_ses_proxy.Escrow.Spec.{
  IsWellFormed, latest, view, phase_of, message_ids, message_row_ids, Manifest,
}
use mailgun_ses_proxy.Escrow.Step.{
  add_safe_integer_lem, ascending_lem, unique_row_lem, unique_lem, Ascending-more, belongs_lem,
  Step, manifest, same_parts,
}

-- The last assignments of the handler.
abbrev with_row :
    MessageRow → ByKind (Option Text) → ByKind (List Text) → List Text → ℕ → Rows → Rows
with_row row last rows ids n s = record s {
  last_ids = last;
  seen_row_ids = rows;
  seen_message_ids = ids;
  current_message_ids = row.message_id ∷ s.current_message_ids;
  phase = Accumulator.messages;
  counts = record s.counts { messages = n };
}

module _ (h : Header) (b : BatchRow) (messages : List MessageRow) (errors : List ErrorRow)
    (notifications : List NotificationRow) (ms : List Manifest) where
  abbrev so_far : List Manifest
  so_far = manifest b messages errors notifications ∷ ms

  abbrev Accepted : MessageRow → List Text → Type 0
  Accepted row current =
      (is_not_after (latest (map (λ r. r.id) messages)) row.id ≡ false)
      × (has (message_row_ids so_far) row.id ≡ false)
      × (has current row.message_id ≡ false)
      × (row.newsletter_batch_id ≡ b.id)

after_row :
    (row : MessageRow) (h : Header) (b : BatchRow) (messages : List MessageRow)
    (errors : List ErrorRow) (notifications : List NotificationRow) (ms : List Manifest)
    → ltb 1 (phase_rank (phase_of errors notifications)) ≡ false
    → Accepted h b messages errors notifications ms row
        (message_ids (so_far h b messages errors notifications ms))
    → IsWellFormed h.site_id (so_far h b messages errors notifications ms)
    → Step h
        (so_far h b messages errors notifications ms)
        (record { manifest_index = length ms; row = newsletter_message row })
        (with_row row
          (set_kind message_kind
            (some row.id)
            (view h (so_far h b messages errors notifications ms)).last_ids)
          (set_kind message_kind
            (row.id ∷ message_row_ids (so_far h b messages errors notifications ms))
            (view h (so_far h b messages errors notifications ms)).seen_row_ids)
          (row.message_id ∷ message_ids (so_far h b messages errors notifications ms))
          (suc (length (message_row_ids (so_far h b messages errors notifications ms))))
          (view h (so_far h b messages errors notifications ms)))
after_row row h b messages errors (x ∷ xs) ms o a w = absurd (wrong o)
  where
    wrong : ltb 1 3 ≡ false → ⊥
    wrong e = cc
after_row row h b messages (x ∷ xs) [] ms o a w = absurd (wrong o)
  where
    wrong : ltb 1 2 ≡ false → ⊥
    wrong e = cc
after_row row h b messages [] [] ms o a w = record {
  after = manifest b (row ∷ messages) [] [] ∷ ms;
  state = refl;
  history = refl;
  well_formed = record {
    complete = (
      record {
        messages_ascend =
            Ascending-more (map (λ r. r.id) messages) row.id a.0 w.complete.0.messages_ascend;
        messages_belong = (a.3, w.complete.0.messages_belong);
        notifications_belong = tt;
        site = w.complete.0.site;
        errors_ascend = w.complete.0.errors_ascend;
        notifications_ascend = w.complete.0.notifications_ascend;
        errors_belong = w.complete.0.errors_belong;
      },
      w.complete.1,
    );
    message_rows = (a.1, w.message_rows);
    messages = (a.2, w.messages);
    batches = w.batches;
    error_rows = w.error_rows;
    error_messages = w.error_messages;
    notification_rows = w.notification_rows;
    notifications = w.notifications;
  };
}

pub message-Step :
    (limits : Limits) (row : MessageRow) (h : Header) (b : BatchRow) (messages : List MessageRow)
    (errors : List ErrorRow) (notifications : List NotificationRow) (ms : List Manifest) (t : Rows)
    → consume_message_record limits
        (length ms)
        row
        (view h (so_far h b messages errors notifications ms))
      ≡ returned t
    → IsWellFormed h.site_id (so_far h b messages errors notifications ms)
    → Step h
        (so_far h b messages errors notifications ms)
        (record { manifest_index = length ms; row = newsletter_message row })
        t
unfolding consume_message_record
message-Step limits row h b messages errors notifications ms t e w =
    through_test (is_missing (some b.id)) _ _ t e λ exists e1.
      through_test (not (length ms == length ms)) _ _ t e1 λ current e2.
        through_test (ltb 1 (phase_rank (phase_of errors notifications))) _ _ t e2 λ order e3.
          through (assert_ascending_id message_kind row.id s) _ t e3 λ last last_ok e4.
            through_test (not (is_id (some b.id) row.newsletter_batch_id)) _ _ t e4 λ belongs e5.
              through (assert_unique_row_id message_kind row.id s) _ t e5 λ rows rows_ok e6.
                through
                  (assert_unique (message_ids ns) row.message_id
                    "messageId must be unique within newsletterMessages")
                  _ t e6
                  λ ids ids_ok e7.
                    through
                      (add_safe_integer (length (message_row_ids ns)) 1 limits.messages
                        "message limit exceeded")
                      _ t e7
                      λ n counted e8.
                        let (after, is_last) = ascending_lem message_kind row.id s last last_ok in
                        let (new_row, are_rows) =
                          unique_row_lem message_kind row.id s rows rows_ok in
                        let (new_id, are_ids) =
                          unique_lem (message_ids ns) row.message_id _ ids ids_ok in
                        let count : n ≡ suc (length (message_row_ids ns)) = omega (
                          arith,
                          add_safe_integer_lem (length (message_row_ids ns)) 1 limits.messages _ n
                              counted,
                        ) in
                        let found =
                          after_row row h b messages errors notifications ms order
                            (
                              after,
                              new_row,
                              new_id,
                              (belongs_lem b.id row.newsletter_batch_id belongs),
                            )
                            w in
                        let state : t ≡ with_row row last rows ids n s = cc in
                        record {
                          after = found.after;
                          state =
                              state
                              ∙ same_parts (λ l r i c. with_row row l r i c s) is_last are_rows
                                  are_ids count
                              ∙ found.state;
                          history = found.history;
                          well_formed = found.well_formed;
                        }
  where
    ns : List Manifest
    ns = so_far h b messages errors notifications ms

    s : Rows
    s = view h ns
