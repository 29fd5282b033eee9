-- ===== src/Escrow/Step/Errors.antt =====
-- An error record that `consumeErrorRecord` accepts is the last error of the last batch.
use mailgun_ses_proxy.Base.{
  ℕ, suc, ◌≡◌, refl, ◌∙◌, false, not, Option, some, List, [], ◌∷◌, map, length, ltb, ◌==◌, arith,
}
use mailgun_ses_proxy.Base.Number.{max_safe_integer}
use mailgun_ses_proxy.Base.Attempt.{returned, through, through_test}
use mailgun_ses_proxy.Escrow.Text.{Text, has}
use mailgun_ses_proxy.Escrow.Record.{
  Header, BatchRow, MessageRow, ErrorRow, NotificationRow, newsletter_error,
}
use mailgun_ses_proxy.Escrow.Accumulator
use mailgun_ses_proxy.Escrow.Accumulator.{
  message_kind, error_kind, notification_kind, set_kind, ByKind, phase_rank, Limits, Rows,
}
use mailgun_ses_proxy.Escrow.Consume.{
  add_safe_integer, assert_ascending_id, assert_unique_row_id, assert_unique, is_missing, is_id,
  is_not_after, consume_error_record,
}
use mailgun_ses_proxy.Escrow.Spec.{
  IsWellFormed, latest, view, phase_of, error_row_ids, error_message_ids, Manifest,
}
use mailgun_ses_proxy.Escrow.Step.{
  add_safe_integer_lem, ascending_lem, unique_row_lem, unique_lem, Ascending-more, belongs_lem,
  Step, manifest, same_parts,
}

-- The last assignments of the handler.
abbrev with_row : ErrorRow → ByKind (Option Text) → ByKind (List Text) → List Text → ℕ → Rows → Rows
with_row row last rows ids n s = record s {
  last_ids = last;
  seen_row_ids = rows;
  seen_error_message_ids = ids;
  phase = Accumulator.errors;
  counts = record s.counts { errors = n };
}

module _ (h : Header) (b : BatchRow) (messages : List MessageRow) (errors : List ErrorRow)
    (notifications : List NotificationRow) (ms : List Manifest) where
  abbrev so_far : List Manifest
  so_far = manifest b messages errors notifications ∷ ms

  abbrev Accepted : ErrorRow → List Text → Type 0
  Accepted row current =
      (is_not_after (latest (map (λ r. r.id) errors)) row.id ≡ false)
      × (has (error_row_ids so_far) row.id ≡ false)
      × (has current row.message_id ≡ false)
      × (row.newsletter_batch_id ≡ b.id)

after_row :
    (row : ErrorRow) (h : Header) (b : BatchRow) (messages : List MessageRow)
    (errors : List ErrorRow) (notifications : List NotificationRow) (ms : List Manifest)
    → ltb 2 (phase_rank (phase_of errors notifications)) ≡ false
    → Accepted h b messages errors notifications ms row
        (error_message_ids (so_far h b messages errors notifications ms))
    → IsWellFormed h.site_id (so_far h b messages errors notifications ms)
    → Step h
        (so_far h b messages errors notifications ms)
        (record { manifest_index = length ms; row = newsletter_error row })
        (with_row row
          (set_kind error_kind
            (some row.id)
            (view h (so_far h b messages errors notifications ms)).last_ids)
          (set_kind error_kind
            (row.id ∷ error_row_ids (so_far h b messages errors notifications ms))
            (view h (so_far h b messages errors notifications ms)).seen_row_ids)
          (row.message_id ∷ error_message_ids (so_far h b messages errors notifications ms))
          (suc (length (error_row_ids (so_far h b messages errors notifications ms))))
          (view h (so_far h b messages errors notifications ms)))
after_row row h b messages errors (x ∷ xs) ms o a w = absurd (wrong o)
  where
    wrong : ltb 2 3 ≡ false → ⊥
    wrong e = cc
after_row row h b messages errors [] ms o a w = record {
  after = manifest b messages (row ∷ errors) [] ∷ ms;
  state = refl;
  history = refl;
  well_formed = record {
    complete = (
      record {
        errors_ascend =
            Ascending-more (map (λ r. r.id) errors) row.id a.0 w.complete.0.errors_ascend;
        errors_belong = (a.3, w.complete.0.errors_belong);
        site = w.complete.0.site;
        messages_ascend = w.complete.0.messages_ascend;
        notifications_ascend = w.complete.0.notifications_ascend;
        messages_belong = w.complete.0.messages_belong;
        notifications_belong = w.complete.0.notifications_belong;
      },
      w.complete.1,
    );
    error_rows = (a.1, w.error_rows);
    error_messages = (a.2, w.error_messages);
    batches = w.batches;
    message_rows = w.message_rows;
    messages = w.messages;
    notification_rows = w.notification_rows;
    notifications = w.notifications;
  };
}

pub error-Step :
    (row : ErrorRow) (h : Header) (b : BatchRow) (messages : List MessageRow)
    (errors : List ErrorRow) (notifications : List NotificationRow) (ms : List Manifest) (t : Rows)
    → consume_error_record (length ms) row (view h (so_far h b messages errors notifications ms))
      ≡ returned t
    → IsWellFormed h.site_id (so_far h b messages errors notifications ms)
    → Step h
        (so_far h b messages errors notifications ms)
        (record { manifest_index = length ms; row = newsletter_error row })
        t
unfolding consume_error_record
error-Step row h b messages errors notifications ms t e w =
    through_test (is_missing (some b.id)) _ _ t e λ exists e1.
      through_test (not (length ms == length ms)) _ _ t e1 λ current e2.
        through_test (ltb 2 (phase_rank (phase_of errors notifications))) _ _ t e2 λ order e3.
          through (assert_ascending_id error_kind row.id s) _ t e3 λ last last_ok e4.
            through_test (not (is_id (some b.id) row.newsletter_batch_id)) _ _ t e4 λ belongs e5.
              through (assert_unique_row_id error_kind row.id s) _ t e5 λ rows rows_ok e6.
                through
                  (assert_unique (error_message_ids ns) row.message_id
                    "messageId must be unique within newsletterErrors")
                  _ t e6
                  λ ids ids_ok e7.
                    through
                      (add_safe_integer (length (error_row_ids ns)) 1 max_safe_integer
                        "escrow count overflow")
                      _ t e7
                      λ n counted e8.
                        let (after, is_last) = ascending_lem error_kind row.id s last last_ok in
                        let (new_row, are_rows) = unique_row_lem error_kind row.id s rows rows_ok in
                        let (new_id, are_ids) =
                          unique_lem (error_message_ids ns) row.message_id _ ids ids_ok in
                        let count : n ≡ suc (length (error_row_ids ns)) = omega (
                          arith,
                          add_safe_integer_lem (length (error_row_ids ns)) 1 max_safe_integer _ n
                              counted,
                        ) in
                        let found =
                          after_row row h b messages errors notifications ms order
                            (
                              after,
                              new_row,
                              new_id,
                              (belongs_lem b.id row.newsletter_batch_id belongs),
                            )
                            w in
                        let state : t ≡ with_row row last rows ids n s = cc in
                        record {
                          after = found.after;
                          state =
                              state
                              ∙ same_parts (λ l r i c. with_row row l r i c s) is_last are_rows
                                  are_ids count
                              ∙ found.state;
                          history = found.history;
                          well_formed = found.well_formed;
                        }
  where
    ns : List Manifest
    ns = so_far h b messages errors notifications ms

    s : Rows
    s = view h ns
