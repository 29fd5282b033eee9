-- ===== src/Escrow/Completeness/WithinBatch.antt =====
-- The accumulator of service/newsletter-retention-escrow.ts accepts the next message, error or
-- notification of a well-formed batch.
use mailgun_ses_proxy.Base.{
  suc, ◌≤◌, ◌≡◌, refl, false, some, List, [], ◌∷◌, map, length, ltb, arith,
}
use mailgun_ses_proxy.Base.Number.{max_safe_integer}
use mailgun_ses_proxy.Base.Attempt.{returned}
use mailgun_ses_proxy.Escrow.Text.{===-refl}
use mailgun_ses_proxy.Escrow.Record.{Header, BatchRow, MessageRow, ErrorRow, NotificationRow}
use mailgun_ses_proxy.Escrow.Accumulator.{
  message_kind, error_kind, notification_kind, phase_rank, Limits, Rows,
}
use mailgun_ses_proxy.Escrow.Consume.{
  add_safe_integer, assert_ascending_id, assert_unique_row_id, assert_unique, is_missing,
  consume_message_record, consume_error_record, consume_notification_record,
}
use mailgun_ses_proxy.Escrow.Spec.{
  Manifest, message_row_ids, message_ids, error_row_ids, error_message_ids, notification_row_ids,
  notification_ids, IsWellFormed, phase_of, view,
}
use mailgun_ses_proxy.Escrow.Step.{manifest}
use mailgun_ses_proxy.Escrow.Completeness.{
  pass, go_on, added, ascends, unique_row, unique, same_index, latest_lem,
}

pub message_accepted :
    (limits : Limits) (row : MessageRow) (h : Header) (b : BatchRow) (messages : List MessageRow)
    (ms : List Manifest)
    → is_missing (some b.id) ≡ false
    → IsWellFormed h.site_id (manifest b (row ∷ messages) [] [] ∷ ms)
    → suc (length (message_row_ids (manifest b messages [] [] ∷ ms))) ≤ limits.messages
    → limits.messages ≤ max_safe_integer
    → consume_message_record limits (length ms) row (view h (manifest b messages [] [] ∷ ms))
      ≡ returned (view h (manifest b (row ∷ messages) [] [] ∷ ms))
unfolding consume_message_record
message_accepted limits row h b messages ms there w few safe = pass _ _ _ t there (
    pass _ _ _ t (same_index (length ms)) (
      go_on (assert_ascending_id message_kind row.id s) _ _ t
        (ascends message_kind row.id s
          (latest_lem row.id (map (λ r. r.id) messages) w.complete.0.messages_ascend))
        (pass _ _ _ t (rw w.complete.0.messages_belong.0 (ground (arith, ===-refl b.id))) (
          go_on (assert_unique_row_id message_kind row.id s) _ _ t
            (unique_row message_kind row.id s w.message_rows.0)
            (go_on (assert_unique (message_ids ns) row.message_id _) _ _ t
              (unique (message_ids ns) row.message_id _ w.messages.0)
              (go_on (add_safe_integer (length (message_row_ids ns)) 1 limits.messages _) _ _ t
                (added (length (message_row_ids ns)) limits.messages _ few safe) refl))))))
  where
    ns : List Manifest
    ns = manifest b messages [] [] ∷ ms

    s : Rows
    s = view h ns

    t : Rows
    t = view h (manifest b (row ∷ messages) [] [] ∷ ms)

error_order : (errors : List ErrorRow) → ltb 2 (phase_rank (phase_of errors [])) ≡ false
error_order [] = refl
error_order (x ∷ xs) = refl

pub error_accepted :
    (row : ErrorRow) (h : Header) (b : BatchRow) (messages : List MessageRow)
    (errors : List ErrorRow) (ms : List Manifest)
    → is_missing (some b.id) ≡ false
    → IsWellFormed h.site_id (manifest b messages (row ∷ errors) [] ∷ ms)
    → suc (length (error_row_ids (manifest b messages errors [] ∷ ms))) ≤ max_safe_integer
    → consume_error_record (length ms) row (view h (manifest b messages errors [] ∷ ms))
      ≡ returned (view h (manifest b messages (row ∷ errors) [] ∷ ms))
unfolding consume_error_record
error_accepted row h b messages errors ms there w few = pass _ _ _ t there (
    pass _ _ _ t (same_index (length ms)) (
      pass _ _ _ t (error_order errors) (
        go_on (assert_ascending_id error_kind row.id s) _ _ t
          (ascends error_kind row.id s
            (latest_lem row.id (map (λ r. r.id) errors) w.complete.0.errors_ascend))
          (pass _ _ _ t (rw w.complete.0.errors_belong.0 (ground (arith, ===-refl b.id))) (
            go_on (assert_unique_row_id error_kind row.id s) _ _ t
              (unique_row error_kind row.id s w.error_rows.0)
              (go_on (assert_unique (error_message_ids ns) row.message_id _) _ _ t
                (unique (error_message_ids ns) row.message_id _ w.error_messages.0)
                (go_on (add_safe_integer (length (error_row_ids ns)) 1 max_safe_integer _) _ _ t
                  (added (length (error_row_ids ns)) max_safe_integer _ few (omega arith))
                  refl)))))))
  where
    ns : List Manifest
    ns = manifest b messages errors [] ∷ ms

    s : Rows
    s = view h ns

    t : Rows
    t = view h (manifest b messages (row ∷ errors) [] ∷ ms)

notification_order :
    (errors : List ErrorRow) (notifications : List NotificationRow)
    → ltb 3 (phase_rank (phase_of errors notifications)) ≡ false
notification_order [] [] = refl
notification_order (x ∷ xs) [] = refl
notification_order errors (x ∷ xs) = refl

pub notification_accepted :
    (row : NotificationRow) (h : Header) (b : BatchRow) (messages : List MessageRow)
    (errors : List ErrorRow) (notifications : List NotificationRow) (ms : List Manifest)
    → is_missing (some b.id) ≡ false
    → IsWellFormed h.site_id (manifest b messages errors (row ∷ notifications) ∷ ms)
    → suc (length (notification_row_ids (manifest b messages errors notifications ∷ ms)))
      ≤ max_safe_integer
    → consume_notification_record
        (length ms)
        row
        (view h (manifest b messages errors notifications ∷ ms))
      ≡ returned (view h (manifest b messages errors (row ∷ notifications) ∷ ms))
unfolding consume_notification_record
notification_accepted row h b messages errors notifications ms there w few = pass _ _ _ t there (
    pass _ _ _ t (same_index (length ms)) (
      pass _ _ _ t (notification_order errors notifications) (
        go_on (assert_ascending_id notification_kind row.id s) _ _ t
          (ascends notification_kind row.id s
            (latest_lem row.id (map (λ r. r.id) notifications) w.complete.0.notifications_ascend))
          (pass _ _ _ t (ground (arith, w.complete.0.notifications_belong.0)) (
            go_on (assert_unique_row_id notification_kind row.id s) _ _ t
              (unique_row notification_kind row.id s w.notification_rows.0)
              (go_on (assert_unique (notification_ids ns) row.notification_id _) _ _ t
                (unique (notification_ids ns) row.notification_id _ w.notifications.0)
                (go_on (add_safe_integer (length (notification_row_ids ns)) 1 max_safe_integer _) _
                  _ t
                  (added (length (notification_row_ids ns)) max_safe_integer _ few (omega arith))
                  refl)))))))
  where
    ns : List Manifest
    ns = manifest b messages errors notifications ∷ ms

    s : Rows
    s = view h ns

    t : Rows
    t = view h (manifest b messages errors (row ∷ notifications) ∷ ms)
