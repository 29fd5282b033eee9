-- ===== src/Escrow/Step/Batches.antt =====
-- A batch record that `consumeBatchRecord` accepts starts a batch, and a record that `consumeRecord`
-- accepts adds to the batches.
use mailgun_ses_proxy.Base.{
  ℕ, suc, String, ◌≡◌, refl, ◌∙◌, true, false, not, Option, some, List, [], ◌∷◌, length, ltb, ◌==◌,
  ==→eq, arith, Bool-cases, inl, inr, sym,
}
use mailgun_ses_proxy.Base.Attempt.{
  value_of_returned, threw_not_returned, returned, ◌>>◌, ◌>>=◌, throw_if, through, through_test,
}
use mailgun_ses_proxy.Escrow.Text.{Text, has, ===-eq}
use mailgun_ses_proxy.Escrow.Record.{
  Header, BatchRow, EscrowRecord, ErrorRow, NotificationRow, Row, newsletter_batch,
  newsletter_message, newsletter_error, newsletter_notification,
}
use mailgun_ses_proxy.Escrow.Accumulator
use mailgun_ses_proxy.Escrow.Accumulator.{
  batch_kind, set_kind, get_kind, ByKind, phase_rank, Limits, Rows, no_ids,
}
use mailgun_ses_proxy.Escrow.Consume.{
  add_safe_integer, assert_ascending_id, assert_unique_row_id, is_site, is_batch, is_current,
  start_manifest, enter_manifest, consume_batch_record, consume_row, consume_record, sequential,
}
use mailgun_ses_proxy.Escrow.Spec.{IsWellFormed, view, phase_of, Manifest}
use mailgun_ses_proxy.Escrow.Step.{
  add_safe_integer_lem, ascending_lem, unique_row_lem, Step, manifest, same_parts,
}
use mailgun_ses_proxy.Escrow.Step.Messages.{message-Step}
use mailgun_ses_proxy.Escrow.Step.Errors.{error-Step}
use mailgun_ses_proxy.Escrow.Step.Notifications.{notification-Step}

-- The last assignments of the handler.
abbrev with_row : BatchRow → ByKind (Option Text) → ByKind (List Text) → ℕ → Rows → Rows
with_row row last rows n s = record s {
  last_ids = last;
  seen_row_ids = rows;
  current_batch_id = some row.id;
  phase = Accumulator.messages;
  counts = record s.counts { batches = n };
}

after_row :
    (row : BatchRow) (h : Header) (ms : List Manifest)
    → not (is_site (start_manifest (length ms) (view h ms)).header row.site_id) ≡ false
    → has (start_manifest (length ms) (view h ms)).seen_row_ids.batch row.id ≡ false
    → IsWellFormed h.site_id ms
    → Step h ms
        (record { manifest_index = length ms; row = newsletter_batch row })
        (with_row row
          (set_kind batch_kind (some row.id) (start_manifest (length ms) (view h ms)).last_ids)
          (set_kind batch_kind
            (row.id ∷ (start_manifest (length ms) (view h ms)).seen_row_ids.batch)
            (start_manifest (length ms) (view h ms)).seen_row_ids)
          (suc (start_manifest (length ms) (view h ms)).counts.batches)
          (start_manifest (length ms) (view h ms)))
unfolding start_manifest
after_row row h [] site new w = record {
  after = manifest row [] [] [] ∷ [];
  state = refl;
  history = refl;
  well_formed = record {
    complete = (
      record {
        site = ===-eq row.site_id h.site_id (ground (arith, site));
        messages_ascend = tt;
        errors_ascend = tt;
        notifications_ascend = tt;
        messages_belong = tt;
        errors_belong = tt;
        notifications_belong = tt;
      },
      tt,
    );
    batches = (new, tt);
    message_rows = tt;
    messages = tt;
    error_rows = tt;
    error_messages = tt;
    notification_rows = tt;
    notifications = tt;
  };
}
after_row row h (m ∷ ms) site new w = record {
  after = manifest row [] [] [] ∷ m ∷ ms;
  state = refl;
  history = refl;
  well_formed = record {
    complete = (
      record {
        site = ===-eq row.site_id h.site_id (ground (arith, site));
        messages_ascend = tt;
        errors_ascend = tt;
        notifications_ascend = tt;
        messages_belong = tt;
        errors_belong = tt;
        notifications_belong = tt;
      },
      w.complete,
    );
    batches = (new, w.batches);
    message_rows = w.message_rows;
    messages = w.messages;
    error_rows = w.error_rows;
    error_messages = w.error_messages;
    notification_rows = w.notification_rows;
    notifications = w.notifications;
  };
}

batch-Step :
    (limits : Limits) (row : BatchRow) (h : Header) (ms : List Manifest) (t : Rows)
    → consume_batch_record limits (length ms) row (start_manifest (length ms) (view h ms))
      ≡ returned t
    → IsWellFormed h.site_id ms
    → Step h ms (record { manifest_index = length ms; row = newsletter_batch row }) t
unfolding consume_batch_record
batch-Step limits row h ms t e w =
    through_test (not (phase_rank s.phase == 0)) _ _ t e λ in_phase e1.
      through_test (not (is_current s.manifest_index (length ms))) _ _ t e1 λ current e2.
        through_test (ltb 0 (phase_rank s.phase)) _ _ t e2 λ order e3.
          through (assert_ascending_id batch_kind row.id s) _ t e3 λ last last_ok e4.
            through (assert_unique_row_id batch_kind row.id s) _ t e4 λ rows rows_ok e5.
              through_test (not (is_site s.header row.site_id)) _ _ t e5 λ site e6.
                through (add_safe_integer s.counts.batches 1 limits.batches "batch limit exceeded")
                  _ t e6
                  λ n counted e7.
                    let (after, is_last) = ascending_lem batch_kind row.id s last last_ok in
                    let (new_row, are_rows) = unique_row_lem batch_kind row.id s rows rows_ok in
                    let count : n ≡ suc s.counts.batches =
                      omega (
                        arith,
                        add_safe_integer_lem s.counts.batches 1 limits.batches _ n counted,
                      ) in
                    let found = after_row row h ms site new_row w in
                    let state = sym (value_of_returned (with_row row last rows n s) t e7) in
                    record {
                      after = found.after;
                      state =
                          state
                          ∙ same_parts (λ l r (u : ℕ) c. with_row row l r c s) is_last are_rows
                              (refl {a = 0}) count
                          ∙ found.state;
                      history = found.history;
                      well_formed = found.well_formed;
                    }
  where
    s : Rows
    s = start_manifest (length ms) (view h ms)

not_parent :
    (errors : List ErrorRow) (notifications : List NotificationRow)
    → not (phase_rank (phase_of errors notifications) == 0) ≡ true
not_parent [] [] = refl
not_parent (x ∷ xs) [] = refl
not_parent errors (x ∷ xs) = refl

-- A second batch record in the same batch is not accepted.
no_second_batch {ι} :
    {P : Type ι} (limits : Limits) (index : ℕ) (row : BatchRow) (h : Header) (m : Manifest)
    (ms : List Manifest) (t : Rows)
    → consume_batch_record limits index row (view h (m ∷ ms)) ≡ returned t
    → P
unfolding consume_batch_record
no_second_batch {P} limits index row h m ms t e =
    through_test (not (phase_rank (phase_of m.errors m.notifications) == 0)) _ _ t e
      λ in_phase rest. absurd (wrong in_phase)
  where
    wrong : not (phase_rank (phase_of m.errors m.notifications) == 0) ≡ false → ⊥
    wrong e = let other = not_parent m.errors m.notifications in cc

same_batch-Step :
    (limits : Limits) (row : Row) (h : Header) (m : Manifest) (ms : List Manifest) (t : Rows)
    → consume_row limits (length ms) row (view h (m ∷ ms)) ≡ returned t
    → IsWellFormed h.site_id (m ∷ ms)
    → Step h (m ∷ ms) (record { manifest_index = length ms; row = row }) t
unfolding consume_row
same_batch-Step limits (newsletter_batch row) h m ms t e w =
    no_second_batch limits (length ms) row h m ms t e
same_batch-Step limits (newsletter_message row) h m ms t e w =
    message-Step limits row h m.batch m.messages m.errors m.notifications ms t e w
same_batch-Step limits (newsletter_error row) h m ms t e w =
    error-Step row h m.batch m.messages m.errors m.notifications ms t e w
same_batch-Step limits (newsletter_notification row) h m ms t e w =
    notification-Step row h m.batch m.messages m.errors m.notifications ms t e w

-- A record that starts a batch.
start-Step :
    (limits : Limits) (row : Row) (h : Header) (ms : List Manifest) (t : Rows) (message : String)
    → (throw_if (not (is_batch row)) message
        >> returned (start_manifest (length ms) (view h ms))
        >>= λ entered. consume_row limits (length ms) row entered)
      ≡ returned t
    → IsWellFormed h.site_id ms
    → Step h ms (record { manifest_index = length ms; row = row }) t
unfolding consume_row
start-Step limits (newsletter_batch row) h ms t message e w = batch-Step limits row h ms t e w
start-Step limits (newsletter_message row) h ms t message e w = absurd (threw_not_returned e)
start-Step limits (newsletter_error row) h ms t message e w = absurd (threw_not_returned e)
start-Step limits (newsletter_notification row) h ms t message e w = absurd (threw_not_returned e)

-- The test of a new index and of the index that is read.
entered-Step :
    (limits : Limits) (index : ℕ) (row : Row) (h : Header) (ms : List Manifest) (t : Rows)
    → (enter_manifest (record { manifest_index = index; row = row }) (view h ms) >>= λ entered.
        consume_row limits index row entered)
      ≡ returned t
    → IsWellFormed h.site_id ms
    → Step h ms (record { manifest_index = index; row = row }) t
unfolding enter_manifest start_manifest
entered-Step limits index row h [] t e w = elim (Bool-cases (index == 0)) [
  | inl first ↦ let p = ==→eq index 0 first in rw p (start-Step limits row h [] t _ (rw p at e) w)
  | inr other ↦ absurd (threw_not_returned (rw other at e))
]
entered-Step limits index row h (m ∷ ms) t e w = elim (Bool-cases (index == suc (length ms))) [
  | inl later ↦
      let p = ==→eq index (suc (length ms)) later in
      rw p (
        start-Step limits row h (m ∷ ms) t sequential (rw p at (rw (enter_manifest, later) at e)) w)
  | inr same ↦
      let e1 = rw (enter_manifest, same) at e in
      elim (Bool-cases (index == length ms)) [
        | inl current ↦
            let p = ==→eq index (length ms) current in
            rw p (same_batch-Step limits row h m ms t (rw p at (rw current at e1)) w)
        | inr other ↦ absurd (threw_not_returned (rw other at e1))
      ]
]

pub record-Step :
    (limits : Limits) (r : EscrowRecord) (h : Header) (ms : List Manifest) (t : Rows)
    → consume_record limits r (view h ms) ≡ returned t
    → IsWellFormed h.site_id ms
    → Step h ms r t
unfolding consume_record
record-Step limits r h [] t e w = entered-Step limits r.manifest_index r.row h [] t e w
record-Step limits r h (m ∷ ms) t e w = entered-Step limits r.manifest_index r.row h (m ∷ ms) t e w
