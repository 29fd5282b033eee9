-- ===== src/Escrow/Completeness/Records.antt =====
-- The accumulator of service/newsletter-retention-escrow.ts accepts all records of well-formed batches.
use mailgun_ses_proxy.Base.{◌≤◌, ◌≡◌, refl, ◌∙◌, List, [], ◌∷◌}
use mailgun_ses_proxy.Base.Number.{max_safe_integer}
use mailgun_ses_proxy.Base.Attempt.{Attempt, returned, ◌>>=◌}
use mailgun_ses_proxy.Escrow.Record.{
  Header, BatchRow, MessageRow, ErrorRow, NotificationRow, newsletter_message, newsletter_error,
  newsletter_notification, EscrowRecord,
}
use mailgun_ses_proxy.Escrow.Accumulator.{Limits, Rows}
use mailgun_ses_proxy.Escrow.Consume.{consume_row, consume_record}
use mailgun_ses_proxy.Escrow.Spec.{Manifest, records_of, view}
use mailgun_ses_proxy.Escrow.Step.{manifest}
use mailgun_ses_proxy.Escrow.Completeness.{go_on}
use mailgun_ses_proxy.Escrow.Completeness.Readable.{
  IsReadable, without_notification, without_error, without_message, without_batch,
}
use mailgun_ses_proxy.Escrow.Completeness.WithinBatch.{
  message_accepted, error_accepted, notification_accepted,
}
use mailgun_ses_proxy.Escrow.Completeness.Batches.{first_entered, later_entered, batch_accepted}

-- The records that come last in the file are first in the list.
abbrev pub consume_all : Limits → Header → List EscrowRecord → Attempt Rows
consume_all limits header [] = returned (view header [])
consume_all limits header (r ∷ records) =
    consume_all limits header records >>= λ rows. consume_record limits r rows

module _ (limits : Limits) (header : Header) (few_batches : limits.batches ≤ max_safe_integer)
    (few_messages : limits.messages ≤ max_safe_integer) where
  -- The state after the records of some batches is what those batches stand for.
  abbrev Accepts : List EscrowRecord → List Manifest → Type 0
  Accepts records ms = consume_all limits header records ≡ returned (view header ms)

  batch_read :
      (b : BatchRow) (ms : List Manifest)
      → IsReadable limits header.site_id (manifest b [] [] [] ∷ ms)
      → Accepts (records_of ms) ms
      → Accepts (records_of (manifest b [] [] [] ∷ ms)) (manifest b [] [] [] ∷ ms)
  batch_read b ms h before = go_on (consume_all limits header (records_of ms)) _ _ _ before (
      first_entered limits b header ms
      ∙ batch_accepted limits b header ms h.well_formed h.batches few_batches)

  messages_read :
      (b : BatchRow) (messages : List MessageRow) (ms : List Manifest)
      → IsReadable limits header.site_id (manifest b messages [] [] ∷ ms)
      → (IsReadable limits header.site_id ms → Accepts (records_of ms) ms)
      → Accepts (records_of (manifest b messages [] [] ∷ ms)) (manifest b messages [] [] ∷ ms)
  unfolding consume_row
  messages_read b [] ms h before =
      batch_read b ms h (before (without_batch limits header.site_id b ms h))
  messages_read b (row ∷ messages) ms h before =
      go_on (consume_all limits header (records_of (manifest b messages [] [] ∷ ms))) _ _ _
        (messages_read b messages ms (without_message limits header.site_id b row messages ms h)
          before)
        (later_entered limits (newsletter_message row) header (manifest b messages [] []) ms
          ∙ message_accepted limits row header b messages ms h.identified.0 h.well_formed h.messages
              few_messages)

  errors_read :
      (b : BatchRow) (messages : List MessageRow) (errors : List ErrorRow) (ms : List Manifest)
      → IsReadable limits header.site_id (manifest b messages errors [] ∷ ms)
      → (IsReadable limits header.site_id ms → Accepts (records_of ms) ms)
      → Accepts
          (records_of (manifest b messages errors [] ∷ ms))
          (manifest b messages errors [] ∷ ms)
  unfolding consume_row
  errors_read b messages [] ms h before = messages_read b messages ms h before
  errors_read b messages (row ∷ errors) ms h before =
      go_on (consume_all limits header (records_of (manifest b messages errors [] ∷ ms))) _ _ _
        (errors_read b messages errors ms
          (without_error limits header.site_id b messages row errors ms h) before)
        (later_entered limits (newsletter_error row) header (manifest b messages errors []) ms
          ∙ error_accepted row header b messages errors ms h.identified.0 h.well_formed h.errors)

  notifications_read :
      (b : BatchRow) (messages : List MessageRow) (errors : List ErrorRow)
      (notifications : List NotificationRow) (ms : List Manifest)
      → IsReadable limits header.site_id (manifest b messages errors notifications ∷ ms)
      → (IsReadable limits header.site_id ms → Accepts (records_of ms) ms)
      → Accepts
          (records_of (manifest b messages errors notifications ∷ ms))
          (manifest b messages errors notifications ∷ ms)
  unfolding consume_row
  notifications_read b messages errors [] ms h before = errors_read b messages errors ms h before
  notifications_read b messages errors (row ∷ notifications) ms h before =
      go_on (consume_all limits header (records_of (manifest b messages errors notifications ∷ ms)))
        _ _ _
        (notifications_read b messages errors notifications ms
          (without_notification limits header.site_id b messages errors row notifications ms h)
          before)
        (later_entered limits (newsletter_notification row) header
            (manifest b messages errors notifications) ms
          ∙ notification_accepted row header b messages errors notifications ms h.identified.0
              h.well_formed h.notifications)

  -- The accumulator accepts the records of batches that are well formed, have non-empty ids and keep
  -- the limits, where the limits are safe integers: it ends in the state that the batches stand for.
  pub records-accepted :
      (ms : List Manifest)
      → IsReadable limits header.site_id ms
      → consume_all limits header (records_of ms) ≡ returned (view header ms)
  records-accepted [] h = refl
  records-accepted (m ∷ ms) h =
      notifications_read m.batch m.messages m.errors m.notifications ms h (records-accepted ms)
