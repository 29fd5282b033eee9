-- ===== src/Escrow/Consume.antt =====
-- What a header and each kind of record do to the state of the accumulator in
-- service/newsletter-retention-escrow.ts.
use mailgun_ses_proxy.Base.{
  ℕ, suc, ◌+◌, String, Bool, true, false, not, ◌||◌, Option, none, some, List, [], ◌∷◌, ltb, leb,
  ◌==◌,
}
use Prim.Native.String.{◌++◌ as concat}
use mailgun_ses_proxy.Base.Number.{max_safe_integer}
use mailgun_ses_proxy.Base.Attempt.{Attempt, returned, threw, ◌>>=◌, ◌>>◌, throw_if}
use mailgun_ses_proxy.Escrow.Text.{Text, ◌===◌, ge, has}
use mailgun_ses_proxy.Escrow.Record.{
  Header, BatchRow, MessageRow, ErrorRow, NotificationRow, Row, newsletter_batch,
  newsletter_message, newsletter_error, newsletter_notification, EscrowRecord,
}
use mailgun_ses_proxy.Escrow.Accumulator.{
  Kind, batch_kind, message_kind, error_kind, notification_kind, kind_name, rank, set_kind,
  get_kind, ByKind, no_ids, parent, messages, errors, notifications, phase_rank, Limits, Rows,
}

-- For numbers that are not negative.
unfoldable pub add_safe_integer : (current increment limit : ℕ) → (message : String) → Attempt ℕ
add_safe_integer current increment limit message = do
  throw_if
      (not (leb current max_safe_integer)
        || not (leb increment max_safe_integer)
        || not (leb limit max_safe_integer))
      message
  throw_if
      (not (leb (current + increment) max_safe_integer) || not (leb (current + increment) limit))
      message
  returned (current + increment)

unfoldable pub consume_header : Header → Rows → Attempt Rows
consume_header header s = elim s.header [
  | some old ↦ threw "header must appear exactly once"
  | none ↦ returned (record s { header = some header; phase = parent })
]

abbrev pub sequential : String
sequential = "manifestIndex must be sequential starting at 0"

abbrev pub is_batch : Row → Bool
is_batch (newsletter_batch row) = true
is_batch _ = false

unfoldable pub start_manifest : ℕ → Rows → Rows
start_manifest index s = record s {
  manifest_index = some index;
  phase = parent;
  last_ids = no_ids;
  current_message_ids = [];
  current_batch_id = none;
}

unfoldable pub enter_manifest : EscrowRecord → Rows → Attempt Rows
unfolding start_manifest
enter_manifest r s = elim s.manifest_index [
  | none ↦ do
    throw_if (not (r.manifest_index == 0)) sequential
    throw_if (not (is_batch r.row)) "manifestIndex must contain a parent row first"
    returned (start_manifest r.manifest_index s)
  | some index ↦ elim (r.manifest_index == suc index) [
    | true ↦ do
      throw_if (not (is_batch r.row)) sequential
      returned (start_manifest r.manifest_index s)
    | false ↦ do throw_if (not (r.manifest_index == index)) sequential; returned s
  ]
]

abbrev pub is_current : Option ℕ → ℕ → Bool
is_current none index = false
is_current (some current) index = index == current

abbrev pub ensure_current_manifest_index : ℕ → Rows → Attempt (Unit {0})
ensure_current_manifest_index index s =
    throw_if (not (is_current s.manifest_index index)) sequential

-- `!id`: there is none, or it is ''.
abbrev pub is_missing : Option Text → Bool
is_missing none = true
is_missing (some []) = true
is_missing (some (c ∷ cs)) = false

abbrev pub ensure_batch_exists : Kind → Rows → Attempt (Unit {0})
ensure_batch_exists kind s =
    throw_if (is_missing s.current_batch_id) (concat (kind_name kind) " must follow a parent row")

abbrev pub assert_kind_order : Kind → Rows → Attempt (Unit {0})
assert_kind_order kind s =
    throw_if (ltb (rank kind) (phase_rank s.phase))
      "record order must be parent, messages, errors, notifications"

-- `previous !== undefined && previous >= id`.
abbrev pub is_not_after : Option Text → Text → Bool
is_not_after none id = false
is_not_after (some previous) id = ge previous id

-- The ids with the new one.
unfoldable pub assert_ascending_id : Kind → Text → Rows → Attempt (ByKind (Option Text))
assert_ascending_id kind id s = do
  throw_if (is_not_after (get_kind kind s.last_ids) id) "record ids must be sorted by kind"
  returned (set_kind kind (some id) s.last_ids)

unfoldable pub assert_unique_row_id : Kind → Text → Rows → Attempt (ByKind (List Text))
assert_unique_row_id kind id s = do
  throw_if (has (get_kind kind s.seen_row_ids) id) "row id must be unique within its model"
  returned (set_kind kind (id ∷ get_kind kind s.seen_row_ids) s.seen_row_ids)

-- `assertUniqueMessageId`, `assertUniqueErrorMessageId` and `assertUniqueNotificationId`.
unfoldable pub assert_unique : List Text → Text → (message : String) → Attempt (List Text)
assert_unique seen id message = do throw_if (has seen id) message; returned (id ∷ seen)

-- `text !== header?.siteId` and `id !== currentBatchId`.
abbrev pub is_site : Option Header → Text → Bool
is_site none t = false
is_site (some header) t = t === header.site_id

abbrev pub is_id : Option Text → Text → Bool
is_id none t = false
is_id (some id) t = t === id

unfoldable pub consume_batch_record : Limits → ℕ → BatchRow → Rows → Attempt Rows
unfolding assert_ascending_id assert_unique_row_id add_safe_integer
consume_batch_record limits index row s = do
  throw_if (not (phase_rank s.phase == 0)) "manifestIndex must contain a parent row first"
  ensure_current_manifest_index index s
  assert_kind_order batch_kind s
  last_ids ← assert_ascending_id batch_kind row.id s
  seen_row_ids ← assert_unique_row_id batch_kind row.id s
  throw_if (not (is_site s.header row.site_id)) "batch siteId must match escrow siteId"
  batches ← add_safe_integer s.counts.batches 1 limits.batches "batch limit exceeded"
  returned (record s {
    last_ids = last_ids;
    seen_row_ids = seen_row_ids;
    current_batch_id = some row.id;
    phase = messages;
    counts = record s.counts { batches = batches };
  })

unfoldable pub consume_message_record : Limits → ℕ → MessageRow → Rows → Attempt Rows
unfolding assert_ascending_id assert_unique_row_id assert_unique add_safe_integer
consume_message_record limits index row s = do
  ensure_batch_exists message_kind s
  ensure_current_manifest_index index s
  assert_kind_order message_kind s
  last_ids ← assert_ascending_id message_kind row.id s
  throw_if (not (is_id s.current_batch_id row.newsletter_batch_id))
      "newsletterBatchId must match the current parent row"
  seen_row_ids ← assert_unique_row_id message_kind row.id s
  seen_message_ids ←
      assert_unique s.seen_message_ids row.message_id
        "messageId must be unique within newsletterMessages"
  messages_seen ← add_safe_integer s.counts.messages 1 limits.messages "message limit exceeded"
  returned (record s {
    last_ids = last_ids;
    seen_row_ids = seen_row_ids;
    seen_message_ids = seen_message_ids;
    current_message_ids = row.message_id ∷ s.current_message_ids;
    phase = messages;
    counts = record s.counts { messages = messages_seen };
  })

unfoldable pub consume_error_record : ℕ → ErrorRow → Rows → Attempt Rows
unfolding assert_ascending_id assert_unique_row_id assert_unique add_safe_integer
consume_error_record index row s = do
  ensure_batch_exists error_kind s
  ensure_current_manifest_index index s
  assert_kind_order error_kind s
  last_ids ← assert_ascending_id error_kind row.id s
  throw_if (not (is_id s.current_batch_id row.newsletter_batch_id))
      "newsletterBatchId must match the current parent row"
  seen_row_ids ← assert_unique_row_id error_kind row.id s
  seen_error_message_ids ←
      assert_unique s.seen_error_message_ids row.message_id
        "messageId must be unique within newsletterErrors"
  errors_seen ← add_safe_integer s.counts.errors 1 max_safe_integer "escrow count overflow"
  returned (record s {
    last_ids = last_ids;
    seen_row_ids = seen_row_ids;
    seen_error_message_ids = seen_error_message_ids;
    phase = errors;
    counts = record s.counts { errors = errors_seen };
  })

unfoldable pub consume_notification_record : ℕ → NotificationRow → Rows → Attempt Rows
unfolding assert_ascending_id assert_unique_row_id assert_unique add_safe_integer
consume_notification_record index row s = do
  ensure_batch_exists notification_kind s
  ensure_current_manifest_index index s
  assert_kind_order notification_kind s
  last_ids ← assert_ascending_id notification_kind row.id s
  throw_if (not (has s.current_message_ids row.message_id))
      "notification.messageId must reference a message row"
  seen_row_ids ← assert_unique_row_id notification_kind row.id s
  seen_notification_ids ←
      assert_unique s.seen_notification_ids row.notification_id "notificationId must be unique"
  notifications_seen ←
      add_safe_integer s.counts.notifications 1 max_safe_integer "escrow count overflow"
  returned (record s {
    last_ids = last_ids;
    seen_row_ids = seen_row_ids;
    seen_notification_ids = seen_notification_ids;
    phase = notifications;
    counts = record s.counts { notifications = notifications_seen };
  })

unfoldable pub consume_row : Limits → ℕ → Row → Rows → Attempt Rows
consume_row limits index (newsletter_batch row) s = consume_batch_record limits index row s
consume_row limits index (newsletter_message row) s = consume_message_record limits index row s
consume_row limits index (newsletter_error row) s = consume_error_record index row s
consume_row limits index (newsletter_notification row) s = consume_notification_record index row s

abbrev pub is_none : {A : Type 0} → Option A → Bool
is_none none = true
is_none (some a) = false

unfoldable pub consume_record : Limits → EscrowRecord → Rows → Attempt Rows
unfolding enter_manifest consume_row
consume_record limits r s = do
  throw_if (is_none s.header) "header must appear before records"
  entered ← enter_manifest r s
  consume_row limits r.manifest_index r.row entered
