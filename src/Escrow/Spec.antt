-- ===== src/Escrow/Spec.antt =====
-- What the records of an escrow file stand for: batches, each with its messages, its errors and the
-- notifications of its messages. The lists have what comes last in the file first.
use mailgun_ses_proxy.Base.{
  ℕ, ◌≡◌, true, false, Option, none, some, List, [], ◌∷◌, ◌++◌, map, length, All,
}
use mailgun_ses_proxy.Escrow.Text.{Text, ge, has, Distinct}
use mailgun_ses_proxy.Escrow.Record.{
  Header, BatchRow, MessageRow, ErrorRow, NotificationRow, Row, newsletter_batch,
  newsletter_message, newsletter_error, newsletter_notification, EscrowRecord, Counts,
}
use mailgun_ses_proxy.Escrow.Accumulator.{
  Phase, parent, messages, errors, notifications, Rows, no_ids,
}

pub record Manifest : Type 0 where
  pub batch : BatchRow
  pub messages : List MessageRow
  pub errors : List ErrorRow
  pub notifications : List NotificationRow

module _ {A : Type 0} where
  abbrev pub at_index : ℕ → (A → Row) → List A → List EscrowRecord → List EscrowRecord
  at_index index kind [] rest = rest
  at_index index kind (a ∷ rows) rest =
      record { manifest_index = index; row = kind a } ∷ at_index index kind rows rest

-- The records of the batches: of each the batch, its messages, its errors, its notifications.
abbrev pub records_of : List Manifest → List EscrowRecord
records_of [] = []
records_of (m ∷ ms) = at_index (length ms) newsletter_notification m.notifications (
    at_index (length ms) newsletter_error m.errors (
      at_index (length ms) newsletter_message m.messages
        (at_index (length ms) newsletter_batch (m.batch ∷ []) (records_of ms))))

module _ {A : Type 0} (rows : Manifest → List A) (key : A → Text) where
  -- A key of every row of a kind, in all batches.
  abbrev pub keys_of : List Manifest → List Text
  keys_of [] = []
  keys_of (m ∷ ms) = map key (rows m) ++ keys_of ms

abbrev pub batch_ids : List Manifest → List Text
batch_ids = map (λ m. m.batch.id)

abbrev pub message_row_ids : List Manifest → List Text
message_row_ids = keys_of (λ m. m.messages) (λ r. r.id)

abbrev pub message_ids : List Manifest → List Text
message_ids = keys_of (λ m. m.messages) (λ r. r.message_id)

abbrev pub error_row_ids : List Manifest → List Text
error_row_ids = keys_of (λ m. m.errors) (λ r. r.id)

abbrev pub error_message_ids : List Manifest → List Text
error_message_ids = keys_of (λ m. m.errors) (λ r. r.message_id)

abbrev pub notification_row_ids : List Manifest → List Text
notification_row_ids = keys_of (λ m. m.notifications) (λ r. r.id)

abbrev pub notification_ids : List Manifest → List Text
notification_ids = keys_of (λ m. m.notifications) (λ r. r.notification_id)

abbrev pub counts_of : List Manifest → Counts
counts_of ms = record {
  batches = length ms;
  messages = length (message_row_ids ms);
  errors = length (error_row_ids ms);
  notifications = length (notification_row_ids ms);
}

-- Each id is greater than the one before it in the file.
abbrev pub Ascending : List Text → Type 0
Ascending [] = Unit
Ascending (id ∷ []) = Unit
Ascending (id ∷ previous ∷ ids) = (ge previous id ≡ false) × Ascending (previous ∷ ids)

pub record IsComplete (site_id : Text) (m : Manifest) : Type 0 where
  pub site : m.batch.site_id ≡ site_id
  pub messages_ascend : Ascending (map (λ r. r.id) m.messages)
  pub errors_ascend : Ascending (map (λ r. r.id) m.errors)
  pub notifications_ascend : Ascending (map (λ r. r.id) m.notifications)
  pub messages_belong : All (λ r. r.newsletter_batch_id ≡ m.batch.id) m.messages
  pub errors_belong : All (λ r. r.newsletter_batch_id ≡ m.batch.id) m.errors
  pub notifications_belong :
      All (λ r. has (map (λ s. s.message_id) m.messages) r.message_id ≡ true) m.notifications

pub record IsWellFormed (site_id : Text) (ms : List Manifest) : Type 0 where
  pub complete : All (IsComplete site_id) ms
  pub batches : Distinct (batch_ids ms)
  pub message_rows : Distinct (message_row_ids ms)
  pub messages : Distinct (message_ids ms)
  pub error_rows : Distinct (error_row_ids ms)
  pub error_messages : Distinct (error_message_ids ms)
  pub notification_rows : Distinct (notification_row_ids ms)
  pub notifications : Distinct (notification_ids ms)

-- The state of the accumulator after the records of some batches.
abbrev pub latest : List Text → Option Text
latest [] = none
latest (id ∷ ids) = some id

abbrev pub phase_of : List ErrorRow → List NotificationRow → Phase
phase_of errors_read (n ∷ ns) = notifications
phase_of (e ∷ es) [] = errors
phase_of [] [] = messages

abbrev pub view : Header → List Manifest → Rows
view header [] = record {
  header = some header;
  counts = counts_of [];
  manifest_index = none;
  phase = parent;
  last_ids = no_ids;
  seen_row_ids = record { batch = []; message = []; error = []; notification = [] };
  seen_message_ids = [];
  seen_error_message_ids = [];
  seen_notification_ids = [];
  current_batch_id = none;
  current_message_ids = [];
}
view header (m ∷ ms) = record {
  header = some header;
  counts = counts_of (m ∷ ms);
  manifest_index = some (length ms);
  phase = phase_of m.errors m.notifications;
  last_ids = record {
    batch = some m.batch.id;
    message = latest (map (λ r. r.id) m.messages);
    error = latest (map (λ r. r.id) m.errors);
    notification = latest (map (λ r. r.id) m.notifications);
  };
  seen_row_ids = record {
    batch = batch_ids (m ∷ ms);
    message = message_row_ids (m ∷ ms);
    error = error_row_ids (m ∷ ms);
    notification = notification_row_ids (m ∷ ms);
  };
  seen_message_ids = message_ids (m ∷ ms);
  seen_error_message_ids = error_message_ids (m ∷ ms);
  seen_notification_ids = notification_ids (m ∷ ms);
  current_batch_id = some m.batch.id;
  current_message_ids = map (λ r. r.message_id) m.messages;
}
