-- ===== src/Events.antt =====
-- lib/core/event-processor.ts, the event half of lib/core/aws-utils.ts, and its two users,
-- service/events-service/index.ts and service/system-email-notification.ts. `JSON.parse` and the
-- reading of dates are arguments.
pub mod Capture
pub mod Reconcile
mod Examples
use mailgun_ses_proxy.Base.{
  ℕ, String, Bool, true, false, not, ◌&&◌, ◌||◌, Option, none, some, List, [], ◌∷◌, ltb, length,
  str_eq, if◌then◌else◌,
}
use mailgun_ses_proxy.Database.{
  Database, DbResult, done, failed, DbError, NotificationRow, has_message, has_system_mail,
  save_newsletter_notification, save_newsletter_notification_orphan, save_system_email_event,
  is_newsletter_notification_foreign_key_error,
}

-- The parts of the parsed JSON that the code reads; a field that is missing or of another type is
-- `none`, and `tags` counts the entries of each list.
pub record SesEvent : Type 0 where
  pub event_type : Option String
  pub mail_message_id : String
  pub mail_timestamp : Option String
  pub ghost_email_tags : Option ℕ
  pub transactional_email_tags : Option ℕ
  pub open_timestamp : Option String

-- An event, or an SNS notification that wraps a text.
pub data Envelope : Type 0 where
  bare : SesEvent → Envelope
  notification : (message : String) → Envelope

pub record NotificationEvent : Type 0 where
  pub notification_id : String
  pub type : String
  pub is_newsletter_email_event : Bool
  pub is_transactional_email_event : Bool
  pub message_id : String
  pub timestamp : ℕ
  pub raw : String

-- `awsToMailgunType`, in lower case as `parseNotificationEvent` gives it.
abbrev pub mailgun_type : Option String → String
mailgun_type none = "unknown"
mailgun_type (some t) =
    if str_eq t "Reject"
    then "rejected"
    else if str_eq t "Bounce"
    then "failed"
    else if str_eq t "Complaint"
    then "complained"
    else if str_eq t "Subscription"
    then "unsubscribed"
    else if str_eq t "Click"
    then "clicked"
    else if str_eq t "Open"
    then "opened"
    else if str_eq t "RenderingFailure"
    then "rejected"
    else if str_eq t "Delivery"
    then "delivered"
    else if str_eq t "Send"
    then "accepted"
    else "unknown"

abbrev pub has_tag : Option ℕ → Bool
has_tag none = false
has_tag (some n) = ltb 0 n

abbrev pub or_else : Option String → Option String → Option String
or_else (some a) b = if str_eq a "" then b else some a
or_else none b = b

abbrev get_time : Option ℕ → ℕ → ℕ
get_time none fallback = fallback
get_time (some t) fallback = t

-- `parse_date` is `new Date(text)`, with `none` for an invalid date.
abbrev pub normalize_event_timestamp : (String → Option ℕ) → Option String → ℕ → ℕ
normalize_event_timestamp parse_date none fallback = fallback
normalize_event_timestamp parse_date (some text) fallback =
    if str_eq text "" then fallback else get_time (parse_date text) fallback

-- What is outside the repository and its language's library at hand: the reader of JSON texts.
pub record Reader : Type 0 where
  pub parse_envelope : String → Option Envelope
  pub parse_event : String → Option SesEvent
  pub parse_date : String → Option ℕ

abbrev pub unwrap : Reader → Option Envelope → Option SesEvent
unwrap reader none = none
unwrap reader (some (bare event)) = some event
unwrap reader (some (notification message)) = reader.parse_event message

abbrev pub event_of : Reader → (message_id input_event : String) → ℕ → SesEvent → NotificationEvent
event_of reader message_id input_event now event = record {
  notification_id = message_id;
  type = mailgun_type event.event_type;
  is_newsletter_email_event = has_tag event.ghost_email_tags;
  is_transactional_email_event = has_tag event.transactional_email_tags;
  message_id = event.mail_message_id;
  timestamp =
      normalize_event_timestamp reader.parse_date
        (or_else event.open_timestamp event.mail_timestamp) now;
  raw = input_event;
}

abbrev map_event :
    Reader → (message_id input_event : String) → ℕ → Option SesEvent → Option NotificationEvent
map_event reader message_id input_event now none = none
map_event reader message_id input_event now (some event) =
    some (event_of reader message_id input_event now event)

-- `none` where the call throws.
unfoldable pub parse_notification_event :
    Reader → (message_id input_event : String) → ℕ → Option NotificationEvent
parse_notification_event reader message_id input_event now =
    map_event reader message_id input_event now (unwrap reader (reader.parse_envelope input_event))

abbrev pub row_of : NotificationEvent → NotificationRow
row_of event = record {
  message_id = event.message_id;
  raw_event = event.raw;
  type = event.type;
  notification_id = event.notification_id;
  timestamp = event.timestamp;
}

-- `EventProcessorConfig`; each call is given whether the server answers it.
pub record EventProcessorConfig : Type 0 where
  pub lookup_message : Database → String → Bool
  pub save_notification : Bool → NotificationRow → Database → DbResult Database
  pub persist_missing_parent_notification :
      Option (Bool → NotificationRow → Database → DbResult Database)
  pub is_missing_parent_save_error : Option (DbError → Bool)

pub data Failure : Type 0 where
  invalid_message : Failure
  unreadable_event : Failure
  tracked_event_message_missing : Failure
  database : DbError → Failure

-- A handler that resolves is acknowledged; one that throws leaves the message in the queue.
pub data Handled : Type 0 where
  resolves : Database → Handled
  throws : Failure → Database → Handled

-- What happens around the handler's awaits: whether the server answers each call, and what other
-- clients do to the tables between the lookup and the save.
pub record Surroundings : Type 0 where
  pub lookup_up : Bool
  pub save_up : Bool
  pub persist_up : Bool
  pub meanwhile : Database → Database

abbrev resolve_saved : Database → DbResult Database → Handled
resolve_saved db (done db') = resolves db'
resolve_saved db (failed e) = throws (database e) db

abbrev pub persist_missing_parent :
    Option (Bool → NotificationRow → Database → DbResult Database)
    → Bool
    → NotificationRow
    → Database
    → Handled
persist_missing_parent none up row db = throws tracked_event_message_missing db
persist_missing_parent (some persist) up row db = resolve_saved db (persist up row db)

abbrev is_missing_parent : EventProcessorConfig → DbError → Bool
is_missing_parent config e = elim config.persist_missing_parent_notification [
  | none ↦ false
  | some persist ↦ elim config.is_missing_parent_save_error [ none ↦ false | some test ↦ test e ]
]

abbrev pub finish_save :
    EventProcessorConfig → Surroundings → NotificationRow → Database → DbResult Database → Handled
finish_save config around row db (done db') = resolves db'
finish_save config around row db (failed e) =
    if is_missing_parent config e
    then persist_missing_parent config.persist_missing_parent_notification around.persist_up row db
    else throws (database e) db

-- A parsed event.
abbrev pub handle_event :
    EventProcessorConfig → Surroundings → NotificationEvent → Database → Handled
handle_event config around event db =
    if not event.is_newsletter_email_event && not event.is_transactional_email_event
    then resolves db
    else if not around.lookup_up
    then throws (database (record { code = none; field_name = none })) db
    else if not (config.lookup_message db event.message_id)
    then persist_missing_parent config.persist_missing_parent_notification around.persist_up
        (row_of event) (around.meanwhile db)
    else finish_save config around (row_of event) (around.meanwhile db)
        (config.save_notification around.save_up (row_of event) (around.meanwhile db))

abbrev handle_parsed :
    EventProcessorConfig → Surroundings → Option NotificationEvent → Database → Handled
handle_parsed config around none db = throws unreadable_event db
handle_parsed config around (some event) db = handle_event config around event db

pub record SqsMessage : Type 0 where
  pub body : Option String
  pub message_id : Option String

abbrev is_present : Option String → Bool
is_present none = false
is_present (some text) = not (str_eq text "")

abbrev pub is_complete : SqsMessage → Bool
is_complete message = is_present message.body && is_present message.message_id

abbrev pub text_of : Option String → String
text_of none = ""
text_of (some text) = text

unfoldable pub event_processor :
    EventProcessorConfig → Reader → ℕ → Surroundings → SqsMessage → Database → Handled
unfolding parse_notification_event
event_processor config reader now around message db =
    if not (is_complete message)
    then throws invalid_message db
    else handle_parsed config around
        (parse_notification_event reader (text_of message.message_id) (text_of message.body) now) db

abbrev pub newsletter_events : EventProcessorConfig
newsletter_events = record {
  lookup_message = has_message;
  save_notification = save_newsletter_notification;
  persist_missing_parent_notification = some save_newsletter_notification_orphan;
  is_missing_parent_save_error = some is_newsletter_notification_foreign_key_error;
}

abbrev pub system_events : EventProcessorConfig
system_events = record {
  lookup_message = has_system_mail;
  save_notification = save_system_email_event;
  persist_missing_parent_notification = none;
  is_missing_parent_save_error = none;
}
