-- ===== src/Database.antt =====
-- service/database/db.ts over the tables of prisma/schema.prisma: one list of rows for each table.
-- Row ids, the clock and whether the server answers are arguments; the unique keys and the foreign
-- keys of the schema are checked on every write.
use mailgun_ses_proxy.Base.{
  ℕ, String, Bool, false, not, ◌&&◌, Option, none, some, List, [], ◌∷◌, some_of, str_eq,
  if◌then◌else◌,
}
use mailgun_ses_proxy.Base.Dict.{Dict, get, put}

pub record BatchRow : Type 0 where
  pub id : String
  pub site_id : String
  pub batch_id : String
  pub contents : String
  pub from_email : String

pub record MessageRow : Type 0 where
  pub newsletter_batch_id : String
  pub to_email : String
  pub message_id : String
  pub recipient_data : String
  pub formated_contents : String

pub record ErrorRow : Type 0 where
  pub error : String
  pub newsletter_batch_id : String
  pub message_id : String
  pub to_email : String
  pub recipient_data : String
  pub formated_contents : String

pub record NotificationRow : Type 0 where
  pub message_id : String
  pub raw_event : String
  pub type : String
  pub notification_id : String
  pub timestamp : ℕ

pub record OrphanRow : Type 0 where
  pub notification : NotificationRow
  pub reason : String
  pub reconciled_at : Option ℕ

-- The notification tables are keyed by the unique `notificationId`.
pub record Database : Type 0 where
  pub batches : List BatchRow
  pub messages : List MessageRow
  pub errors : List ErrorRow
  pub notifications : Dict NotificationRow
  pub orphans : Dict OrphanRow
  pub system_mails : List String
  pub system_notifications : Dict NotificationRow

-- `code` and `meta.field_name` of what Prisma throws.
pub record DbError : Type 0 where
  pub code : Option String
  pub field_name : Option String

pub data DbResult {ℓ} (A : Type ℓ) : Type ℓ where
  done : A → DbResult A
  failed : DbError → DbResult A

abbrev pub unavailable : DbError
unavailable = record { code = none; field_name = none }

abbrev pub foreign_key : String → DbError
foreign_key field = record { code = some "P2003"; field_name = some field }

abbrev pub duplicate : String → DbError
duplicate field = record { code = some "P2002"; field_name = some field }

abbrev pub has_batch : Database → String → Bool
has_batch db id = some_of (λ row. str_eq row.id id) db.batches

abbrev pub has_message : Database → String → Bool
has_message db message_id = some_of (λ row. str_eq row.message_id message_id) db.messages

abbrev pub has_system_mail : Database → String → Bool
has_system_mail db message_id = some_of (λ m. str_eq m message_id) db.system_mails

-- `batchId = message["v:email-id"] || "no-batch-id-provided"`
abbrev pub or_text : String → String → String
or_text text fallback = if str_eq text "" then fallback else text

unfoldable pub create_newsletter_batch_entry :
    Bool → (id site_id email_id contents from_email : String) → Database → DbResult Database
create_newsletter_batch_entry up id site_id email_id contents from_email db =
    if not up
    then failed unavailable
    else if has_batch db id
    then failed (duplicate "id")
    else done (record db {
      batches =
          record {
            id = id;
            site_id = site_id;
            batch_id = or_text email_id "no-batch-id-provided";
            contents = contents;
            from_email = from_email;
          }
          ∷ db.batches;
    })

unfoldable pub create_newsletter_entry : Bool → MessageRow → Database → DbResult Database
create_newsletter_entry up row db =
    if not up
    then failed unavailable
    else if not (has_batch db row.newsletter_batch_id)
    then failed (foreign_key "newsletterBatchId")
    else if has_message db row.message_id
    then failed (duplicate "messageId")
    else done (record db { messages = row ∷ db.messages })

unfoldable pub create_newsletter_error_entry : Bool → ErrorRow → Database → DbResult Database
create_newsletter_error_entry up row db =
    if not up
    then failed unavailable
    else if not (has_batch db row.newsletter_batch_id)
    then failed (foreign_key "newsletterBatchId")
    else if some_of (λ e. str_eq e.message_id row.message_id) db.errors
    then failed (duplicate "messageId")
    else done (record db { errors = row ∷ db.errors })

-- The columns have the collation utf8mb4_unicode_ci: to the server two texts are equal when their keys
-- are, as those of `Ana@x` and `ana@x`.
abbrev pub is_row_of : (String → String) → String → String → MessageRow → Bool
is_row_of key batch_id to_email row =
    str_eq (key row.newsletter_batch_id) (key batch_id) && str_eq (key row.to_email) (key to_email)

unfoldable pub check_newsletter_already_sent :
    (String → String) → (batch_id to_email : String) → Database → Bool
check_newsletter_already_sent key batch_id to_email db =
    some_of (is_row_of key batch_id to_email) db.messages

abbrev pub find_batch : String → List BatchRow → Option BatchRow
find_batch id [] = none
find_batch id (row ∷ rows) = if str_eq row.id id then some row else find_batch id rows

-- The stored text; `JSON.parse` of it is its reader's.
abbrev contents_of : Option BatchRow → Option String
contents_of none = none
contents_of (some row) = if str_eq row.contents "" then none else some row.contents

unfoldable pub get_newsletter_content : String → Database → Option String
get_newsletter_content id db = contents_of (find_batch id db.batches)

unfoldable pub save_newsletter_notification : Bool → NotificationRow → Database → DbResult Database
unfolding put
save_newsletter_notification up row db =
    if not up
    then failed unavailable
    else if not (has_message db row.message_id)
    then failed (foreign_key "messageId")
    else done (record db { notifications = put row.notification_id row db.notifications })

-- `create: data, update: data`: an update leaves `reconciledAt` alone.
abbrev reconciled_of : Option OrphanRow → Option ℕ
reconciled_of none = none
reconciled_of (some orphan) = orphan.reconciled_at

abbrev pub orphan_of : NotificationRow → Option OrphanRow → OrphanRow
orphan_of row old = record {
  notification = row;
  reason = "missing_parent";
  reconciled_at = reconciled_of old;
}

unfoldable pub save_newsletter_notification_orphan :
    Bool → NotificationRow → Database → DbResult Database
unfolding get put
save_newsletter_notification_orphan up row db =
    if not up
    then failed unavailable
    else done (record db {
      orphans =
          put row.notification_id (orphan_of row (get row.notification_id db.orphans)) db.orphans;
    })

unfoldable pub save_system_email_event : Bool → NotificationRow → Database → DbResult Database
unfolding put
save_system_email_event up row db =
    if not up
    then failed unavailable
    else if not (has_system_mail db row.message_id)
    then failed (foreign_key "messageId")
    else done
        (record db { system_notifications = put row.notification_id row db.system_notifications })

abbrev is_text : Option String → Bool
is_text none = false
is_text (some text) = not (str_eq text "")

abbrev is_code : Option String → String → Bool
is_code none code = false
is_code (some c) code = str_eq c code

unfoldable pub is_newsletter_notification_foreign_key_error : DbError → Bool
is_newsletter_notification_foreign_key_error e = is_code e.code "P2003" && is_text e.field_name

pub data Reconciliation : Type 0 where
  absent parent_missing reconciled already_reconciled : Reconciliation

-- The body of the transaction.
abbrev pub reconcile_found : ℕ → Database → Option OrphanRow → Reconciliation × Database
reconcile_found now db none = (absent, db)
reconcile_found now db (some orphan) = elim orphan.reconciled_at [
  | some at ↦ (already_reconciled, db)
  | none ↦
      if has_message db orphan.notification.message_id
      then (
        reconciled,
        record db {
          notifications =
              put orphan.notification.notification_id orphan.notification db.notifications;
          orphans =
              put orphan.notification.notification_id (record orphan { reconciled_at = some now })
                db.orphans;
        },
      )
      else (parent_missing, db)
]

unfoldable pub reconcile_newsletter_notification_orphan :
    String → ℕ → Database → Reconciliation × Database
unfolding get put
reconcile_newsletter_notification_orphan notification_id now db =
    reconcile_found now db (get notification_id db.orphans)
