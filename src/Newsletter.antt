-- ===== src/Newsletter.antt =====
-- service/newsletter-service.ts: a newsletter goes into the database and the queue, and is sent from
-- there, one email to each recipient. SES, SQS and the database server are outside: what they do at
-- a step is the argument `weather`. `sent` is what SES accepted, `critical` the CRITICAL log lines.
pub mod Tasks
pub mod Sending
pub mod Delivery
pub mod Batch
pub mod Errors
mod Examples
use mailgun_ses_proxy.Base.{
  ℕ, zero, suc, ◌+◌, String, Bool, true, false, not, ◌&&◌, Option, none, some, List, [], ◌∷◌, ◌++◌,
  length, ltb, every, map, str_eq, if◌then◌else◌,
}
use mailgun_ses_proxy.Database.{
  Database, DbResult, done, failed, DbError, MessageRow, ErrorRow, create_newsletter_batch_entry,
  create_newsletter_entry, create_newsletter_error_entry, check_newsletter_already_sent,
  get_newsletter_content,
}

-- What SES answered: the id of an accepted message, or an error's text.
pub data SesReply : Type 0 where
  accepted : (message_id : String) → SesReply
  refused : (error : String) → SesReply

pub record Weather : Type 0 where
  pub ses : SesReply
  pub db_up : Bool
  pub error_id : String

pub record Mail : Type 0 where
  pub batch_id : String
  pub to_email : String

pub record World : Type 0 where
  pub db : Database
  pub sent : List Mail
  pub critical : List Mail

-- What `processBatch` passes to `sendSingleEmail` for each recipient, besides the prepared request,
-- and the collation of the columns that the look-up of a row compares, which is the server's.
pub record Campaign : Type 0 where
  pub newsletter_batch_id : String
  pub email_batch_id : String
  pub recipient_data : String → String
  pub formated_contents : String → String
  pub collation_key : String → String

-- Between two of these a task waits for SES or the database, and other tasks go on.
pub data Phase : Type 0 where
  checking : Phase
  sending : Phase
  recording : (message_id : String) → Phase
  noting_error : (error : String) → Phase
  fulfilled : Phase
  rejected : (error : String) → Phase

abbrev pub mail_to : Campaign → String → Mail
mail_to c to_email = record { batch_id = c.newsletter_batch_id; to_email = to_email }

abbrev pub message_row : Campaign → String → String → MessageRow
message_row c to_email message_id = record {
  newsletter_batch_id = c.newsletter_batch_id;
  to_email = to_email;
  message_id = message_id;
  recipient_data = c.recipient_data to_email;
  formated_contents = c.formated_contents to_email;
}

-- The call passes `emailBatchId` where the table's key is the batch row's id.
abbrev pub error_row : Campaign → String → String → String → ErrorRow
error_row c to_email error error_id = record {
  error = error;
  newsletter_batch_id = c.email_batch_id;
  message_id = error_id;
  to_email = to_email;
  recipient_data = c.recipient_data to_email;
  formated_contents = c.formated_contents to_email;
}

abbrev pub record_result : Campaign → String → World → DbResult Database → Phase × World
record_result c to_email w (done db) = (fulfilled, record w { db = db })
record_result c to_email w (failed e) =
    (rejected "database", record w { critical = mail_to c to_email ∷ w.critical })

-- A failure to note an error is only logged.
abbrev pub note_result : World → DbResult Database → World
note_result w (done db) = record w { db = db }
note_result w (failed e) = w

abbrev pub ses_result : Campaign → String → World → SesReply → Phase × World
ses_result c to_email w (accepted message_id) =
    (recording message_id, record w { sent = mail_to c to_email ∷ w.sent })
ses_result c to_email w (refused error) = (noting_error error, w)

-- One await of `sendSingleEmail`, for one recipient.
unfoldable pub advance : Campaign → String → Weather → Phase → World → Phase × World
advance c to_email weather checking w =
    if not (str_eq to_email "") && not weather.db_up
    then (rejected "database", w)
    else if not (str_eq to_email "")
        && check_newsletter_already_sent c.collation_key c.newsletter_batch_id to_email w.db
    then (fulfilled, w)
    else (sending, w)
advance c to_email weather sending w = ses_result c to_email w weather.ses
advance c to_email weather (recording message_id) w =
    record_result c to_email w
      (create_newsletter_entry weather.db_up (message_row c to_email message_id) w.db)
advance c to_email weather (noting_error error) w = (
  rejected error,
  note_result w (
      create_newsletter_error_entry weather.db_up (error_row c to_email error weather.error_id)
        w.db),
)
advance c to_email weather fulfilled w = (fulfilled, w)
advance c to_email weather (rejected error) w = (rejected error, w)

-- The whole of `sendSingleEmail`, with nothing in between; each await has its weather.
unfoldable pub send_single_email :
    Campaign → String → (check ses store : Weather) → World → Phase × World
unfolding advance
send_single_email c to_email check ses store w =
    let (p1, w1) = advance c to_email check checking w in
    let (p2, w2) = advance c to_email ses p1 w1 in advance c to_email store p2 w2

-- The task of each entry of the message's `to`, in its order; an address that is listed twice has two
-- tasks.
abbrev pub Tasks : Type 0
Tasks = List (String × Phase)

-- A batch in flight: the tasks, and the world that they share.
pub record System : Type 0 where
  pub tasks : Tasks
  pub world : World

abbrev pub is_settled : Phase → Bool
is_settled fulfilled = true
is_settled (rejected error) = true
is_settled _ = false

abbrev pub is_rejected : Phase → Bool
is_rejected (rejected error) = true
is_rejected _ = false

abbrev pub failed_count : Tasks → ℕ
failed_count [] = 0
failed_count ((to_email, p) ∷ tasks) =
    if is_rejected p then suc (failed_count tasks) else failed_count tasks

abbrev pub all_settled : Tasks → Bool
all_settled tasks = every (λ t. is_settled t.1) tasks

-- How `processBatch` ends once `waitUntilFinished` and the settlements are through: it returns, or
-- throws an error that names the two counts.
pub data BatchResult : Type 0 where
  completed : BatchResult
  emails_failed : (failures emails : ℕ) → BatchResult

unfoldable pub batch_result : Tasks → BatchResult
batch_result tasks =
    if ltb 0 (failed_count tasks)
    then emails_failed (failed_count tasks) (length tasks)
    else completed

-- What can happen: the event loop goes on with the task at a position, or, when all have settled and
-- some failed, SQS delivers the message again and `processBatch` starts anew.
pub data Move : Type 0 where
  goes_on : (position : ℕ) → Weather → Move
  redelivered : Move

-- `emails.map(...)`: one task for each entry of `to`, none left out.
abbrev pub start_tasks : List String → Tasks
start_tasks [] = []
start_tasks (to_email ∷ to) = (to_email, checking) ∷ start_tasks to

-- `to` of the stored contents, which every delivery reads again.
abbrev pub recipients : Tasks → List String
recipients tasks = map (λ t. t.0) tasks

unfoldable pub task_at : ℕ → Tasks → Option (String × Phase)
task_at n [] = none
task_at zero (task ∷ tasks) = some task
task_at (suc n) (task ∷ tasks) = task_at n tasks

unfoldable pub set_phase : ℕ → Phase → Tasks → Tasks
set_phase n p [] = []
set_phase zero p ((to_email, q) ∷ tasks) = (to_email, p) ∷ tasks
set_phase (suc n) p (task ∷ tasks) = task ∷ set_phase n p tasks

abbrev pub advance_found : Campaign → ℕ → Weather → System → Option (String × Phase) → System
advance_found c n weather s none = s
advance_found c n weather s (some (to_email, p)) =
    let (p', w') = advance c to_email weather p s.world in
    record { tasks = set_phase n p' s.tasks; world = w' }

unfoldable pub step : Campaign → System → Move → System
unfolding task_at set_phase advance
step c s (goes_on n weather) = advance_found c n weather s (task_at n s.tasks)
step c s redelivered =
    if all_settled s.tasks then record s { tasks = start_tasks (recipients s.tasks) } else s

unfoldable pub run : Campaign → System → List Move → System
run c s [] = s
run c s (move ∷ moves) = run c (step c s move) moves

-- The queue message that `addNewsletterToQueue` sends; an attribute that is missing is `none`.
pub record QueueMessage : Type 0 where
  pub body : Option String
  pub site_id : Option String
  pub from : Option String

pub data Intake : Type 0 where
  queued : Database → QueueMessage → Intake
  not_queued : Database → Intake

abbrev send_to_queue : Bool → (id site_id from : String) → DbResult Database → Database → Intake
send_to_queue sqs_up id site_id from (failed e) db = not_queued db
send_to_queue sqs_up id site_id from (done db') db =
    if sqs_up
    then queued db' (record { body = some id; site_id = some site_id; from = some from })
    else not_queued db'

-- A row is written before the message is sent, and stays when that fails.
unfoldable pub add_newsletter_to_queue :
    (db_up sqs_up : Bool) → (id site_id email_id contents from : String) → Database → Intake
unfolding create_newsletter_batch_entry
add_newsletter_to_queue db_up sqs_up id site_id email_id contents from db =
    send_to_queue sqs_up id site_id from
      (create_newsletter_batch_entry db_up id site_id email_id contents from db) db

-- What `validateAndSend` and the head of `processBatch` find.
pub data Validated : Type 0 where
  invalid_message : Validated
  batch_not_found : Validated
  database_failed : Validated
  sends : (site_id newsletter_batch_id contents : String) → Validated

abbrev is_given : Option String → Bool
is_given none = false
is_given (some text) = not (str_eq text "")

abbrev text_of : Option String → String
text_of none = ""
text_of (some text) = text

abbrev load_batch : (site_id id : String) → Option String → Validated
load_batch site_id id none = batch_not_found
load_batch site_id id (some contents) = sends site_id id contents

unfoldable pub validate_and_send : Bool → QueueMessage → Database → Validated
unfolding get_newsletter_content
validate_and_send db_up message db =
    if not (is_given message.body && is_given message.site_id && is_given message.from)
    then invalid_message
    else if not db_up
    then database_failed
    else load_batch (text_of message.site_id) (text_of message.body)
        (get_newsletter_content (text_of message.body) db)
