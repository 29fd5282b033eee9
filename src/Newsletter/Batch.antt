-- ===== src/Newsletter/Batch.antt =====
-- From the queue to the mails of one batch: service/newsletter-service.ts.
use mailgun_ses_proxy.Base.{
  ℕ, ◌-◌, ◌≤◌, ◌≡◌, refl, String, Bool, true, false, ◌∷◌, str_eq, eq_refl, arith,
}
use mailgun_ses_proxy.Database.{
  Database, has_batch, has_message, create_newsletter_entry, check_newsletter_already_sent,
}
use mailgun_ses_proxy.Newsletter.{
  Weather, World, Campaign, Phase, checking, sending, recording, noting_error, fulfilled, rejected,
  SesReply, accepted, refused, mail_to, advance, ses_result, send_single_email, is_settled,
  message_row, QueueMessage, queued, add_newsletter_to_queue, sends, validate_and_send,
}

-- What is queued can be processed: once `addNewsletterToQueue` has queued a newsletter, with an id, a
-- site and a sender that are not empty, `validateAndSend` finds its contents under its site and id.
pub validate-add :
    (db_up sqs_up : Bool) (id site_id email_id contents from : String) (db db' : Database)
    (message : QueueMessage)
    → str_eq id "" ≡ false
    → str_eq site_id "" ≡ false
    → str_eq from "" ≡ false
    → str_eq contents "" ≡ false
    → add_newsletter_to_queue db_up sqs_up id site_id email_id contents from db ≡ queued db' message
    → validate_and_send true message db' ≡ sends site_id id contents
unfolding add_newsletter_to_queue validate_and_send
validate-add db_up sqs_up id site_id email_id contents from db db' message hid hs hf hc e =
    ground (arith, eq_refl id)

-- The awaits that a task has left at most.
abbrev pub awaits_left : Phase → ℕ
awaits_left checking = 3
awaits_left sending = 2
awaits_left (recording id) = 1
awaits_left (noting_error error) = 1
awaits_left fulfilled = 0
awaits_left (rejected error) = 0

module _ (c : Campaign) (to_email : String) (weather : Weather) (w : World) where
  reply-awaits_left : (reply : SesReply) → awaits_left (ses_result c to_email w reply).0 ≤ 1
  reply-awaits_left (accepted id) = omega arith
  reply-awaits_left (refused error) = omega arith

  advance-awaits_left :
      (p : Phase) → awaits_left (advance c to_email weather p w).0 ≤ awaits_left p - 1
  unfolding advance
  advance-awaits_left checking = ground arith
  advance-awaits_left sending = reply-awaits_left weather.ses
  advance-awaits_left (recording id) = ground arith
  advance-awaits_left (noting_error error) = omega arith
  advance-awaits_left fulfilled = omega arith
  advance-awaits_left (rejected error) = omega arith

settled_of_none_left : (p : Phase) → awaits_left p ≤ 0 → is_settled p ≡ true
settled_of_none_left checking h = absurd (omega arith)
settled_of_none_left sending h = absurd (omega arith)
settled_of_none_left (recording id) h = absurd (omega arith)
settled_of_none_left (noting_error error) h = absurd (omega arith)
settled_of_none_left fulfilled h = refl
settled_of_none_left (rejected error) h = refl

-- `sendSingleEmail` settles, whatever SES and the database answer.
pub send_single_email_settles :
    (c : Campaign) (to_email : String) (check ses store : Weather) (w : World)
    → is_settled (send_single_email c to_email check ses store w).0 ≡ true
unfolding send_single_email
send_single_email_settles c to_email check ses store w =
    let (p1, w1) = advance c to_email check checking w in
    let (p2, w2) = advance c to_email ses p1 w1 in
    settled_of_none_left (advance c to_email store p2 w2).0 (
      omega (
        arith,
        advance-awaits_left c to_email check w checking,
        advance-awaits_left c to_email ses w1 p1,
        advance-awaits_left c to_email store w2 p2,
      ))

-- With the servers up, a batch row that is there and a fresh message id, a recipient that was not
-- sent to is sent to and recorded; no error or CRITICAL line is left.
pub send_single_email_sends :
    (c : Campaign) (to_email message_id : String) (check ses store : Weather) (w : World)
    → check.db_up ≡ true
    → check_newsletter_already_sent c.collation_key c.newsletter_batch_id to_email w.db ≡ false
    → ses.ses ≡ accepted message_id
    → store.db_up ≡ true
    → has_batch w.db c.newsletter_batch_id ≡ true
    → has_message w.db message_id ≡ false
    → send_single_email c to_email check ses store w ≡ (
      fulfilled,
      record w {
        db = record w.db { messages = message_row c to_email message_id ∷ w.db.messages };
        sent = mail_to c to_email ∷ w.sent;
      },
    )
unfolding send_single_email create_newsletter_entry
send_single_email_sends c to_email message_id check ses store w up fresh reply up' batch unused =
    rw (first_step, reply) (rw (up', batch, unused) refl)
  where
    first_step : advance c to_email check checking w ≡ (sending, w)
    first_step = unfold advance in rw (up, fresh) (ground arith)

-- A recipient that has a row is not sent to again, and nothing changes.
pub send_single_email_skips :
    (c : Campaign) (to_email : String) (check ses store : Weather) (w : World)
    → str_eq to_email "" ≡ false
    → check.db_up ≡ true
    → check_newsletter_already_sent c.collation_key c.newsletter_batch_id to_email w.db ≡ true
    → send_single_email c to_email check ses store w ≡ (fulfilled, w)
unfolding send_single_email
send_single_email_skips c to_email check ses store w named up there = rw (named, up, there) refl
