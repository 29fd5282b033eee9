-- ===== src/Newsletter/Examples.antt =====
-- Runs of service/newsletter-service.ts.
use mailgun_ses_proxy.Base.{
  ◌+◌, ◌≤◌, ◌≡◌, refl, String, true, false, some, List, map, [], ◌∷◌, str_eq, if◌then◌else◌,
}
use mailgun_ses_proxy.Database.{
  Database, BatchRow, check_newsletter_already_sent, create_newsletter_entry,
  create_newsletter_error_entry,
}
use mailgun_ses_proxy.Newsletter.{
  batch_result, completed, Weather, Campaign, start_tasks, task_at, set_phase, accepted, refused,
  System, Move, goes_on, redelivered, run, step, QueueMessage, sends, add_newsletter_to_queue,
  validate_and_send,
}
use mailgun_ses_proxy.Newsletter.Sending.{accepted_mails, critical_lines, rows}
use mailgun_ses_proxy.Newsletter.Delivery.{accepted_at_most_once, acknowledged_sent}
use mailgun_ses_proxy.Newsletter.Batch.{validate-add}
use mailgun_ses_proxy.Newsletter.Errors.{errors_not_recorded}

abbrev issue : BatchRow
issue = record {
  id = "row-1";
  site_id = "site";
  batch_id = "email-9";
  contents = "{}";
  from_email = "news@site";
}

abbrev no_rows : Database
no_rows = record {
  batches = [];
  messages = [];
  errors = [];
  notifications = [];
  orphans = [];
  system_mails = [];
  system_notifications = [];
}

abbrev stored : Database
stored = record no_rows { batches = issue ∷ [] }

abbrev campaign : Campaign
campaign = record {
  newsletter_batch_id = "row-1";
  email_batch_id = "email-9";
  recipient_data = λ to_email. to_email;
  formated_contents = λ to_email. "";
  collation_key = λ text. if str_eq text "Ann@x" then "ann@x" else text;
}

abbrev start : System
start = record {
  tasks = start_tasks ("ann@x" ∷ "bob@y" ∷ []);
  world = record { db = stored; sent = []; critical = [] };
}

abbrev sunny : String → Weather
sunny id = record { ses = accepted id; db_up = true; error_id = "e" }

abbrev stormy : Weather
stormy = record { ses = refused "Throttling"; db_up = false; error_id = "e" }

-- Ann's mail is accepted and not recorded, Bob's is refused; the message comes again.
abbrev history : List Move
history =
    goes_on 0 (sunny "1")
    ∷ goes_on 1 (sunny "2")
    ∷ goes_on 0 (sunny "1")
    ∷ goes_on 1 stormy
    ∷ goes_on 0 stormy
    ∷ goes_on 1 (sunny "2")
    ∷ redelivered
    ∷ goes_on 0 (sunny "3")
    ∷ goes_on 0 (sunny "3")
    ∷ goes_on 0 (sunny "3")
    ∷ goes_on 1 (sunny "4")
    ∷ goes_on 1 (sunny "4")
    ∷ goes_on 1 (sunny "4")
    ∷ []

history_result :
    (accepted_mails campaign "ann@x" (run campaign start history).world ≡ 2)
    × (critical_lines campaign "ann@x" (run campaign start history).world ≡ 1)
    × (accepted_mails campaign "bob@y" (run campaign start history).world ≡ 1)
unfolding run step create_newsletter_entry create_newsletter_error_entry
    check_newsletter_already_sent
history_result = (refl, refl, refl)

accepted_at_most_once_example :
    (accepted_mails campaign "ann@x" (run campaign start history).world
      ≤ 1 + critical_lines campaign "ann@x" (run campaign start history).world)
    × (rows campaign "ann@x" (run campaign start history).world ≤ 1)
unfolding task_at
accepted_at_most_once_example =
    accepted_at_most_once campaign 0 "ann@x" start history refl
      (record { waiting = refl; alone = refl; no_row = refl; none_accepted = refl; no_line = refl })

acknowledged_sent_example :
    (rows campaign "ann@x" (run campaign start history).world ≡ 1)
    × (accepted_mails campaign "ann@x" (run campaign start history).world
        ≡ 1 + critical_lines campaign "ann@x" (run campaign start history).world)
unfolding task_at run step create_newsletter_entry create_newsletter_error_entry
    check_newsletter_already_sent batch_result
acknowledged_sent_example =
    acknowledged_sent campaign 0 "ann@x" start history refl
      (record { waiting = refl; alone = refl; no_row = refl; none_accepted = refl; no_line = refl })
      refl refl

-- An address listed twice: both tasks look for a row before either has stored one.
abbrev listed_twice : System
listed_twice = record start { tasks = start_tasks ("ann@x" ∷ "ann@x" ∷ []) }

abbrev in_parallel : List Move
in_parallel =
    goes_on 0 (sunny "1")
    ∷ goes_on 1 (sunny "2")
    ∷ goes_on 0 (sunny "1")
    ∷ goes_on 1 (sunny "2")
    ∷ goes_on 0 (sunny "1")
    ∷ goes_on 1 (sunny "2")
    ∷ []

sent_twice :
    (accepted_mails campaign "ann@x" (run campaign listed_twice in_parallel).world ≡ 2)
    × (critical_lines campaign "ann@x" (run campaign listed_twice in_parallel).world ≡ 0)
unfolding run step task_at set_phase create_newsletter_entry check_newsletter_already_sent
sent_twice = (refl, refl)

-- Two addresses that the collation equates, one after the other: the second gets no mail, and the
-- batch completes.
abbrev two_cases : System
two_cases = record start { tasks = start_tasks ("ann@x" ∷ "Ann@x" ∷ []) }

abbrev one_by_one : List Move
one_by_one =
    goes_on 0 (sunny "1")
    ∷ goes_on 0 (sunny "1")
    ∷ goes_on 0 (sunny "1")
    ∷ goes_on 1 (sunny "2")
    ∷ []

skipped_by_collation :
    (batch_result (run campaign two_cases one_by_one).tasks ≡ completed)
    × (map (λ mail. mail.to_email) (run campaign two_cases one_by_one).world.sent ≡ "ann@x" ∷ [])
unfolding run step task_at set_phase create_newsletter_entry check_newsletter_already_sent
    batch_result
skipped_by_collation = (refl, refl)

errors_not_recorded_example : (run campaign start history).world.db.errors ≡ []
errors_not_recorded_example = errors_not_recorded campaign start history refl

abbrev job : QueueMessage
job = record { body = some "row-1"; site_id = some "site"; from = some "news@site" }

validate-add_example : validate_and_send true job stored ≡ sends "site" "row-1" "{}"
unfolding add_newsletter_to_queue
validate-add_example =
    validate-add true true "row-1" "site" "email-9" "{}" "news@site" no_rows stored job refl refl
      refl refl refl
