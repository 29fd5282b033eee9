-- ===== src/Newsletter/Errors.antt =====
-- What becomes of SES errors in service/newsletter-service.ts: `createNewsletterErrorEntry` is called
-- with the campaign's email id, where the foreign key of prisma/schema.prisma wants the id of a row
-- of `NewsletterBatch`.
use mailgun_ses_proxy.Base.{
  ◌≡◌, refl, ◌∙◌, String, false, Option, none, some, List, [], ◌∷◌, some_of, str_eq, arith, ap,
}
use mailgun_ses_proxy.Database.{
  BatchRow, has_batch, create_newsletter_entry, create_newsletter_error_entry,
}
use mailgun_ses_proxy.Newsletter.{
  Weather, World, Campaign, Phase, checking, sending, recording, noting_error, fulfilled, rejected,
  SesReply, accepted, refused, System, Move, goes_on, redelivered, advance, advance_found,
  ses_result, step, run, task_at,
}

pub record SameTables (w w' : World) : Type 0 where
  pub same_batches : w'.db.batches ≡ w.db.batches
  pub same_errors : w'.db.errors ≡ w.db.errors

module _ (c : Campaign) (to_email : String) (weather : Weather) (w : World)
    (unknown : has_batch w.db c.email_batch_id ≡ false) where
  reply-SameTables : (reply : SesReply) → SameTables w (ses_result c to_email w reply).1
  reply-SameTables (accepted id) = record { same_batches = refl; same_errors = refl }
  reply-SameTables (refused error) = record { same_batches = refl; same_errors = refl }

  record-SameTables : (id : String) → SameTables w (advance c to_email weather (recording id) w).1
  unfolding advance create_newsletter_entry
  record-SameTables id = ground arith

  note-SameTables :
      (error : String) → SameTables w (advance c to_email weather (noting_error error) w).1
  unfolding advance create_newsletter_error_entry
  note-SameTables error = ground arith

  check-SameTables : SameTables w (advance c to_email weather checking w).1
  unfolding advance
  check-SameTables = ground arith

  advance-SameTables : (p : Phase) → SameTables w (advance c to_email weather p w).1
  unfolding advance
  advance-SameTables checking = check-SameTables
  advance-SameTables sending = reply-SameTables weather.ses
  advance-SameTables (recording id) = record-SameTables id
  advance-SameTables (noting_error error) = note-SameTables error
  advance-SameTables fulfilled = record { same_batches = refl; same_errors = refl }
  advance-SameTables (rejected error) = record { same_batches = refl; same_errors = refl }

step-SameTables :
    (c : Campaign) (s : System) (move : Move)
    → has_batch s.world.db c.email_batch_id ≡ false
    → SameTables s.world (step c s move).world
unfolding step
step-SameTables c s redelivered h = ground arith
step-SameTables c s (goes_on n weather) h = by_task (task_at n s.tasks)
  where
    by_task :
        (o : Option (String × Phase)) → SameTables s.world (advance_found c n weather s o).world
    by_task none = record { same_batches = refl; same_errors = refl }
    by_task (some (to_email, p)) = advance-SameTables c to_email weather s.world h p

-- No SES error is ever recorded, for any interleaving, any answers and any redeliveries, unless some
-- batch row's id happens to be the campaign's email id: the error table stays as it was.
pub errors_not_recorded :
    (c : Campaign) (s : System) (moves : List Move)
    → has_batch s.world.db c.email_batch_id ≡ false
    → (run c s moves).world.db.errors ≡ s.world.db.errors
unfolding run
errors_not_recorded c s [] h = refl
errors_not_recorded c s (move ∷ moves) h =
    let same = step-SameTables c s move h in
    errors_not_recorded c (step c s move) moves (
      ap (λ rows. some_of (λ (row : BatchRow). str_eq row.id c.email_batch_id) rows)
        same.same_batches
      ∙ h)
    ∙ same.same_errors
