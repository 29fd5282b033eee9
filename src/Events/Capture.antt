-- ===== src/Events/Capture.antt =====
-- No tracked event is lost, and none is counted twice: the handlers of lib/core/event-processor.ts.
use mailgun_ses_proxy.Base.{
  ◌≡◌, refl, sym, ◌∙◌, ◌⊎◌, inl, inr, ℕ, String, str_eq, Bool, true, false, ◌||◌, some, arith, ap,
  Bool-cases,
}
use mathlib.Core.Path.{subst}
use mailgun_ses_proxy.Base.Dict.{get, put, get-put_self, put_again}
use mailgun_ses_proxy.Database.{
  Database, DbResult, done, failed, NotificationRow, OrphanRow, has_message,
  save_newsletter_notification, save_newsletter_notification_orphan,
  is_newsletter_notification_foreign_key_error, orphan_of,
}
use mailgun_ses_proxy.Events.{
  Reader, SesEvent, SqsMessage, unwrap, or_else, text_of, has_tag, event_of, event_processor,
  parse_notification_event, is_complete, NotificationEvent, row_of, Surroundings, resolves, throws,
  Failure, handle_event, newsletter_events, finish_save, persist_missing_parent,
}

-- The event's row is in the notifications, or in the orphans for a later reconciliation.
abbrev pub Kept : NotificationRow → Database → Type 0
Kept row db =
    (get row.notification_id db.notifications ≡ some row)
    ⊎ ((orphan : OrphanRow) × (get row.notification_id db.orphans ≡ some orphan)
        × (orphan.notification ≡ row))

module _ (up : Bool) (row : NotificationRow) (db db' : Database) where
  save-Kept : save_newsletter_notification up row db ≡ done db' → Kept row db'
  unfolding save_newsletter_notification
  save-Kept e = inl (
      ap (λ (d : Database). get row.notification_id d.notifications) (sym saved)
      ∙ get-put_self row.notification_id row db.notifications)
    where
      saved : record db { notifications = put row.notification_id row db.notifications } ≡ db'
      saved = ground arith

  persist-Kept : save_newsletter_notification_orphan up row db ≡ done db' → Kept row db'
  unfolding save_newsletter_notification_orphan
  persist-Kept e = inr (
    orphan_of row (get row.notification_id db.orphans),
    ap (λ (d : Database). get row.notification_id d.orphans) (sym saved)
        ∙ get-put_self row.notification_id _ db.orphans,
    refl,
  )
    where
      saved :
          record db {
            orphans =
                put row.notification_id
                  (orphan_of row (get row.notification_id db.orphans))
                  db.orphans;
          }
          ≡ db'
      saved = ground arith

-- A handler's end, by what its last database call returned.
persist_end :
    (up : Bool) (row : NotificationRow) (db db' : Database)
    → persist_missing_parent (some save_newsletter_notification_orphan) up row db ≡ resolves db'
    → save_newsletter_notification_orphan up row db ≡ done db'
persist_end up row db db' e = ground (arith, e)

save_end :
    (around : Surroundings) (row : NotificationRow) (db db' : Database) (r : DbResult Database)
    → save_newsletter_notification around.save_up row db ≡ r
    → finish_save newsletter_events around row db r ≡ resolves db'
    → Kept row db'
save_end around row db db' (done saved) h e =
    save-Kept around.save_up row db db' (h ∙ ground (arith, e))
save_end around row db db' (failed error) h e =
    persist-Kept around.persist_up row db db'
      (persist_end around.persist_up row db db' (ground (arith, e)))

-- When the newsletter handler resolves, so that SQS forgets the message, a tracked event is kept: its
-- row is among the notifications or the orphans, under its notification id, whichever calls the
-- database answers and whatever others do to the tables between the lookup and the save.
pub tracked_event_stored :
    (around : Surroundings) (event : NotificationEvent) (db db' : Database)
    → (event.is_newsletter_email_event || event.is_transactional_email_event) ≡ true
    → handle_event newsletter_events around event db ≡ resolves db'
    → Kept (row_of event) db'
tracked_event_stored around event db db' tracked e = elim (Bool-cases around.lookup_up) [
  | inr down ↦ absurd (never down)
  | inl up ↦ elim (Bool-cases (has_message db event.message_id)) [
    | inl found ↦
        save_end around (row_of event) (around.meanwhile db) db' _ refl (found_end up found)
    | inr missing ↦ persist-Kept around.persist_up (row_of event) (around.meanwhile db) db' (
        persist_end around.persist_up (row_of event) (around.meanwhile db) db'
          (missing_end up missing))
  ]
]
  where
    never : around.lookup_up ≡ false → ⊥
    never down = ground (arith, e, tracked, down)

    found_end :
        around.lookup_up ≡ true
        → has_message db event.message_id ≡ true
        → finish_save newsletter_events around
            (row_of event)
            (around.meanwhile db)
            (save_newsletter_notification around.save_up (row_of event) (around.meanwhile db))
          ≡ resolves db'
    found_end up found = ground (arith, e, tracked, up, found)

    missing_end :
        around.lookup_up ≡ true
        → has_message db event.message_id ≡ false
        → persist_missing_parent
            (some save_newsletter_notification_orphan)
            around.persist_up
            (row_of event)
            (around.meanwhile db)
          ≡ resolves db'
    missing_end up missing = ground (arith, e, tracked, up, missing)

-- The server answers, and nobody else writes meanwhile.
abbrev pub calm : Surroundings
calm = record { lookup_up = true; save_up = true; persist_up = true; meanwhile = λ db. db }

abbrev pub with_notification : NotificationRow → Database → Database
with_notification row db = record db {
  notifications = put row.notification_id row db.notifications;
}

abbrev pub with_orphan : NotificationRow → Database → Database
with_orphan row db = record db {
  orphans = put row.notification_id (orphan_of row (get row.notification_id db.orphans)) db.orphans;
}

module _ (event : NotificationEvent)
    (tracked : (event.is_newsletter_email_event || event.is_transactional_email_event) ≡ true) where
  handle_found :
      (db : Database)
      → has_message db event.message_id ≡ true
      → handle_event newsletter_events calm event db
        ≡ resolves (with_notification (row_of event) db)
  unfolding save_newsletter_notification
  handle_found db found = ground (arith, tracked, found)

  pub handle_missing :
      (db : Database)
      → has_message db event.message_id ≡ false
      → handle_event newsletter_events calm event db ≡ resolves (with_orphan (row_of event) db)
  unfolding save_newsletter_notification_orphan
  handle_missing db missing = ground (arith, tracked, missing)

with_orphan_again :
    (row : NotificationRow) (db : Database)
    → with_orphan row (with_orphan row db) ≡ with_orphan row db
with_orphan_again row db =
    ap (λ m. record db { orphans = m })
      (rw
        (get-put_self row.notification_id (orphan_of row (get row.notification_id db.orphans))
          db.orphans)
        (put_again row.notification_id (orphan_of row (get row.notification_id db.orphans))
          db.orphans))

with_notification_again :
    (row : NotificationRow) (db : Database)
    → with_notification row (with_notification row db) ≡ with_notification row db
with_notification_again row db =
    ap (λ m. record db { notifications = m }) (put_again row.notification_id row db.notifications)

handle_again :
    (event : NotificationEvent) (db db' : Database)
    → (event.is_newsletter_email_event || event.is_transactional_email_event) ≡ true
    → handle_event newsletter_events calm event db ≡ resolves db'
    → handle_event newsletter_events calm event db' ≡ resolves db'
handle_again event db db' tracked e = elim (Bool-cases (has_message db event.message_id)) [
  | inl found ↦
      let after : with_notification (row_of event) db ≡ db' =
        resolved (sym (handle_found event tracked db found) ∙ e) in
      subst (λ d. handle_event newsletter_events calm event d ≡ resolves d) after
        (handle_found event tracked (with_notification (row_of event) db) found
          ∙ ap resolves (with_notification_again (row_of event) db))
  | inr missing ↦
      let after : with_orphan (row_of event) db ≡ db' =
        resolved (sym (handle_missing event tracked db missing) ∙ e) in
      subst (λ d. handle_event newsletter_events calm event d ≡ resolves d) after
        (handle_missing event tracked (with_orphan (row_of event) db) missing
          ∙ ap resolves (with_orphan_again (row_of event) db))
]
  where
    resolved : {a b : Database} → resolves a ≡ resolves b → a ≡ b
    resolved h = cc

-- A message whose SES event names a time that can be read, and is tracked.
pub record IsDated (reader : Reader) (message : SqsMessage) (event : SesEvent) : Type 0 where
  pub read : unwrap reader (reader.parse_envelope (text_of message.body)) ≡ some event
  pub text : String
  pub given : or_else event.open_timestamp event.mail_timestamp ≡ some text
  pub filled : str_eq text "" ≡ false
  pub time : ℕ
  pub valid : reader.parse_date text ≡ some time
  pub tracked : (has_tag event.ghost_email_tags || has_tag event.transactional_email_tags) ≡ true

module _ (reader : Reader) (message : SqsMessage) (event : SesEvent)
    (dated : IsDated reader message event) where
  -- Such an event is parsed alike whenever it is read.
  parsed_alike :
      (now later : ℕ)
      → parse_notification_event reader (text_of message.message_id) (text_of message.body) now
        ≡ parse_notification_event reader (text_of message.message_id) (text_of message.body) later
  unfolding parse_notification_event
  parsed_alike now later = rw (dated.read, dated.given, dated.filled, dated.valid) refl

  processor_alike :
      (now later : ℕ) (db : Database)
      → event_processor newsletter_events reader now calm message db
        ≡ event_processor newsletter_events reader later calm message db
  unfolding event_processor
  processor_alike now later db = rw (parsed_alike now later) refl

  -- A message with a tracked event whose own timestamp is valid, which was handled once while the
  -- server answers and nobody else writes, changes nothing when SQS delivers it again at a later time
  -- and the server answers, also where its parent was missing.
  pub redelivery_idempotent :
      (now later : ℕ) (db db' : Database)
      → event_processor newsletter_events reader now calm message db ≡ resolves db'
      → event_processor newsletter_events reader later calm message db' ≡ resolves db'
  unfolding event_processor parse_notification_event
  redelivery_idempotent now later db db' e = elim (Bool-cases (is_complete message)) [
    | inl complete ↦
        rw (complete, dated.read)
          (handle_again
            (event_of reader (text_of message.message_id) (text_of message.body) later event) db db'
            dated.tracked (handled complete))
    | inr lacking ↦ absurd (rejected lacking)
  ]
    where
      alike : event_processor newsletter_events reader later calm message db ≡ resolves db'
      alike = processor_alike later now db ∙ e

      handled :
          is_complete message ≡ true
          → handle_event newsletter_events calm
              (event_of reader (text_of message.message_id) (text_of message.body) later event)
              db
            ≡ resolves db'
      handled complete = sym (rw (complete, dated.read) refl) ∙ alike

      rejected : is_complete message ≡ false → ⊥
      rejected lacking = ground (arith, e, lacking)

-- A handler that throws has written nothing: the tables are as before, or as others left them
-- meanwhile.
pub throws_unchanged :
    (around : Surroundings) (event : NotificationEvent) (db db' : Database) (f : Failure)
    → handle_event newsletter_events around event db ≡ throws f db'
    → (db' ≡ db) ⊎ (db' ≡ around.meanwhile db)
unfolding save_newsletter_notification save_newsletter_notification_orphan
    is_newsletter_notification_foreign_key_error
throws_unchanged around event db db' f e = ground (arith, e)
