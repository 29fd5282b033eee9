-- ===== src/Events/Reconcile.antt =====
-- Orphaned events and their reconciliation: `reconcileNewsletterNotificationOrphan` of
-- service/database/db.ts, after lib/core/event-processor.ts has kept an event whose parent is missing.
use mailgun_ses_proxy.Base.{
  ℕ, ◌≡◌, refl, ◌∙◌, String, true, false, ◌||◌, none, some, ◌∷◌, if◌then◌else◌, eq_refl,
}
use mailgun_ses_proxy.Base.Dict.{get, put, get-put_self}
use mailgun_ses_proxy.Database.{
  Database, MessageRow, OrphanRow, has_message, parent_missing, reconciled, already_reconciled,
  reconcile_newsletter_notification_orphan, reconcile_found,
}
use mailgun_ses_proxy.Events.{NotificationEvent, row_of, resolves, handle_event, newsletter_events}
use mailgun_ses_proxy.Events.Capture.{calm, with_orphan, handle_missing}

abbrev moved : ℕ → OrphanRow → Database → Database
moved now orphan db = record db {
  notifications = put orphan.notification.notification_id orphan.notification db.notifications;
  orphans =
      put orphan.notification.notification_id (record orphan { reconciled_at = some now })
        db.orphans;
}

-- The answer of the transaction for an orphan that is there.
found_outcome :
    (id : String) (now : ℕ) (db : Database) (orphan : OrphanRow)
    → get id db.orphans ≡ some orphan
    → orphan.reconciled_at ≡ none
    → reconcile_newsletter_notification_orphan id now db ≡ (
        if has_message db orphan.notification.message_id
        then (reconciled, moved now orphan db)
        else (parent_missing, db))
unfolding reconcile_newsletter_notification_orphan
found_outcome id now db orphan found open_still = rw (found, reconcile_found) (rw open_still refl)

again_outcome :
    (id : String) (later now : ℕ) (db : Database) (orphan : OrphanRow)
    → get id db.orphans ≡ some orphan
    → orphan.reconciled_at ≡ some now
    → reconcile_newsletter_notification_orphan id later db ≡ (already_reconciled, db)
unfolding reconcile_newsletter_notification_orphan
again_outcome id later now db orphan found closed = rw (found, reconcile_found) (rw closed refl)

-- An orphan that is not reconciled, kept under its own notification id, whose parent is there, is
-- reconciled: the notification is stored as the orphan holds it, and a further call at any later time
-- reports it as already reconciled and changes nothing.
pub reconcile_once :
    (now later : ℕ) (db : Database) (orphan : OrphanRow)
    → get orphan.notification.notification_id db.orphans ≡ some orphan
    → orphan.reconciled_at ≡ none
    → has_message db orphan.notification.message_id ≡ true
    → (db' : Database) × (reconcile_newsletter_notification_orphan
          orphan.notification.notification_id now db
        ≡ (reconciled, db'))
      × (get orphan.notification.notification_id db'.notifications ≡ some orphan.notification)
      × (reconcile_newsletter_notification_orphan orphan.notification.notification_id later db'
          ≡ (already_reconciled, db'))
reconcile_once now later db orphan found open_still parent = (
  moved now orphan db,
  found_outcome orphan.notification.notification_id now db orphan found open_still ∙ rw parent refl,
  get-put_self orphan.notification.notification_id orphan.notification db.notifications,
  again_outcome orphan.notification.notification_id later now (moved now orphan db)
      (record orphan { reconciled_at = some now })
      (get-put_self orphan.notification.notification_id _ db.orphans) refl,
)

-- An event that arrives before its parent, and was not seen before, is not lost: it is kept as an
-- orphan, a reconciliation before the parent is recorded changes nothing, and one after the parent is
-- recorded stores the event's row among the notifications.
pub late_parent_reconciled :
    (event : NotificationEvent) (row : MessageRow) (now : ℕ) (db : Database)
    → (event.is_newsletter_email_event || event.is_transactional_email_event) ≡ true
    → has_message db event.message_id ≡ false
    → get event.notification_id db.orphans ≡ none
    → row.message_id ≡ event.message_id
    → (kept after : Database) × (handle_event newsletter_events calm event db ≡ resolves kept)
      × (reconcile_newsletter_notification_orphan event.notification_id now kept
          ≡ (parent_missing, kept))
      × (reconcile_newsletter_notification_orphan event.notification_id now
            (record kept { messages = row ∷ kept.messages })
          ≡ (reconciled, after))
      × (get event.notification_id after.notifications ≡ some (row_of event))
late_parent_reconciled event row now db tracked missing unseen parent = (
  kept,
  moved now orphan (record kept { messages = row ∷ kept.messages }),
  handle_missing event tracked db missing,
  found_outcome event.notification_id now kept orphan found refl ∙ rw missing refl,
  found_outcome event.notification_id now (record kept { messages = row ∷ kept.messages }) orphan
        found refl
      ∙ rw recorded refl,
  get-put_self event.notification_id (row_of event) db.notifications,
)
  where
    orphan : OrphanRow
    orphan = record { notification = row_of event; reason = "missing_parent"; reconciled_at = none }

    kept : Database
    kept = with_orphan (row_of event) db

    found : get event.notification_id kept.orphans ≡ some orphan
    found = rw unseen (get-put_self event.notification_id orphan db.orphans)

    recorded : has_message (record kept { messages = row ∷ kept.messages }) event.message_id ≡ true
    recorded = rw (parent, eq_refl event.message_id) refl
