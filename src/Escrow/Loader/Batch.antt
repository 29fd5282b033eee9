-- ===== src/Escrow/Loader/Batch.antt =====
-- What a candidate that service/newsletter-retention-escrow-loader.ts has read adds to the batches.
use mailgun_ses_proxy.Base.{
  ◌+◌, ◌≡◌, sym, ◌∙◌, Bool, true, false, not, List, [], ◌∷◌, map, ltb, ◌==◌, All, arith,
  if◌then◌else◌,
}
use mathlib.Core.Path.{subst}
use mailgun_ses_proxy.Base.Attempt.{returned, throw_if, through, through_test, value_of_returned}
use mailgun_ses_proxy.Escrow.Text.{Text, ◌===◌, ===-eq, has}
use mailgun_ses_proxy.Escrow.Record.{BatchRow, MessageRow, ErrorRow, NotificationRow}
use mailgun_ses_proxy.Escrow.Spec.{Manifest, IsWellFormed, Ascending, batch_ids}
use mailgun_ses_proxy.Escrow.Loader.{
  Delegate, SnapshotUniqueKeys, Loaded, load_batch_row, load_message_rows, load_error_rows,
  load_notification_rows, validate_orphan_count, assert_snapshot_unique_keys, load_batch,
  zero_messages,
}
use mailgun_ses_proxy.Escrow.Loader.Candidates.{NormalizedCandidate, date_parse, is_not_earlier}
use mailgun_ses_proxy.Escrow.Loader.Rows.{normalize_batch_row}
use mailgun_ses_proxy.Escrow.Loader.Checks.{messages_checked, errors_checked, notifications_checked}
use mailgun_ses_proxy.Escrow.Loader.Snapshot.{seen_of, manifest_of, snapshot_lem}

-- The batch row is the candidate's.
batch_row_lem :
    (delegate : Delegate) (candidate : NormalizedCandidate) (cutoff : Text) (row : BatchRow)
    → load_batch_row delegate candidate cutoff ≡ returned row
    → (row.id ≡ candidate.batch_record_id) × (row.site_id ≡ candidate.site_id)
unfolding load_batch_row
batch_row_lem delegate candidate cutoff row e =
    through (delegate.find_batch candidate.batch_record_id candidate.site_id) _ row e
      λ found is_found e1. through (normalize_batch_row found) _ row e1 λ normalized normal e2.
        through_test (not (normalized.id === candidate.batch_record_id)) _ _ row e2 λ id e3.
          through_test (not (normalized.site_id === candidate.site_id)) _ _ row e3 λ site e4.
            through_test (not (normalized.batch_id === candidate.batch_id)) _ _ row e4 λ batch e5.
              through_test (not (normalized.created === candidate.created_at)) _ _ row e5
                λ created e6.
                  through_test (is_not_earlier (date_parse normalized.created) (date_parse cutoff))
                    _ _ row e6
                    λ early e7.
                      let same = value_of_returned normalized row e7 in
                      subst
                        (λ (r : BatchRow).
                          (r.id ≡ candidate.batch_record_id) × (r.site_id ≡ candidate.site_id))
                        same
                        (
                          ===-eq normalized.id candidate.batch_record_id (ground (arith, id)),
                          ===-eq normalized.site_id candidate.site_id (ground (arith, site)),
                        )

All-imp :
    {A : Type 0} (P Q : A → Type 0) (xs : List A) → ((x : A) → P x → Q x) → All P xs → All Q xs
All-imp P Q [] f a = tt
All-imp P Q (x ∷ xs) f a = (f x a.0, All-imp P Q xs f a.1)

-- The notifications of a batch, if it has messages; else none.
notifications_lem :
    (delegate : Delegate) (candidate : NormalizedCandidate) (messages : List MessageRow)
    (any : Bool) (read : List NotificationRow)
    → (if any then load_notification_rows delegate candidate messages else returned [])
      ≡ returned read
    → Ascending (map (λ r. r.id) read)
      × All (λ r. has (map (λ s. s.message_id) messages) r.message_id ≡ true) read
unfolding load_notification_rows
notifications_lem delegate candidate messages true read e =
    through
      (delegate.find_notifications candidate.batch_record_id (candidate.notification_count + 1)) _
      read e
      λ rows found e1.
        notifications_checked rows candidate.notification_count (map (λ r. r.message_id) messages)
          read e1
notifications_lem delegate candidate messages false read e =
    subst
      (λ (x : List NotificationRow).
        Ascending (map (λ r. r.id) x)
        × All (λ r. has (map (λ s. s.message_id) messages) r.message_id ≡ true) x)
      (value_of_returned [] read e) (tt, tt)

messages_lem :
    (delegate : Delegate) (candidate : NormalizedCandidate) (read : List MessageRow)
    → load_message_rows delegate candidate ≡ returned read
    → Ascending (map (λ r. r.id) read)
      × All (λ r. (r.newsletter_batch_id === candidate.batch_record_id) ≡ true) read
unfolding load_message_rows
messages_lem delegate candidate read e =
    through (delegate.find_messages candidate.batch_record_id (candidate.message_count + 1)) _ read
      e
      λ rows found e1.
        messages_checked rows candidate.message_count candidate.batch_record_id read e1

errors_lem :
    (delegate : Delegate) (candidate : NormalizedCandidate) (read : List ErrorRow)
    → load_error_rows delegate candidate ≡ returned read
    → Ascending (map (λ r. r.id) read)
      × All (λ r. (r.newsletter_batch_id === candidate.batch_record_id) ≡ true) read
unfolding load_error_rows
errors_lem delegate candidate read e =
    through (delegate.find_errors candidate.batch_record_id (candidate.error_count + 1)) _ read e
      λ rows found e1. errors_checked rows candidate.error_count candidate.batch_record_id read e1

-- A candidate that was read.
pub record IsLoaded (candidate : NormalizedCandidate) (ms : List Manifest) (loaded : Loaded)
    (after : SnapshotUniqueKeys) : Type 0 where
  pub keys : after ≡ seen_of (manifest_of loaded ∷ ms)
  pub id : loaded.batch.id ≡ candidate.batch_record_id
  pub well_formed :
      IsWellFormed candidate.site_id ms
      → has (batch_ids ms) candidate.batch_record_id ≡ false
      → IsWellFormed candidate.site_id (manifest_of loaded ∷ ms)

belongs :
    {A : Type 0} (batch_of : A → Text) (row_id id : Text) (rows : List A)
    → row_id ≡ id
    → All (λ r. (batch_of r === id) ≡ true) rows
    → All (λ r. batch_of r ≡ row_id) rows
belongs batch_of row_id id rows same all =
    All-imp _ _ rows (λ r b. ===-eq (batch_of r) id b ∙ sym same) all

-- What the calls for one candidate return is its batch.
calls-IsLoaded :
    (delegate : Delegate) (cutoff : Text) (candidate : NormalizedCandidate) (ms : List Manifest)
    (loaded : Loaded) (keys : SnapshotUniqueKeys) (any : Bool)
    → load_batch_row delegate candidate cutoff ≡ returned loaded.batch
    → load_message_rows delegate candidate ≡ returned loaded.messages
    → load_error_rows delegate candidate ≡ returned loaded.errors
    → (if any then load_notification_rows delegate candidate loaded.messages else returned [])
      ≡ returned loaded.notifications
    → assert_snapshot_unique_keys loaded (seen_of ms) ≡ returned keys
    → IsLoaded candidate ms loaded keys
calls-IsLoaded delegate cutoff candidate ms loaded keys any b m x n k =
    let (id, site) = batch_row_lem delegate candidate cutoff loaded.batch b in
    let (m_order, m_belong) = messages_lem delegate candidate loaded.messages m in
    let (x_order, x_belong) = errors_lem delegate candidate loaded.errors x in
    let (n_order, n_belong) =
      notifications_lem delegate candidate loaded.messages any loaded.notifications n in
    let snapshot = snapshot_lem loaded ms keys k in
    record {
      keys = snapshot.keys;
      id = id;
      well_formed = λ w new.
          snapshot.distinct candidate.site_id w
            (record {
              site = site;
              messages_ascend = m_order;
              errors_ascend = x_order;
              notifications_ascend = n_order;
              messages_belong = belongs _ _ _ loaded.messages id m_belong;
              errors_belong = belongs _ _ _ loaded.errors id x_belong;
              notifications_belong = n_belong;
            })
            (rw id new);
    }

pub batch-IsLoaded :
    (delegate : Delegate) (cutoff : Text) (candidate : NormalizedCandidate) (ms : List Manifest)
    (loaded : Loaded × SnapshotUniqueKeys)
    → load_batch delegate cutoff candidate (seen_of ms) ≡ returned loaded
    → IsLoaded candidate ms loaded.0 loaded.1
unfolding load_batch
batch-IsLoaded delegate cutoff candidate ms loaded e =
    through (load_batch_row delegate candidate cutoff) _ loaded e λ batch is_batch e1.
      through (load_message_rows delegate candidate) _ loaded e1 λ messages is_messages e2.
        through (load_error_rows delegate candidate) _ loaded e2 λ errors is_errors e3.
          through
            (if ltb 0 candidate.message_count
              then load_notification_rows delegate candidate messages
              else returned [])
            _ loaded e3
            λ notifications is_notifications e4.
              let all : Loaded = record {
                batch = batch;
                messages = messages;
                errors = errors;
                notifications = notifications;
              } in
              through (assert_snapshot_unique_keys all (seen_of ms)) _ loaded e4 λ keys is_keys e5.
                through
                  (if ltb 0 candidate.message_count
                    then validate_orphan_count delegate messages
                    else throw_if (not (candidate.notification_count == 0)) zero_messages)
                  _ loaded e5
                  λ u no_orphans e6.
                    subst (λ (x : Loaded × SnapshotUniqueKeys). IsLoaded candidate ms x.0 x.1)
                      (value_of_returned _ loaded e6)
                      (calls-IsLoaded delegate cutoff candidate ms all keys _ is_batch is_messages
                        is_errors is_notifications is_keys)
