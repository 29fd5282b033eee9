-- ===== src/Escrow/Loader/Snapshot.antt =====
-- The keys that `assertSnapshotUniqueKeys` of service/newsletter-retention-escrow-loader.ts keeps.
use mailgun_ses_proxy.Base.{String, ◌≡◌, sym, ap, ◌∙◌, false, List, ◌∷◌}
use mathlib.Core.Path.{subst}
use mailgun_ses_proxy.Base.Attempt.{returned, through, value_of_returned}
use mailgun_ses_proxy.Escrow.Text.{Text, has, Distinct}
use mailgun_ses_proxy.Escrow.Spec.{
  Manifest, IsComplete, IsWellFormed, batch_ids, message_row_ids, message_ids, error_row_ids,
  error_message_ids, notification_row_ids, notification_ids,
}
use mailgun_ses_proxy.Escrow.Step.{same_parts}
use mailgun_ses_proxy.Escrow.Loader.{
  SnapshotUniqueKeys, Loaded, assert_snapshot_unique_keys, remember_rows, Seen,
}
use mailgun_ses_proxy.Escrow.Loader.Checks.{AreRemembered, rows-AreRemembered}

-- The keys of batches, as the loader keeps them.
abbrev pub seen_of : List Manifest → SnapshotUniqueKeys
seen_of ms = record {
  message_ids = message_ids ms;
  message_row_ids = message_row_ids ms;
  error_message_ids = error_message_ids ms;
  error_row_ids = error_row_ids ms;
  notification_ids = notification_ids ms;
  notification_row_ids = notification_row_ids ms;
}

abbrev pub manifest_of : Loaded → Manifest
manifest_of loaded = record {
  batch = loaded.batch;
  messages = loaded.messages;
  errors = loaded.errors;
  notifications = loaded.notifications;
}

-- The keys after the rows of a batch.
pub record IsSnapshot (loaded : Loaded) (ms : List Manifest) (after : SnapshotUniqueKeys)
    : Type 0 where
  pub keys : after ≡ seen_of (manifest_of loaded ∷ ms)
  pub distinct :
      (site : Text)
      → IsWellFormed site ms
      → IsComplete site (manifest_of loaded)
      → has (batch_ids ms) loaded.batch.id ≡ false
      → IsWellFormed site (manifest_of loaded ∷ ms)

same_keys :
    (a b : SnapshotUniqueKeys)
    → a.message_ids ≡ b.message_ids
    → a.message_row_ids ≡ b.message_row_ids
    → a.error_message_ids ≡ b.error_message_ids
    → a.error_row_ids ≡ b.error_row_ids
    → a.notification_ids ≡ b.notification_ids
    → a.notification_row_ids ≡ b.notification_row_ids
    → a ≡ b
same_keys a b m mr e er n nr =
    ap (λ x. record a { message_ids = x }) m
    ∙ ap (λ x. record a { message_ids = b.message_ids; message_row_ids = x }) mr
    ∙ same_parts
        (λ w x y z. record {
          message_ids = b.message_ids;
          message_row_ids = b.message_row_ids;
          error_message_ids = w;
          error_row_ids = x;
          notification_ids = y;
          notification_row_ids = z;
        })
        e er n nr

-- What the rows of a batch add to the keys, together.
remembered :
    {a b c d e f : String} (loaded : Loaded) (ms : List Manifest) (m x n : Seen)
    (after : SnapshotUniqueKeys)
    → AreRemembered
        (λ r. r.id)
        (λ r. r.message_id)
        a
        b
        loaded.messages
        (message_row_ids ms, message_ids ms)
        m
    → AreRemembered
        (λ r. r.id)
        (λ r. r.message_id)
        c
        d
        loaded.errors
        (error_row_ids ms, error_message_ids ms)
        x
    → AreRemembered
        (λ r. r.id)
        (λ r. r.notification_id)
        e
        f
        loaded.notifications
        (notification_row_ids ms, notification_ids ms)
        n
    → record {
      message_ids = m.1;
      message_row_ids = m.0;
      error_message_ids = x.1;
      error_row_ids = x.0;
      notification_ids = n.1;
      notification_row_ids = n.0;
    }
      ≡ after
    → IsSnapshot loaded ms after
remembered loaded ms m x n after messages errors notifications same = record {
  keys =
      sym same
      ∙ same_keys _ (seen_of (manifest_of loaded ∷ ms)) messages.keys messages.ids errors.keys
          errors.ids notifications.keys notifications.ids;
  distinct = λ site w complete new. record {
    complete = (complete, w.complete);
    batches = (new, w.batches);
    message_rows = subst (λ z. Distinct z) messages.ids (messages.distinct_ids w.message_rows);
    messages = subst (λ z. Distinct z) messages.keys (messages.distinct_keys w.messages);
    error_rows = subst (λ z. Distinct z) errors.ids (errors.distinct_ids w.error_rows);
    error_messages = subst (λ z. Distinct z) errors.keys (errors.distinct_keys w.error_messages);
    notification_rows =
        subst (λ z. Distinct z) notifications.ids (notifications.distinct_ids w.notification_rows);
    notifications =
        subst (λ z. Distinct z) notifications.keys (notifications.distinct_keys w.notifications);
  };
}

pub snapshot_lem :
    (loaded : Loaded) (ms : List Manifest) (after : SnapshotUniqueKeys)
    → assert_snapshot_unique_keys loaded (seen_of ms) ≡ returned after
    → IsSnapshot loaded ms after
unfolding assert_snapshot_unique_keys
snapshot_lem loaded ms after e =
    through
      (remember_rows (λ r. r.id) (λ r. r.message_id) "newsletterMessages id must be globally unique"
        "newsletterMessages.messageId must be globally unique" loaded.messages
        (message_row_ids ms, message_ids ms))
      _ after e
      λ m is_m e1.
        through
          (remember_rows (λ r. r.id) (λ r. r.message_id)
            "newsletterErrors id must be globally unique"
            "newsletterErrors.messageId must be globally unique" loaded.errors
            (error_row_ids ms, error_message_ids ms))
          _ after e1
          λ x is_x e2.
            through
              (remember_rows (λ r. r.id) (λ r. r.notification_id)
                "newsletterNotifications id must be globally unique"
                "newsletterNotifications.notificationId must be globally unique"
                loaded.notifications (notification_row_ids ms, notification_ids ms))
              _ after e2
              λ n is_n e3.
                remembered loaded ms m x n after
                  (rows-AreRemembered (λ r. r.id) (λ r. r.message_id) _ _ loaded.messages _ m is_m)
                  (rows-AreRemembered (λ r. r.id) (λ r. r.message_id) _ _ loaded.errors _ x is_x)
                  (rows-AreRemembered (λ r. r.id) (λ r. r.notification_id) _ _ loaded.notifications
                    _ n is_n)
                  (value_of_returned _ after e3)
