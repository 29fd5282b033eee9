-- ===== src/Escrow/Loader/Checks.antt =====
-- What the checks of service/newsletter-retention-escrow-loader.ts leave of the rows.
use mailgun_ses_proxy.Base.{
  ℕ, ◌≡◌, sym, ap, ◌∙◌, String, Bool, true, false, not, List, [], ◌∷◌, ◌++◌, map, length, ltb, ◌==◌,
  All, arith,
}
use mathlib.Core.Path.{subst}
use mailgun_ses_proxy.Base.Attempt.{Attempt, returned, through, through_test, value_of_returned}
use mailgun_ses_proxy.Escrow.Text.{Text, ◌===◌, has, Distinct}
use mailgun_ses_proxy.Escrow.Record.{MessageRow, ErrorRow, NotificationRow}
use mailgun_ses_proxy.Escrow.Spec.{Ascending}
use mailgun_ses_proxy.Escrow.Loader.Rows.{
  MessageDatabaseRow, ErrorDatabaseRow, NotificationDatabaseRow, is_unordered, normalize_rows,
  normalize_message_rows, normalize_error_rows, normalize_notification_rows, normalize_message_row,
  normalize_error_row, normalize_notification_row,
}
use mailgun_ses_proxy.Escrow.Loader.{remember_key, Seen, remember_rows}

Ascending-more :
    (ids : List Text) (id : Text)
    → is_unordered ids id ≡ false
    → Ascending ids
    → Ascending (id ∷ ids)
Ascending-more [] id e h = tt
Ascending-more (x ∷ xs) id e h = (e, h)

module _ {D R : Type 0} (normalize : D → Attempt R) (belongs : R → Bool) (id key : R → Text)
    (stranger unsorted repeated_id repeated_key : String) where
  -- Rows in order, each of the batch.
  abbrev pub AreChecked : List R → Type 0
  AreChecked rows = Ascending (map id rows) × All (λ r. belongs r ≡ true) rows

  rows-AreChecked :
      (ds : List D) (read rows : List R)
      → normalize_rows normalize belongs id key stranger unsorted repeated_id repeated_key ds read
        ≡ returned rows
      → AreChecked read
      → AreChecked rows
  unfolding normalize_rows
  rows-AreChecked [] read rows e h = subst AreChecked (value_of_returned read rows e) h
  rows-AreChecked (d ∷ ds) read rows e h = through (normalize d) _ rows e λ row normal e1.
      through_test (not (belongs row)) stranger _ rows e1 λ belonging e2.
        through_test (is_unordered (map id read) (id row)) unsorted _ rows e2 λ sorted e3.
          through_test (has (map id read) (id row)) repeated_id _ rows e3 λ new_id e4.
            through_test (has (map key read) (key row)) repeated_key _ rows e4 λ new_key e5.
              rows-AreChecked ds (row ∷ read) rows e5
                (Ascending-more (map id read) (id row) sorted h.0, (ground (arith, belonging), h.1))

pub messages_checked :
    (rows : List MessageDatabaseRow) (n : ℕ) (id : Text) (read : List MessageRow)
    → normalize_message_rows rows n id ≡ returned read
    → Ascending (map (λ r. r.id) read) × All (λ r. (r.newsletter_batch_id === id) ≡ true) read
unfolding normalize_message_rows
messages_checked rows n id read e = through_test (ltb n (length rows)) _ _ read e λ few e1.
    through_test (not (length rows == n)) _ _ read e1 λ same e2.
      rows-AreChecked normalize_message_row (λ r. r.newsletter_batch_id === id) (λ r. r.id)
        (λ r. r.message_id) _ _ _ _ rows [] read e2 (tt, tt)

pub errors_checked :
    (rows : List ErrorDatabaseRow) (n : ℕ) (id : Text) (read : List ErrorRow)
    → normalize_error_rows rows n id ≡ returned read
    → Ascending (map (λ r. r.id) read) × All (λ r. (r.newsletter_batch_id === id) ≡ true) read
unfolding normalize_error_rows
errors_checked rows n id read e = through_test (ltb n (length rows)) _ _ read e λ few e1.
    through_test (not (length rows == n)) _ _ read e1 λ same e2.
      rows-AreChecked normalize_error_row (λ r. r.newsletter_batch_id === id) (λ r. r.id)
        (λ r. r.message_id) _ _ _ _ rows [] read e2 (tt, tt)

pub notifications_checked :
    (rows : List NotificationDatabaseRow) (n : ℕ) (ids : List Text) (read : List NotificationRow)
    → normalize_notification_rows rows n ids ≡ returned read
    → Ascending (map (λ r. r.id) read) × All (λ r. has ids r.message_id ≡ true) read
unfolding normalize_notification_rows
notifications_checked rows n ids read e = through_test (ltb n (length rows)) _ _ read e λ few e1.
    through_test (not (length rows == n)) _ _ read e1 λ same e2.
      rows-AreChecked normalize_notification_row (λ r. has ids r.message_id) (λ r. r.id)
        (λ r. r.notification_id) _ _ _ _ rows [] read e2 (tt, tt)

module _ {A : Type 0} (id key : A → Text) (id_message message : String) where
  -- The keys seen after rows, each set still distinct.
  pub record AreRemembered (rows : List A) (seen after : Seen) : Type 0 where
    pub ids : after.0 ≡ map id rows ++ seen.0
    pub keys : after.1 ≡ map key rows ++ seen.1
    pub distinct_ids : Distinct seen.0 → Distinct after.0
    pub distinct_keys : Distinct seen.1 → Distinct after.1

  remember_key_lem :
      (f : A → Text) (m : String) (row : A) (seen after : List Text)
      → remember_key f m row seen ≡ returned after
      → (has seen (f row) ≡ false) × (after ≡ f row ∷ seen)
  unfolding remember_key
  remember_key_lem f m row seen after e =
      through_test (has seen (f row)) m _ after e
        λ new e1. (new, sym (value_of_returned _ after e1))

  pub rows-AreRemembered :
      (rows : List A) (seen after : Seen)
      → remember_rows id key id_message message rows seen ≡ returned after
      → AreRemembered rows seen after
  unfolding remember_rows
  rows-AreRemembered [] seen after e =
      let same = sym (value_of_returned seen after e) in
      record {
        ids = ap (λ x. x.0) same;
        keys = ap (λ x. x.1) same;
        distinct_ids = λ d. subst (λ x. Distinct x) (ap (λ x. x.0) (sym same)) d;
        distinct_keys = λ d. subst (λ x. Distinct x) (ap (λ x. x.1) (sym same)) d;
      }
  rows-AreRemembered (row ∷ rows) seen after e =
      through (remember_rows id key id_message message rows seen) _ after e λ before first e1.
        through (remember_key id id_message row before.0) _ after e1 λ ids is_id e2.
          through (remember_key key message row before.1) _ after e2 λ keys is_key e3.
            let earlier = rows-AreRemembered rows seen before first in
            let (new_id, all_ids) = remember_key_lem id id_message row before.0 ids is_id in
            let (new_key, all_keys) = remember_key_lem key message row before.1 keys is_key in
            let same_ids : after.0 ≡ ids = ap (λ x. x.0) (sym (value_of_returned _ after e3)) in
            let same_keys : after.1 ≡ keys = ap (λ x. x.1) (sym (value_of_returned _ after e3)) in
            record {
              ids = same_ids ∙ all_ids ∙ ap (λ x. id row ∷ x) earlier.ids;
              keys = same_keys ∙ all_keys ∙ ap (λ x. key row ∷ x) earlier.keys;
              distinct_ids = λ d.
                  subst (λ x. Distinct x) (sym (same_ids ∙ all_ids))
                    (new_id, earlier.distinct_ids d);
              distinct_keys = λ d.
                  subst (λ x. Distinct x) (sym (same_keys ∙ all_keys))
                    (new_key, earlier.distinct_keys d);
            }
