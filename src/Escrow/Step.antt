-- ===== src/Escrow/Step.antt =====
-- What a record that the accumulator of service/newsletter-retention-escrow.ts accepts adds to the
-- batches that it has read, and what its single checks show.
pub mod Messages
pub mod Errors
pub mod Notifications
pub mod Batches
use mailgun_ses_proxy.Base.{
  ℕ, zero, suc, ◌+◌, ◌≤◌, ◌≡◌, refl, sym, ap, ◌∙◌, String, Bool, true, false, not, ◌||◌, Option,
  none, some, List, [], ◌∷◌, map, length, All, ltb, leb, ◌==◌, arith, ==→eq, Bool-cases, inl, inr,
  length-append, ◌++◌,
}
use mailgun_ses_proxy.Base.Number.{max_safe_integer}
use mailgun_ses_proxy.Base.Attempt.{returned, throw_if, throw_if_through, through, through_test}
use mailgun_ses_proxy.Escrow.Text.{Text, ◌===◌, ===-eq, has, ge, Distinct}
use mailgun_ses_proxy.Escrow.Record.{
  Header, BatchRow, MessageRow, ErrorRow, NotificationRow, Row, newsletter_batch,
  newsletter_message, newsletter_error, newsletter_notification, EscrowRecord,
}
use mailgun_ses_proxy.Escrow.Accumulator
use mailgun_ses_proxy.Escrow.Accumulator.{
  Kind, batch_kind, message_kind, error_kind, notification_kind, get_kind, set_kind, ByKind,
  phase_rank, Limits, Rows,
}
use mailgun_ses_proxy.Escrow.Consume.{
  add_safe_integer, assert_ascending_id, assert_unique_row_id, assert_unique, is_missing, is_id,
  is_not_after, consume_message_record,
}
use mailgun_ses_proxy.Escrow.Spec.{
  Manifest, records_of, IsComplete, IsWellFormed, Ascending, latest, view, phase_of, message_ids,
  message_row_ids,
}

pub add_safe_integer_lem :
    (current increment limit : ℕ) (message : String) (n : ℕ)
    → add_safe_integer current increment limit message ≡ returned n
    → (n ≡ current + increment) × (n ≤ limit)
unfolding add_safe_integer
add_safe_integer_lem current increment limit message n e =
    through_test
      (not (leb current max_safe_integer)
        || not (leb increment max_safe_integer)
        || not (leb limit max_safe_integer))
      message _ n e
      λ safe e1.
        through_test
          (not (leb (current + increment) max_safe_integer)
            || not (leb (current + increment) limit))
          message _ n e1
          λ within e2.
            let same : current + increment ≡ n = cc in (sym same, ground (arith, within, same))

pub ascending_lem :
    (kind : Kind) (id : Text) (s : Rows) (ids : ByKind (Option Text))
    → assert_ascending_id kind id s ≡ returned ids
    → (is_not_after (get_kind kind s.last_ids) id ≡ false)
      × (ids ≡ set_kind kind (some id) s.last_ids)
unfolding assert_ascending_id
ascending_lem kind id s ids e =
    through_test (is_not_after (get_kind kind s.last_ids) id) _ _ ids e λ after last. (after, cc)

pub unique_row_lem :
    (kind : Kind) (id : Text) (s : Rows) (ids : ByKind (List Text))
    → assert_unique_row_id kind id s ≡ returned ids
    → (has (get_kind kind s.seen_row_ids) id ≡ false)
      × (ids ≡ set_kind kind (id ∷ get_kind kind s.seen_row_ids) s.seen_row_ids)
unfolding assert_unique_row_id
unique_row_lem kind id s ids e =
    through_test (has (get_kind kind s.seen_row_ids) id) _ _ ids e λ new last. (new, cc)

pub unique_lem :
    (seen : List Text) (id : Text) (message : String) (ids : List Text)
    → assert_unique seen id message ≡ returned ids
    → (has seen id ≡ false) × (ids ≡ id ∷ seen)
unfolding assert_unique
unique_lem seen id message ids e = through_test (has seen id) message _ ids e λ new last. (new, cc)

pub record Step (header : Header) (ms : List Manifest) (r : EscrowRecord) (t : Rows) : Type 0 where
  pub after : List Manifest
  pub state : t ≡ view header after
  pub history : records_of after ≡ r ∷ records_of ms
  pub well_formed : IsWellFormed header.site_id after

abbrev pub manifest : BatchRow → List MessageRow → List ErrorRow → List NotificationRow → Manifest
manifest b messages errors notifications = record {
  batch = b;
  messages = messages;
  errors = errors;
  notifications = notifications;
}

pub Ascending-more :
    (ids : List Text) (id : Text)
    → is_not_after (latest ids) id ≡ false
    → Ascending ids
    → Ascending (id ∷ ids)
Ascending-more [] id e h = tt
Ascending-more (x ∷ xs) id e h = (e, h)

pub belongs_lem : (id t : Text) → not (is_id (some id) t) ≡ false → t ≡ id
belongs_lem id t e = ===-eq t id (ground (arith, e))

module _ {A B C D R : Type 0} (f : A → B → C → D → R) where
  pub same_parts :
      {a a' : A} {b b' : B} {c c' : C} {d d' : D}
      → a ≡ a'
      → b ≡ b'
      → c ≡ c'
      → d ≡ d'
      → f a b c d ≡ f a' b' c' d'
  same_parts {a'} {b} {b'} {c} {c'} {d} p q r s =
      ap (λ x. f x b c d) p
      ∙ ap (λ x. f a' x c d) q
      ∙ ap (λ x. f a' b' x d) r
      ∙ ap (λ x. f a' b' c' x) s
