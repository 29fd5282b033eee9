-- ===== src/Escrow/Completeness.antt =====
-- What a record that the accumulator of service/newsletter-retention-escrow.ts tests passes.
pub mod WithinBatch
pub mod Batches
pub mod Readable
pub mod Records
mod Examples
use mailgun_ses_proxy.Base.{
  ℕ, zero, suc, ◌+◌, ◌≤◌, ◌≡◌, refl, sym, ap, ◌∙◌, String, Bool, true, false, not, ◌&&◌, ◌||◌,
  Option, none, some, List, [], ◌∷◌, ◌++◌, map, length, ltb, leb, ◌==◌, All, arith, length-append,
}
use mailgun_ses_proxy.Base.Number.{max_safe_integer}
use mailgun_ses_proxy.Base.Attempt.{Attempt, returned, threw, ◌>>=◌, ◌>>◌, throw_if}
use mailgun_ses_proxy.Escrow.Text.{Text, ◌===◌, ===-refl, ge, has, Distinct}
use mailgun_ses_proxy.Escrow.Record.{
  Header, BatchRow, MessageRow, ErrorRow, NotificationRow, Row, newsletter_batch,
  newsletter_message, newsletter_error, newsletter_notification, EscrowRecord, Counts,
}
use mailgun_ses_proxy.Escrow.Accumulator
use mailgun_ses_proxy.Escrow.Accumulator.{
  Kind, batch_kind, message_kind, error_kind, notification_kind, get_kind, set_kind, ByKind,
  phase_rank, Limits, Rows, Phase, parent, no_ids,
}
use mailgun_ses_proxy.Escrow.Consume.{
  add_safe_integer, assert_ascending_id, assert_unique_row_id, assert_unique, is_missing, is_id,
  is_site, is_not_after, is_current, is_batch, start_manifest, enter_manifest, consume_batch_record,
  consume_message_record, consume_error_record, consume_notification_record, consume_row,
  consume_record,
}
use mailgun_ses_proxy.Escrow.Spec.{
  Manifest, at_index, records_of, batch_ids, message_row_ids, message_ids, error_row_ids,
  error_message_ids, notification_row_ids, notification_ids, counts_of, Ascending, IsComplete,
  IsWellFormed, latest, phase_of, view,
}
use mailgun_ses_proxy.Escrow.Step.{manifest}

-- A sequence that goes on.
module _ {B : Type 0} where
  pub pass :
      (test : Bool) (message : String) (rest : Attempt B) (b : B)
      → test ≡ false
      → rest ≡ returned b
      → (throw_if test message >> rest) ≡ returned b
  pass true message rest b e h = absurd (wrong e)
    where
      wrong : true ≡ false → ⊥
      wrong e = cc
  pass false message rest b e h = h

module _ {A B : Type 0} where
  pub go_on :
      (first : Attempt A) (next : A → Attempt B) (a : A) (b : B)
      → first ≡ returned a
      → next a ≡ returned b
      → (first >>= next) ≡ returned b
  go_on first next a b e h = ap (λ x. x >>= next) e ∙ h

pub added :
    (n limit : ℕ) (message : String)
    → suc n ≤ limit
    → limit ≤ max_safe_integer
    → add_safe_integer n 1 limit message ≡ returned (suc n)
unfolding add_safe_integer
added n limit message h k =
    pass _ message _ (suc n) (ground (arith, h, k))
      (pass _ message _ (suc n) (ground (arith, h, k)) (ap returned (omega arith)))

pub ascends :
    (kind : Kind) (id : Text) (s : Rows)
    → is_not_after (get_kind kind s.last_ids) id ≡ false
    → assert_ascending_id kind id s ≡ returned (set_kind kind (some id) s.last_ids)
unfolding assert_ascending_id
ascends kind id s e = pass _ _ _ _ e refl

pub unique_row :
    (kind : Kind) (id : Text) (s : Rows)
    → has (get_kind kind s.seen_row_ids) id ≡ false
    → assert_unique_row_id kind id s
      ≡ returned (set_kind kind (id ∷ get_kind kind s.seen_row_ids) s.seen_row_ids)
unfolding assert_unique_row_id
unique_row kind id s e = pass _ _ _ _ e refl

pub unique :
    (seen : List Text) (id : Text) (message : String)
    → has seen id ≡ false
    → assert_unique seen id message ≡ returned (id ∷ seen)
unfolding assert_unique
unique seen id message e = pass _ message _ _ e refl

pub same_index : (n : ℕ) → not (n == n) ≡ false
same_index n = ground arith

pub same_number : (n : ℕ) → (n == n) ≡ true
same_number n = ground arith

pub latest_lem :
    (id : Text) (ids : List Text) → Ascending (id ∷ ids) → is_not_after (latest ids) id ≡ false
latest_lem id [] h = refl
latest_lem id (x ∷ xs) h = h.0
