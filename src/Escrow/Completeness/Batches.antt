-- ===== src/Escrow/Completeness/Batches.antt =====
-- The accumulator of service/newsletter-retention-escrow.ts accepts the record that starts the next
-- well-formed batch.
use mailgun_ses_proxy.Base.{
  ℕ, suc, ◌≤◌, ◌≡◌, refl, ap, ◌∙◌, true, false, not, some, List, [], ◌∷◌, length, ltb, ◌==◌, arith,
}
use mailgun_ses_proxy.Base.Number.{max_safe_integer}
use mailgun_ses_proxy.Base.Attempt.{returned}
use mailgun_ses_proxy.Escrow.Text.{Text, ◌===◌, ===-refl, has}
use mailgun_ses_proxy.Escrow.Record.{Header, BatchRow, Row, newsletter_batch}
use mailgun_ses_proxy.Escrow.Accumulator
use mailgun_ses_proxy.Escrow.Accumulator.{
  Kind, batch_kind, message_kind, error_kind, notification_kind, get_kind, set_kind, ByKind,
  phase_rank, Limits, Rows, Phase, parent, no_ids,
}
use mailgun_ses_proxy.Escrow.Consume.{
  add_safe_integer, assert_ascending_id, assert_unique_row_id, is_site, is_not_after, is_current,
  start_manifest, enter_manifest, consume_batch_record, consume_row, consume_record,
}
use mailgun_ses_proxy.Escrow.Spec.{Manifest, IsWellFormed, view}
use mailgun_ses_proxy.Escrow.Step.{manifest}
use mailgun_ses_proxy.Escrow.Completeness.{pass, go_on, added, ascends, unique_row, same_number}

batch_added :
    (limits : Limits) (index : ℕ) (row : BatchRow) (s : Rows)
    → s.phase ≡ parent
    → is_current s.manifest_index index ≡ true
    → s.last_ids ≡ no_ids
    → has s.seen_row_ids.batch row.id ≡ false
    → is_site s.header row.site_id ≡ true
    → suc s.counts.batches ≤ limits.batches
    → limits.batches ≤ max_safe_integer
    → consume_batch_record limits index row s
      ≡ returned (record s {
        last_ids = set_kind batch_kind (some row.id) s.last_ids;
        seen_row_ids = set_kind batch_kind (row.id ∷ s.seen_row_ids.batch) s.seen_row_ids;
        current_batch_id = some row.id;
        phase = Accumulator.messages;
        counts = record s.counts { batches = suc s.counts.batches };
      })
unfolding consume_batch_record
batch_added limits index row s is_parent current fresh new site few safe =
    pass _ _ _ _ (ap (λ p. not (phase_rank p == 0)) is_parent) (
      pass _ _ _ _ (ap not current) (
        pass _ _ _ _ (ap (λ p. ltb 0 (phase_rank p)) is_parent) (
          go_on (assert_ascending_id batch_kind row.id s) _ _ _
            (ascends batch_kind row.id s (ap (λ ids. is_not_after ids.batch row.id) fresh))
            (go_on (assert_unique_row_id batch_kind row.id s) _ _ _
              (unique_row batch_kind row.id s new)
              (pass _ _ _ _ (ap not site) (
                go_on (add_safe_integer s.counts.batches 1 limits.batches _) _ _ _
                  (added s.counts.batches limits.batches _ few safe) refl))))))

same_text : (t u : Text) → t ≡ u → (t === u) ≡ true
same_text t u e = ap (λ x. x === u) e ∙ ===-refl u

pub batch_accepted :
    (limits : Limits) (row : BatchRow) (h : Header) (ms : List Manifest)
    → IsWellFormed h.site_id (manifest row [] [] [] ∷ ms)
    → suc (length ms) ≤ limits.batches
    → limits.batches ≤ max_safe_integer
    → consume_batch_record limits (length ms) row (start_manifest (length ms) (view h ms))
      ≡ returned (view h (manifest row [] [] [] ∷ ms))
unfolding start_manifest
batch_accepted limits row h [] w few safe =
    batch_added limits 0 row (start_manifest 0 (view h [])) refl refl refl w.batches.0
      (same_text row.site_id h.site_id w.complete.0.site) few safe
batch_accepted limits row h (m ∷ ms) w few safe =
    batch_added limits (suc (length ms)) row (start_manifest (suc (length ms)) (view h (m ∷ ms)))
      refl (same_number (suc (length ms))) refl w.batches.0
      (same_text row.site_id h.site_id w.complete.0.site) few safe

pub first_entered :
    (limits : Limits) (row : BatchRow) (h : Header) (ms : List Manifest)
    → consume_record limits
        (record { manifest_index = length ms; row = newsletter_batch row })
        (view h ms)
      ≡ consume_batch_record limits (length ms) row (start_manifest (length ms) (view h ms))
unfolding consume_record enter_manifest consume_row
first_entered limits row h [] = refl
first_entered limits row h (m ∷ ms) =
    rw (consume_record, enter_manifest, same_number (suc (length ms))) refl

next_number : (n : ℕ) → (n == suc n) ≡ false
next_number n = ground arith

pub later_entered :
    (limits : Limits) (row : Row) (h : Header) (m : Manifest) (ms : List Manifest)
    → consume_record limits (record { manifest_index = length ms; row = row }) (view h (m ∷ ms))
      ≡ consume_row limits (length ms) row (view h (m ∷ ms))
unfolding consume_record enter_manifest
later_entered limits row h m ms =
    rw (consume_record, enter_manifest, next_number (length ms), same_number (length ms)) refl
