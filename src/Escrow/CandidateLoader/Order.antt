-- ===== src/Escrow/CandidateLoader/Order.antt =====
-- The order in which service/newsletter-retention-candidate-loader.ts returns the candidates.
use mailgun_ses_proxy.Base.{
  ◌+◌, ◌≡◌, refl, sym, ap, ◌∙◌, inl, inr, List, [], ◌∷◌, map, arith, Bool-cases,
}
use mailgun_ses_proxy.Retention.Order.{
  Comparison, reversed, ◌or_else◌, is_after, insert, sort, reversed_or, compare_numbers,
  compare_numbers-reversed, compare_units, compare_units-reversed,
}
use mailgun_ses_proxy.Escrow.CandidateLoader.{CandidateState, compare_normalized_candidates}
use mailgun_ses_proxy.Escrow.CandidateLoader.Read.{sum}

module _ (compare : CandidateState → CandidateState → Comparison) where
  sum-insert :
      (x : CandidateState) (ys : List CandidateState)
      → sum (map (λ c. c.message_count) (insert compare x ys))
        ≡ x.message_count + sum (map (λ c. c.message_count) ys)
  sum-insert x [] = refl
  sum-insert x (y ∷ ys) = elim (Bool-cases (is_after (compare x y))) [
    | inl later ↦ rw later (omega (arith, sum-insert x ys))
    | inr sooner ↦ rw sooner refl
  ]

  pub sum-sort :
      (xs : List CandidateState)
      → sum (map (λ c. c.message_count) (sort compare xs)) ≡ sum (map (λ c. c.message_count) xs)
  unfolding sort
  sum-sort [] = refl
  sum-sort (x ∷ xs) = omega (arith, sum-insert x (sort compare xs), sum-sort xs)

pub compare-reversed :
    (x y : CandidateState)
    → compare_normalized_candidates y x ≡ reversed (compare_normalized_candidates x y)
unfolding compare_normalized_candidates
compare-reversed x y =
    chain (compare_units x.created_at y.created_at) _ _ _
      (compare_units-reversed x.created_at y.created_at)
      (chain (compare_units x.batch_id y.batch_id) _ _ _
        (compare_units-reversed x.batch_id y.batch_id)
        (chain (compare_numbers x.message_count y.message_count) _ _ _
          (compare_numbers-reversed x.message_count y.message_count)
          (chain (compare_numbers x.notification_count y.notification_count) _ _ _
            (compare_numbers-reversed x.notification_count y.notification_count)
            (chain (compare_numbers x.error_count y.error_count) _ _ _
              (compare_numbers-reversed x.error_count y.error_count)
              (compare_units-reversed x.batch_record_id y.batch_record_id)))))
  where
    chain :
        (c c' d d' : Comparison)
        → c' ≡ reversed c
        → d' ≡ reversed d
        → (c' or_else d') ≡ reversed (c or_else d)
    chain c c' d d' hc hd =
        ap (λ z. z or_else d') hc ∙ ap (λ z. reversed c or_else z) hd ∙ sym (reversed_or c d)
