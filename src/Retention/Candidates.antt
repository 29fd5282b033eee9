-- ===== src/Retention/Candidates.antt =====
-- The candidates of service/newsletter-retention-plan.ts: what is accepted, and that their comparison is
-- an order.
use mailgun_ses_proxy.Base.{
  ℕ, suc, ◌<◌, ◌≡◌, refl, sym, ap, ◌∙◌, String, true, not, ◌||◌, List, [], ◌∷◌, leb, ◌==◌, length,
  All, str_eq, eq_iff, arith,
}
use mathlib.Core.Path.{subst}
use mailgun_ses_proxy.Base.Attempt.{
  Attempt, returned, map_attempt, through, through_test, value_of_returned,
}
use mailgun_ses_proxy.Base.Number.{Number, is_negative, is_safe_integer, floor, to_nat}
use mailgun_ses_proxy.Retention.Order.{
  Comparison, reversed, reversed_or, ◌or_else◌, compare_numbers, compare_canonical_strings,
  compare_numbers-reversed, compare_strings-reversed,
}
use mailgun_ses_proxy.Retention.Plan.{
  CandidateInput, Candidate, parse_candidate_created_at, normalize_count,
  normalize_selection_candidate, compare_selection_candidates,
}

-- A candidate that may be deleted: one of the policy's site, correlated, without orphans.
abbrev pub Eligible : String → CandidateInput → Type 0
Eligible site_id c =
    (c.site_id ≡ site_id) × (c.correlation_complete ≡ true) × (to_nat (floor c.orphan_count) ≡ 0)

-- The plan's entry of a candidate.
pub record IsEntryOf (c : CandidateInput) (entry : Candidate) : Type 0 where
  pub batch_id : entry.batch_id ≡ c.batch_id
  pub created_at : parse_candidate_created_at c.created_at ≡ returned entry.created_at
  pub message_count : to_nat (floor c.message_count) ≡ entry.message_count
  pub notification_count : to_nat (floor c.notification_count) ≡ entry.notification_count
  pub error_count : to_nat (floor c.error_count) ≡ entry.error_count

normalize_count_lem :
    (value : Number) (field : String) (n : ℕ)
    → normalize_count value field ≡ returned n
    → to_nat (floor value) ≡ n
unfolding normalize_count
normalize_count_lem value field n e =
    through_test (not (is_safe_integer value) || is_negative value) _ _ n e
      λ counted e1. value_of_returned (to_nat (floor value)) n e1

pub normalize_selection_candidate_lem :
    (site_id : String) (cutoff_ms : ℕ) (c : CandidateInput) (candidate : Candidate)
    → normalize_selection_candidate site_id cutoff_ms c ≡ returned candidate
    → Eligible site_id c × (candidate.created_at < cutoff_ms) × IsEntryOf c candidate
unfolding normalize_selection_candidate
normalize_selection_candidate_lem site_id cutoff_ms c candidate e =
    through_test (not (str_eq c.site_id site_id)) _ _ candidate e λ tenant e1.
      through_test (str_eq c.batch_id "") _ _ candidate e1 λ named e2.
        through (parse_candidate_created_at c.created_at) _ candidate e2 λ created_at_ms parsed e3.
          through_test (leb cutoff_ms created_at_ms) _ _ candidate e3 λ old e4.
            through (normalize_count c.message_count "messageCount") _ candidate e4 λ messages m e5.
              through (normalize_count c.notification_count "notificationCount") _ candidate e5
                λ notifications n e6.
                  through (normalize_count c.error_count "errorCount") _ candidate e6 λ errors x e7.
                    through (normalize_count c.orphan_count "orphanCount") _ candidate e7
                      λ orphans o e8.
                        through_test (not c.correlation_complete) _ _ candidate e8 λ complete e9.
                          through_test (not (orphans == 0)) _ _ candidate e9 λ none_left e10.
                            let orphan_count = normalize_count_lem c.orphan_count _ orphans o in
                            subst
                              (λ (z : Candidate).
                                Eligible site_id c × (z.created_at < cutoff_ms) × IsEntryOf c z)
                              (value_of_returned _ candidate e10)
                              (
                                (
                                  (eq_iff c.site_id site_id).0 (ground (arith, tenant)),
                                  ground (arith, complete),
                                  ground (arith, none_left, orphan_count),
                                ),
                                ground (arith, old),
                                record {
                                  batch_id = refl;
                                  created_at = parsed;
                                  message_count = normalize_count_lem c.message_count _ messages m;
                                  notification_count =
                                      normalize_count_lem c.notification_count _ notifications n;
                                  error_count = normalize_count_lem c.error_count _ errors x;
                                },
                              )

module _ {A B : Type 0} (call : A → Attempt B) (P : A → Type 0) (Q : B → Type 0) where
  pub map_attempt_lem :
      ((a : A) (b : B) → call a ≡ returned b → P a × Q b)
      → (xs : List A) (ys : List B) → map_attempt call xs ≡ returned ys
      → All P xs × All Q ys × (length ys ≡ length xs)
  unfolding map_attempt
  map_attempt_lem h [] ys e =
      let empty : [] ≡ ys = cc in (tt, subst (All Q) empty tt, ap length (sym empty))
  map_attempt_lem h (x ∷ xs) ys e = through (call x) _ ys e λ b first e1.
      through (map_attempt call xs) _ ys e1 λ bs rest e2.
        let whole : b ∷ bs ≡ ys = cc in
        let (hp, hq, hl) = map_attempt_lem h xs bs rest in
        ((
          ((h x b first).0, hp),
          subst (All Q) whole ((h x b first).1, hq),
          ap length (sym whole) ∙ ap suc hl,
        ))

-- The elements of two lists are related one to one.
module _ {A B : Type 0} (R : A → B → Type 0) where
  abbrev pub AllPairs : List A → List B → Type 0
  AllPairs [] [] = Unit
  AllPairs (x ∷ xs) (y ∷ ys) = R x y × AllPairs xs ys
  AllPairs _ _ = ⊥

  pub map_attempt-AllPairs :
      (call : A → Attempt B)
      → ((a : A) (b : B) → call a ≡ returned b → R a b)
      → (xs : List A) (ys : List B) → map_attempt call xs ≡ returned ys
      → AllPairs xs ys
  unfolding map_attempt
  map_attempt-AllPairs call h [] ys e = subst (AllPairs []) (value_of_returned [] ys e) tt
  map_attempt-AllPairs call h (x ∷ xs) ys e = through (call x) _ ys e λ b first e1.
      through (map_attempt call xs) _ ys e1 λ bs rest e2.
        subst (AllPairs (x ∷ xs)) (value_of_returned (b ∷ bs) ys e2)
          (h x b first, map_attempt-AllPairs call h xs bs rest)

pub compare_candidates-reversed :
    (x y : Candidate)
    → compare_selection_candidates y x ≡ reversed (compare_selection_candidates x y)
compare_candidates-reversed x y =
    chain (compare_numbers x.created_at y.created_at) _ _ _
      (compare_numbers-reversed x.created_at y.created_at)
      (chain (compare_canonical_strings x.batch_id y.batch_id) _ _ _
        (compare_strings-reversed x.batch_id y.batch_id)
        (chain (compare_numbers x.message_count y.message_count) _ _ _
          (compare_numbers-reversed x.message_count y.message_count)
          (chain (compare_numbers x.notification_count y.notification_count) _ _ _
            (compare_numbers-reversed x.notification_count y.notification_count)
            (compare_numbers-reversed x.error_count y.error_count))))
  where
    chain :
        (c c' d d' : Comparison)
        → c' ≡ reversed c
        → d' ≡ reversed d
        → (c' or_else d') ≡ reversed (c or_else d)
    chain c c' d d' hc hd =
        ap (λ z. z or_else d') hc ∙ ap (λ z. reversed c or_else z) hd ∙ sym (reversed_or c d)
