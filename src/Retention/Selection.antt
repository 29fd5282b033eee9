-- ===== src/Retention/Selection.antt =====
-- What a plan of service/newsletter-retention-plan.ts selects.
use mailgun_ses_proxy.Base.{
  ℕ, ◌+◌, ◌-◌, ◌≤◌, ◌<◌, ◌≡◌, sym, ap, ◌∙◌, String, not, ◌||◌, List, [], ◌∷◌, ltb, leb, length, All,
  arith,
}
use mathlib.Core.Path.{subst}
use mathlib.Core.List.{Permᴰ}
use mailgun_ses_proxy.Base.Attempt.{returned, map_attempt, through, through_test}
use mailgun_ses_proxy.Base.Number.{max_safe_integer}
use mailgun_ses_proxy.Retention.Instant.{parse_strict_utc_iso}
use mailgun_ses_proxy.Retention.Order.{sort, Sorted, sort-Sorted, sort-All, sort-Perm}
use mailgun_ses_proxy.Retention.Policy.{
  RetentionPolicy, parse_newsletter_retention_evidence, utc_message,
}
use mailgun_ses_proxy.Retention.Plan.{
  Candidate, Totals, SelectionPlan, SelectionInput, safe_add_integers,
  normalize_selection_candidate, compare_selection_candidates, add_candidate, total_from,
  build_newsletter_retention_selection_plan,
}
use mailgun_ses_proxy.Retention.Candidates.{
  Eligible, IsEntryOf, AllPairs, map_attempt-AllPairs, normalize_selection_candidate_lem,
  map_attempt_lem, compare_candidates-reversed,
}

abbrev pub sum_of : (Candidate → ℕ) → List Candidate → ℕ
sum_of weight [] = 0
sum_of weight (c ∷ candidates) = weight c + sum_of weight candidates

abbrev pub messages_of : Candidate → ℕ
messages_of c = c.message_count

abbrev pub notifications_of : Candidate → ℕ
notifications_of c = c.notification_count

abbrev pub errors_of : Candidate → ℕ
errors_of c = c.error_count

safe_add_integers_lem :
    (a b n : ℕ) (field : String) → safe_add_integers a b field ≡ returned n → n ≡ a + b
unfolding safe_add_integers
safe_add_integers_lem a b n field e =
    through_test (not (leb a max_safe_integer) || not (leb b max_safe_integer)) _ _ n e
      λ safe e1. through_test (ltb (max_safe_integer - b) a) _ _ n e1 λ fits e2. cc

-- The totals after the fold, from those before.
Adds : Totals → List Candidate → Totals → Type 0
Adds before candidates after =
    (after.message_count ≡ before.message_count + sum_of messages_of candidates)
    × (after.notification_count ≡ before.notification_count + sum_of notifications_of candidates)
    × (after.error_count ≡ before.error_count + sum_of errors_of candidates)

add_candidate_lem :
    (totals : Totals) (c : Candidate) (next : Totals)
    → add_candidate totals c ≡ returned next
    → (next.message_count ≡ totals.message_count + c.message_count)
      × (next.notification_count ≡ totals.notification_count + c.notification_count)
      × (next.error_count ≡ totals.error_count + c.error_count)
add_candidate_lem totals c next e =
    through (safe_add_integers totals.message_count c.message_count "selectedTotals.messageCount") _
      next e
      λ m added_m e1.
        through
          (safe_add_integers totals.notification_count c.notification_count
            "selectedTotals.notificationCount")
          _ next e1
          λ n added_n e2.
            through (safe_add_integers totals.error_count c.error_count "selectedTotals.errorCount")
              _ next e2
              λ x added_x e3.
                let same_m : next.message_count ≡ m = cc in
                let same_n : next.notification_count ≡ n = cc in
                let same_x : next.error_count ≡ x = cc in
                (
                  same_m ∙ safe_add_integers_lem totals.message_count c.message_count m _ added_m,
                  same_n
                      ∙ safe_add_integers_lem totals.notification_count c.notification_count n _
                          added_n,
                  same_x ∙ safe_add_integers_lem totals.error_count c.error_count x _ added_x,
                )

total_from_lem :
    (totals : Totals) (candidates : List Candidate) (result : Totals)
    → total_from totals candidates ≡ returned result
    → Adds totals candidates result
unfolding total_from Adds
total_from_lem totals [] result e =
    let same_totals : totals ≡ result = cc in
    (
      omega (arith, ap (λ t. t.message_count) same_totals),
      omega (arith, ap (λ t. t.notification_count) same_totals),
      omega (arith, ap (λ t. t.error_count) same_totals),
    )
total_from_lem totals (c ∷ candidates) result e =
    through (add_candidate totals c) _ result e λ next added e1.
      let step = add_candidate_lem totals c next added in
      let rest = total_from_lem next candidates result e1 in
      (omega (arith, step, rest), omega (arith, step, rest), omega (arith, step, rest))

-- What a plan promises. The cutoff is that of the policy, as a timestamp.
pub record IsSafe (input : SelectionInput) (plan : SelectionPlan) : Type 0 where
  pub cutoff_ms : ℕ
  pub cutoff : parse_strict_utc_iso (utc_message "cutoff") input.policy.cutoff ≡ returned cutoff_ms
  pub eligible : All (Eligible input.policy.site_id) input.candidates
  pub old : All (λ c. c.created_at < cutoff_ms) plan.batches
  pub sorted : Sorted compare_selection_candidates plan.batches
  pub entries : List Candidate
  pub one_to_one : AllPairs IsEntryOf input.candidates entries
  pub listed : Permᴰ plan.batches entries

pub record IsCapped (policy : RetentionPolicy) (plan : SelectionPlan) : Type 0 where
  pub counted : plan.batch_count ≡ length plan.batches
  pub batches : plan.batch_count ≤ policy.max_batches
  pub messages : plan.totals.message_count ≤ policy.max_messages
  pub summed :
      (plan.totals.message_count ≡ sum_of messages_of plan.batches)
      × (plan.totals.notification_count ≡ sum_of notifications_of plan.batches)
      × (plan.totals.error_count ≡ sum_of errors_of plan.batches)

build_lem :
    (input : SelectionInput) (plan : SelectionPlan)
    → build_newsletter_retention_selection_plan input ≡ returned plan
    → IsSafe input plan × IsCapped input.policy plan
unfolding build_newsletter_retention_selection_plan Adds
build_lem input plan e =
    through (parse_newsletter_retention_evidence input.evidence) _ plan e λ evidence fresh e1.
      through_test (not input.queue_healthy || not input.dlq_healthy) _ _ plan e1 λ healthy e2.
        through (parse_strict_utc_iso (utc_message "cutoff") input.policy.cutoff) _ plan e2
          λ cutoff_ms cutoff e3.
            through
              (map_attempt (normalize_selection_candidate input.policy.site_id cutoff_ms)
                input.candidates)
              _ plan e3
              λ normalized mapped e4.
                let selected = sort compare_selection_candidates normalized in
                through_test (ltb input.policy.max_batches (length selected)) _ _ plan e4 λ few e5.
                  through
                    (total_from
                      (record { message_count = 0; notification_count = 0; error_count = 0 })
                      selected)
                    _ plan e5
                    λ totals added e6.
                      through_test (ltb input.policy.max_messages totals.message_count) _ _ plan e6
                        λ small e7.
                          let same_batches : selected ≡ plan.batches = cc in
                          let same_totals : totals ≡ plan.totals = cc in
                          let same_count : length selected ≡ plan.batch_count = cc in
                          let mapped_all =
                            map_attempt_lem
                              (normalize_selection_candidate input.policy.site_id cutoff_ms)
                              (Eligible input.policy.site_id) (λ c. c.created_at < cutoff_ms)
                              (λ a b h.
                                let found =
                                  normalize_selection_candidate_lem input.policy.site_id cutoff_ms a
                                    b h in
                                (found.0, found.1))
                              input.candidates normalized mapped in
                          let sums =
                            total_from_lem
                              (record {
                                message_count = 0;
                                notification_count = 0;
                                error_count = 0;
                              })
                              selected totals added in
                          (
                            record {
                              cutoff_ms = cutoff_ms;
                              cutoff = cutoff;
                              eligible = mapped_all.0;
                              old = subst (All (λ c. c.created_at < cutoff_ms)) same_batches (
                                  sort-All compare_selection_candidates
                                    (λ c. c.created_at < cutoff_ms) normalized mapped_all.1);
                              sorted = subst (Sorted compare_selection_candidates) same_batches (
                                  sort-Sorted compare_selection_candidates
                                    compare_candidates-reversed normalized);
                              entries = normalized;
                              one_to_one =
                                  map_attempt-AllPairs IsEntryOf
                                    (normalize_selection_candidate input.policy.site_id cutoff_ms)
                                    (λ a b h.
                                      (normalize_selection_candidate_lem input.policy.site_id
                                        cutoff_ms a b h).2)
                                    input.candidates normalized mapped;
                              listed =
                                  subst (λ z. Permᴰ z normalized) same_batches
                                    (sort-Perm compare_selection_candidates normalized);
                            },
                            record {
                              counted = sym same_count ∙ ap length same_batches;
                              batches = ground (arith, few, same_count);
                              messages =
                                  ground (arith, small, ap (λ t. t.message_count) same_totals);
                              summed = (
                                omega (
                                  arith,
                                  sums,
                                  ap (λ t. t.message_count) same_totals,
                                  ap (sum_of messages_of) same_batches,
                                ),
                                omega (
                                  arith,
                                  sums,
                                  ap (λ t. t.notification_count) same_totals,
                                  ap (sum_of notifications_of) same_batches,
                                ),
                                omega (
                                  arith,
                                  sums,
                                  ap (λ t. t.error_count) same_totals,
                                  ap (sum_of errors_of) same_batches,
                                ),
                              );
                            },
                          )

-- A plan is built only if every candidate, without exception, is of the policy's site, has a complete
-- correlation and no orphans; then the plan lists an entry for each candidate, with its batch id, its
-- time of creation and its three counts, and no other entry; all of them are created before the
-- cutoff, and they are in the canonical order.
pub plan-IsSafe :
    (input : SelectionInput) (plan : SelectionPlan)
    → build_newsletter_retention_selection_plan input ≡ returned plan
    → IsSafe input plan
plan-IsSafe input plan e = (build_lem input plan e).0

-- A plan that is built keeps the policy's caps on batches and messages, and its totals are the exact
-- sums over the batches that it lists.
pub plan-IsCapped :
    (input : SelectionInput) (plan : SelectionPlan)
    → build_newsletter_retention_selection_plan input ≡ returned plan
    → IsCapped input.policy plan
plan-IsCapped input plan e = (build_lem input plan e).1
