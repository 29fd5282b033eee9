-- ===== src/Escrow/CandidateLoader/Loaded.antt =====
-- What the candidates that service/newsletter-retention-candidate-loader.ts returns are.
use mailgun_ses_proxy.Base.{
  ℕ, ◌+◌, ◌≤◌, ◌≡◌, refl, ap, ◌∙◌, String, false, not, ◌||◌, List, [], ◌∷◌, map, length, ltb, leb,
  ◌==◌, All, arith,
}
use mathlib.Core.Path.{subst}
use mathlib.Core.List.{Permᴰ}
use mailgun_ses_proxy.Base.Number.{max_safe_integer, nat}
use mailgun_ses_proxy.Base.Attempt.{returned, map_attempt, through, through_test, value_of_returned}
use mailgun_ses_proxy.Retention.Order.{sort, Sorted, sort-Sorted, sort-All, length-sort, sort-Perm}
use mailgun_ses_proxy.Retention.Candidates.{map_attempt_lem, AllPairs}
use mailgun_ses_proxy.Retention.Policy.{RetentionPolicy}
use mailgun_ses_proxy.Escrow.Text.{Text, of}
use mailgun_ses_proxy.Escrow.Loader.Candidates.{CandidateRecord}
use mailgun_ses_proxy.Escrow.CandidateLoader.{
  CandidateDelegate, BatchSummary, BatchAggregate, CandidateState, normalize_site_id,
  parse_strict_utc_iso, normalize_positive_integer, normalize_limited_positive_integer, sum_from,
  normalize_batch_aggregate_row, compare_normalized_candidates, load_candidate, record_of,
  load_candidate_records,
}
use mailgun_ses_proxy.Escrow.CandidateLoader.Read.{
  sum, sum_from-sum, IsRead, candidate-IsRead, counts_read,
}
use mailgun_ses_proxy.Escrow.CandidateLoader.Origins.{IsMadeOf, candidates-AllPairs}
use mailgun_ses_proxy.Escrow.CandidateLoader.Order.{sum-sort, compare-reversed}

-- A candidate as it is returned.
pub record IsShownAs (site_id : Text) (c : CandidateState) (shown : CandidateRecord) : Type 0 where
  pub of_site : shown.site_id ≡ site_id
  pub batch_record_id : shown.batch_record_id ≡ c.batch_record_id
  pub batch_id : shown.batch_id ≡ c.batch_id
  pub created_at : shown.created_at ≡ c.created_at
  pub message_count : shown.message_count ≡ nat c.message_count
  pub notification_count : shown.notification_count ≡ nat c.notification_count
  pub error_count : shown.error_count ≡ nat c.error_count
  pub orphan_count : shown.orphan_count ≡ nat c.orphan_count
  pub correlated : shown.correlation_complete ≡ (c.orphan_count == 0)

map-IsShownAs :
    (delegate : CandidateDelegate) (site_id : Text) (cs : List CandidateState)
    → AllPairs (IsShownAs site_id) cs (map (record_of delegate site_id) cs)
map-IsShownAs delegate site_id [] = tt
map-IsShownAs delegate site_id (c ∷ cs) = (
  record {
    of_site = refl;
    batch_record_id = refl;
    batch_id = refl;
    created_at = refl;
    message_count = refl;
    notification_count = refl;
    error_count = refl;
    orphan_count = refl;
    correlated = refl;
  },
  map-IsShownAs delegate site_id cs,
)

pub record AreLoaded (delegate : CandidateDelegate) (policy : RetentionPolicy)
    (records : List CandidateRecord) : Type 0 where
  pub states : List CandidateState
  pub shown : AllPairs (IsShownAs (of policy.site_id)) states records
  pub sorted : Sorted compare_normalized_candidates states
  pub read : All (IsRead delegate) states
  pub cutoff : ℕ
  pub parsed : parse_strict_utc_iso (of policy.cutoff) "cutoff" ≡ returned cutoff
  pub rows : List BatchAggregate
  pub found :
      delegate.find_batches (of policy.site_id) cutoff (policy.max_batches + 1) ≡ returned rows
  pub loaded : List CandidateState
  pub one_to_one : AllPairs (IsMadeOf delegate) rows loaded
  pub listed : Permᴰ states loaded
  pub few : (length states ≤ policy.max_batches) × (policy.max_batches ≤ 100)
  pub capped :
      (sum (map (λ c. c.message_count) states) ≤ policy.max_messages)
      × (policy.max_messages ≤ 10000)

not_less : (a b : ℕ) → ltb a b ≡ false → b ≤ a
not_less a b e = ground arith

limited_lem :
    (value : ℕ) (field : String) (max : ℕ) (limit : String) (n : ℕ)
    → normalize_limited_positive_integer value field max limit ≡ returned n
    → (value ≡ n) × (value ≤ max)
unfolding normalize_limited_positive_integer
limited_lem value field max limit n e =
    through_test (ltb max value) _ _ n e
      λ within e1. (value_of_returned value n e1, ground (arith, within))

positive_lem :
    (value : ℕ) (field : String) (n : ℕ)
    → normalize_positive_integer value field ≡ returned n
    → value ≡ n
unfolding normalize_positive_integer
positive_lem value field n e =
    through_test (not (leb value max_safe_integer) || value == 0) _ _ n e
      λ positive e1. value_of_returned value n e1

site_lem : (value t : Text) → normalize_site_id value ≡ returned t → value ≡ t
unfolding normalize_site_id
site_lem value t e = through_test _ _ _ t e λ trimmed e1. value_of_returned value t e1

-- Candidates that were read from rows within the caps.
rows-AreLoaded :
    (delegate : CandidateDelegate) (policy : RetentionPolicy) (cutoff : ℕ)
    (rows : List BatchAggregate) (summaries : List BatchSummary) (cs : List CandidateState)
    → parse_strict_utc_iso (of policy.cutoff) "cutoff" ≡ returned cutoff
    → delegate.find_batches (of policy.site_id) cutoff (policy.max_batches + 1) ≡ returned rows
    → map_attempt normalize_batch_aggregate_row rows ≡ returned summaries
    → map_attempt (load_candidate delegate) summaries ≡ returned cs
    → (length rows ≤ policy.max_batches) × (policy.max_batches ≤ 100)
    → (sum (map (λ s. s.message_count) summaries) ≤ policy.max_messages)
      × (policy.max_messages ≤ 10000)
    → AreLoaded delegate policy
        (map (record_of delegate (of policy.site_id)) (sort compare_normalized_candidates cs))
rows-AreLoaded delegate policy cutoff rows summaries cs parsed found is_summaries is_cs few capped =
    let read =
      map_attempt_lem (load_candidate delegate) (λ s. Unit {0}) (IsRead delegate)
        (λ s c h. (tt, (candidate-IsRead delegate s c h).0)) summaries cs is_cs in
    let rows_read =
      map_attempt_lem normalize_batch_aggregate_row (λ r. Unit {0}) (λ s. Unit {0})
        (λ r s h. (tt, tt)) rows summaries is_summaries in
    let n = length-sort compare_normalized_candidates cs in
    record {
      states = sort compare_normalized_candidates cs;
      shown = map-IsShownAs delegate (of policy.site_id) (sort compare_normalized_candidates cs);
      sorted = sort-Sorted compare_normalized_candidates compare-reversed cs;
      read = sort-All compare_normalized_candidates (IsRead delegate) cs read.1;
      cutoff = cutoff;
      parsed = parsed;
      rows = rows;
      found = found;
      loaded = cs;
      one_to_one = candidates-AllPairs delegate rows summaries cs is_summaries is_cs;
      listed = sort-Perm compare_normalized_candidates cs;
      few = omega (arith, n, read.2, rows_read.2, few.0, few.1);
      capped = omega (
        arith,
        sum-sort compare_normalized_candidates cs,
        counts_read delegate summaries cs is_cs,
        capped.0,
        capped.1,
      );
    }

-- A cap of the policy that is accepted, and what is within it.
cap_lem :
    (cap : ℕ) (field : String) (max : ℕ) (limit : String) (p l n : ℕ)
    → normalize_positive_integer cap field ≡ returned p
    → normalize_limited_positive_integer p field max limit ≡ returned l
    → ltb l n ≡ false
    → (n ≤ cap) × (cap ≤ max)
cap_lem cap field max limit p l n is_p is_l within =
    let a = positive_lem cap field p is_p in
    let b = limited_lem p field max limit l is_l in
    let c = not_less l n within in (omega (arith, a, b, c), omega (arith, a, b, c))

returned-AreLoaded :
    (delegate : CandidateDelegate) (policy : RetentionPolicy) (cutoff batches : ℕ)
    (rows : List BatchAggregate) (summaries : List BatchSummary) (cs : List CandidateState)
    (site : Text) (total : ℕ) (records : List CandidateRecord)
    → parse_strict_utc_iso (of policy.cutoff) "cutoff" ≡ returned cutoff
    → policy.max_batches ≡ batches
    → delegate.find_batches site cutoff (batches + 1) ≡ returned rows
    → map_attempt normalize_batch_aggregate_row rows ≡ returned summaries
    → map_attempt (load_candidate delegate) summaries ≡ returned cs
    → normalize_site_id (of policy.site_id) ≡ returned site
    → total ≡ 0 + sum (map (λ s. s.message_count) summaries)
    → (length rows ≤ policy.max_batches) × (policy.max_batches ≤ 100)
    → (total ≤ policy.max_messages) × (policy.max_messages ≤ 10000)
    → map (record_of delegate site) (sort compare_normalized_candidates cs) ≡ records
    → AreLoaded delegate policy records
returned-AreLoaded delegate policy cutoff batches rows summaries cs site total records parsed
      same_cap found is_summaries is_cs is_site is_total few capped same =
    let same_site = site_lem (of policy.site_id) site is_site in
    subst (λ x. AreLoaded delegate policy x)
      (ap (λ x. map (record_of delegate x) (sort compare_normalized_candidates cs)) same_site
        ∙ same)
      (rows-AreLoaded delegate policy cutoff rows summaries cs parsed
        (ap (λ x. delegate.find_batches x cutoff (policy.max_batches + 1)) same_site
          ∙ ap (λ n. delegate.find_batches site cutoff (n + 1)) same_cap
          ∙ found)
        is_summaries is_cs few (omega (arith, is_total, capped.0), capped.1))

-- Candidates that are returned are of the policy's site and in the canonical order; they are at most
-- as many as the policy allows, and at most 100, and have together at most as many messages as the
-- policy allows, and at most 10000. They are one for each batch row that the database finds for the
-- site before the cutoff, with the row's ids, its time of creation and its counts of messages and
-- errors; the notifications are the sum over the message rows that are found for the batch, which
-- are none for one without messages. Each has as many distinct messages as it says, and as many
-- orphans as the database counts for these, or neither; it is correlated if it has no orphan.
pub records-AreLoaded :
    (delegate : CandidateDelegate) (policy : RetentionPolicy) (records : List CandidateRecord)
    → load_candidate_records delegate policy ≡ returned records
    → AreLoaded delegate policy records
unfolding load_candidate_records
records-AreLoaded delegate policy records e =
    through (normalize_site_id (of policy.site_id)) _ records e λ site is_site e1.
      through (parse_strict_utc_iso (of policy.cutoff) "cutoff") _ records e1 λ cutoff parsed e2.
        through (normalize_positive_integer policy.max_batches "maxBatches") _ records e2
          λ pb is_pb e3.
            through (normalize_limited_positive_integer pb "maxBatches" 100 "100") _ records e3
              λ batches is_batches e4.
                through (normalize_positive_integer policy.max_messages "maxMessages") _ records e4
                  λ pm is_pm e5.
                    through (normalize_limited_positive_integer pm "maxMessages" 10000 "10000") _
                      records e5
                      λ messages is_messages e6.
                        through (delegate.find_batches site cutoff (batches + 1)) _ records e6
                          λ rows found e7.
                            through_test (ltb batches (length rows)) _ _ records e7 λ few e8.
                              through (map_attempt normalize_batch_aggregate_row rows) _ records e8
                                λ summaries is_summaries e9.
                                  through (sum_from 0 (map (λ s. s.message_count) summaries) _) _
                                    records e9
                                    λ total is_total e10.
                                      through_test (ltb messages total) _ _ records e10
                                        λ within e11.
                                          through (map_attempt (load_candidate delegate) summaries)
                                            _ records e11
                                            λ cs is_cs e12.
                                              returned-AreLoaded delegate policy cutoff batches rows
                                                summaries cs site total records parsed
                                                (positive_lem policy.max_batches "maxBatches" pb
                                                    is_pb
                                                  ∙ (limited_lem pb "maxBatches" 100 "100" batches
                                                      is_batches).0)
                                                found is_summaries is_cs is_site
                                                (sum_from-sum 0
                                                  (map (λ s. s.message_count) summaries) _ total
                                                  is_total)
                                                (cap_lem policy.max_batches "maxBatches" 100 "100"
                                                  pb batches (length rows) is_pb is_batches few)
                                                (cap_lem policy.max_messages "maxMessages" 10000
                                                  "10000" pm messages total is_pm is_messages
                                                  within)
                                                (value_of_returned _ records e12)
