-- ===== src/Escrow/Loader/Sorted.antt =====
-- The candidates that service/newsletter-retention-escrow-loader.ts accepts, and their order.
use mailgun_ses_proxy.Base.{
  ℕ, suc, ◌≡◌, refl, sym, ap, ◌∙◌, false, not, ◌&&◌, List, [], ◌∷◌, map, length, ltb, leb, ◌==◌,
  All, arith, Bool-cases, inl, inr,
}
use mathlib.Core.Path.{subst}
use mailgun_ses_proxy.Base.Attempt.{returned, through, through_test, value_of_returned}
use mailgun_ses_proxy.Retention.Order.{Comparison, is_after, insert, sort, sort-All, length-sort}
use mailgun_ses_proxy.Retention.Policy.{RetentionPolicy}
use mailgun_ses_proxy.Escrow.Text.{Text, of, ◌===◌, ===-eq, ===-sym, has, Distinct}
use mailgun_ses_proxy.Escrow.Loader.Candidates.{
  CandidateRecord, NormalizedCandidate, Totals, normalize_strict_string, normalize_utc_millis,
  normalize_count, normalize_candidate, add_candidate, normalize_from, parse_strict_utc_iso,
  compare_candidates, normalize_candidates, max_stream_records,
}

abbrev pub ids_of : List NormalizedCandidate → List Text
ids_of = map (λ c. c.batch_record_id)

-- A set that has an id with another before it.
not_in_parts :
    (id : Text) (ids : List Text) (a : Text)
    → has (id ∷ ids) a ≡ false
    → ((id === a) ≡ false) × (has ids a ≡ false)
unfolding has
not_in_parts id ids a e = (ground (arith, e), ground (arith, e))

pub not_in_cons :
    (id : Text) (ids : List Text) (a : Text)
    → (id === a) ≡ false
    → has ids a ≡ false
    → has (id ∷ ids) a ≡ false
unfolding has
not_in_cons id ids a e h = ground (arith, e, h)

differs_sym : (a b : Text) → (a === b) ≡ false → (b === a) ≡ false
differs_sym a b e = ===-sym b a ∙ e

-- No candidate's id is among some.
abbrev pub Apart : List Text → List NormalizedCandidate → Type 0
Apart ids cs = All (λ c. has ids c.batch_record_id ≡ false) cs

pub Apart-cons :
    (id : Text) (ids : List Text) (cs : List NormalizedCandidate)
    → Apart ids cs
    → has (ids_of cs) id ≡ false
    → Apart (id ∷ ids) cs
Apart-cons id ids [] a e = tt
Apart-cons id ids (c ∷ cs) a e =
    let (differs, others) = not_in_parts c.batch_record_id (ids_of cs) id e in
    (
      not_in_cons id ids c.batch_record_id (differs_sym c.batch_record_id id differs) a.0,
      Apart-cons id ids cs a.1 others,
    )

Apart-tail :
    (id : Text) (ids : List Text) (cs : List NormalizedCandidate)
    → Apart (id ∷ ids) cs
    → Apart ids cs × (has (ids_of cs) id ≡ false)
unfolding has
Apart-tail id ids [] a = (tt, refl)
Apart-tail id ids (c ∷ cs) a =
    let (differs, others) = not_in_parts id ids c.batch_record_id a.0 in
    let rest = Apart-tail id ids cs a.1 in
    (
      (others, rest.0),
      not_in_cons c.batch_record_id (ids_of cs) id (differs_sym id c.batch_record_id differs)
          rest.1,
    )

module _ (compare : NormalizedCandidate → NormalizedCandidate → Comparison) where
  has-insert :
      (x : NormalizedCandidate) (ys : List NormalizedCandidate) (a : Text)
      → (x.batch_record_id === a) ≡ false
      → has (ids_of ys) a ≡ false
      → has (ids_of (insert compare x ys)) a ≡ false
  has-insert x [] a e h = not_in_cons x.batch_record_id [] a e h
  has-insert x (y ∷ ys) a e h = elim (Bool-cases (is_after (compare x y))) [
    | inl later ↦
        let (differs, others) = not_in_parts y.batch_record_id (ids_of ys) a h in
        rw later (
          not_in_cons y.batch_record_id (ids_of (insert compare x ys)) a differs
            (has-insert x ys a e others))
    | inr sooner ↦ rw sooner (not_in_cons x.batch_record_id (ids_of (y ∷ ys)) a e h)
  ]

  Distinct-insert :
      (x : NormalizedCandidate) (ys : List NormalizedCandidate)
      → Distinct (ids_of ys)
      → has (ids_of ys) x.batch_record_id ≡ false
      → Distinct (ids_of (insert compare x ys))
  Distinct-insert x [] d h = (h, tt)
  Distinct-insert x (y ∷ ys) d h = elim (Bool-cases (is_after (compare x y))) [
    | inl later ↦
        let (differs, others) = not_in_parts y.batch_record_id (ids_of ys) x.batch_record_id h in
        rw later (
          has-insert x ys y.batch_record_id
              (differs_sym y.batch_record_id x.batch_record_id differs) d.0,
          Distinct-insert x ys d.1 others,
        )
    | inr sooner ↦ rw sooner (h, d)
  ]

  has-sort :
      (xs : List NormalizedCandidate) (a : Text)
      → has (ids_of xs) a ≡ false
      → has (ids_of (sort compare xs)) a ≡ false
  unfolding sort
  has-sort [] a h = h
  has-sort (x ∷ xs) a h =
      let (differs, others) = not_in_parts x.batch_record_id (ids_of xs) a h in
      has-insert x (sort compare xs) a differs (has-sort xs a others)

  Distinct-sort :
      (xs : List NormalizedCandidate) → Distinct (ids_of xs) → Distinct (ids_of (sort compare xs))
  unfolding sort
  Distinct-sort [] d = tt
  Distinct-sort (x ∷ xs) d =
      Distinct-insert x (sort compare xs) (Distinct-sort xs d.1) (has-sort xs x.batch_record_id d.0)

pub record AreCandidates (site : Text) (n : ℕ) (cs : List NormalizedCandidate) : Type 0 where
  pub distinct : Distinct (ids_of cs)
  pub of_site : All (λ c. c.site_id ≡ site) cs
  pub all : length cs ≡ n

candidate_site :
    (candidate : CandidateRecord) (site : Text) (cutoff : ℕ) (c : NormalizedCandidate)
    → normalize_candidate candidate site cutoff ≡ returned c
    → c.site_id ≡ site
unfolding normalize_candidate
candidate_site candidate site cutoff c e =
    through (normalize_strict_string candidate.site_id "siteId") _ c e λ site_id s e1.
      through_test (not (site_id === site)) _ _ c e1 λ same e2.
        through (normalize_utc_millis candidate.created_at "createdAt") _ c e2 λ ms m e3.
          through_test (leb cutoff ms) _ _ c e3 λ early e4.
            through (normalize_count candidate.message_count "messageCount") _ c e4 λ mc _ e5.
              through (normalize_count candidate.notification_count "notificationCount") _ c e5
                λ nc _ e6.
                  through (normalize_count candidate.error_count "errorCount") _ c e6 λ ec _ e7.
                    through (normalize_count candidate.orphan_count "orphanCount") _ c e7 λ oc _ e8.
                      through_test (not candidate.correlation_complete) _ _ c e8 λ complete e9.
                        through_test (not (oc == 0)) _ _ c e9 λ none e10.
                          through_test (mc == 0 && not (nc == 0)) _ _ c e10 λ some e11.
                            through
                              (normalize_strict_string candidate.batch_record_id "batchRecordId") _
                              c e11
                              λ id _ e12.
                                through (normalize_strict_string candidate.batch_id "batchId") _ c
                                  e12
                                  λ batch _ e13.
                                    ap (λ (x : NormalizedCandidate). x.site_id)
                                      (sym (value_of_returned _ c e13))
                                    ∙ ===-eq site_id site (ground (arith, same))

from-AreCandidates :
    (site : Text) (cutoff : ℕ) (candidates : List CandidateRecord) (seen : List Text)
    (totals : Totals) (read : List NormalizedCandidate × Totals)
    → normalize_from site cutoff candidates seen totals ≡ returned read
    → AreCandidates site (length candidates) read.0 × Apart seen read.0
unfolding normalize_from
from-AreCandidates site cutoff [] seen totals read e =
    subst (λ (x : List NormalizedCandidate × Totals). AreCandidates site 0 x.0 × Apart seen x.0)
      (value_of_returned _ read e) (record { distinct = tt; of_site = tt; all = refl }, tt)
from-AreCandidates site cutoff (candidate ∷ candidates) seen totals read e =
    through (normalize_candidate candidate site cutoff) _ read e λ c is_c e1.
      through_test (has seen c.batch_record_id) _ _ read e1 λ new e2.
        through (add_candidate c totals) _ read e2 λ added _ e3.
          through (normalize_from site cutoff candidates (c.batch_record_id ∷ seen) added) _ read e3
            λ rest is_rest e4.
              let (others, apart) =
                from-AreCandidates site cutoff candidates (c.batch_record_id ∷ seen) added rest
                  is_rest in
              let (old, unused) = Apart-tail c.batch_record_id seen rest.0 apart in
              subst
                (λ (x : List NormalizedCandidate × Totals).
                  AreCandidates site (suc (length candidates)) x.0 × Apart seen x.0)
                (value_of_returned _ read e4)
                (
                  record {
                    distinct = (unused, others.distinct);
                    of_site = (candidate_site candidate site cutoff c is_c, others.of_site);
                    all = ap suc others.all;
                  },
                  (new, old),
                )

pub candidates-AreCandidates :
    (candidates : List CandidateRecord) (policy : RetentionPolicy) (cs : List NormalizedCandidate)
    → normalize_candidates candidates policy ≡ returned cs
    → AreCandidates (of policy.site_id) (length candidates) cs
unfolding normalize_candidates
candidates-AreCandidates candidates policy cs e =
    through_test (ltb policy.max_batches (length candidates)) _ _ cs e λ few e1.
      through (parse_strict_utc_iso (of policy.cutoff) "cutoff") _ cs e1 λ cutoff _ e2.
        through (normalize_from (of policy.site_id) cutoff candidates [] _) _ cs e2
          λ read is_read e3.
            through_test (ltb policy.max_messages read.1.messages) _ _ cs e3 λ messages e4.
              through_test (ltb max_stream_records read.1.records) _ _ cs e4 λ records e5.
                let found =
                  (from-AreCandidates (of policy.site_id) cutoff candidates [] _ read is_read).0 in
                subst (AreCandidates (of policy.site_id) (length candidates))
                  (value_of_returned _ cs e5)
                  (record {
                    distinct = Distinct-sort compare_candidates read.0 found.distinct;
                    of_site =
                        sort-All compare_candidates (λ c. c.site_id ≡ of policy.site_id) read.0
                          found.of_site;
                    all = length-sort compare_candidates read.0 ∙ found.all;
                  })
