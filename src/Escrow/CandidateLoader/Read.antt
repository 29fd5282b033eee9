-- ===== src/Escrow/CandidateLoader/Read.antt =====
-- What a candidate that service/newsletter-retention-candidate-loader.ts has read is.
use mailgun_ses_proxy.Base.{
  ℕ, suc, ◌+◌, ◌≡◌, refl, sym, ap, ◌∙◌, String, false, not, ◌||◌, ◌⊎◌, inl, inr, List, [], ◌∷◌, map,
  length, length-map, ltb, leb, ◌==◌, ==→eq, All, arith, Bool-cases,
}
use mathlib.Core.Path.{subst}
use mailgun_ses_proxy.Base.Number.{max_safe_integer}
use mailgun_ses_proxy.Base.Attempt.{returned, map_attempt, through, through_test, value_of_returned}
use mailgun_ses_proxy.Escrow.Text.{Text, ◌===◌, ===-sym, has, Distinct}
use mailgun_ses_proxy.Escrow.Loader.Sorted.{not_in_cons}
use mailgun_ses_proxy.Escrow.CandidateLoader.{
  MessageAggregate, CandidateDelegate, BatchSummary, CandidateState, MessageCount, normalize_count,
  normalize_message_id, safe_add_integers, sum_from, normalize_messages_from,
  normalize_message_rows, count_batch_linked_orphans, load_with_messages, load_candidate,
}

abbrev pub sum : List ℕ → ℕ
sum [] = 0
sum (n ∷ ns) = n + sum ns

pub sum_from-sum :
    (total : ℕ) (values : List ℕ) (field : String) (n : ℕ)
    → sum_from total values field ≡ returned n
    → n ≡ total + sum values
unfolding sum_from safe_add_integers
sum_from-sum total [] field n e = let same = value_of_returned total n e in omega (arith, same)
sum_from-sum total (v ∷ vs) field n e =
    through (safe_add_integers total v field) _ n e λ added is_added e1.
      through_test (not (leb total max_safe_integer) || not (leb v max_safe_integer)) _ _ added
        is_added
        λ safe a1. through_test (ltb max_safe_integer (total + v)) _ _ added a1 λ within a2.
          let same = value_of_returned (total + v) added a2 in
          omega (arith, same, sum_from-sum added vs field n e1)

-- Ids not among some and those after one of them.
unseen_tail :
    (id : Text) (seen ids : List Text)
    → All (λ t. has (id ∷ seen) t ≡ false) ids
    → All (λ t. has seen t ≡ false) ids × (has ids id ≡ false)
unfolding has
unseen_tail id seen [] a = (tt, refl)
unseen_tail id seen (t ∷ ts) a =
    let rest = unseen_tail id seen ts a.1 in
    let old : has seen t ≡ false = ground (arith, a.0) in
    let differs : (id === t) ≡ false = ground (arith, a.0) in
    ((old, rest.0), not_in_cons t ts id (===-sym t id ∙ differs) rest.1)

messages_from_lem :
    (rows : List MessageAggregate) (seen : List Text) (ms : List MessageCount)
    → normalize_messages_from rows seen ≡ returned ms
    → (length ms ≡ length rows)
      × Distinct (map (λ m. m.0) ms)
      × All (λ t. has seen t ≡ false) (map (λ m. m.0) ms)
unfolding normalize_messages_from
messages_from_lem [] seen ms e =
    subst
      (λ (z : List MessageCount).
        (length z ≡ 0)
        × Distinct (map (λ m. m.0) z)
        × All (λ t. has seen t ≡ false) (map (λ m. m.0) z))
      (value_of_returned [] ms e) (refl, tt, tt)
messages_from_lem (row ∷ rows) seen ms e =
    through (normalize_message_id row.message_id) _ ms e λ id is_id e1.
      through_test (has seen id) _ _ ms e1 λ new e2.
        through (normalize_count row.notification_events _) _ ms e2 λ events counted e3.
          through (normalize_messages_from rows (id ∷ seen)) _ ms e3 λ rest is_rest e4.
            let others = messages_from_lem rows (id ∷ seen) rest is_rest in
            let tail = unseen_tail id seen (map (λ m. m.0) rest) others.2 in
            subst
              (λ (z : List MessageCount).
                (length z ≡ suc (length rows))
                × Distinct (map (λ m. m.0) z)
                × All (λ t. has seen t ≡ false) (map (λ m. m.0) z))
              (value_of_returned _ ms e4) (ap suc others.0, (tail.1, others.1), (new, tail.0))

-- A candidate as it was read: its messages are distinct and as many as it says, and its orphans
-- are those that the database counts for them, none if there are no messages.
pub record IsRead (delegate : CandidateDelegate) (c : CandidateState) : Type 0 where
  pub distinct : Distinct c.message_ids
  pub all : length c.message_ids ≡ c.message_count
  pub orphans :
      ((c.message_count ≡ 0) × (c.orphan_count ≡ 0))
      ⊎ (count_batch_linked_orphans delegate c.message_ids ≡ returned c.orphan_count)

with_messages-IsRead :
    (delegate : CandidateDelegate) (summary : BatchSummary) (c : CandidateState)
    → load_with_messages delegate summary ≡ returned c
    → IsRead delegate c × (c.message_count ≡ summary.message_count)
unfolding load_with_messages normalize_message_rows
with_messages-IsRead delegate summary c e =
    through (delegate.find_messages summary.batch_record_id (summary.message_count + 1)) _ c e
      λ rows found e1.
        through (normalize_message_rows rows summary.message_count) _ c e1
          λ messages is_messages e2.
            through (sum_from 0 (map (λ m. m.1) messages) _) _ c e2 λ events counted e3.
              through (count_batch_linked_orphans delegate (map (λ m. m.0) messages)) _ c e3
                λ orphans is_orphans e4.
                  through_test (not (length rows == summary.message_count)) _ _ messages is_messages
                    λ same rest.
                      let read = messages_from_lem rows [] messages rest in
                      subst
                        (λ (x : CandidateState).
                          IsRead delegate x × (x.message_count ≡ summary.message_count))
                        (value_of_returned _ c e4)
                        (
                          record {
                            distinct = read.1;
                            all = ground (arith, length-map messages (λ m. m.0), read.0, same);
                            orphans = inr is_orphans;
                          },
                          refl,
                        )

pub candidate-IsRead :
    (delegate : CandidateDelegate) (summary : BatchSummary) (c : CandidateState)
    → load_candidate delegate summary ≡ returned c
    → IsRead delegate c × (c.message_count ≡ summary.message_count)
unfolding load_candidate
candidate-IsRead delegate summary c e = elim (Bool-cases (summary.message_count == 0)) [
  | inl none ↦
      subst (λ (x : CandidateState). IsRead delegate x × (x.message_count ≡ summary.message_count))
        (value_of_returned _ c (rw (load_candidate, none) at e))
        (
          record { distinct = tt; all = refl; orphans = inl (refl, refl) },
          sym (==→eq summary.message_count 0 none),
        )
  | inr some ↦ with_messages-IsRead delegate summary c (rw (load_candidate, some) at e)
]

-- The counts of the messages, read in the same order.
pub counts_read :
    (delegate : CandidateDelegate) (summaries : List BatchSummary) (cs : List CandidateState)
    → map_attempt (load_candidate delegate) summaries ≡ returned cs
    → sum (map (λ c. c.message_count) cs) ≡ sum (map (λ s. s.message_count) summaries)
unfolding map_attempt
counts_read delegate [] cs e =
    ap (λ (x : List CandidateState). sum (map (λ c. c.message_count) x))
      (sym (value_of_returned [] cs e))
counts_read delegate (s ∷ ss) cs e = through (load_candidate delegate s) _ cs e λ c is_c e1.
    through (map_attempt (load_candidate delegate) ss) _ cs e1 λ rest is_rest e2.
      let same =
        ap (λ (x : List CandidateState). sum (map (λ c. c.message_count) x))
          (value_of_returned _ cs e2) in
      omega
        (arith, same, (candidate-IsRead delegate s c is_c).1, counts_read delegate ss rest is_rest)
