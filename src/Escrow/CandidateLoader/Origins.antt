-- ===== src/Escrow/CandidateLoader/Origins.antt =====
-- Where service/newsletter-retention-candidate-loader.ts has each field of a candidate from.
use mailgun_ses_proxy.Base.{
  ℕ, ◌+◌, ◌≡◌, refl, sym, ap, ◌∙◌, String, Bool-cases, not, ◌||◌, ◌⊎◌, inl, inr, none, some, List,
  [], ◌∷◌, map, ◌==◌, ==→eq, length, arith,
}
use mathlib.Core.Path.{subst}
use mailgun_ses_proxy.Base.Number.{Number, is_safe_integer, is_negative, floor, to_nat}
use mailgun_ses_proxy.Base.Attempt.{
  returned, map_attempt, through, through_test, value_of_returned, threw_not_returned,
}
use mailgun_ses_proxy.Retention.Candidates.{AllPairs, map_attempt-AllPairs}
use mailgun_ses_proxy.Escrow.Text.{Text, has}
use mailgun_ses_proxy.Escrow.Loader.Rows.{Date}
use mailgun_ses_proxy.Escrow.CandidateLoader.{
  MessageAggregate, BatchAggregate, CandidateDelegate, BatchSummary, CandidateState, MessageCount,
  normalize_count, normalize_message_id, normalize_row_id, normalize_batch_id, normalize_created_at,
  sum_from, normalize_batch_aggregate_row, normalize_messages_from, normalize_message_rows,
  count_batch_linked_orphans, load_with_messages, load_candidate,
}
use mailgun_ses_proxy.Escrow.CandidateLoader.Read.{sum, sum_from-sum}

abbrev pub events_of : MessageAggregate → ℕ
events_of m = to_nat (floor m.notification_events)

-- A candidate and the batch row that it was made of, with the message rows that were found for it.
pub record IsMadeOf (delegate : CandidateDelegate) (row : BatchAggregate) (c : CandidateState)
    : Type 0 where
  pub batch_record_id : c.batch_record_id ≡ row.id
  pub batch_id : c.batch_id ≡ row.batch_id
  pub created_at : row.created ≡ some c.created_at
  pub message_count : c.message_count ≡ to_nat (floor row.newsletters_messages)
  pub error_count : c.error_count ≡ to_nat (floor row.newsletters_errors)
  pub messages : List MessageAggregate
  pub found :
      ((c.message_count ≡ 0) × (messages ≡ []))
      ⊎ (delegate.find_messages row.id (c.message_count + 1) ≡ returned messages)
  pub message_ids : c.message_ids ≡ map (λ m. m.message_id) messages
  pub notification_count : c.notification_count ≡ sum (map events_of messages)

normalize_count_lem :
    (value : Number) (field : String) (n : ℕ)
    → normalize_count value field ≡ returned n
    → to_nat (floor value) ≡ n
unfolding normalize_count
normalize_count_lem value field n e =
    through_test (not (is_safe_integer value) || is_negative value) _ _ n e
      λ counted e1. value_of_returned (to_nat (floor value)) n e1

message_id_lem : (value t : Text) → normalize_message_id value ≡ returned t → value ≡ t
unfolding normalize_message_id
message_id_lem value t e = through_test _ _ _ t e λ given e1. value_of_returned value t e1

row_id_lem : (value t : Text) → normalize_row_id value ≡ returned t → value ≡ t
unfolding normalize_row_id
row_id_lem value t e = through_test _ _ _ t e λ given e1. value_of_returned value t e1

batch_id_lem : (value t : Text) → normalize_batch_id value ≡ returned t → value ≡ t
unfolding normalize_batch_id
batch_id_lem value t e = through_test _ _ _ t e λ given e1. value_of_returned value t e1

created_lem : (value : Date) (t : Text) → normalize_created_at value ≡ returned t → value ≡ some t
unfolding normalize_created_at
created_lem none t e = absurd (threw_not_returned e)
created_lem (some iso) t e = ap some (value_of_returned iso t e)

counts_lem :
    (rows : List MessageAggregate) (seen : List Text) (ms : List MessageCount)
    → normalize_messages_from rows seen ≡ returned ms
    → (map (λ m. m.0) ms ≡ map (λ (m : MessageAggregate). m.message_id) rows)
      × (sum (map (λ m. m.1) ms) ≡ sum (map events_of rows))
unfolding normalize_messages_from
counts_lem [] seen ms e =
    subst (λ (z : List MessageCount). (map (λ m. m.0) z ≡ []) × (sum (map (λ m. m.1) z) ≡ 0))
      (value_of_returned [] ms e) (refl, refl)
counts_lem (row ∷ rows) seen ms e =
    through (normalize_message_id row.message_id) _ ms e λ id is_id e1.
      through_test (has seen id) _ _ ms e1 λ new e2.
        through (normalize_count row.notification_events _) _ ms e2 λ events counted e3.
          through (normalize_messages_from rows (id ∷ seen)) _ ms e3 λ rest is_rest e4.
            let others = counts_lem rows (id ∷ seen) rest is_rest in
            let same_id = message_id_lem row.message_id id is_id in
            let same_count = normalize_count_lem row.notification_events _ events counted in
            subst
              (λ (z : List MessageCount).
                (map (λ m. m.0) z
                  ≡ row.message_id ∷ map (λ (m : MessageAggregate). m.message_id) rows)
                × (sum (map (λ m. m.1) z) ≡ events_of row + sum (map events_of rows)))
              (value_of_returned _ ms e4)
              (
                ap (λ x. x ∷ map (λ m. m.0) rest) (sym same_id)
                    ∙ ap (λ x. row.message_id ∷ x) others.0,
                omega (arith, same_count, others.1),
              )

-- A summary has the fields of its row.
record IsSummary (row : BatchAggregate) (s : BatchSummary) : Type 0 where
  batch_record_id : s.batch_record_id ≡ row.id
  batch_id : s.batch_id ≡ row.batch_id
  created_at : row.created ≡ some s.created_at
  message_count : s.message_count ≡ to_nat (floor row.newsletters_messages)
  error_count : s.error_count ≡ to_nat (floor row.newsletters_errors)

row-IsSummary :
    (row : BatchAggregate) (s : BatchSummary)
    → normalize_batch_aggregate_row row ≡ returned s
    → IsSummary row s
unfolding normalize_batch_aggregate_row
row-IsSummary row s e = through (normalize_count row.newsletters_errors _) _ s e λ errors x e1.
    through (normalize_count row.newsletters_messages _) _ s e1 λ messages m e2.
      through (normalize_row_id row.id) _ s e2 λ record_id r e3.
        through (normalize_batch_id row.batch_id) _ s e3 λ batch_id b e4.
          through (normalize_created_at row.created) _ s e4 λ created_at c e5.
            subst (IsSummary row) (value_of_returned _ s e5) (record {
              batch_record_id = sym (row_id_lem row.id record_id r);
              batch_id = sym (batch_id_lem row.batch_id batch_id b);
              created_at = created_lem row.created created_at c;
              message_count = sym (normalize_count_lem row.newsletters_messages _ messages m);
              error_count = sym (normalize_count_lem row.newsletters_errors _ errors x);
            })

module _ (delegate : CandidateDelegate) where
  messages-IsMadeOf :
      (row : BatchAggregate) (s : BatchSummary) (c : CandidateState)
      → IsSummary row s
      → load_with_messages delegate s ≡ returned c
      → IsMadeOf delegate row c
  unfolding load_with_messages normalize_message_rows
  messages-IsMadeOf row s c v e =
      through (delegate.find_messages s.batch_record_id (s.message_count + 1)) _ c e
        λ rows found e1.
          through (normalize_message_rows rows s.message_count) _ c e1 λ messages is_messages e2.
            through (sum_from 0 (map (λ m. m.1) messages) _) _ c e2 λ events counted e3.
              through (count_batch_linked_orphans delegate (map (λ m. m.0) messages)) _ c e3
                λ orphans is_orphans e4.
                  through_test (not (length rows == s.message_count)) _ _ messages is_messages
                    λ same rest.
                      let counts = counts_lem rows [] messages rest in
                      subst (IsMadeOf delegate row) (value_of_returned _ c e4) (record {
                        batch_record_id = v.batch_record_id;
                        batch_id = v.batch_id;
                        created_at = v.created_at;
                        message_count = v.message_count;
                        error_count = v.error_count;
                        messages = rows;
                        found = inr (
                            subst
                              (λ x. delegate.find_messages x (s.message_count + 1) ≡ returned rows)
                              v.batch_record_id found);
                        message_ids = counts.0;
                        notification_count = omega (
                          arith,
                          sum_from-sum 0 (map (λ m. m.1) messages) _ events counted,
                          counts.1,
                        );
                      })

  candidate-IsMadeOf :
      (row : BatchAggregate) (s : BatchSummary) (c : CandidateState)
      → IsSummary row s
      → load_candidate delegate s ≡ returned c
      → IsMadeOf delegate row c
  unfolding load_candidate
  candidate-IsMadeOf row s c v e = elim (Bool-cases (s.message_count == 0)) [
    | inl empty ↦
        subst (IsMadeOf delegate row) (value_of_returned _ c (rw (load_candidate, empty) at e))
          (record {
            batch_record_id = v.batch_record_id;
            batch_id = v.batch_id;
            created_at = v.created_at;
            message_count = sym (==→eq s.message_count 0 empty) ∙ v.message_count;
            error_count = v.error_count;
            messages = [];
            found = inl (refl, refl);
            message_ids = refl;
            notification_count = refl;
          })
    | inr filled ↦ messages-IsMadeOf row s c v (rw (load_candidate, filled) at e)
  ]

  pub candidates-AllPairs :
      (rows : List BatchAggregate) (summaries : List BatchSummary) (cs : List CandidateState)
      → map_attempt normalize_batch_aggregate_row rows ≡ returned summaries
      → map_attempt (load_candidate delegate) summaries ≡ returned cs
      → AllPairs (IsMadeOf delegate) rows cs
  candidates-AllPairs rows summaries cs r c =
      joined rows summaries cs
        (map_attempt-AllPairs IsSummary normalize_batch_aggregate_row row-IsSummary rows summaries
          r)
        (map_attempt-AllPairs (λ s x. load_candidate delegate s ≡ returned x)
          (load_candidate delegate) (λ s x h. h) summaries cs c)
    where
      joined :
          (rows : List BatchAggregate) (summaries : List BatchSummary) (cs : List CandidateState)
          → AllPairs IsSummary rows summaries
          → AllPairs (λ s x. load_candidate delegate s ≡ returned x) summaries cs
          → AllPairs (IsMadeOf delegate) rows cs
      joined [] [] [] h k = tt
      joined (r ∷ rs) (s ∷ ss) (x ∷ xs) h k =
          (candidate-IsMadeOf r s x h.0 k.0, joined rs ss xs h.1 k.1)
      joined [] [] (x ∷ xs) h k = k
      joined [] (s ∷ ss) cs h k = absurd h
      joined (r ∷ rs) [] cs h k = absurd h
      joined (r ∷ rs) (s ∷ ss) [] h k = k
