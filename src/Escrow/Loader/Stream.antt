-- ===== src/Escrow/Loader/Stream.antt =====
-- The records that service/newsletter-retention-escrow-loader.ts yields are those of well-formed
-- batches.
use mailgun_ses_proxy.Base.{
  ℕ, suc, ◌+◌, arith, ◌≡◌, refl, sym, ◌∙◌, Option, none, some, List, [], ◌∷◌, length, All,
}
use mathlib.Core.Path.{subst}
use mailgun_ses_proxy.Base.Attempt.{Attempt, returned, threw, ◌>>=◌}
use mailgun_ses_proxy.Retention.Policy.{
  PolicyInput, RetentionPolicy, parse_newsletter_retention_policy,
}
use mailgun_ses_proxy.Escrow.Text.{Text, of, has, Distinct}
use mailgun_ses_proxy.Escrow.Record.{
  Row, newsletter_message, newsletter_error, newsletter_notification, EscrowRecord,
}
use mailgun_ses_proxy.Escrow.Spec.{Manifest, at_index, records_of, batch_ids, IsWellFormed}
use mailgun_ses_proxy.Escrow.Loader.{
  Delegate, SnapshotUniqueKeys, Loaded, load_batch, yielded, yielded_batch, after_load, stream_from,
  prepare, streamed, stream_escrow_records,
}
use mailgun_ses_proxy.Escrow.Loader.Candidates.{
  CandidateRecord, NormalizedCandidate, normalize_candidates,
}
use mailgun_ses_proxy.Escrow.Loader.Snapshot.{seen_of, manifest_of}
use mailgun_ses_proxy.Escrow.Loader.Batch.{batch-IsLoaded}
use mailgun_ses_proxy.Escrow.Loader.Sorted.{ids_of, Apart, Apart-cons, candidates-AreCandidates}

-- The records of a stream that ends without a throw, the last first, on records before.
abbrev pub history : List (Attempt EscrowRecord) → List EscrowRecord → Option (List EscrowRecord)
history [] before = some before
history (returned r ∷ rest) before = history rest (r ∷ before)
history (threw message ∷ rest) before = none

module _ {A : Type 0} (index : ℕ) (kind : A → Row) where
  history-yielded :
      (rows : List A) (rest : List (Attempt EscrowRecord)) (before : List EscrowRecord)
      → history (yielded index kind rows rest) before
        ≡ history rest (at_index index kind rows before)
  history-yielded [] rest before = refl
  history-yielded (row ∷ rows) rest before =
      history-yielded rows (returned (record { manifest_index = index; row = kind row }) ∷ rest)
        before

history-batch :
    (ms : List Manifest) (loaded : Loaded) (rest : List (Attempt EscrowRecord))
    → history (yielded_batch (length ms) loaded rest) (records_of ms)
      ≡ history rest (records_of (manifest_of loaded ∷ ms))
history-batch ms loaded rest =
    history-yielded (length ms) newsletter_message loaded.messages _ _
    ∙ history-yielded (length ms) newsletter_error loaded.errors _ _
    ∙ history-yielded (length ms) newsletter_notification loaded.notifications rest _

-- Well-formed batches with these records, as many as candidates.
pub record AreRecords (site : Text) (n : ℕ) (records : List EscrowRecord) : Type 0 where
  pub batches : List Manifest
  pub well_formed : IsWellFormed site batches
  pub as_records : records ≡ records_of batches
  pub all : length batches ≡ n

some_value : (a b : List EscrowRecord) → some a ≡ some b → a ≡ b
some_value a b e = cc

none_not_some : {a : List EscrowRecord} → none ≡ some a → ⊥
none_not_some e = cc

nothing : {site : Text} → IsWellFormed site []
nothing = record {
  complete = tt;
  batches = tt;
  message_rows = tt;
  messages = tt;
  error_rows = tt;
  error_messages = tt;
  notification_rows = tt;
  notifications = tt;
}

nothing-Apart : (cs : List NormalizedCandidate) → Apart [] cs
unfolding has
nothing-Apart [] = tt
nothing-Apart (c ∷ cs) = (refl, nothing-Apart cs)

module _ (delegate : Delegate) (cutoff site : Text) where
  stream-AreRecords :
      (candidates : List NormalizedCandidate) (ms : List Manifest) (records : List EscrowRecord)
      → IsWellFormed site ms
      → All (λ c. c.site_id ≡ site) candidates
      → Distinct (ids_of candidates)
      → Apart (batch_ids ms) candidates
      → history (stream_from delegate cutoff (length ms) candidates (seen_of ms)) (records_of ms)
        ≡ some records
      → AreRecords site (length candidates + length ms) records
  unfolding stream_from
  stream-AreRecords [] ms records w s d a e = record {
    batches = ms;
    well_formed = w;
    as_records = some_value records (records_of ms) (sym e);
    all = omega arith;
  }
  stream-AreRecords (c ∷ cs) ms records w s d a e =
      by_load (load_batch delegate cutoff c (seen_of ms)) refl e
        (λ m well apart ended. stream-AreRecords cs (m ∷ ms) records well s.1 d.1 apart ended)
    where
      by_load :
          (r : Attempt (Loaded × SnapshotUniqueKeys))
          → load_batch delegate cutoff c (seen_of ms) ≡ r
          → history
              (after_load
                (length ms)
                r
                (λ keys. stream_from delegate cutoff (suc (length ms)) cs keys))
              (records_of ms)
            ≡ some records
          → ((m : Manifest)
              → IsWellFormed site (m ∷ ms)
              → Apart (batch_ids (m ∷ ms)) cs
              → history
                  (stream_from delegate cutoff (suc (length ms)) cs (seen_of (m ∷ ms)))
                  (records_of (m ∷ ms))
                ≡ some records
              → AreRecords site (length cs + suc (length ms)) records)
          → AreRecords site (suc (length cs) + length ms) records
      by_load (threw message) is_r ended again = absurd (none_not_some ended)
      by_load (returned loaded) is_r ended again =
          let found = batch-IsLoaded delegate cutoff c ms loaded is_r in
          let rest =
            again (manifest_of loaded.0)
              (subst (λ x. IsWellFormed x (manifest_of loaded.0 ∷ ms)) s.0
                (found.well_formed (subst (λ x. IsWellFormed x ms) (sym s.0) w) a.0))
              (subst (λ id. Apart (id ∷ batch_ids ms) cs) (sym found.id)
                (Apart-cons c.batch_record_id (batch_ids ms) cs a.1 d.0))
              (subst
                (λ keys.
                  history (stream_from delegate cutoff (suc (length ms)) cs keys)
                    (records_of (manifest_of loaded.0 ∷ ms))
                  ≡ some records)
                found.keys
                (sym (
                    history-batch ms loaded.0
                      (stream_from delegate cutoff (suc (length ms)) cs loaded.1))
                  ∙ ended)) in
          record {
            batches = rest.batches;
            well_formed = rest.well_formed;
            as_records = rest.as_records;
            all = omega (arith, rest.all);
          }

-- If the stream for a policy and candidates ends without an error, then its records are those of
-- well-formed batches of the policy's site, in their order, with one batch for each candidate.
pub stream_records-AreRecords :
    (delegate : Delegate) (input : PolicyInput) (policy : RetentionPolicy)
    (candidates : List CandidateRecord) (records : List EscrowRecord)
    → parse_newsletter_retention_policy input ≡ returned policy
    → history (stream_escrow_records delegate input candidates) [] ≡ some records
    → AreRecords (of policy.site_id) (length candidates) records
unfolding stream_escrow_records prepare
stream_records-AreRecords delegate input policy candidates records parsed e =
    by_candidates (normalize_candidates candidates policy) refl
      (rw (stream_escrow_records, prepare, parsed) at e)
  where
    by_candidates :
        (r : Attempt (List NormalizedCandidate))
        → normalize_candidates candidates policy ≡ r
        → history (streamed delegate (r >>= λ normalized. returned (policy, normalized))) []
          ≡ some records
        → AreRecords (of policy.site_id) (length candidates) records
    by_candidates (threw message) is_r ended = absurd (none_not_some ended)
    by_candidates (returned cs) is_r ended =
        let found = candidates-AreCandidates candidates policy cs is_r in
        let rest =
          stream-AreRecords delegate (of policy.cutoff) (of policy.site_id) cs [] records nothing
            found.of_site found.distinct (nothing-Apart cs) ended in
        record {
          batches = rest.batches;
          well_formed = rest.well_formed;
          as_records = rest.as_records;
          all = omega (arith, rest.all, found.all);
        }
