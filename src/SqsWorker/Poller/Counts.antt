-- ===== src/SqsWorker/Poller/Counts.antt =====
-- What the operations of lib/core/worker-registry.ts do to the count of batches in flight, as the
-- pollers of lib/core/sqs-worker.ts call them.
use mailgun_ses_proxy.Base.{
  ℕ, ◌+◌, ◌≡◌, ap, ◌∙◌, String, Bool, true, false, some, eq_refl, if◌then◌else◌, ltb, leb, ◌==◌,
  arith, Bool-cases, inl, inr,
}
use mailgun_ses_proxy.Base.Dict.{get, modify, get-modify, map_found}
use mailgun_ses_proxy.Base.Number.{Number}
use mailgun_ses_proxy.ErrorClass.{Thrown}
use mailgun_ses_proxy.Registry.{
  Registry, StoredWorker, ProcessingUpdate, heartbeat, begin_worker_processing,
  end_worker_processing, record_worker_processing, mark_worker_dead, beat, begin, finish, tally,
  kill,
}
use mailgun_ses_proxy.SqsWorker.Circuit.{consecutive_failure, circuit_breaker_after_poll}

module _ (name : String) where
  -- The worker is registered and has `n` batches in flight.
  pub record Counts (n : ℕ) (r : Registry) : Type 0 where
    pub entry : StoredWorker
    pub found : get name r ≡ some entry
    pub count : entry.processing_count ≡ n

  pub modify-Counts :
      (f : StoredWorker → StoredWorker) (n k : ℕ) (r : Registry)
      → ((entry : StoredWorker) → entry.processing_count ≡ n → (f entry).processing_count ≡ k)
      → Counts n r
      → Counts k (modify name f r)
  modify-Counts f n k r h v = record {
    entry = f v.entry;
    found = get-modify name name f r ∙ rw (eq_refl name) (ap (map_found f) v.found);
    count = h v.entry v.count;
  }

  pub heartbeat-Counts : (now n : ℕ) (r : Registry) → Counts n r → Counts n (heartbeat name now r)
  unfolding heartbeat
  heartbeat-Counts now n r v = modify-Counts (beat now) n n r (λ entry h. h) v

  pub record-Counts :
      (update : ProcessingUpdate) (now n : ℕ) (r : Registry)
      → Counts n r
      → Counts n (record_worker_processing name update now r)
  unfolding record_worker_processing
  record-Counts update now n r v = modify-Counts (tally now update) n n r (λ entry h. h) v

  pub dead-Counts :
      (thrown : Thrown) (n : ℕ) (r : Registry)
      → Counts n r
      → Counts n (mark_worker_dead name thrown r)
  unfolding mark_worker_dead
  dead-Counts thrown n r v = modify-Counts (kill thrown) n n r (λ entry h. h) v

  pub begin-Counts :
      (deadline_ms : Number) (now n : ℕ) (r : Registry)
      → Counts n r
      → Counts (n + 1) (begin_worker_processing name deadline_ms now r)
  unfolding begin_worker_processing
  begin-Counts deadline_ms now n r v =
      modify-Counts (begin now deadline_ms) n (n + 1) r (λ entry h. ap (λ z. z + 1) h) v

  pub end-Counts :
      (n : ℕ) (r : Registry) → Counts (n + 1) r → Counts n (end_worker_processing name r)
  unfolding end_worker_processing
  end-Counts n r v = modify-Counts finish (n + 1) n r (λ entry h. ground (arith, h)) v

  pub failure-Counts :
      (errors n : ℕ) (r : Registry) → Counts n r → Counts n ((consecutive_failure name errors r).1)
  unfolding consecutive_failure
  failure-Counts errors n r v = elim (Bool-cases (leb 50 (errors + 1))) [
    | inl opens ↦ rw opens (dead-Counts _ n r v)
    | inr holds ↦ rw holds v
  ]

  pub breaker-Counts :
      (received acknowledged errors n : ℕ) (r : Registry)
      → Counts n r
      → Counts n ((circuit_breaker_after_poll name received acknowledged errors r).1)
  unfolding circuit_breaker_after_poll
  breaker-Counts received acknowledged errors n r v = by_tests (received == 0) (ltb 0 acknowledged)
    where
      by_tests :
          (idle acked : Bool)
          → Counts n (
              (if idle
                then (record { consecutive_errors = errors; should_exit = false }, r)
                else if acked
                then (record { consecutive_errors = 0; should_exit = false }, r)
                else consecutive_failure name errors r).1)
      by_tests true acked = v
      by_tests false true = v
      by_tests false false = failure-Counts errors n r v
