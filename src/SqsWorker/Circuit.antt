-- ===== src/SqsWorker/Circuit.antt =====
-- The circuit breaker of lib/core/sqs-worker.ts. Marking the worker dead is part of it.
use mailgun_ses_proxy.Base.{
  ℕ, suc, ◌+◌, ◌≡◌, String, Bool, false, not, ◌&&◌, ◌||◌, ltb, leb, ◌==◌, if◌then◌else◌, arith,
}
use mailgun_ses_proxy.Registry.{Registry, mark_worker_dead}
use mailgun_ses_proxy.ErrorClass.{value}

abbrev pub max_consecutive_errors : ℕ
max_consecutive_errors = 50

pub record Circuit : Type 0 where
  pub consecutive_errors : ℕ
  pub should_exit : Bool

-- The reason handed to the registry is a text, not an Error.
unfoldable pub consecutive_failure : String → ℕ → Registry → Circuit × Registry
consecutive_failure name previous_failures r =
    let failures = previous_failures + 1 in
    (
      record { consecutive_errors = failures; should_exit = leb max_consecutive_errors failures },
      if leb max_consecutive_errors failures then mark_worker_dead name value r else r,
    )

-- `received` is the number of messages, 0 also where SQS returned none.
unfoldable pub circuit_breaker_after_poll :
    String → (received acknowledged previous_failures : ℕ) → Registry → Circuit × Registry
unfolding consecutive_failure
circuit_breaker_after_poll name received acknowledged previous_failures r =
    if received == 0
    then (record { consecutive_errors = previous_failures; should_exit = false }, r)
    else if ltb 0 acknowledged
    then (record { consecutive_errors = 0; should_exit = false }, r)
    else consecutive_failure name previous_failures r

unfoldable pub is_healthy_sqs_poll : (received acknowledged : ℕ) → Bool
is_healthy_sqs_poll received acknowledged = received == 0 || ltb 0 acknowledged

-- The breaker opens exactly when a non-empty poll without a confirmed acknowledgement is the 50th in
-- a row; an acknowledgement clears the count, and an idle poll leaves it.
pub circuit_breaker_lem :
    (name : String) (received acknowledged previous_failures : ℕ) (r : Registry)
    → ((circuit_breaker_after_poll name received acknowledged previous_failures r).0.should_exit
        ≡ (not (is_healthy_sqs_poll received acknowledged) && leb 49 previous_failures))
      × ((circuit_breaker_after_poll name received acknowledged previous_failures
            r).0.consecutive_errors
          ≡ (if is_healthy_sqs_poll received acknowledged
              then (if received == 0 then previous_failures else 0)
              else suc previous_failures))
unfolding circuit_breaker_after_poll is_healthy_sqs_poll
circuit_breaker_lem name received acknowledged previous_failures r = ground arith
