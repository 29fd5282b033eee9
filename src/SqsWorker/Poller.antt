-- ===== src/SqsWorker/Poller.antt =====
-- `runPoller` and the end of `startWorker` in lib/core/sqs-worker.ts: one step for what runs between
-- two awaits of a poller. The pollers of a worker share its entry of the registry.
pub mod Group
pub mod Bounds
pub mod Counts
pub mod Busy
pub mod Drain
pub mod Ending
use mailgun_ses_proxy.Base.{
  ℕ, zero, suc, ◌+◌, ◌-◌, ◌*◌, min, max, String, Bool, true, false, not, ◌&&◌, ◌||◌, Option, none,
  some, List, [], ◌∷◌, ltb, length, every, str_eq, if◌then◌else◌,
}
use mailgun_ses_proxy.Base.Number.{Number, nat}
use mailgun_ses_proxy.Base.Attempt.{Attempt, returned, threw}
use mailgun_ses_proxy.ErrorClass.{Thrown, error, value, codes}
use mailgun_ses_proxy.Registry.{
  Registry, ProcessingUpdate, heartbeat, begin_worker_processing, end_worker_processing,
  record_worker_processing, mark_worker_dead,
}
use mailgun_ses_proxy.SqsWorker.Limits.{parse_sqs_count}
use mailgun_ses_proxy.SqsWorker.Circuit.{
  Circuit, consecutive_failure, circuit_breaker_after_poll, is_healthy_sqs_poll,
}
use mailgun_ses_proxy.SqsWorker.Acknowledge.{Message}

-- The oldest age among the messages whose timestamp is a safe decimal number.
abbrev older_of : Option ℕ → ℕ → ℕ
older_of none age = age
older_of (some oldest) age = max oldest age

abbrev age_with : ℕ → Option ℕ → Option ℕ → Option ℕ
age_with now oldest none = oldest
age_with now oldest (some timestamp) = some (older_of oldest (now - timestamp))

abbrev age_from : ℕ → Option ℕ → List Message → Option ℕ
age_from now oldest [] = oldest
age_from now oldest (m ∷ ms) =
    age_from now (age_with now oldest (parse_sqs_count m.sent_timestamp)) ms

unfoldable pub observed_message_age_ms : ℕ → List Message → Option ℕ
observed_message_age_ms now messages = age_from now none messages

-- How a poller ends: it breaks out of its loop, it returns after the 50th error in a row, or it
-- throws the HandlerTimeoutError.
pub data End : Type 0 where
  leaves gives_up throws : End

-- `at_head` is before the test of the loop, at the start, after a turn or after the sleep of a failed
-- one; `yielding` is behind it, in the await of `setImmediate`. A turn without a sleep goes to the
-- test without an await, so that the steps allow more interleavings than the code.
pub data PollPhase : Type 0 where
  at_head yielding receiving : PollPhase
  handling_batch : List Message → PollPhase
  stopped : End → PollPhase

pub record Poller : Type 0 where
  pub poll_backoff_ms : ℕ
  pub consecutive_errors : ℕ
  pub phase : PollPhase

abbrev pub poll_backoff_min_ms : ℕ
poll_backoff_min_ms = 1000

abbrev pub poll_backoff_max_ms : ℕ
poll_backoff_max_ms = 30000

abbrev pub new_poller : Poller
new_poller = record {
  poll_backoff_ms = poll_backoff_min_ms;
  consecutive_errors = 0;
  phase = at_head;
}

-- What a poller waits for: to go on, to the test of the loop or behind `setImmediate`; the answer to its receive
-- request, where no messages are the empty list; or `processSqsMessages`, by the count it returns or
-- the name of what it throws.
pub data PollEvent : Type 0 where
  continues : PollEvent
  receives : List Message → PollEvent
  receive_fails : Thrown → PollEvent
  handles : Attempt ℕ → PollEvent

abbrev pub is_abort_error : Thrown → Bool
is_abort_error (error name) = str_eq name "AbortError"
is_abort_error value = false

abbrev pub errors_only : ℕ → Option (Option Number) → ProcessingUpdate
errors_only errors age = record {
  received = none;
  acked = none;
  failed = none;
  consecutive_errors = some (nat errors);
  last_message_age_ms = age;
}

abbrev nat_age : Option ℕ → Option Number
nat_age none = none
nat_age (some age) = some (nat age)

abbrev pub give_up : ℕ → Poller → Poller
give_up errors p = record p { consecutive_errors = errors; phase = stopped gives_up }

abbrev pub back_off : ℕ → Poller → Poller
back_off errors p = record {
  poll_backoff_ms = min (p.poll_backoff_ms * 2) poll_backoff_max_ms;
  consecutive_errors = errors;
  phase = at_head;
}

-- The shared end of both catch clauses.
abbrev pub retry : String → ℕ → Poller → Registry → Poller × Registry
retry name now p r =
    let failure = consecutive_failure name p.consecutive_errors r in
    let errors = failure.0.consecutive_errors in
    let recorded = record_worker_processing name (errors_only errors none) now failure.1 in
    if failure.0.should_exit then (give_up errors p, recorded) else (back_off errors p, recorded)

abbrev pub take_batch :
    String → Number → ℕ → Bool → List Message → Poller → Registry → Poller × Registry
take_batch name deadline_ms now shutdown [] p r =
    if shutdown
    then (record p { poll_backoff_ms = poll_backoff_min_ms; phase = stopped leaves }, r)
    else (
      record p { poll_backoff_ms = poll_backoff_min_ms; phase = at_head },
      heartbeat name now
          (record_worker_processing name (errors_only p.consecutive_errors (some none)) now r),
    )
take_batch name deadline_ms now shutdown (m ∷ ms) p r =
    if shutdown
    then (record p { poll_backoff_ms = poll_backoff_min_ms; phase = stopped leaves }, r)
    else (
      record p { poll_backoff_ms = poll_backoff_min_ms; phase = handling_batch (m ∷ ms) },
      begin_worker_processing name deadline_ms now (heartbeat name now r),
    )

abbrev pub batch_update : ℕ → List Message → (acknowledged errors : ℕ) → ProcessingUpdate
batch_update now messages acknowledged errors = record {
  received = some (nat (length messages));
  acked = some (nat acknowledged);
  failed = some (nat (length messages - acknowledged));
  consecutive_errors = some (nat errors);
  last_message_age_ms = some (nat_age (observed_message_age_ms now messages));
}

-- The next turn, or the end for a poller whose breaker is open.
abbrev pub next_turn : Bool → ℕ → Poller → Poller
next_turn exits errors p = record p {
  consecutive_errors = errors;
  phase = if exits then stopped gives_up else at_head;
}

-- After `endWorkerProcessing`.
abbrev pub conclude : String → ℕ → List Message → ℕ → Poller → Registry → Poller × Registry
conclude name now messages acknowledged p r =
    let circuit =
      circuit_breaker_after_poll name (length messages) acknowledged p.consecutive_errors r in
    let errors = circuit.0.consecutive_errors in
    let recorded =
      record_worker_processing name (batch_update now messages acknowledged errors) now circuit.1 in
    if is_healthy_sqs_poll (length messages) acknowledged
    then (next_turn false errors p, heartbeat name now recorded)
    else (next_turn circuit.0.should_exit errors p, recorded)

abbrev pub finish_batch :
    String → ℕ → List Message → Attempt ℕ → Poller → Registry → Poller × Registry
finish_batch name now messages (returned acknowledged) p r =
    conclude name now messages acknowledged p (end_worker_processing name r)
finish_batch name now messages (threw e) p r =
    if str_eq e "HandlerTimeoutError"
    then (record p { phase = stopped throws }, end_worker_processing name r)
    else retry name now p (end_worker_processing name r)

-- `shutdown` and `aborted` are the two flags as the event finds them. An event that the poller does
-- not wait for changes nothing.
unfoldable pub poll :
    String
    → Number
    → ℕ
    → (shutdown aborted : Bool) → PollEvent
    → PollPhase
    → Poller
    → Registry
    → Poller × Registry
poll name deadline_ms now shutdown aborted continues at_head p r =
    (record p { phase = if shutdown || aborted then stopped leaves else yielding }, r)
poll name deadline_ms now shutdown aborted continues yielding p r =
    (record p { phase = receiving }, r)
poll name deadline_ms now shutdown aborted (receives messages) receiving p r =
    take_batch name deadline_ms now shutdown messages p r
poll name deadline_ms now shutdown aborted (receive_fails e) receiving p r =
    if is_abort_error e && (shutdown || aborted)
    then (record p { phase = stopped leaves }, r)
    else retry name now p r
poll name deadline_ms now shutdown aborted (handles result) (handling_batch messages) p r =
    finish_batch name now messages result p r
poll name deadline_ms now shutdown aborted _ _ p r = (p, r)
