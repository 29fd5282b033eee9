-- ===== src/SqsWorker/Pool.antt =====
-- The bounded handler pool of lib/core/sqs-worker.ts: `processWithConcurrency`, one step for what runs
-- between two awaits, and `processSqsMessages` on top of it.
pub mod Accounts
pub mod Completion
pub mod Deletion
use mailgun_ses_proxy.Base.{
  ℕ, zero, suc, ◌+◌, ◌-◌, ◌≤◌, ◌<◌, ◌≡◌, refl, sym, ap, ◌∙◌, min, Bool, true, false, ◌&&◌, Option,
  none, some, List, [], ◌∷◌, ◌++◌, ltb, length, length-append, every, All, if◌then◌else◌, arith,
  Bool-cases, inl, inr,
}
use mailgun_ses_proxy.Base.Number.{Number}
use mailgun_ses_proxy.Base.Attempt.{Attempt, returned, threw}
use mailgun_ses_proxy.ErrorClass.{Thrown, error}
use mailgun_ses_proxy.SqsWorker.Limits.{normalize_sqs_worker_count, settings_bounds}
use mailgun_ses_proxy.SqsWorker.Acknowledge.{
  Message, DeleteReply, ackable, acknowledge, concat_all, FitsRequest, acknowledge_requests,
}
use mathlib.Core.List.{append-nil, append_assoc}

-- One of the concurrent loops: in an awaited handler call, left, or stopped by a HandlerTimeoutError.
pub data Slot : Type 0 where
  handling : Message → Slot
  ended timed_out : Slot

-- `queued` are the messages from the index of the loop on; `handled` logs the calls of the handler.
pub record Pool : Type 0 where
  pub queued : List Message
  pub slots : List Slot
  pub successful : List Message
  pub handled : List Message

-- How a handler call settles. A handler that runs into its deadline counts as `deadline`.
pub data Outcome : Type 0 where
  fulfils : Outcome
  fails : Thrown → Outcome
  deadline : Outcome

-- The head of the loop: the next message is taken and its handler is called, unless the worker is
-- shutting down or no message is left.
abbrev pub slot_of : Bool → List Message → Slot
slot_of shutdown [] = ended
slot_of shutdown (m ∷ ms) = if shutdown then ended else handling m

abbrev pub queue_of : Bool → List Message → List Message
queue_of shutdown [] = []
queue_of shutdown (m ∷ ms) = if shutdown then m ∷ ms else ms

abbrev pub call_of : Bool → List Message → List Message
call_of shutdown [] = []
call_of shutdown (m ∷ ms) = if shutdown then [] else m ∷ []

unfoldable pub start_slots : ℕ → Bool → Pool → Pool
start_slots zero shutdown pool = pool
start_slots (suc n) shutdown pool = start_slots n shutdown (record {
  queued = queue_of shutdown pool.queued;
  slots = slot_of shutdown pool.queued ∷ pool.slots;
  successful = pool.successful;
  handled = pool.handled ++ call_of shutdown pool.queued;
})

unfoldable pub start_pool : List Message → Option Number → Bool → Pool
unfolding start_slots
start_pool messages max_concurrency shutdown =
    start_slots (min (length messages) (normalize_sqs_worker_count max_concurrency)) shutdown
      (record { queued = messages; slots = []; successful = []; handled = [] })

-- The slot after its call settled, by the outcome: a success is kept, a deadline stops the loop.
abbrev pub success_of : Outcome → Message → List Message
success_of fulfils m = m ∷ []
success_of _ m = []

abbrev pub is_deadline : Outcome → Bool
is_deadline deadline = true
is_deadline _ = false

abbrev pub slot_at : ℕ → List Slot → Slot
slot_at n [] = ended
slot_at zero (s ∷ ss) = s
slot_at (suc n) (s ∷ ss) = slot_at n ss

abbrev pub set_slot : ℕ → Slot → List Slot → List Slot
set_slot n slot [] = []
set_slot zero slot (s ∷ ss) = slot ∷ ss
set_slot (suc n) slot (s ∷ ss) = s ∷ set_slot n slot ss

abbrev pub settle_slot : ℕ → Outcome → Bool → Pool → Slot → Pool
settle_slot n outcome shutdown pool ended = pool
settle_slot n outcome shutdown pool timed_out = pool
settle_slot n outcome shutdown pool (handling m) =
    if is_deadline outcome
    then record pool { slots = set_slot n timed_out pool.slots }
    else record {
      queued = queue_of shutdown pool.queued;
      slots = set_slot n (slot_of shutdown pool.queued) pool.slots;
      successful = pool.successful ++ success_of outcome m;
      handled = pool.handled ++ call_of shutdown pool.queued;
    }

-- The handler call of slot `n` settles, while the shutdown flag has the given value.
unfoldable pub settle_call : ℕ → Outcome → Bool → Pool → Pool
settle_call n outcome shutdown pool = settle_slot n outcome shutdown pool (slot_at n pool.slots)

-- One settled call after the other, in any order and with any outcomes.
abbrev pub Settlement : Type 0
Settlement = ℕ × Outcome × Bool

unfoldable pub run_pool : List Settlement → Pool → Pool
unfolding settle_call
run_pool [] pool = pool
run_pool ((n, outcome, shutdown) ∷ rest) pool = run_pool rest (settle_call n outcome shutdown pool)

abbrev is_ended : Slot → Bool
is_ended ended = true
is_ended _ = false

abbrev is_timed_out : Slot → Bool
is_timed_out timed_out = true
is_timed_out _ = false

abbrev any_timed_out : List Slot → Bool
any_timed_out [] = false
any_timed_out (s ∷ ss) = if is_timed_out s then true else any_timed_out ss

-- `Promise.all` of the loops, an error by its name: rejected with the first deadline, fulfilled when all have left, and
-- `none` before.
unfoldable pub pool_result : Pool → Option (Attempt (List Message))
pool_result pool =
    if any_timed_out pool.slots
    then some (threw "HandlerTimeoutError")
    else if every is_ended pool.slots
    then some (returned pool.successful)
    else none

abbrev pub acknowledged_by :
    (ℕ → DeleteReply) → Attempt (List Message) → Attempt (ℕ × List (List Message))
acknowledged_by sqs (threw e) = threw e
acknowledged_by sqs (returned successful) = returned (acknowledge sqs successful)

-- `processSqsMessages` once its pool has a result, with the delete requests it sends.
unfoldable pub process_sqs_messages :
    (ℕ → DeleteReply) → Pool → Option (Attempt (ℕ × List (List Message)))
unfolding pool_result
process_sqs_messages sqs pool = elim (pool_result pool) [
  | none ↦ none
  | some result ↦ some (acknowledged_by sqs result)
]
