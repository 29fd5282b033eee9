-- ===== src/SqsWorker/Pool/Deletion.antt =====
-- Which messages `processSqsMessages` of lib/core/sqs-worker.ts deletes from the queue.
use mailgun_ses_proxy.Base.{
  ℕ, zero, suc, min, ◌++◌, refl, ◌≤◌, ◌≡◌, sym, ap, ◌∙◌, Bool, true, false, Option, none, some,
  List, [], ◌∷◌, length, every, if◌then◌else◌, arith, Bool-cases, inl, inr,
}
use mathlib.Core.List.{append-nil, append_assoc}
use mailgun_ses_proxy.Base.Number.{Number}
use mailgun_ses_proxy.Base.Attempt.{Attempt, returned, threw}
use mailgun_ses_proxy.SqsWorker.Limits.{normalize_sqs_worker_count}
use mailgun_ses_proxy.SqsWorker.Acknowledge.{
  Message, DeleteReply, has_receipt_handle, ackable, acknowledge, concat_all, acknowledge_requests,
}
use mailgun_ses_proxy.SqsWorker.Pool.{
  Pool, Settlement, start_pool, run_pool, pool_result, acknowledged_by, process_sqs_messages,
  any_timed_out, is_ended, Slot, handling, ended, timed_out, Outcome, fulfils, fails, deadline,
  slot_at, settle_slot, settle_call, start_slots,
}
use mailgun_ses_proxy.SqsWorker.Pool.Accounts.{count_by, pool_accounts}

count-ackable : (p : Message → Bool) (ms : List Message) → count_by p (ackable ms) ≤ count_by p ms
count-ackable p [] = omega arith
count-ackable p (m ∷ ms) = elim (Bool-cases (has_receipt_handle m)) [
  | inl held ↦ rw held (omega (arith, count-ackable p ms))
  | inr lost ↦ rw lost (omega (arith, count-ackable p ms))
]

-- What was sent for deletion, from the successes of the pool.
record Deletes (sqs : ℕ → DeleteReply) (pool : Pool) (n : ℕ) (sent : List (List Message))
    : Type 0 where
  count : (acknowledge sqs pool.successful).0 ≡ n
  requests : (acknowledge sqs pool.successful).1 ≡ sent

result-Deletes :
    (sqs : ℕ → DeleteReply) (pool : Pool) (n : ℕ) (sent : List (List Message))
    → process_sqs_messages sqs pool ≡ some (returned (n, sent))
    → Deletes sqs pool n sent
unfolding process_sqs_messages pool_result
result-Deletes sqs pool n sent e = by_tests (any_timed_out pool.slots) (every is_ended pool.slots) e
  where
    ended_as : Option (Attempt (List Message)) → Option (Attempt (ℕ × List (List Message)))
    ended_as none = none
    ended_as (some result) = some (acknowledged_by sqs result)

    by_tests :
        (late all : Bool)
        → ended_as (
            if late
            then some (threw "HandlerTimeoutError")
            else if all
            then some (returned pool.successful)
            else none)
          ≡ some (returned (n, sent))
        → Deletes sqs pool n sent
    by_tests true all e = cc
    by_tests false false e = cc
    by_tests false true e =
        let same : acknowledge sqs pool.successful ≡ (n, sent) = cc in
        record { count = ap (λ z. z.0) same; requests = ap (λ z. z.1) same }

-- The messages whose handler call settles without an error, read off the settlements: the outcome
-- of a call is that of the message that its loop handles then.
abbrev pub fulfilled_message : Outcome → Slot → List Message
fulfilled_message fulfils (handling m) = m ∷ []
fulfilled_message fulfils ended = []
fulfilled_message fulfils timed_out = []
fulfilled_message (fails thrown) slot = []
fulfilled_message deadline slot = []

abbrev pub fulfilled : List Settlement → Pool → List Message
fulfilled [] pool = []
fulfilled ((n, outcome, shutdown) ∷ rest) pool =
    fulfilled_message outcome (slot_at n pool.slots)
    ++ fulfilled rest (settle_call n outcome shutdown pool)

settled-successful :
    (n : ℕ) (outcome : Outcome) (shutdown : Bool) (pool : Pool) (slot : Slot)
    → (settle_slot n outcome shutdown pool slot).successful
      ≡ pool.successful ++ fulfilled_message outcome slot
settled-successful n fulfils shutdown pool ended = sym (append-nil pool.successful)
settled-successful n fulfils shutdown pool timed_out = sym (append-nil pool.successful)
settled-successful n fulfils shutdown pool (handling m) = refl
settled-successful n (fails thrown) shutdown pool ended = sym (append-nil pool.successful)
settled-successful n (fails thrown) shutdown pool timed_out = sym (append-nil pool.successful)
settled-successful n (fails thrown) shutdown pool (handling m) = refl
settled-successful n deadline shutdown pool ended = sym (append-nil pool.successful)
settled-successful n deadline shutdown pool timed_out = sym (append-nil pool.successful)
settled-successful n deadline shutdown pool (handling m) = sym (append-nil pool.successful)

run-successful :
    (events : List Settlement) (pool : Pool)
    → (run_pool events pool).successful ≡ pool.successful ++ fulfilled events pool
unfolding run_pool settle_call
run-successful [] pool = sym (append-nil pool.successful)
run-successful ((n, outcome, shutdown) ∷ rest) pool =
    let slot = slot_at n pool.slots in
    run-successful rest (settle_slot n outcome shutdown pool slot)
    ∙ ap (λ z. z ++ fulfilled rest (settle_slot n outcome shutdown pool slot))
        (settled-successful n outcome shutdown pool slot)
    ∙ append_assoc pool.successful (fulfilled_message outcome slot)
        (fulfilled rest (settle_slot n outcome shutdown pool slot))

start_slots-successful :
    (n : ℕ) (shutdown : Bool) (pool : Pool)
    → (start_slots n shutdown pool).successful ≡ pool.successful
unfolding start_slots
start_slots-successful zero shutdown pool = refl
start_slots-successful (suc n) shutdown pool = start_slots-successful n shutdown _

start_pool-successful :
    (messages : List Message) (max_concurrency : Option Number) (shutdown : Bool)
    → (start_pool messages max_concurrency shutdown).successful ≡ []
unfolding start_pool
start_pool-successful messages max_concurrency shutdown =
    start_slots-successful (min (length messages) (normalize_sqs_worker_count max_concurrency))
      shutdown (record { queued = messages; slots = []; successful = []; handled = [] })

-- For every order in which the handler calls of a poll settle, whatever their outcomes are, and
-- whatever SQS answers: the delete requests of a poll that ends hold exactly the messages with a
-- receipt handle whose handler call settled without an error, in the order of the settling, no
-- message more often than its handler was called, and the count that is returned is at most that of
-- the messages sent for deletion.
pub deleted_were_handled :
    (messages : List Message) (max_concurrency : Option Number) (shutdown : Bool)
    (events : List Settlement) (sqs : ℕ → DeleteReply) (n : ℕ) (sent : List (List Message))
    (p : Message → Bool)
    → process_sqs_messages sqs (run_pool events (start_pool messages max_concurrency shutdown))
      ≡ some (returned (n, sent))
    → let start = start_pool messages max_concurrency shutdown in
      (concat_all sent ≡ ackable (fulfilled events start))
      × (count_by p (concat_all sent) ≤ count_by p (run_pool events start).handled)
      × (n ≤ length (concat_all sent))
deleted_were_handled messages max_concurrency shutdown events sqs n sent p done =
    let start = start_pool messages max_concurrency shutdown in
    let pool = run_pool events start in
    let deletes = result-Deletes sqs pool n sent done in
    let requests = acknowledge_requests sqs pool.successful in
    let exact : concat_all sent ≡ ackable pool.successful =
      ap concat_all (sym deletes.requests) ∙ requests.1 in
    let accounts = pool_accounts messages max_concurrency shutdown events p in
    let settled : pool.successful ≡ fulfilled events start =
      run-successful events start
      ∙ ap (λ z. z ++ fulfilled events start)
          (start_pool-successful messages max_concurrency shutdown) in
    (
      exact ∙ ap ackable settled,
      omega (arith, ap (count_by p) exact, count-ackable p pool.successful, accounts.3),
      omega (arith, requests.0, deletes.count, ap length exact),
    )
