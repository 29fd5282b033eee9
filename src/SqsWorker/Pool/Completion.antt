-- ===== src/SqsWorker/Pool/Completion.antt =====
-- The handler pool of lib/core/sqs-worker.ts hands every message of a poll to the handler.
use mailgun_ses_proxy.Base.{
  ℕ, zero, suc, ◌≤◌, ◌≡◌, refl, sym, ap, ◌∙◌, min, Bool, true, false, ◌||◌, ◌⊎◌, Option, none, some,
  List, [], ◌∷◌, ◌++◌, ltb, length, length-append, every, some_of, All, if◌then◌else◌, arith,
  Bool-cases, inl, inr,
}
use mailgun_ses_proxy.Base.Number.{Number}
use mailgun_ses_proxy.Base.Attempt.{returned, threw}
use mailgun_ses_proxy.SqsWorker.Limits.{normalize_sqs_worker_count, settings_bounds}
use mailgun_ses_proxy.SqsWorker.Acknowledge.{Message}
use mailgun_ses_proxy.SqsWorker.Pool.{
  Slot, handling, ended, timed_out, Pool, Outcome, slot_of, queue_of, start_slots, start_pool,
  is_deadline, slot_at, set_slot, settle_slot, settle_call, Settlement, run_pool, is_ended,
  any_timed_out, pool_result,
}
use mailgun_ses_proxy.SqsWorker.Pool.Accounts.{Accounts, run-Accounts, started-Accounts}
use mathlib.Core.List.{append-nil}

abbrev pub Undisturbed : Settlement → Type 0
Undisturbed (n, outcome, shutdown) = shutdown ≡ false

-- A loop that has left found no message.
Exhausted : Pool → Type 0
Exhausted pool = some_of is_ended pool.slots ≡ true → pool.queued ≡ []

queue_of-nil : (queued : List Message) → queued ≡ [] → queue_of false queued ≡ []
queue_of-nil [] e = refl
queue_of-nil (m ∷ ms) e = absurd (wrong e)
  where
    wrong : m ∷ ms ≡ [] → ⊥
    wrong e = cc

ended-queue :
    (queued : List Message) → is_ended (slot_of false queued) ≡ true → queue_of false queued ≡ []
ended-queue [] e = refl
ended-queue (m ∷ ms) e = absurd (wrong e)
  where
    wrong : false ≡ true → ⊥
    wrong e = cc

or-cases : (a b : Bool) → (a || b) ≡ true → (a ≡ true) ⊎ (b ≡ true)
or-cases true b e = inl refl
or-cases false b e = inr e

set_slot-ended :
    (n : ℕ) (s : Slot) (ss : List Slot)
    → some_of is_ended (set_slot n s ss) ≡ true
    → (is_ended s ≡ true) ⊎ (some_of is_ended ss ≡ true)
set_slot-ended n s [] e = inr e
set_slot-ended zero s (x ∷ ss) e = elim (or-cases (is_ended s) (some_of is_ended ss) e) [
  | inl here ↦ inl here
  | inr there ↦ inr (ground (arith, there))
]
set_slot-ended (suc n) s (x ∷ ss) e =
    elim (or-cases (is_ended x) (some_of is_ended (set_slot n s ss)) e) [
      | inl here ↦ inr (ground (arith, here))
      | inr there ↦ elim (set_slot-ended n s ss there) [
        | inl new ↦ inl new
        | inr old ↦ inr (ground (arith, old))
      ]
    ]

start-Exhausted : (n : ℕ) (pool : Pool) → Exhausted pool → Exhausted (start_slots n false pool)
unfolding start_slots Exhausted
start-Exhausted zero pool v = v
start-Exhausted (suc n) pool v = start-Exhausted n _ (λ e. elim (or-cases _ _ e) [
  | inl here ↦ ended-queue pool.queued here
  | inr there ↦ queue_of-nil pool.queued (v there)
])

settle-Exhausted :
    (n : ℕ) (outcome : Outcome) (pool : Pool) (slot : Slot)
    → Exhausted pool
    → Exhausted (settle_slot n outcome false pool slot)
unfolding Exhausted
settle-Exhausted n outcome pool ended v = v
settle-Exhausted n outcome pool timed_out v = v
settle-Exhausted n outcome pool (handling m) v = elim (Bool-cases (is_deadline outcome)) [
  | inl late ↦ rw late (λ e. elim (set_slot-ended n timed_out pool.slots e) [
    | inl new ↦ absurd (wrong new)
    | inr old ↦ v old
  ])
  | inr timely ↦ rw timely (λ e. elim (set_slot-ended n (slot_of false pool.queued) pool.slots e) [
    | inl new ↦ ended-queue pool.queued new
    | inr old ↦ queue_of-nil pool.queued (v old)
  ])
]
  where
    wrong : false ≡ true → ⊥
    wrong e = cc

run-Exhausted :
    (events : List Settlement) (pool : Pool)
    → All Undisturbed events
    → Exhausted pool
    → Exhausted (run_pool events pool)
unfolding run_pool settle_call
run-Exhausted [] pool quiet v = v
run-Exhausted ((n, outcome, shutdown) ∷ rest) pool quiet v =
    rw quiet.0
      (run-Exhausted rest _ quiet.1 (settle-Exhausted n outcome pool (slot_at n pool.slots) v))

every-some :
    (ss : List Slot) → 1 ≤ length ss → every is_ended ss ≡ true → some_of is_ended ss ≡ true
every-some [] h e = absurd (omega arith)
every-some (s ∷ ss) h e = ground arith

returned-every :
    (pool : Pool) (successful : List Message)
    → pool_result pool ≡ some (returned successful)
    → (every is_ended pool.slots ≡ true) × (successful ≡ pool.successful)
unfolding pool_result
returned-every pool successful e = by_tests (any_timed_out pool.slots) (every is_ended pool.slots) e
  where
    by_tests :
        (late all : Bool)
        → (if late
            then some (threw "HandlerTimeoutError")
            else if all
            then some (returned pool.successful)
            else none)
          ≡ some (returned successful)
        → (all ≡ true) × (successful ≡ pool.successful)
    by_tests true all e = cc
    by_tests false true e = (refl, cc)
    by_tests false false e = cc

no_messages : (messages : List Message) → length messages ≤ 0 → messages ≡ []
no_messages [] h = refl
no_messages (m ∷ ms) h = absurd (omega arith)

nothing_started-Exhausted :
    (messages : List Message)
    → Exhausted (record { queued = messages; slots = []; successful = []; handled = [] })
unfolding Exhausted
nothing_started-Exhausted messages e = absurd (wrong e)
  where
    wrong : false ≡ true → ⊥
    wrong e = cc

start_pool-Exhausted :
    (messages : List Message) (max_concurrency : Option Number)
    → Exhausted (start_pool messages max_concurrency false)
unfolding start_pool
start_pool-Exhausted messages max_concurrency =
    start-Exhausted (min (length messages) (normalize_sqs_worker_count max_concurrency)) _
      (nothing_started-Exhausted messages)

left_none :
    (pool : Pool) (messages : List Message) (width : ℕ)
    → Accounts messages width pool
    → Exhausted pool
    → every is_ended pool.slots ≡ true
    → (1 ≤ length messages → 1 ≤ width)
    → pool.queued ≡ []
unfolding Exhausted
left_none pool messages width v stopped done wide = elim (Bool-cases (ltb 0 (length messages))) [
  | inl some_message ↦
      let one : 1 ≤ length messages = ground (arith, some_message) in
      stopped (every-some pool.slots (omega (arith, v.bounded, wide one)) done)
  | inr none_there ↦
      let empty : length messages ≤ 0 = ground (arith, none_there) in
      no_messages pool.queued
        (omega (arith, length-append pool.handled pool.queued, ap length v.in_order, empty))
]

-- Without a shutdown, a pool that has its result, and no HandlerTimeoutError, has called the handler
-- exactly once on every message of the poll, in their order, and the result is the successes.
pub pool_completes :
    (messages : List Message) (max_concurrency : Option Number) (events : List Settlement)
    (successful : List Message)
    → All Undisturbed events
    → pool_result (run_pool events (start_pool messages max_concurrency false))
      ≡ some (returned successful)
    → ((run_pool events (start_pool messages max_concurrency false)).handled ≡ messages)
      × (successful ≡ (run_pool events (start_pool messages max_concurrency false)).successful)
pool_completes messages max_concurrency events successful quiet done =
    let pool = run_pool events (start_pool messages max_concurrency false) in
    let v = run-Accounts events messages _ _ (started-Accounts messages max_concurrency false) in
    let started =
      run-Exhausted events (start_pool messages max_concurrency false) quiet
        (start_pool-Exhausted messages max_concurrency) in
    let limit = (settings_bounds max_concurrency none none none).0.0 in
    let all_ended = returned-every pool successful done in
    let queue_empty : pool.queued ≡ [] =
      left_none pool messages (min (length messages) (normalize_sqs_worker_count max_concurrency)) v
        started all_ended.0 (λ h. omega (arith, limit, h)) in
    (
      sym (append-nil pool.handled) ∙ ap (λ z. pool.handled ++ z) (sym queue_empty) ∙ v.in_order,
      all_ended.1,
    )
