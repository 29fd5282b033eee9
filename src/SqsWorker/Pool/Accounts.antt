-- ===== src/SqsWorker/Pool/Accounts.antt =====
-- What the handler pool of lib/core/sqs-worker.ts does with the messages of a poll, over all orders
-- in which its handler calls settle.
use mailgun_ses_proxy.Base.{
  ℕ, zero, suc, ◌+◌, ◌≤◌, ◌≡◌, refl, ap, ◌∙◌, min, Bool, true, false, Option, none, List, [], ◌∷◌,
  ◌++◌, length, if◌then◌else◌, arith, Bool-cases, inl, inr,
}
use mailgun_ses_proxy.Base.Number.{Number}
use mailgun_ses_proxy.SqsWorker.Limits.{normalize_sqs_worker_count, settings_bounds}
use mailgun_ses_proxy.SqsWorker.Acknowledge.{Message}
use mailgun_ses_proxy.SqsWorker.Pool.{
  Slot, handling, ended, timed_out, Pool, Outcome, fulfils, fails, deadline, slot_of, queue_of,
  call_of, start_slots, start_pool, success_of, is_deadline, slot_at, set_slot, settle_slot,
  settle_call, Settlement, run_pool,
}
use mathlib.Core.Path.{subst}
use mathlib.Core.List.{append_assoc}

module _ (p : Message → Bool) where
  abbrev pub count_by : List Message → ℕ
  count_by [] = 0
  count_by (m ∷ ms) = (if p m then 1 else 0) + count_by ms

  pub count-append : (xs ys : List Message) → count_by (xs ++ ys) ≡ count_by xs + count_by ys
  count-append [] ys = omega arith
  count-append (x ∷ xs) ys = omega (arith, count-append xs ys)

abbrev pub message_in : Slot → List Message
message_in (handling m) = m ∷ []
message_in _ = []

abbrev pub in_flight : List Slot → List Message
in_flight [] = []
in_flight (s ∷ ss) = message_in s ++ in_flight ss

call-queue :
    (shutdown : Bool) (queued : List Message)
    → call_of shutdown queued ++ queue_of shutdown queued ≡ queued
call-queue shutdown [] = refl
call-queue true (m ∷ ms) = refl
call-queue false (m ∷ ms) = refl

message_in-slot :
    (shutdown : Bool) (queued : List Message)
    → message_in (slot_of shutdown queued) ≡ call_of shutdown queued
message_in-slot shutdown [] = refl
message_in-slot true (m ∷ ms) = refl
message_in-slot false (m ∷ ms) = refl

length-set_slot : (n : ℕ) (s : Slot) (ss : List Slot) → length (set_slot n s ss) ≡ length ss
length-set_slot n s [] = refl
length-set_slot zero s (x ∷ ss) = refl
length-set_slot (suc n) s (x ∷ ss) = ap suc (length-set_slot n s ss)

length-in_flight : (ss : List Slot) → length (in_flight ss) ≤ length ss
length-in_flight [] = omega arith
length-in_flight (handling m ∷ ss) = omega (arith, length-in_flight ss)
length-in_flight (ended ∷ ss) = omega (arith, length-in_flight ss)
length-in_flight (timed_out ∷ ss) = omega (arith, length-in_flight ss)

count-set_slot :
    (p : Message → Bool) (n : ℕ) (s : Slot) (m : Message) (ss : List Slot)
    → slot_at n ss ≡ handling m
    → count_by p (in_flight (set_slot n s ss)) + count_by p (m ∷ [])
      ≡ count_by p (in_flight ss) + count_by p (message_in s)
count-set_slot p n s m [] e = absurd (wrong e)
  where
    wrong : ended ≡ handling m → ⊥
    wrong e = cc
count-set_slot p zero s m (x ∷ ss) e = rw e (
    omega
      (arith, count-append p (message_in s) (in_flight ss), count-append p (m ∷ []) (in_flight ss)))
count-set_slot p (suc n) s m (x ∷ ss) e = omega (
  arith,
  count-append p (message_in x) (in_flight ss),
  count-append p (message_in x) (in_flight (set_slot n s ss)),
  count-set_slot p n s m ss e,
)

pub record Accounts (messages : List Message) (width : ℕ) (pool : Pool) : Type 0 where
  pub in_order : pool.handled ++ pool.queued ≡ messages
  pub bounded : length pool.slots ≡ width
  pub once :
      (p : Message → Bool)
      → count_by p pool.successful + count_by p (in_flight pool.slots) ≤ count_by p pool.handled

take-in_order :
    (handled queued messages : List Message) (shutdown : Bool)
    → handled ++ queued ≡ messages
    → (handled ++ call_of shutdown queued) ++ queue_of shutdown queued ≡ messages
take-in_order handled queued messages shutdown e =
    append_assoc handled (call_of shutdown queued) (queue_of shutdown queued)
    ∙ ap (λ z. handled ++ z) (call-queue shutdown queued)
    ∙ e

start-Accounts :
    (n : ℕ) (shutdown : Bool) (messages : List Message) (width : ℕ) (pool : Pool)
    → Accounts messages width pool
    → Accounts messages (width + n) (start_slots n shutdown pool)
unfolding start_slots
start-Accounts zero shutdown messages width pool v =
    let e : width + 0 ≡ width = omega arith in rw e v
start-Accounts (suc n) shutdown messages width pool v =
    let e : width + suc n ≡ suc width + n = omega arith in
    rw e (
      start-Accounts n shutdown messages (suc width) _ (record {
        in_order = take-in_order pool.handled pool.queued messages shutdown v.in_order;
        bounded = ap suc v.bounded;
        once = λ p. omega (
          arith,
          v.once p,
          count-append p pool.handled (call_of shutdown pool.queued),
          count-append p (message_in (slot_of shutdown pool.queued)) (in_flight pool.slots),
          ap (count_by p) (message_in-slot shutdown pool.queued),
        );
      }))

count-success :
    (p : Message → Bool) (outcome : Outcome) (m : Message)
    → count_by p (success_of outcome m) ≤ count_by p (m ∷ [])
count-success p fulfils m = omega arith
count-success p (fails e) m = omega arith
count-success p deadline m = omega arith

settle-Accounts :
    (n : ℕ) (outcome : Outcome) (shutdown : Bool) (messages : List Message) (width : ℕ)
    (pool : Pool) (slot : Slot)
    → slot_at n pool.slots ≡ slot
    → Accounts messages width pool
    → Accounts messages width (settle_slot n outcome shutdown pool slot)
settle-Accounts n outcome shutdown messages width pool ended e v = v
settle-Accounts n outcome shutdown messages width pool timed_out e v = v
settle-Accounts n outcome shutdown messages width pool (handling m) e v =
    elim (Bool-cases (is_deadline outcome)) [
      | inl late ↦ rw late (record {
        in_order = v.in_order;
        bounded = length-set_slot n timed_out pool.slots ∙ v.bounded;
        once = λ p. omega (arith, v.once p, count-set_slot p n timed_out m pool.slots e);
      })
      | inr timely ↦ rw timely (record {
        in_order = take-in_order pool.handled pool.queued messages shutdown v.in_order;
        bounded = length-set_slot n (slot_of shutdown pool.queued) pool.slots ∙ v.bounded;
        once = λ p. omega (
          arith,
          v.once p,
          count-set_slot p n (slot_of shutdown pool.queued) m pool.slots e,
          count-append p pool.handled (call_of shutdown pool.queued),
          count-append p pool.successful (success_of outcome m),
          count-success p outcome m,
          ap (count_by p) (message_in-slot shutdown pool.queued),
        );
      })
    ]

pub run-Accounts :
    (events : List Settlement) (messages : List Message) (width : ℕ) (pool : Pool)
    → Accounts messages width pool
    → Accounts messages width (run_pool events pool)
unfolding run_pool settle_call
run-Accounts [] messages width pool v = v
run-Accounts ((n, outcome, shutdown) ∷ rest) messages width pool v =
    run-Accounts rest messages width _
      (settle-Accounts n outcome shutdown messages width pool (slot_at n pool.slots) refl v)

pub started-Accounts :
    (messages : List Message) (max_concurrency : Option Number) (shutdown : Bool)
    → Accounts messages
        (min (length messages) (normalize_sqs_worker_count max_concurrency))
        (start_pool messages max_concurrency shutdown)
unfolding start_pool
started-Accounts messages max_concurrency shutdown =
    let width = min (length messages) (normalize_sqs_worker_count max_concurrency) in
    let width_eq : 0 + width ≡ width = omega arith in
    subst (λ w. Accounts messages w (start_pool messages max_concurrency shutdown)) width_eq
      (start-Accounts (min (length messages) (normalize_sqs_worker_count max_concurrency)) shutdown
        messages 0 _ (record { in_order = refl; bounded = refl; once = λ p. omega arith }))

-- In whatever order the handler calls of a poll settle, and whenever the shutdown begins: the
-- handlers are called on the messages in their order, each message at most once, and what is left is
-- still queued; never are more calls in flight than there are messages, than `maxConcurrency` allows,
-- or than ten; and no message is counted as successful or in flight more often than its handler was called.
pub pool_accounts :
    (messages : List Message) (max_concurrency : Option Number) (shutdown : Bool)
    (events : List Settlement) (p : Message → Bool)
    → let pool = run_pool events (start_pool messages max_concurrency shutdown) in
      (pool.handled ++ pool.queued ≡ messages)
      × (length (in_flight pool.slots)
          ≤ min (length messages) (normalize_sqs_worker_count max_concurrency))
      × (length (in_flight pool.slots) ≤ 10)
      × (count_by p pool.successful + count_by p (in_flight pool.slots) ≤ count_by p pool.handled)
pool_accounts messages max_concurrency shutdown events p =
    let pool = run_pool events (start_pool messages max_concurrency shutdown) in
    let v = run-Accounts events messages _ _ (started-Accounts messages max_concurrency shutdown) in
    let limit = (settings_bounds max_concurrency none none none).0.1 in
    (
      v.in_order,
      omega (arith, length-in_flight pool.slots, v.bounded),
      omega (arith, length-in_flight pool.slots, v.bounded, limit),
      v.once p,
    )
