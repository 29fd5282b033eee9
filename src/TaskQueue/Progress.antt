-- ===== src/TaskQueue/Progress.antt =====
-- lib/task-queue/queue.ts neither stalls nor loses a task, and keeps its bound.
use mailgun_ses_proxy.Base.{
  ℕ, ◌+◌, ◌≤◌, ◌≡◌, refl, sym, ap, ◌∙◌, Bool, true, false, not, ◌||◌, Option, none, some, List, [],
  ◌∷◌, ◌++◌, leb, length, All, if◌then◌else◌, arith,
}
use mathlib.Core.List.{append-nil, append_assoc}
use mailgun_ses_proxy.TaskQueue.{
  Item, no_stats, TaskQueue, new_queue, loop, is_empty, process, trigger_finish, enqueue,
  wait_until_finished, clear, running_at, after_task, settle_found, settle_task, timer_fires,
  QueueEvent, enqueues, settles, fires, waits, clears, queue_step, run_queue,
}
use mailgun_ses_proxy.TaskQueue.Finish.{unfinished, starts, run-finishes}
use mailgun_ses_proxy.TaskQueue.Loop.{either, is_resting, loop-LoopKept, process-LoopKept}
use mailgun_ses_proxy.TaskQueue.Invariant.{
  Inv, queue_step-Inv, run_queue-Inv, new_queue-Inv, length-remove_at,
}

-- The limit, and the tasks that were called or are queued.
abbrev served : TaskQueue → List Item
served q = q.executed ++ q.queue

record Kept (q after : TaskQueue) : Type 0 where
  limit : after.max_concurrent ≡ q.max_concurrent
  same_tasks : served after ≡ served q

trigger_finish-Kept : (q : TaskQueue) → Kept q (trigger_finish q)
unfolding trigger_finish
trigger_finish-Kept q =
    either (Kept q) q.started _ q (λ on. record { limit = refl; same_tasks = refl })
      (λ off. record { limit = refl; same_tasks = refl })

process-Kept : (q : TaskQueue) → length q.running ≤ q.max_concurrent → Kept q (process q)
process-Kept q h = let v = process-LoopKept q h in record { limit = v.limit; same_tasks = v.served }

after_task-Kept : (q : TaskQueue) → length q.running ≤ q.max_concurrent → Kept q (after_task q)
after_task-Kept q h =
    either (Kept q) (is_resting q) (trigger_finish q) (process q) (λ rest. trigger_finish-Kept q)
      (λ busy. process-Kept q h)

settle_found-Kept :
    (n : ℕ) (failed : Bool) (duration : ℕ) (q : TaskQueue) (o : Option Item)
    → Inv q
    → Kept q (settle_found n failed duration q o)
settle_found-Kept n failed duration q none v = record { limit = refl; same_tasks = refl }
settle_found-Kept n failed duration q (some item) v =
    let kept = after_task-Kept _ (omega (arith, length-remove_at n q.running, v.bounded)) in
    record { limit = kept.limit; same_tasks = kept.same_tasks }

timer_fires-Kept : (q : TaskQueue) → Inv q → Kept q (timer_fires q)
unfolding timer_fires
timer_fires-Kept q v =
    either (Kept q) q.is_processing (loop q.queue q) q
      (λ busy.
        let kept = loop-LoopKept q.queue q refl busy v.bounded in
        record { limit = kept.limit; same_tasks = kept.served })
      (λ idle. record { limit = refl; same_tasks = refl })

clear-limit : (q : TaskQueue) → (clear q).max_concurrent ≡ q.max_concurrent
unfolding clear trigger_finish
clear-limit q =
    either (λ x. x.max_concurrent ≡ q.max_concurrent) (is_empty q.running)
      (trigger_finish (record q { queue = [] })) (record q { queue = [] })
      (λ none_running. (trigger_finish-Kept (record q { queue = [] })).limit) (λ some_running. refl)

wait-Kept : (q : TaskQueue) → Kept q (wait_until_finished q)
unfolding wait_until_finished
wait-Kept q =
    either (Kept q) (is_resting q) q (record q { waiting = q.waiting + 1 })
      (λ rest. record { limit = refl; same_tasks = refl })
      (λ busy. record { limit = refl; same_tasks = refl })

enqueue-Served :
    (item : Item) (q : TaskQueue)
    → Inv q
    → ((enqueue item q).max_concurrent ≡ q.max_concurrent)
      × (served (enqueue item q) ≡ served q ++ item ∷ [])
unfolding enqueue
enqueue-Served item q v =
    let kept =
      process-LoopKept
        (record q {
          started = true;
          stats = if q.started then q.stats else no_stats;
          queue = q.queue ++ item ∷ [];
        })
        v.bounded in
    (kept.limit, kept.served ∙ sym (append_assoc q.executed q.queue (item ∷ [])))

-- The tasks that an event enqueues.
abbrev pub enqueued_by : QueueEvent → List Item
enqueued_by (enqueues item) = item ∷ []
enqueued_by _ = []

abbrev pub enqueued : List QueueEvent → List Item
enqueued [] = []
enqueued (e ∷ es) = enqueued_by e ++ enqueued es

abbrev pub is_clear : QueueEvent → Bool
is_clear clears = true
is_clear _ = false

abbrev pub NotCleared : QueueEvent → Type 0
NotCleared e = is_clear e ≡ false

step-limit :
    (event : QueueEvent) (q : TaskQueue)
    → Inv q
    → (queue_step event q).max_concurrent ≡ q.max_concurrent
unfolding queue_step settle_task
step-limit (enqueues item) q v = (enqueue-Served item q v).0
step-limit (settles n failed duration) q v =
    (settle_found-Kept n failed duration q (running_at n q.running) v).limit
step-limit fires q v = (timer_fires-Kept q v).limit
step-limit waits q v = (wait-Kept q).limit
step-limit clears q v = clear-limit q

unchanged : (q after : TaskQueue) → Kept q after → served after ≡ served q ++ []
unchanged q after kept = kept.same_tasks ∙ sym (append-nil (served q))

step-served :
    (event : QueueEvent) (q : TaskQueue)
    → Inv q
    → NotCleared event
    → served (queue_step event q) ≡ served q ++ enqueued_by event
unfolding queue_step settle_task
step-served (enqueues item) q v h = (enqueue-Served item q v).1
step-served (settles n failed duration) q v h =
    unchanged q _ (settle_found-Kept n failed duration q (running_at n q.running) v)
step-served fires q v h = unchanged q _ (timer_fires-Kept q v)
step-served waits q v h = unchanged q _ (wait-Kept q)
step-served clears q v h = cc

run-limit :
    (events : List QueueEvent) (q : TaskQueue)
    → Inv q
    → (run_queue events q).max_concurrent ≡ q.max_concurrent
unfolding run_queue
run-limit [] q v = refl
run-limit (e ∷ es) q v = run-limit es (queue_step e q) (queue_step-Inv e q v) ∙ step-limit e q v

run-served :
    (events : List QueueEvent) (q : TaskQueue)
    → Inv q
    → All NotCleared events
    → served (run_queue events q) ≡ served q ++ enqueued events
unfolding run_queue
run-served [] q v h = sym (append-nil (served q))
run-served (e ∷ es) q v h =
    run-served es (queue_step e q) (queue_step-Inv e q v) h.1
    ∙ ap (λ z. z ++ enqueued es) (step-served e q v h.0)
    ∙ append_assoc (served q) (enqueued_by e) (enqueued es)

-- As long as the queue is not cleared, every task that was enqueued has been called, exactly once and
-- in the order of enqueuing, or is still in the queue, behind those that have been called.
pub served_in_order :
    (max_concurrent : ℕ) (has_delay : Bool) (events : List QueueEvent)
    → All NotCleared events
    → let q = run_queue events (new_queue max_concurrent has_delay) in
      q.executed ++ q.queue ≡ enqueued events
served_in_order max_concurrent has_delay events h =
    run-served events (new_queue max_concurrent has_delay) (new_queue-Inv max_concurrent has_delay)
      h

-- With a limit of at least one, in every state that the queue reaches: no more tasks run than the
-- limit allows; a queue that has tasks left has its timer pending or a task running, so that it goes
-- on; the finish has been reported to the listeners once for each time that a task came to a queue
-- that had not started, less one while it has not finished since; and it has finished exactly if no
-- task is left, with no one waiting for it.
pub never_stalls :
    (max_concurrent : ℕ) (has_delay : Bool) (events : List QueueEvent)
    → 1 ≤ max_concurrent
    → let q = run_queue events (new_queue max_concurrent has_delay) in
      (length q.running ≤ max_concurrent)
      × ((is_empty q.queue || q.is_processing || not (is_empty q.running)) ≡ true)
      × (is_resting q ≡ not q.started)
      × ((if q.started then 0 else q.waiting) ≡ 0)
      × (length q.finished + unfinished q ≡ starts events (new_queue max_concurrent has_delay))
never_stalls max_concurrent has_delay events h =
    let start = new_queue max_concurrent has_delay in
    let v = run_queue-Inv events start (new_queue-Inv max_concurrent has_delay) in
    let limit = run-limit events start (new_queue-Inv max_concurrent has_delay) in
    (
      omega (arith, v.bounded, limit),
      going (run_queue events start) limit v.active,
      v.resting,
      v.waiting,
      omega (arith, run-finishes events start (new_queue-Inv max_concurrent has_delay)),
    )
  where
    going :
        (q : TaskQueue)
        → q.max_concurrent ≡ max_concurrent
        → (is_empty q.queue || q.is_processing || leb q.max_concurrent (length q.running)) ≡ true
        → (is_empty q.queue || q.is_processing || not (is_empty q.running)) ≡ true
    going q limit active = ground (arith, limit, active, h)
