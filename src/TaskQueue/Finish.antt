-- ===== src/TaskQueue/Finish.antt =====
-- How often lib/task-queue/queue.ts reports to its `onFinish` listeners.
use mailgun_ses_proxy.Base.{
  ℕ, ◌+◌, ◌≤◌, ◌≡◌, refl, ap, ◌∙◌, Bool, true, Option, none, some, List, [], ◌∷◌, ◌++◌, length,
  if◌then◌else◌, arith,
}
use mailgun_ses_proxy.TaskQueue.{
  Item, no_stats, TaskQueue, loop, is_empty, process, trigger_finish, enqueue, wait_until_finished,
  clear, running_at, after_task, settle_found, settle_task, timer_fires, QueueEvent, enqueues,
  settles, fires, waits, clears, queue_step, run_queue,
}
use mailgun_ses_proxy.TaskQueue.Loop.{either, is_resting, LoopKept, loop-LoopKept, process-LoopKept}
use mailgun_ses_proxy.TaskQueue.Invariant.{Inv, queue_step-Inv, length-remove_at}

-- One from the start to the finish.
abbrev pub unfinished : TaskQueue → ℕ
unfinished q = if q.started then 1 else 0

-- How often a task comes to a queue that has not started.
abbrev pub starts_at : QueueEvent → TaskQueue → ℕ
starts_at (enqueues item) q = if q.started then 0 else 1
starts_at _ q = 0

abbrev pub starts : List QueueEvent → TaskQueue → ℕ
starts [] q = 0
starts (e ∷ es) q = starts_at e q + starts es (queue_step e q)

abbrev Balanced : TaskQueue → TaskQueue → Type 0
Balanced q after = length after.finished + unfinished after ≡ length q.finished + unfinished q

trigger_finish-Balanced : (q : TaskQueue) → Balanced q (trigger_finish q)
unfolding trigger_finish
trigger_finish-Balanced q =
    either (Balanced q) q.started _ q (λ on. rw on (omega arith)) (λ off. refl)

loop-Balanced :
    {items : List Item} {q after : TaskQueue} → LoopKept items q after → Balanced q after
loop-Balanced {q} {after} v =
    ap (λ x. length x + unfinished after) v.finished
    ∙ ap (λ (b : Bool). length q.finished + (if b then 1 else 0)) v.started

after_task-Balanced :
    (q : TaskQueue) → length q.running ≤ q.max_concurrent → Balanced q (after_task q)
after_task-Balanced q h =
    either (Balanced q) (is_resting q) (trigger_finish q) (process q)
      (λ rest. trigger_finish-Balanced q) (λ busy. loop-Balanced (process-LoopKept q h))

settle_found-Balanced :
    (n : ℕ) (failed : Bool) (duration : ℕ) (q : TaskQueue) (o : Option Item)
    → Inv q
    → Balanced q (settle_found n failed duration q o)
settle_found-Balanced n failed duration q none v = refl
settle_found-Balanced n failed duration q (some item) v =
    after_task-Balanced _ (omega (arith, length-remove_at n q.running, v.bounded))

timer_fires-Balanced : (q : TaskQueue) → Inv q → Balanced q (timer_fires q)
unfolding timer_fires
timer_fires-Balanced q v =
    either (Balanced q) q.is_processing (loop q.queue q) q
      (λ busy. loop-Balanced (loop-LoopKept q.queue q refl busy v.bounded)) (λ idle. refl)

clear-Balanced : (q : TaskQueue) → Balanced q (clear q)
unfolding clear
clear-Balanced q =
    either (Balanced q) (is_empty q.running) (trigger_finish (record q { queue = [] }))
      (record q { queue = [] }) (λ none_running. trigger_finish-Balanced (record q { queue = [] }))
      (λ some_running. refl)

wait-Balanced : (q : TaskQueue) → Balanced q (wait_until_finished q)
unfolding wait_until_finished
wait-Balanced q =
    either (Balanced q) (is_resting q) q (record q { waiting = q.waiting + 1 }) (λ rest. refl)
      (λ busy. refl)

enqueue-finishes :
    (item : Item) (q : TaskQueue)
    → Inv q
    → length (enqueue item q).finished + unfinished (enqueue item q)
      ≡ length q.finished + unfinished q + (if q.started then 0 else 1)
unfolding enqueue
enqueue-finishes item q v =
    let opened : TaskQueue = record q {
      started = true;
      stats = if q.started then q.stats else no_stats;
      queue = q.queue ++ item ∷ [];
    } in
    loop-Balanced (process-LoopKept opened v.bounded) ∙ ground arith

step-finishes :
    (event : QueueEvent) (q : TaskQueue)
    → Inv q
    → length (queue_step event q).finished + unfinished (queue_step event q)
      ≡ length q.finished + unfinished q + starts_at event q
unfolding queue_step settle_task
step-finishes (enqueues item) q v = enqueue-finishes item q v
step-finishes (settles n failed duration) q v =
    omega (arith, settle_found-Balanced n failed duration q (running_at n q.running) v)
step-finishes fires q v = omega (arith, timer_fires-Balanced q v)
step-finishes waits q v = omega (arith, wait-Balanced q)
step-finishes clears q v = omega (arith, clear-Balanced q)

pub run-finishes :
    (events : List QueueEvent) (q : TaskQueue)
    → Inv q
    → length (run_queue events q).finished + unfinished (run_queue events q)
      ≡ length q.finished + unfinished q + starts events q
unfolding run_queue
run-finishes [] q v = omega arith
run-finishes (e ∷ es) q v =
    omega (arith, run-finishes es (queue_step e q) (queue_step-Inv e q v), step-finishes e q v)
