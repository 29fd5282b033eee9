-- ===== src/TaskQueue/Invariant.antt =====
-- What every state of lib/task-queue/queue.ts satisfies.
use mailgun_ses_proxy.Base.{
  ℕ, zero, suc, ◌≤◌, ◌≡◌, refl, sym, ap, ◌∙◌, Bool, true, false, not, ◌&&◌, ◌||◌, Option, none,
  some, List, [], ◌∷◌, ◌++◌, leb, length, if◌then◌else◌, arith, Bool-cases, inl, inr,
}
use mailgun_ses_proxy.TaskQueue.{
  Item, TaskQueue, new_queue, loop, is_empty, process, trigger_finish, enqueue, wait_until_finished,
  clear, running_at, remove_at, after_task, settle_found, settle_task, timer_fires, QueueEvent,
  enqueues, settles, fires, waits, clears, queue_step, run_queue,
}
use mailgun_ses_proxy.TaskQueue.Loop.{
  either, and-false, is_resting, LoopKept, loop-LoopKept, process-LoopKept,
}

pub record Inv (q : TaskQueue) : Type 0 where
  pub bounded : length q.running ≤ q.max_concurrent
  pub resting : is_resting q ≡ not q.started
  pub waiting : (if q.started then 0 else q.waiting) ≡ 0
  pub active :
      (is_empty q.queue || q.is_processing || leb q.max_concurrent (length q.running)) ≡ true

-- From a state that has started.
kept-Inv :
    (items : List Item) (q after : TaskQueue)
    → q.started ≡ true
    → (is_empty items && is_empty q.running) ≡ false
    → LoopKept items q after
    → Inv after
kept-Inv items q after on busy v = record {
  bounded = v.bounded;
  resting = v.resting ∙ busy ∙ ap not (sym (v.started ∙ on));
  waiting = ap (λ b. if b then 0 else after.waiting) (v.started ∙ on);
  active = v.active;
}

append-nonempty : (items : List Item) (item : Item) → is_empty (items ++ item ∷ []) ≡ false
append-nonempty [] item = refl
append-nonempty (i ∷ items) item = refl

enqueue-Inv : (item : Item) (q : TaskQueue) → Inv q → Inv (enqueue item q)
unfolding enqueue
enqueue-Inv item q v =
    kept-Inv (q.queue ++ item ∷ []) _ _ refl
      (ap (λ b. b && is_empty q.running) (append-nonempty q.queue item))
      (process-LoopKept _ v.bounded)

pub length-remove_at : (n : ℕ) (items : List Item) → length (remove_at n items) ≤ length items
length-remove_at n [] = omega arith
length-remove_at zero (i ∷ items) = omega arith
length-remove_at (suc n) (i ∷ items) = omega (arith, length-remove_at n items)

finished-Inv :
    (q : TaskQueue)
    → length q.running ≤ q.max_concurrent
    → is_resting q ≡ true
    → (q.started ≡ true)
    → Inv (trigger_finish q)
unfolding trigger_finish
finished-Inv q h rest on =
    rw on (record { bounded = h; resting = rest; waiting = refl; active = ground (arith, rest) })

after_task-Inv :
    (q : TaskQueue) → length q.running ≤ q.max_concurrent → q.started ≡ true → Inv (after_task q)
after_task-Inv q h on = elim (Bool-cases (is_resting q)) [
  | inl rest ↦ rw rest (finished-Inv q h rest on)
  | inr busy ↦ rw busy (kept-Inv q.queue q (process q) on busy (process-LoopKept q h))
]

busy-started : (q : TaskQueue) → is_resting q ≡ false → Inv q → q.started ≡ true
busy-started q busy v = not_false q.started (sym v.resting ∙ busy)
  where
    not_false : (b : Bool) → not b ≡ false → b ≡ true
    not_false true e = refl
    not_false false e = cc

running-started :
    (n : ℕ) (item : Item) (q : TaskQueue)
    → running_at n q.running ≡ some item
    → Inv q
    → q.started ≡ true
running-started n item q e v = by_running q.running e refl
  where
    by_running :
        (running : List Item)
        → running_at n running ≡ some item
        → q.running ≡ running
        → q.started ≡ true
    by_running [] e h = cc
    by_running (i ∷ others) e h =
        let busy : is_resting q ≡ false =
          ap (λ r. is_empty q.queue && is_empty r) h ∙ and-false (is_empty q.queue) in
        busy-started q busy v

settle_found-Inv :
    (n : ℕ) (failed : Bool) (duration : ℕ) (q : TaskQueue) (o : Option Item)
    → running_at n q.running ≡ o
    → Inv q
    → Inv (settle_found n failed duration q o)
settle_found-Inv n failed duration q none e v = v
settle_found-Inv n failed duration q (some item) e v =
    after_task-Inv _ (omega (arith, length-remove_at n q.running, v.bounded))
      (running-started n item q e v)

timer_fires-Inv : (q : TaskQueue) → Inv q → Inv (timer_fires q)
unfolding timer_fires
timer_fires-Inv q v =
    either Inv q.is_processing (loop q.queue q) q
      (λ busy. same_items (loop-LoopKept q.queue q refl busy v.bounded)) (λ idle. v)
  where
    same_items : {after : TaskQueue} → LoopKept q.queue q after → Inv after
    same_items {after} kept = record {
      bounded = kept.bounded;
      resting = kept.resting ∙ v.resting ∙ ap not (sym kept.started);
      waiting = rw kept.started (rw kept.waiting v.waiting);
      active = kept.active;
    }

wait_until_finished-Inv : (q : TaskQueue) → Inv q → Inv (wait_until_finished q)
unfolding wait_until_finished
wait_until_finished-Inv q v = elim (Bool-cases (is_resting q)) [
  | inl rest ↦ rw rest v
  | inr busy ↦ rw busy (record {
    bounded = v.bounded;
    resting = v.resting;
    waiting = rw (busy-started q busy v) refl;
    active = v.active;
  })
]

clear-Inv : (q : TaskQueue) → Inv q → Inv (clear q)
unfolding clear trigger_finish
clear-Inv q v =
    either Inv (is_empty q.running) (trigger_finish (record q { queue = [] }))
      (record q { queue = [] })
      (λ none_running.
        either Inv q.started
          (record q { queue = []; started = false; waiting = 0; finished = q.stats ∷ q.finished })
          (record q { queue = [] })
          (λ on. record {
            bounded = v.bounded;
            resting = none_running;
            waiting = refl;
            active = refl;
          })
          (λ off. record {
            bounded = v.bounded;
            resting = none_running ∙ ap not (sym off);
            waiting = v.waiting;
            active = refl;
          }))
      (λ some_running.
        let busy : is_resting q ≡ false =
          ap (λ b. is_empty q.queue && b) some_running ∙ and-false (is_empty q.queue) in
        record {
          bounded = v.bounded;
          resting = some_running ∙ ap not (sym (busy-started q busy v));
          waiting = v.waiting;
          active = refl;
        })

pub queue_step-Inv : (event : QueueEvent) (q : TaskQueue) → Inv q → Inv (queue_step event q)
unfolding queue_step settle_task
queue_step-Inv (enqueues item) q v = enqueue-Inv item q v
queue_step-Inv (settles n failed duration) q v =
    settle_found-Inv n failed duration q (running_at n q.running) refl v
queue_step-Inv fires q v = timer_fires-Inv q v
queue_step-Inv waits q v = wait_until_finished-Inv q v
queue_step-Inv clears q v = clear-Inv q v

pub run_queue-Inv : (events : List QueueEvent) (q : TaskQueue) → Inv q → Inv (run_queue events q)
unfolding run_queue
run_queue-Inv [] q v = v
run_queue-Inv (e ∷ es) q v = run_queue-Inv es (queue_step e q) (queue_step-Inv e q v)

pub new_queue-Inv :
    (max_concurrent : ℕ) (has_delay : Bool) → Inv (new_queue max_concurrent has_delay)
new_queue-Inv max_concurrent has_delay = record {
  bounded = omega arith;
  resting = refl;
  waiting = refl;
  active = refl;
}
