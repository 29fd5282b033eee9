-- ===== src/TaskQueue/Examples.antt =====
-- Runs of lib/task-queue/queue.ts.
use mailgun_ses_proxy.Base.{
  ◌+◌, ℕ, ◌≤◌, ◌≡◌, refl, true, not, ◌||◌, none, List, [], ◌∷◌, ◌++◌, length, if◌then◌else◌,
}
use mailgun_ses_proxy.TaskQueue.{
  Item, new_queue, is_empty, QueueEvent, enqueues, settles, fires, waits, queue_step, run_queue,
  enqueue, process, settle_task, timer_fires, wait_until_finished, trigger_finish, update_metrics,
  note_failure,
}
use native.Mathlib.Omega.{arith}
use mailgun_ses_proxy.TaskQueue.Loop.{is_resting}
use mailgun_ses_proxy.TaskQueue.Finish.{unfinished, starts}
use mailgun_ses_proxy.TaskQueue.Progress.{enqueued, served_in_order, never_stalls}

abbrev item : ℕ → Item
item n = record { fn = n; id = none }

abbrev events : List QueueEvent
events =
    enqueues (item 1)
    ∷ enqueues (item 2)
    ∷ enqueues (item 3)
    ∷ waits
    ∷ fires
    ∷ settles 0 true 40
    ∷ fires
    ∷ []

served_in_order_example :
    let q = run_queue events (new_queue 2 true) in q.executed ++ q.queue ≡ enqueued events
served_in_order_example =
    served_in_order 2 true events (refl, (refl, (refl, (refl, (refl, (refl, (refl, tt)))))))

never_stalls_example :
    let q = run_queue events (new_queue 2 true) in
    (length q.running ≤ 2)
    × ((is_empty q.queue || q.is_processing || not (is_empty q.running)) ≡ true)
    × (is_resting q ≡ not q.started)
    × ((if q.started then 0 else q.waiting) ≡ 0)
    × (length q.finished + unfinished q ≡ starts events (new_queue 2 true))
never_stalls_example = never_stalls 2 true events (omega arith)

all_executed : (run_queue events (new_queue 2 true)).executed ≡ item 1 ∷ item 2 ∷ item 3 ∷ []
unfolding run_queue queue_step enqueue process settle_task timer_fires wait_until_finished
    trigger_finish update_metrics note_failure
all_executed = refl
