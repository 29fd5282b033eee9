-- ===== src/TaskQueue.antt =====
-- lib/task-queue/queue.ts: the rate-limited queue of bounded concurrency. A step runs from one await
-- to the next. `head` is not kept: `queue` begins at it. Durations are whole milliseconds.
pub mod Loop
pub mod Invariant
pub mod Finish
pub mod Progress
mod Examples
use mailgun_ses_proxy.Base.{
  ℕ, zero, suc, ◌+◌, ◌≤◌, ◌≡◌, String, Bool, true, false, not, ◌&&◌, ◌||◌, Option, none, some, List,
  [], ◌∷◌, ◌++◌, ltb, leb, ◌==◌, length, if◌then◌else◌,
}

-- `fn` names the task's function.
pub record Item : Type 0 where
  pub fn : ℕ
  pub id : Option String

-- `item: null`, and its infinite time, are `none`.
pub record StatsEntry : Type 0 where
  pub item : Item
  pub time : ℕ

pub record Stats : Type 0 where
  pub min : Option StatsEntry
  pub max : Option StatsEntry
  pub average_sum : ℕ
  pub settled_count : ℕ
  pub failed_count : ℕ
  pub failed_items : List (Option String)

abbrev pub no_stats : Stats
no_stats = record {
  min = none;
  max = none;
  average_sum = 0;
  settled_count = 0;
  failed_count = 0;
  failed_items = [];
}

-- `started` is whether startTime is set, `running` the items of the tasks counted by runningCount,
-- `executed` the log of the functions called, `finished` that of the statistics handed to the
-- listeners, newest first, and `waiting` the number of wait promises.
pub record TaskQueue : Type 0 where
  pub max_concurrent : ℕ
  pub has_delay : Bool
  pub started : Bool
  pub stats : Stats
  pub queue : List Item
  pub running : List Item
  pub is_processing : Bool
  pub waiting : ℕ
  pub executed : List Item
  pub finished : List Stats

-- The constructor; there is no delay for an infinite rate.
abbrev pub new_queue : (max_concurrent : ℕ) (has_delay : Bool) → TaskQueue
new_queue max_concurrent has_delay = record {
  max_concurrent = max_concurrent;
  has_delay = has_delay;
  started = false;
  stats = no_stats;
  queue = [];
  running = [];
  is_processing = false;
  waiting = 0;
  executed = [];
  finished = [];
}

-- The head of the queue is taken and its function called.
abbrev pub execute : Item → List Item → TaskQueue → TaskQueue
execute item rest q = record q {
  queue = rest;
  running = item ∷ q.running;
  executed = q.executed ++ item ∷ [];
}

abbrev pub stop_processing : TaskQueue → TaskQueue
stop_processing q = record q { is_processing = false }

-- The `while` loop, up to its timer if it has one; the items are those of `q.queue`.
abbrev pub loop : List Item → TaskQueue → TaskQueue
loop [] q = stop_processing q
loop (item ∷ rest) q =
    let next = loop rest (execute item rest q) in
    if leb q.max_concurrent (length q.running)
    then stop_processing q
    else if q.has_delay
    then execute item rest q
    else next

abbrev pub is_empty {ℓ} : {A : Type ℓ} → List A → Bool
is_empty [] = true
is_empty (a ∷ rest) = false

unfoldable pub process : TaskQueue → TaskQueue
process q =
    if q.is_processing || is_empty q.queue
    then q
    else loop q.queue (record q { is_processing = true })

unfoldable pub trigger_finish : TaskQueue → TaskQueue
trigger_finish q =
    if q.started
    then record q { started = false; waiting = 0; finished = q.stats ∷ q.finished }
    else q

unfoldable pub enqueue : Item → TaskQueue → TaskQueue
unfolding process
enqueue item q = process (record q {
  started = true;
  stats = if q.started then q.stats else no_stats;
  queue = q.queue ++ item ∷ [];
})

unfoldable pub wait_until_finished : TaskQueue → TaskQueue
wait_until_finished q =
    if is_empty q.queue && is_empty q.running then q else record q { waiting = q.waiting + 1 }

unfoldable pub clear : TaskQueue → TaskQueue
unfolding trigger_finish
clear q =
    if is_empty q.running then trigger_finish (record q { queue = [] }) else record q { queue = [] }

abbrev pub shorter : Option StatsEntry → Item → ℕ → Option StatsEntry
shorter none item duration = some (record { item = item; time = duration })
shorter (some entry) item duration =
    if ltb duration entry.time then some (record { item = item; time = duration }) else some entry

abbrev pub longer : Option StatsEntry → Item → ℕ → Option StatsEntry
longer none item duration = some (record { item = item; time = duration })
longer (some entry) item duration =
    if ltb entry.time duration then some (record { item = item; time = duration }) else some entry

unfoldable pub update_metrics : Item → ℕ → Stats → Stats
update_metrics item duration s = record s {
  min = shorter s.min item duration;
  max = longer s.max item duration;
  average_sum = s.average_sum + duration;
  settled_count = s.settled_count + 1;
}

unfoldable pub note_failure : Bool → Item → Stats → Stats
note_failure failed item s =
    if failed
    then record s {
      failed_count = s.failed_count + 1;
      failed_items =
          if ltb (length s.failed_items) 500
          then s.failed_items ++ item.id ∷ []
          else s.failed_items;
    }
    else s

abbrev pub running_at : ℕ → List Item → Option Item
running_at n [] = none
running_at zero (i ∷ others) = some i
running_at (suc n) (i ∷ others) = running_at n others

abbrev pub remove_at : ℕ → List Item → List Item
remove_at n [] = []
remove_at zero (i ∷ others) = others
remove_at (suc n) (i ∷ others) = i ∷ remove_at n others

abbrev pub after_task : TaskQueue → TaskQueue
after_task q = if is_empty q.queue && is_empty q.running then trigger_finish q else process q

abbrev pub settle_found : ℕ → Bool → ℕ → TaskQueue → Option Item → TaskQueue
settle_found n failed duration q none = q
settle_found n failed duration q (some item) = after_task (record q {
  stats = update_metrics item duration (note_failure failed item q.stats);
  running = remove_at n q.running;
})

-- The rest of `executeTask` when the n-th running task settles.
unfoldable pub settle_task : (n : ℕ) (failed : Bool) (duration : ℕ) → TaskQueue → TaskQueue
settle_task n failed duration q = settle_found n failed duration q (running_at n q.running)

-- The timer of the loop.
unfoldable pub timer_fires : TaskQueue → TaskQueue
timer_fires q = if q.is_processing then loop q.queue q else q

pub data QueueEvent : Type 0 where
  enqueues : Item → QueueEvent
  settles : (n : ℕ) (failed : Bool) (duration : ℕ) → QueueEvent
  fires waits : QueueEvent
  clears : QueueEvent

unfoldable pub queue_step : QueueEvent → TaskQueue → TaskQueue
queue_step (enqueues item) q = enqueue item q
queue_step (settles n failed duration) q = settle_task n failed duration q
queue_step fires q = timer_fires q
queue_step waits q = wait_until_finished q
queue_step clears q = clear q

unfoldable pub run_queue : List QueueEvent → TaskQueue → TaskQueue
unfolding queue_step
run_queue [] q = q
run_queue (e ∷ es) q = run_queue es (queue_step e q)
