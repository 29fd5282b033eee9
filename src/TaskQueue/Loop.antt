-- ===== src/TaskQueue/Loop.antt =====
-- What the loop of `process` in lib/task-queue/queue.ts keeps.
use mailgun_ses_proxy.Base.{
  ◌≤◌, ◌≡◌, refl, ◌∙◌, Bool, true, false, ◌&&◌, ◌||◌, List, [], ◌∷◌, ◌++◌, leb, length,
  if◌then◌else◌, arith, Bool-cases, inl, inr,
}
use mathlib.Core.List.{append_assoc}
use mailgun_ses_proxy.TaskQueue.{Item, TaskQueue, execute, stop_processing, loop, is_empty, process}

-- No task is queued or running.
abbrev pub is_resting : TaskQueue → Bool
is_resting q = is_empty q.queue && is_empty q.running

pub either :
    (P : TaskQueue → Type 0) (b : Bool) (x y : TaskQueue)
    → (b ≡ true → P x)
    → (b ≡ false → P y)
    → P (if b then x else y)
either P true x y hx hy = hx refl
either P false x y hx hy = hy refl

module _ (P : TaskQueue → Type 0) (item : Item) (rest : List Item) (q : TaskQueue) where
  pub loop-cases :
      (leb q.max_concurrent (length q.running) ≡ true → P (stop_processing q))
      → (leb q.max_concurrent (length q.running) ≡ false → P (execute item rest q))
      → (leb q.max_concurrent (length q.running) ≡ false → P (loop rest (execute item rest q)))
      → P (loop (item ∷ rest) q)
  loop-cases full delayed goes_on =
      either P (leb q.max_concurrent (length q.running)) (stop_processing q) _ full (λ room.
        either P q.has_delay (execute item rest q) (loop rest (execute item rest q))
          (λ slow. delayed room) (λ fast. goes_on room))

pub and-false : (b : Bool) → (b && false) ≡ false
and-false true = refl
and-false false = refl

-- What the loop keeps.
pub record LoopKept (items : List Item) (q after : TaskQueue) : Type 0 where
  pub limit : after.max_concurrent ≡ q.max_concurrent
  pub bounded : length after.running ≤ after.max_concurrent
  pub resting : is_resting after ≡ (is_empty items && is_empty q.running)
  pub started : after.started ≡ q.started
  pub waiting : after.waiting ≡ q.waiting
  pub finished : after.finished ≡ q.finished
  pub active :
      (is_empty after.queue
        || after.is_processing
        || leb after.max_concurrent (length after.running))
      ≡ true
  pub served : after.executed ++ after.queue ≡ q.executed ++ items

pub loop-LoopKept :
    (items : List Item) (q : TaskQueue)
    → q.queue ≡ items
    → q.is_processing ≡ true
    → length q.running ≤ q.max_concurrent
    → LoopKept items q (loop items q)
loop-LoopKept [] q e busy h = record {
  limit = refl;
  bounded = h;
  resting = rw e refl;
  started = refl;
  waiting = refl;
  finished = refl;
  active = rw e refl;
  served = rw e refl;
}
loop-LoopKept (item ∷ rest) q e busy h =
    loop-cases (LoopKept (item ∷ rest) q) item rest q
      (λ full. record {
        limit = refl;
        bounded = h;
        resting = rw e refl;
        started = refl;
        waiting = refl;
        finished = refl;
        active = rw e full;
        served = rw e refl;
      })
      (λ room. record {
        limit = refl;
        bounded = ground (arith, room);
        resting = and-false (is_empty rest);
        started = refl;
        waiting = refl;
        finished = refl;
        active = rw busy (ground arith);
        served = append_assoc q.executed (item ∷ []) rest;
      })
      (λ room.
        let later = loop-LoopKept rest (execute item rest q) refl busy (ground (arith, room)) in
        record {
          limit = later.limit;
          bounded = later.bounded;
          resting = later.resting ∙ and-false (is_empty rest);
          started = later.started;
          waiting = later.waiting;
          finished = later.finished;
          active = later.active;
          served = later.served ∙ append_assoc q.executed (item ∷ []) rest;
        })

pub process-LoopKept :
    (q : TaskQueue) → length q.running ≤ q.max_concurrent → LoopKept q.queue q (process q)
unfolding process
process-LoopKept q h = elim (Bool-cases (q.is_processing || is_empty q.queue)) [
  | inl stays ↦ rw stays (record {
    limit = refl;
    bounded = h;
    resting = refl;
    started = refl;
    waiting = refl;
    finished = refl;
    active = ground (arith, stays);
    served = refl;
  })
  | inr goes ↦
      rw goes (fresh (loop-LoopKept q.queue (record q { is_processing = true }) refl refl h))
]
  where
    fresh :
        {after : TaskQueue}
        → LoopKept q.queue (record q { is_processing = true }) after
        → LoopKept q.queue q after
    fresh v = record {
      limit = v.limit;
      bounded = v.bounded;
      resting = v.resting;
      started = v.started;
      waiting = v.waiting;
      finished = v.finished;
      active = v.active;
      served = v.served;
    }
