-- ===== src/Supervisor/Shutdown.antt =====
-- What a client of lib/core/worker-supervisor.ts can rely on, over every history.
use mailgun_ses_proxy.Base.{
  ◌+◌, ◌*◌, ◌≤◌, ◌≡◌, refl, String, true, false, List, [], ◌∷◌, ◌==◌, length, if◌then◌else◌, arith,
  ◌↔◌, ◌∙◌,
}
use mathlib.Core.Path.{subst}
use mailgun_ses_proxy.Base.Names.{has, add, Within, length-Within-le, has-Within}
use mailgun_ses_proxy.Base.Attempt.{returned}
use mailgun_ses_proxy.Supervisor.{
  Supervisor, WorkerStop, on_unexpected_stop, on_all_workers_settled, create_worker_supervisor,
  request_graceful_shutdown, settle, report_unexpected, report_completion, resolution, rejection,
  Step, requests_shutdown, watches, resolves, rejects, Reach, here, next,
}
use mailgun_ses_proxy.Supervisor.Invariant.{Inv, Reach-Inv, create-Inv, watch-eq-returned}
use mailgun_ses_proxy.Supervisor.Reports.{stops, completions, bit, completed-has, Within-trans}

module _ (names : List String) (s t : Supervisor)
    (created : create_worker_supervisor names ≡ returned s) (history : Reach s t) where
  inv : Inv t
  inv = Reach-Inv history (create-Inv names s created)

  -- Whatever the order in which workers are watched and settle and shutdown is requested, a
  -- supervisor that was created has called `onUnexpectedStop` at most once and
  -- `onAllWorkersSettled` at most once, and the latter with code 1 exactly when it was called and
  -- the former was called too.
  pub callbacks_once :
      (stops t.called ≤ 1)
      × (completions 0 t.called + completions 1 t.called ≤ 1)
      × (completions 1 t.called
          ≡ stops t.called * (completions 0 t.called + completions 1 t.called))
  callbacks_once =
      ground (arith, inv.flags.stop_count, inv.flags.fatal_count, inv.flags.clean_count)

  full :
      length t.settled_workers ≡ length t.expected_workers
      → Within t.expected_workers t.settled_workers
  full e =
      has-Within t.expected_workers t.settled_workers (λ name h. completed-has t name inv.sets e h)

  reported :
      completions 0 t.called + completions 1 t.called
      ≡ bit (length t.settled_workers == length t.expected_workers)
  reported = ground (arith, inv.flags.completed, inv.flags.fatal_count, inv.flags.clean_count)

  -- `onAllWorkersSettled` has been called exactly when every registered worker has settled.
  pub reported_iff_settled :
      (completions 0 t.called + completions 1 t.called ≡ 1)
      ↔ Within t.expected_workers t.settled_workers
  reported_iff_settled = (
    λ called. full (ground (arith, reported)),
    λ settled. ground (
      arith,
      reported,
      length-Within-le t.expected_workers t.settled_workers inv.sets.expected_distinct settled,
      length-Within-le t.settled_workers t.expected_workers inv.sets.settled_distinct (
          Within-trans t.settled_workers t.watched_workers t.expected_workers
            inv.sets.settled_watched inv.sets.watched_expected),
    ),
  )

settle-shut :
    (s : Supervisor) (stop : WorkerStop)
    → s.shutdown_requested ≡ true
    → ((settle s stop).shutdown_requested ≡ true) × (stops (settle s stop).called ≡ stops s.called)
unfolding settle report_unexpected report_completion
settle-shut s stop h = ground arith

-- Shutdown, once requested or begun by an unexpected stop, is never taken back, and no step after it
-- reports a stop as unexpected.
Step-shut :
    {s t : Supervisor}
    → Step s t
    → s.shutdown_requested ≡ true
    → (t.shutdown_requested ≡ true) × (stops t.called ≡ stops s.called)
unfolding request_graceful_shutdown
Step-shut {s} (requests_shutdown e) h = rw e (refl, refl)
Step-shut {s} {t} (watches name e) h = rw ((watch-eq-returned s t name e).2) (h, refl)
Step-shut {s} (resolves name _ e) h = rw e (settle-shut s (resolution name) h)
Step-shut {s} (rejects name reason _ e) h = rw e (settle-shut s (rejection name reason) h)

-- After shutdown was requested, or begun by a first unexpected stop, it stays so, and in no further
-- history is a stop reported as unexpected.
pub no_stop_after_shutdown :
    {s t : Supervisor}
    → Reach s t
    → s.shutdown_requested ≡ true
    → (t.shutdown_requested ≡ true) × (stops t.called ≡ stops s.called)
no_stop_after_shutdown here h = (h, refl)
no_stop_after_shutdown (next r st) h =
    let before = no_stop_after_shutdown r h in
    let after = Step-shut st before.0 in (after.0, after.1 ∙ before.1)

abbrev Unexpected : Supervisor → WorkerStop → Type 0
Unexpected s stop =
    ((settle s stop).shutdown_requested ≡ true)
    × ((settle s stop).fatal_shutdown ≡ true)
    × ((settle s stop).called ≡ (
        if length s.expected_workers == 1
        then on_all_workers_settled 1 ∷ on_unexpected_stop stop ∷ s.called
        else on_unexpected_stop stop ∷ s.called))

-- A supervisor that has reported nothing.
abbrev running : Supervisor → Supervisor
running s = record s {
  settled_workers = [];
  shutdown_requested = false;
  fatal_shutdown = false;
  completion_reported = false;
}

running-Unexpected : (s : Supervisor) (stop : WorkerStop) → Unexpected (running s) stop
unfolding settle report_unexpected report_completion has add
running-Unexpected s stop = ground arith

empty_of_length : (xs : List String) → length xs ≡ 0 → xs ≡ []
empty_of_length [] e = refl
empty_of_length (x ∷ xs) e = absurd (omega arith)

running_lem : (s : Supervisor) → Inv s → s.shutdown_requested ≡ false → running s ≡ s
running_lem s v h = ground (
  arith,
  empty_of_length s.settled_workers,
  v.flags.settled_shut,
  v.flags.fatal_shut,
  v.flags.completed,
  v.sets.some_expected,
)

-- When a worker stops before shutdown, `onUnexpectedStop` is called with it and shutdown begins as
-- fatal; a sole worker's stop is followed at once by `onAllWorkersSettled` with code 1.
pub settle_unexpected :
    (s : Supervisor) (stop : WorkerStop)
    → Inv s
    → s.shutdown_requested ≡ false
    → ((settle s stop).shutdown_requested ≡ true)
      × ((settle s stop).fatal_shutdown ≡ true)
      × ((settle s stop).called ≡ (
          if length s.expected_workers == 1
          then on_all_workers_settled 1 ∷ on_unexpected_stop stop ∷ s.called
          else on_unexpected_stop stop ∷ s.called))
settle_unexpected s stop v h =
    subst (λ r. Unexpected r stop) (running_lem s v h) (running-Unexpected s stop)
