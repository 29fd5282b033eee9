-- ===== src/Supervisor.antt =====
-- lib/core/worker-supervisor.ts: the lifecycle of the background workers. The closure's variables
-- are the fields of `Supervisor`; the two callbacks are recorded in `called`, newest first.
pub mod Reports
pub mod Invariant
pub mod Shutdown
mod Examples
use mailgun_ses_proxy.Base.{
  ℕ, String, Bool, true, false, not, ◌&&◌, ◌||◌, ◌≡◌, Option, none, some, List, [], ◌∷◌, ◌==◌,
  length, if◌then◌else◌,
}
use Prim.Native.String.{◌++◌ as concat}
use mailgun_ses_proxy.Base.Names.{has, add, to_set_from}
use mailgun_ses_proxy.Base.Attempt.{Attempt, returned, threw, ◌>>◌, throw_if}
use mailgun_ses_proxy.ErrorClass.{Thrown, error_class}

pub data Outcome : Type 0 where
  resolved rejected : Outcome

pub record WorkerStop : Type 0 where
  pub worker_name : String
  pub outcome : Outcome
  pub error_class : Option String

pub data Callback : Type 0 where
  on_unexpected_stop : WorkerStop → Callback
  on_all_workers_settled : (exit_code : ℕ) → Callback

pub record Supervisor : Type 0 where
  pub expected_workers : List String
  pub watched_workers : List String
  pub settled_workers : List String
  pub shutdown_requested : Bool
  pub fatal_shutdown : Bool
  pub completion_reported : Bool
  pub called : List Callback

abbrev pub initial : List String → Supervisor
initial expected = record {
  expected_workers = expected;
  watched_workers = [];
  settled_workers = [];
  shutdown_requested = false;
  fatal_shutdown = false;
  completion_reported = false;
  called = [];
}

pub create_worker_supervisor : List String → Attempt Supervisor
unfolding to_set_from
create_worker_supervisor worker_names =
    let expected = to_set_from [] worker_names in
    do
      throw_if (not (length expected == length worker_names) || length expected == 0)
          "Worker supervisor requires a non-empty unique worker list"
      returned (initial expected)

pub request_graceful_shutdown : Supervisor → Supervisor
request_graceful_shutdown s = record s { shutdown_requested = true }

-- The promise's handlers are the steps `resolves` and `rejects` of `Step`.
pub watch : Supervisor → String → Attempt Supervisor
watch s worker_name = do
  throw_if (not (has s.expected_workers worker_name)) (concat "Unknown worker: " worker_name)
  throw_if (has s.watched_workers worker_name) (concat "Worker already watched: " worker_name)
  returned (record s { watched_workers = add s.watched_workers worker_name })

-- The first `if` of `settle` after the guard, by its test.
abbrev report_unexpected_if : Bool → Supervisor → WorkerStop → Supervisor
report_unexpected_if true s stop = record s {
  fatal_shutdown = true;
  shutdown_requested = true;
  called = on_unexpected_stop stop ∷ s.called;
}
report_unexpected_if false s stop = s

pub report_unexpected : Supervisor → WorkerStop → Supervisor
report_unexpected s stop =
    report_unexpected_if (not s.shutdown_requested && not s.fatal_shutdown) s stop

-- The second one.
abbrev report_completion_if : Bool → Supervisor → Supervisor
report_completion_if true s = record s {
  completion_reported = true;
  called = on_all_workers_settled (if s.fatal_shutdown then 1 else 0) ∷ s.called;
}
report_completion_if false s = s

pub report_completion : Supervisor → Supervisor
report_completion s =
    report_completion_if
      (length s.settled_workers == length s.expected_workers && not s.completion_reported) s

pub settle : Supervisor → WorkerStop → Supervisor
unfolding report_unexpected report_completion
settle s stop =
    if has s.settled_workers stop.worker_name
    then s
    else report_completion (
        report_unexpected (record s { settled_workers = add s.settled_workers stop.worker_name })
          stop)

pub resolution : String → WorkerStop
resolution worker_name = record {
  worker_name = worker_name;
  outcome = resolved;
  error_class = none;
}

pub rejection : String → Thrown → WorkerStop
rejection worker_name reason = record {
  worker_name = worker_name;
  outcome = rejected;
  error_class = some (error_class reason);
}

-- What can happen next: the process asks for shutdown, a worker is watched, or the promise of a
-- watched worker settles.
pub data Step (s t : Supervisor) : Type 0 where
  requests_shutdown : t ≡ request_graceful_shutdown s → Step s t
  watches : (worker_name : String) → watch s worker_name ≡ returned t → Step s t
  resolves :
      (worker_name : String)
      → has s.watched_workers worker_name ≡ true
      → t ≡ settle s (resolution worker_name)
      → Step s t
  rejects :
      (worker_name : String) (reason : Thrown)
      → has s.watched_workers worker_name ≡ true
      → t ≡ settle s (rejection worker_name reason)
      → Step s t

-- Parameterised over where it starts.
pub data Reach (s : Supervisor) : Supervisor → Type 0 where
  here : Reach s s
  next : {t u : Supervisor} → Reach s t → Step t u → Reach s u
