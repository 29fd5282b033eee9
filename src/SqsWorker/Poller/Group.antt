-- ===== src/SqsWorker/Poller/Group.antt =====
-- The pollers of one worker and the end of `startWorker` in lib/core/sqs-worker.ts.
use mailgun_ses_proxy.Base.{
  ℕ, zero, suc, String, Bool, true, false, not, ◌&&◌, str_eq, Option, none, some, List, [], ◌∷◌,
  every, if◌then◌else◌,
}
use mailgun_ses_proxy.Base.Number.{Number}
use mailgun_ses_proxy.Base.Attempt.{Attempt, returned, threw}
use mailgun_ses_proxy.ErrorClass.{Thrown, error, value}
use mailgun_ses_proxy.Registry.{Registry, register_worker, mark_worker_dead}
use mailgun_ses_proxy.SqsWorker.Limits.{normalize_sqs_worker_count}
use mailgun_ses_proxy.SqsWorker.Poller.{
  leaves, gives_up, throws, PollPhase, stopped, Poller, new_poller, PollEvent, poll,
}

-- `failure` is the reason with which `pollerGroup` was aborted.
pub record Group : Type 0 where
  pub pollers : List Poller
  pub registry : Registry
  pub shutdown : Bool
  pub failure : Option Thrown

abbrev pub replicate_poller : ℕ → List Poller
replicate_poller zero = []
replicate_poller (suc n) = new_poller ∷ replicate_poller n

unfoldable pub start_group : String → ℕ → Option Number → Registry → Group
start_group name now poll_concurrency r = record {
  pollers = replicate_poller (normalize_sqs_worker_count poll_concurrency);
  registry = register_worker name now r;
  shutdown = false;
  failure = none;
}

abbrev pub poller_at : ℕ → List Poller → Option Poller
poller_at n [] = none
poller_at zero (p ∷ ps) = some p
poller_at (suc n) (p ∷ ps) = poller_at n ps

abbrev pub set_poller : ℕ → Poller → List Poller → List Poller
set_poller n q [] = []
set_poller zero q (p ∷ ps) = q ∷ ps
set_poller (suc n) q (p ∷ ps) = p ∷ set_poller n q ps

abbrev pub is_aborted : Option Thrown → Bool
is_aborted none = false
is_aborted (some e) = true

-- The rejection of a poller's promise, if it has one.
abbrev pub rejection : Bool → PollPhase → Option Thrown
rejection shutdown (stopped throws) = some (error "HandlerTimeoutError")
rejection shutdown (stopped leaves) = if shutdown then none else some (error "Error")
rejection shutdown (stopped gives_up) = if shutdown then none else some (error "Error")
rejection shutdown _ = none

-- `Promise.all` rejects with the first.
abbrev pub first_failure : Option Thrown → Option Thrown → Option Thrown
first_failure none e = e
first_failure (some e) _ = some e

pub data GroupEvent : Type 0 where
  polls : (poller now : ℕ) → PollEvent → GroupEvent
  shuts_down : GroupEvent

abbrev pub poll_found : String → Number → ℕ → ℕ → PollEvent → Group → Option Poller → Group
poll_found name deadline_ms n now event g none = g
poll_found name deadline_ms n now event g (some p) =
    let polled =
      poll name deadline_ms now g.shutdown (is_aborted g.failure) event p.phase p g.registry in
    record g {
      pollers = set_poller n polled.0 g.pollers;
      registry = polled.1;
      failure = first_failure g.failure (rejection g.shutdown polled.0.phase);
    }

unfoldable pub group_step : String → Number → GroupEvent → Group → Group
group_step name deadline_ms (polls n now event) g =
    poll_found name deadline_ms n now event g (poller_at n g.pollers)
group_step name deadline_ms shuts_down g = record g { shutdown = true }

unfoldable pub run_group : String → Number → List GroupEvent → Group → Group
unfolding group_step
run_group name deadline_ms [] g = g
run_group name deadline_ms (e ∷ es) g =
    run_group name deadline_ms es (group_step name deadline_ms e g)

abbrev pub is_stopped : PollPhase → Bool
is_stopped (stopped e) = true
is_stopped _ = false

-- Once every poller has settled, `startWorker` marks the worker dead and throws the first rejection,
-- or returns. An error is named by its class.
abbrev pub end_with : String → Registry → Option Thrown → Attempt {0} Unit × Registry
end_with name r none = (returned tt, mark_worker_dead name value r)
end_with name r (some (error e)) = (threw e, mark_worker_dead name (error e) r)
end_with name r (some value) = (threw "", mark_worker_dead name value r)

unfoldable pub worker_result : String → Group → Option (Attempt {0} Unit × Registry)
worker_result name g =
    if every (λ p. is_stopped p.phase) g.pollers
    then some (end_with name g.registry g.failure)
    else none

-- Whether there is a client: not without a queue URL, nor if making one throws.
unfoldable pub bootstrap_worker : (queue_url : String) (client_made : Bool) → Bool
bootstrap_worker queue_url client_made = not (str_eq queue_url "") && client_made

-- `startWorker` over the events of its pollers: without a client it returns at once, and nothing is
-- registered.
unfoldable pub start_worker :
    (name queue_url : String) (client_made : Bool)
    → Number
    → Option Number
    → ℕ
    → Registry
    → List GroupEvent
    → Option (Attempt {0} Unit × Registry)
unfolding bootstrap_worker start_group run_group worker_result
start_worker name queue_url client_made deadline_ms poll_concurrency now r events =
    if bootstrap_worker queue_url client_made
    then worker_result name
        (run_group name deadline_ms events (start_group name now poll_concurrency r))
    else some (returned tt, r)
