-- ===== src/Supervisor/Examples.antt =====
-- Runs of lib/core/worker-supervisor.ts, as in tests/lib/worker-supervisor.test.ts.
use mailgun_ses_proxy.Base.{◌+◌, ◌*◌, ◌≤◌, ◌≡◌, refl, ◌↔◌, true, [], ◌∷◌, none}
use mailgun_ses_proxy.Base.Names.{has, add, Within}
use mailgun_ses_proxy.Base.Attempt.{returned, threw}
use mailgun_ses_proxy.Supervisor.{
  Supervisor, initial, create_worker_supervisor, request_graceful_shutdown, watch, settle,
  resolution, Outcome, Reach, here, next, watches, resolves, on_unexpected_stop,
  on_all_workers_settled,
}
use mailgun_ses_proxy.Supervisor.Reports.{stops, completions}
use mailgun_ses_proxy.Supervisor.Shutdown.{
  callbacks_once, reported_iff_settled, no_stop_after_shutdown,
}

abbrev start : Supervisor
start = initial ("events" ∷ [])

start_created : create_worker_supervisor ("events" ∷ []) ≡ returned start
unfolding create_worker_supervisor has add
start_created = refl

repeated_names_refused :
    create_worker_supervisor ("events" ∷ "events" ∷ [])
    ≡ threw "Worker supervisor requires a non-empty unique worker list"
unfolding create_worker_supervisor has add
repeated_names_refused = refl

abbrev watched : Supervisor
watched = record start { watched_workers = "events" ∷ [] }

abbrev stopped : Supervisor
stopped = record watched {
  settled_workers = "events" ∷ [];
  shutdown_requested = true;
  fatal_shutdown = true;
  completion_reported = true;
  called =
      on_all_workers_settled 1
      ∷ on_unexpected_stop
          (record { worker_name = "events"; outcome = Outcome.resolved; error_class = none })
      ∷ [];
}

start-watch : watch start "events" ≡ returned watched
unfolding watch has add
start-watch = refl

history : Reach start stopped
unfolding settle has add resolution
history = next (next here (watches "events" start-watch)) (resolves "events" refl refl)

callbacks_once_example :
    (stops stopped.called ≤ 1)
    × (completions 0 stopped.called + completions 1 stopped.called ≤ 1)
    × (completions 1 stopped.called
        ≡ stops stopped.called * (completions 0 stopped.called + completions 1 stopped.called))
callbacks_once_example = callbacks_once ("events" ∷ []) start stopped start_created history

reported_iff_settled_example :
    (completions 0 stopped.called + completions 1 stopped.called ≡ 1)
    ↔ Within stopped.expected_workers stopped.settled_workers
reported_iff_settled_example =
    reported_iff_settled ("events" ∷ []) start stopped start_created history

shut :
    Reach
      (request_graceful_shutdown start)
      (record (request_graceful_shutdown start) { watched_workers = "events" ∷ [] })
unfolding request_graceful_shutdown watch has add
shut = next here (watches "events" refl)

no_stop_after_shutdown_example :
    ((record (request_graceful_shutdown start) {
      watched_workers = "events" ∷ [];
    }).shutdown_requested
      ≡ true)
    × (stops (record (request_graceful_shutdown start) { watched_workers = "events" ∷ [] }).called
        ≡ stops (request_graceful_shutdown start).called)
unfolding request_graceful_shutdown
no_stop_after_shutdown_example = no_stop_after_shutdown shut refl
