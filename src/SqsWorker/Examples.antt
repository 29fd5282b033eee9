-- ===== src/SqsWorker/Examples.antt =====
-- Runs of lib/core/sqs-worker.ts.
use mailgun_ses_proxy.Base.{
  ◌⊎◌, ℕ, ◌+◌, ◌≤◌, ◌<◌, ◌≡◌, refl, min, String, true, false, none, some, List, [], ◌∷◌, ◌++◌,
  length, All, ◌==◌, str_eq,
}
use mailgun_ses_proxy.Base.Number.{nat}
use mailgun_ses_proxy.Base.Attempt.{threw, returned}
use mailgun_ses_proxy.ErrorClass.{error, value}
use mailgun_ses_proxy.Registry.{register_worker}
use mailgun_ses_proxy.SqsWorker.Limits.{normalize_sqs_worker_count}
use mailgun_ses_proxy.SqsWorker.Circuit.{consecutive_failure}
use mailgun_ses_proxy.SqsWorker.Acknowledge.{
  Message, DeleteReply, ackable, acknowledge, acknowledge_from, delete_message_batch, concat_all,
  FitsRequest, acknowledge_requests,
}
use mailgun_ses_proxy.SqsWorker.Pool.{
  Pool, process_sqs_messages, fulfils, fails, Settlement, start_pool, start_slots, settle_call,
  run_pool, pool_result,
}
use mailgun_ses_proxy.SqsWorker.Pool.Accounts.{count_by, in_flight, pool_accounts}
use mailgun_ses_proxy.SqsWorker.Pool.Completion.{pool_completes}
use mailgun_ses_proxy.SqsWorker.Poller.{
  receiving, Poller, continues, receives, receive_fails, handles, poll,
}
use mailgun_ses_proxy.SqsWorker.Poller.Group.{
  Group, start_group, run_group, group_step, polls, GroupEvent, worker_result, bootstrap_worker,
  start_worker, end_with,
}
use mailgun_ses_proxy.SqsWorker.Poller.Bounds.{InBounds, pollers-InBounds}
use mailgun_ses_proxy.SqsWorker.Poller.Counts.{Counts}
use mailgun_ses_proxy.SqsWorker.Poller.Busy.{busy_pollers, busy_pollers_counted}
use mailgun_ses_proxy.SqsWorker.Poller.Drain.{events_left, is_receiving, is_yielding, poll_drains}
use mailgun_ses_proxy.SqsWorker.Poller.Ending.{FailsDead, ends_before_shutdown}
use mailgun_ses_proxy.Base.Names.{has, add, without}
use mailgun_ses_proxy.Base.Dict.{get, put}
use mailgun_ses_proxy.SqsWorker.Telemetry.{
  Tick, ticks, ends, run_ticks, launch_queue_telemetry_sample, no_telemetry, times_of,
}
use mailgun_ses_proxy.SqsWorker.Pool.Deletion.{fulfilled, deleted_were_handled}

abbrev message : String → Message
message id = record {
  message_id = id;
  receipt_handle = some id;
  sent_timestamp = some "1700000000000";
}

abbrev without_handle : Message
without_handle = record { message_id = "x"; receipt_handle = none; sent_timestamp = none }

abbrev batch : List Message
batch = message "a" ∷ without_handle ∷ message "b" ∷ []

abbrev answers : ℕ → DeleteReply
answers offset = some (λ index. index == 0)

acknowledge_requests_example :
    ((acknowledge answers batch).0 ≤ length (ackable batch))
    × (concat_all (acknowledge answers batch).1 ≡ ackable batch)
    × All FitsRequest (acknowledge answers batch).1
acknowledge_requests_example = acknowledge_requests answers batch

one_confirmed : (acknowledge answers batch).0 ≡ 1
unfolding acknowledge acknowledge_from delete_message_batch
one_confirmed = refl

abbrev settlements : List Settlement
settlements = (1, fulfils, false) ∷ (0, fails value, false) ∷ (1, fulfils, false) ∷ []

pool_accounts_example :
    let pool = run_pool settlements (start_pool batch (some (nat 2)) false) in
    (pool.handled ++ pool.queued ≡ batch)
    × (length (in_flight pool.slots)
        ≤ min (length batch) (normalize_sqs_worker_count (some (nat 2))))
    × (length (in_flight pool.slots) ≤ 10)
    × (count_by (λ m. str_eq m.message_id "b") pool.successful
          + count_by (λ m. str_eq m.message_id "b") (in_flight pool.slots)
        ≤ count_by (λ m. str_eq m.message_id "b") pool.handled)
pool_accounts_example =
    pool_accounts batch (some (nat 2)) false settlements (λ m. str_eq m.message_id "b")

pool_completes_example :
    ((run_pool settlements (start_pool batch (some (nat 2)) false)).handled ≡ batch)
    × ((run_pool settlements (start_pool batch (some (nat 2)) false)).successful
        ≡ (run_pool settlements (start_pool batch (some (nat 2)) false)).successful)
unfolding start_pool start_slots run_pool settle_call pool_result normalize_sqs_worker_count
pool_completes_example =
    pool_completes batch (some (nat 2)) settlements
      ((run_pool settlements (start_pool batch (some (nat 2)) false)).successful)
      (refl, (refl, (refl, tt))) refl

abbrev events : List GroupEvent
events =
    polls 0 5 continues
    ∷ polls 0 5 continues
    ∷ polls 1 6 continues
    ∷ polls 1 6 continues
    ∷ polls 0 7 (receives batch)
    ∷ polls 1 8 (receive_fails (error "TimeoutError"))
    ∷ []

pollers-InBounds_example :
    All InBounds ((run_group "w" (nat 30000) events (start_group "w" 0 (some (nat 2)) [])).pollers)
pollers-InBounds_example = pollers-InBounds "w" (nat 30000) (some (nat 2)) 0 [] events

busy_pollers_counted_example :
    let g = run_group "w" (nat 30000) events (start_group "w" 0 (some (nat 2)) []) in
    Counts "w" (busy_pollers g.pollers) g.registry
busy_pollers_counted_example = busy_pollers_counted "w" (nat 30000) (some (nat 2)) 0 [] events

one_batch :
    busy_pollers ((run_group "w" (nat 30000) events (start_group "w" 0 (some (nat 2)) [])).pollers)
    ≡ 1
unfolding run_group group_step start_group poll register_worker normalize_sqs_worker_count
    consecutive_failure
one_batch = refl

abbrev waiting : Poller
waiting = record { poll_backoff_ms = 1000; consecutive_errors = 3; phase = receiving }

poll_drains_example :
    (events_left (
        (poll "w"
          (nat 30000)
          9
          true
          false
          (receive_fails (error "AbortError"))
          waiting.phase
          waiting
          []).0.phase)
      < events_left waiting.phase)
    × (events_left waiting.phase ≤ 4)
    × (is_receiving
          (poll "w"
            (nat 30000)
            9
            true
            false
            (receive_fails (error "AbortError"))
            waiting.phase
            waiting
            []).0.phase
        ≡ is_yielding waiting.phase)
    × (is_yielding
          (poll "w"
            (nat 30000)
            9
            true
            false
            (receive_fails (error "AbortError"))
            waiting.phase
            waiting
            []).0.phase
        ≡ false)
poll_drains_example =
    poll_drains "w" (nat 30000) 9 true false (receive_fails (error "AbortError")) waiting [] refl
      refl

abbrev late : List GroupEvent
late =
    polls 0 5 continues
    ∷ polls 0 5 continues
    ∷ polls 0 7 (receives batch)
    ∷ polls 0 90007 (handles (threw "HandlerTimeoutError"))
    ∷ []

abbrev late_group : Group
late_group = run_group "w" (nat 30000) late (start_group "w" 0 none [])

abbrev queue_url : String
queue_url = "https://sqs/q"

ends_before_shutdown_example :
    FailsDead "w"
      ((end_with "w" late_group.registry late_group.failure).0)
      ((end_with "w" late_group.registry late_group.failure).1)
    ⊎ (((queue_url ≡ "") ⊎ (true ≡ false))
        × ((end_with "w" late_group.registry late_group.failure).0 ≡ returned tt)
        × ((end_with "w" late_group.registry late_group.failure).1 ≡ []))
unfolding run_group group_step start_group poll register_worker normalize_sqs_worker_count
    worker_result start_worker bootstrap_worker
ends_before_shutdown_example =
    ends_before_shutdown "w" queue_url true (nat 30000) none 0 [] late
      ((end_with "w" late_group.registry late_group.failure).0)
      ((end_with "w" late_group.registry late_group.failure).1) refl refl

abbrev ticking : List Tick
ticking = ticks "w" 1000 ∷ ticks "w" 32000 ∷ ends "w" ∷ ticks "w" 33000 ∷ ticks "x" 33000 ∷ []

two_samples :
    times_of "w" ((run_ticks (λ name. 30000) ticking no_telemetry).samples) ≡ 33000 ∷ 1000 ∷ []
unfolding run_ticks launch_queue_telemetry_sample get put has add without
two_samples = refl

abbrev settled_pool : Pool
settled_pool = run_pool settlements (start_pool batch (some (nat 2)) false)

deleted_were_handled_example :
    (concat_all (acknowledge answers settled_pool.successful).1
      ≡ ackable (fulfilled settlements (start_pool batch (some (nat 2)) false)))
    × (count_by
          (λ m. str_eq m.message_id "a")
          (concat_all (acknowledge answers settled_pool.successful).1)
        ≤ count_by (λ m. str_eq m.message_id "a") settled_pool.handled)
    × ((acknowledge answers settled_pool.successful).0
        ≤ length (concat_all (acknowledge answers settled_pool.successful).1))
unfolding start_pool start_slots run_pool settle_call pool_result process_sqs_messages
    normalize_sqs_worker_count
deleted_were_handled_example =
    deleted_were_handled batch (some (nat 2)) false settlements answers
      ((acknowledge answers settled_pool.successful).0)
      ((acknowledge answers settled_pool.successful).1) (λ m. str_eq m.message_id "a") refl
