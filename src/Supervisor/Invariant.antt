-- ===== src/Supervisor/Invariant.antt =====
-- The invariant of lib/core/worker-supervisor.ts.
use mailgun_ses_proxy.Base.{
  ◌<◌, ◌≡◌, refl, String, true, false, not, ◌||◌, List, [], ◌==◌, length, arith, inl, inr,
  Bool-cases,
}
use mailgun_ses_proxy.Base.Names.{
  has, add, Distinct, Distinct-add, Within-add, Within-add_right, Distinct-to_set, to_set_from,
}
use mailgun_ses_proxy.Base.Attempt.{returned, ◌>>◌, throw_if}
use mailgun_ses_proxy.Supervisor.{
  report_unexpected, report_completion, Supervisor, WorkerStop, create_worker_supervisor,
  request_graceful_shutdown, watch, settle, initial, resolution, rejection, Step, requests_shutdown,
  watches, resolves, rejects, Reach, here, next,
}
use mailgun_ses_proxy.Supervisor.Reports.{
  completions, Sets, Flags, report_unexpected-Pending, report_completion-Flags, completed-has,
  Within-has,
}

pub record Inv (s : Supervisor) : Type 0 where
  pub sets : Sets s
  pub flags : Flags s

settle-Flags :
    (s : Supervisor) (stop : WorkerStop)
    → Inv s
    → has s.watched_workers stop.worker_name ≡ true
    → Flags (settle s stop)
unfolding settle
settle-Flags s stop v h = elim (Bool-cases (has s.settled_workers stop.worker_name)) [
  | inl old ↦ rw old v.flags
  | inr new ↦ rw new (fresh new)
]
  where
    open_still : has s.settled_workers stop.worker_name ≡ false → s.completion_reported ≡ false
    open_still new = ground (
      arith,
      v.flags.completed,
      completed-has s stop.worker_name v.sets,
      Within-has s.watched_workers s.expected_workers stop.worker_name v.sets.watched_expected h,
    )

    zero_count :
        has s.settled_workers stop.worker_name ≡ false
        → (completions 1 s.called ≡ 0) × (completions 0 s.called ≡ 0)
    zero_count new = (
      ground (arith, v.flags.fatal_count, open_still new),
      ground (arith, v.flags.clean_count, open_still new),
    )

    fresh :
        has s.settled_workers stop.worker_name ≡ false
        → Flags (
            report_completion (
              report_unexpected
                (record s { settled_workers = add s.settled_workers stop.worker_name })
                stop))
    fresh new = report_completion-Flags _ _ (
        report_unexpected-Pending
          (record s { settled_workers = add s.settled_workers stop.worker_name }) stop
          v.flags.fatal_shut (open_still new) v.flags.stop_count (zero_count new).0
          (zero_count new).1)

settle_same :
    (s : Supervisor) (stop : WorkerStop)
    → ((settle s stop).expected_workers ≡ s.expected_workers)
      × ((settle s stop).watched_workers ≡ s.watched_workers)
      × ((settle s stop).settled_workers ≡ add s.settled_workers stop.worker_name)
unfolding settle report_unexpected report_completion add
settle_same s stop = ground arith

settle-Sets :
    (s : Supervisor) (stop : WorkerStop)
    → Sets s
    → has s.watched_workers stop.worker_name ≡ true
    → Sets (settle s stop)
settle-Sets s stop v h =
    rw (same.0, same.1, same.2)
      (record {
        some_expected = v.some_expected;
        expected_distinct = v.expected_distinct;
        settled_distinct = Distinct-add s.settled_workers stop.worker_name v.settled_distinct;
        settled_watched =
            Within-add s.settled_workers s.watched_workers stop.worker_name v.settled_watched h;
        watched_expected = v.watched_expected;
      })
  where
    same :
        ((settle s stop).expected_workers ≡ s.expected_workers)
        × ((settle s stop).watched_workers ≡ s.watched_workers)
        × ((settle s stop).settled_workers ≡ add s.settled_workers stop.worker_name)
    same = settle_same s stop

settle-Inv :
    (s : Supervisor) (stop : WorkerStop)
    → Inv s
    → has s.watched_workers stop.worker_name ≡ true
    → Inv (settle s stop)
settle-Inv s stop v h = record {
  sets = settle-Sets s stop v.sets h;
  flags = settle-Flags s stop v h;
}

-- `watch` succeeds for an expected worker that is not watched yet.
pub watch-eq-returned :
    (s t : Supervisor) (name : String)
    → watch s name ≡ returned t
    → (has s.expected_workers name ≡ true)
      × (has s.watched_workers name ≡ false)
      × (t ≡ record s { watched_workers = add s.watched_workers name })
unfolding watch
watch-eq-returned s t name e = ground arith

watch-Inv : (s t : Supervisor) (name : String) → Inv s → watch s name ≡ returned t → Inv t
watch-Inv s t name v e = rw ((watch-eq-returned s t name e).2) (record {
  sets = record {
    some_expected = v.sets.some_expected;
    expected_distinct = v.sets.expected_distinct;
    settled_distinct = v.sets.settled_distinct;
    settled_watched =
        Within-add_right s.settled_workers s.watched_workers name v.sets.settled_watched;
    watched_expected =
        Within-add s.watched_workers s.expected_workers name v.sets.watched_expected
          (watch-eq-returned s t name e).0;
  };
  flags = record {
    settled_shut = v.flags.settled_shut;
    fatal_shut = v.flags.fatal_shut;
    completed = v.flags.completed;
    stop_count = v.flags.stop_count;
    fatal_count = v.flags.fatal_count;
    clean_count = v.flags.clean_count;
  };
})

shutdown-Inv : (s : Supervisor) → Inv s → Inv (request_graceful_shutdown s)
unfolding request_graceful_shutdown
shutdown-Inv s v = record {
  sets = record {
    some_expected = v.sets.some_expected;
    expected_distinct = v.sets.expected_distinct;
    settled_distinct = v.sets.settled_distinct;
    settled_watched = v.sets.settled_watched;
    watched_expected = v.sets.watched_expected;
  };
  flags = record {
    settled_shut = λ _. refl;
    fatal_shut = λ _. refl;
    completed = v.flags.completed;
    stop_count = v.flags.stop_count;
    fatal_count = v.flags.fatal_count;
    clean_count = v.flags.clean_count;
  };
}

pub Step-Inv : {s t : Supervisor} → Step s t → Inv s → Inv t
Step-Inv {s} (requests_shutdown e) v = rw e (shutdown-Inv s v)
Step-Inv {s} {t} (watches name e) v = watch-Inv s t name v e
Step-Inv {s} (resolves name h e) v = rw e (unfold resolution in settle-Inv s (resolution name) v h)
Step-Inv {s} (rejects name reason h e) v =
    rw e (unfold rejection in settle-Inv s (rejection name reason) v h)

-- The supervisor is created from a non-empty list without repetition.
pub create-eq-returned :
    (names : List String) (s : Supervisor)
    → create_worker_supervisor names ≡ returned s
    → (s ≡ initial (to_set_from [] names))
      × (length (to_set_from [] names) ≡ length names)
      × (0 < length (to_set_from [] names))
unfolding create_worker_supervisor
create-eq-returned names s e = by_size (to_set_from [] names) e
  where
    by_size :
        (expected : List String)
        → (do
          throw_if
              (not (length expected == length names) || length expected == 0)
              "Worker supervisor requires a non-empty unique worker list"
          returned (initial expected))
          ≡ returned s
        → (s ≡ initial expected) × (length expected ≡ length names) × (0 < length expected)
    by_size expected e = ground arith

initial-Inv :
    (expected : List String) → Distinct expected → 0 < length expected → Inv (initial expected)
initial-Inv expected d h = record {
  sets = record {
    some_expected = h;
    expected_distinct = d;
    settled_distinct = tt;
    settled_watched = tt;
    watched_expected = tt;
  };
  flags = ground arith;
}

pub create-Inv :
    (names : List String) (s : Supervisor) → create_worker_supervisor names ≡ returned s → Inv s
create-Inv names s e =
    rw ((create-eq-returned names s e).0)
      (initial-Inv (to_set_from [] names) (Distinct-to_set names) (create-eq-returned names s e).2)

pub Reach-Inv : {s t : Supervisor} → Reach s t → Inv s → Inv t
Reach-Inv here v = v
Reach-Inv (next r st) v = Step-Inv st (Reach-Inv r v)
