-- ===== src/Supervisor/Reports.antt =====
-- What the two reports of lib/core/worker-supervisor.ts do to the flags and the calls.
use mailgun_ses_proxy.Base.{
  ℕ, suc, ◌<◌, ◌≡◌, refl, String, Bool, true, false, not, ◌&&◌, List, [], ◌∷◌, ◌==◌, length,
  if◌then◌else◌, arith, eq_iff,
}
use mailgun_ses_proxy.Base.Names.{has, Distinct, Within, has_of_full}
use mailgun_ses_proxy.Supervisor.{
  report_unexpected, report_unexpected_if, report_completion, report_completion_if, Supervisor,
  WorkerStop, Callback, on_unexpected_stop, on_all_workers_settled,
}

-- How often a callback was called.
abbrev pub stops : List Callback → ℕ
stops [] = 0
stops (on_unexpected_stop stop ∷ calls) = suc (stops calls)
stops (on_all_workers_settled exit_code ∷ calls) = stops calls

abbrev pub completions : ℕ → List Callback → ℕ
completions code [] = 0
completions code (on_unexpected_stop stop ∷ calls) = completions code calls
completions code (on_all_workers_settled exit_code ∷ calls) =
    if exit_code == code then suc (completions code calls) else completions code calls

abbrev pub bit : Bool → ℕ
bit b = if b then 1 else 0

pub record Sets (s : Supervisor) : Type 0 where
  pub some_expected : 0 < length s.expected_workers
  pub expected_distinct : Distinct s.expected_workers
  pub settled_distinct : Distinct s.settled_workers
  pub settled_watched : Within s.settled_workers s.watched_workers
  pub watched_expected : Within s.watched_workers s.expected_workers

pub record Flags (s : Supervisor) : Type 0 where
  pub settled_shut : 0 < length s.settled_workers → s.shutdown_requested ≡ true
  pub fatal_shut : s.fatal_shutdown ≡ true → s.shutdown_requested ≡ true
  pub completed : s.completion_reported ≡ (length s.settled_workers == length s.expected_workers)
  pub stop_count : stops s.called ≡ bit s.fatal_shutdown
  pub fatal_count : completions 1 s.called ≡ bit (s.completion_reported && s.fatal_shutdown)
  pub clean_count : completions 0 s.called ≡ bit (s.completion_reported && not s.fatal_shutdown)

-- What holds between the two reports of `settle`, for a worker that had not settled before.
pub record Pending (s t : Supervisor) : Type 0 where
  shut : t.shutdown_requested ≡ true
  open_still : t.completion_reported ≡ false
  stop_count : stops t.called ≡ bit t.fatal_shutdown
  fatal_count : completions 1 t.called ≡ 0
  clean_count : completions 0 t.called ≡ 0
  same_settled : t.settled_workers ≡ s.settled_workers
  same_expected : t.expected_workers ≡ s.expected_workers

pub report_unexpected-Pending :
    (s : Supervisor) (stop : WorkerStop)
    → (s.fatal_shutdown ≡ true → s.shutdown_requested ≡ true)
    → s.completion_reported ≡ false
    → stops s.called ≡ bit s.fatal_shutdown
    → completions 1 s.called ≡ 0
    → completions 0 s.called ≡ 0
    → Pending s (report_unexpected s stop)
unfolding report_unexpected
report_unexpected-Pending s stop f c n1 n2 n3 =
    by_test (not s.shutdown_requested && not s.fatal_shutdown) refl
  where
    by_test :
        (b : Bool)
        → (not s.shutdown_requested && not s.fatal_shutdown) ≡ b
        → Pending s (report_unexpected_if b s stop)
    by_test true e = ground arith
    by_test false e = ground arith

pub report_completion-Flags : (s t : Supervisor) → Pending s t → Flags (report_completion t)
unfolding report_completion
report_completion-Flags s t p =
    by_test (length t.settled_workers == length t.expected_workers && not t.completion_reported)
      refl
  where
    by_test :
        (b : Bool)
        → (length t.settled_workers == length t.expected_workers && not t.completion_reported) ≡ b
        → Flags (report_completion_if b t)
    by_test true e =
        ground (arith, p.shut, p.open_still, p.stop_count, p.fatal_count, p.clean_count)
    by_test false e =
        ground (arith, p.shut, p.open_still, p.stop_count, p.fatal_count, p.clean_count)

pub Within-has :
    (xs ys : List String) (a : String) → Within xs ys → has xs a ≡ true → has ys a ≡ true
unfolding has
Within-has [] ys a w h = ground arith
Within-has (x ∷ xs) ys a w h = ground (arith, Within-has xs ys a, eq_iff x a)

pub Within-trans : (xs ys zs : List String) → Within xs ys → Within ys zs → Within xs zs
Within-trans [] ys zs v w = tt
Within-trans (x ∷ xs) ys zs v w = (Within-has ys zs x w v.0, Within-trans xs ys zs v.1 w)

-- Once completion is reported, every worker that is watched has settled.
pub completed-has :
    (s : Supervisor) (name : String)
    → Sets s
    → length s.settled_workers ≡ length s.expected_workers
    → has s.expected_workers name ≡ true
    → has s.settled_workers name ≡ true
completed-has s name v e h =
    has_of_full s.settled_workers s.expected_workers name v.settled_distinct
      (Within-trans s.settled_workers s.watched_workers s.expected_workers v.settled_watched
        v.watched_expected)
      e h
