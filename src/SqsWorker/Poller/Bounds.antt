-- ===== src/SqsWorker/Poller/Bounds.antt =====
-- The backoff and the error count of every poller of lib/core/sqs-worker.ts.
use mailgun_ses_proxy.Base.{
  ℕ, zero, suc, ◌+◌, ◌≤◌, ◌≡◌, refl, ap, String, Bool, true, false, ◌&&◌, ◌||◌, Option, none, some,
  List, [], ◌∷◌, All, str_eq, if◌then◌else◌, arith, Bool-cases, inl, inr,
}
use mathlib.Core.Path.{subst}
use mailgun_ses_proxy.Base.Number.{Number}
use mailgun_ses_proxy.Base.Attempt.{Attempt, returned, threw}
use mailgun_ses_proxy.Registry.{Registry}
use mailgun_ses_proxy.SqsWorker.Circuit.{
  consecutive_failure, circuit_breaker_after_poll, is_healthy_sqs_poll,
}
use mailgun_ses_proxy.SqsWorker.Acknowledge.{Message}
use mailgun_ses_proxy.SqsWorker.Limits.{normalize_sqs_worker_count}
use mailgun_ses_proxy.SqsWorker.Poller.{
  gives_up, PollPhase, at_head, yielding, receiving, handling_batch, stopped, Poller, PollEvent,
  continues, receives, receive_fails, handles, retry, take_batch, conclude, finish_batch,
  is_abort_error, poll,
}
use mailgun_ses_proxy.SqsWorker.Poller.Group.{
  Group, start_group, replicate_poller, poller_at, set_poller, is_aborted, GroupEvent, polls,
  shuts_down, poll_found, group_step, run_group,
}

abbrev pub has_given_up : PollPhase → Bool
has_given_up (stopped gives_up) = true
has_given_up _ = false

-- Fewer than 50 errors in a row, except for a poller that has given up, which has 50.
pub record InBounds (p : Poller) : Type 0 where
  pub backoff : (1000 ≤ p.poll_backoff_ms) × (p.poll_backoff_ms ≤ 30000)
  pub errors : p.consecutive_errors + (if has_given_up p.phase then 0 else 1) ≤ 50
  pub all_errors : 50 ≤ p.consecutive_errors + (if has_given_up p.phase then 0 else 50)

module _ (name : String) (deadline_ms : Number) (now : ℕ) (shutdown aborted : Bool) where
  -- A poller that has not given up.
  Running : Poller → Type 0
  Running p = has_given_up p.phase ≡ false

  retry-InBounds :
      (p : Poller) (r : Registry) → Running p → InBounds p → InBounds ((retry name now p r).0)
  unfolding consecutive_failure Running
  retry-InBounds p r running v = ground (arith, v.backoff, v.errors, running)

  take_batch-InBounds :
      (messages : List Message) (p : Poller) (r : Registry)
      → Running p
      → InBounds p
      → InBounds ((take_batch name deadline_ms now shutdown messages p r).0)
  unfolding Running
  take_batch-InBounds [] p r running v = ground (arith, v.errors, running)
  take_batch-InBounds (m ∷ ms) p r running v = ground (arith, v.errors, running)

  conclude-InBounds :
      (messages : List Message) (acknowledged : ℕ) (p : Poller) (r : Registry)
      → Running p
      → InBounds p
      → InBounds ((conclude name now messages acknowledged p r).0)
  unfolding circuit_breaker_after_poll consecutive_failure is_healthy_sqs_poll Running
  conclude-InBounds messages acknowledged p r running v =
      ground (arith, v.backoff, v.errors, running)

  finish_batch-InBounds :
      (messages : List Message) (result : Attempt ℕ) (p : Poller) (r : Registry)
      → Running p
      → InBounds p
      → InBounds ((finish_batch name now messages result p r).0)
  unfolding Running
  finish_batch-InBounds messages (returned acknowledged) p r running v =
      conclude-InBounds messages acknowledged p _ running v
  finish_batch-InBounds messages (threw e) p r running v =
      elim (Bool-cases (str_eq e "HandlerTimeoutError")) [
        | inl late ↦ rw late (ground (arith, v.backoff, v.errors, running))
        | inr other ↦ rw other (retry-InBounds p _ running v)
      ]

  poll-InBounds :
      (event : PollEvent) (phase : PollPhase) (p : Poller) (r : Registry)
      → p.phase ≡ phase
      → InBounds p
      → InBounds ((poll name deadline_ms now shutdown aborted event phase p r).0)
  unfolding poll Running
  poll-InBounds continues at_head p r e v =
      let running = ap has_given_up e in ground (arith, v.backoff, v.errors, running)
  poll-InBounds continues yielding p r e v =
      let running = ap has_given_up e in ground (arith, v.backoff, v.errors, running)
  poll-InBounds (receives messages) receiving p r e v =
      take_batch-InBounds messages p r (ap has_given_up e) v
  poll-InBounds (receive_fails thrown) receiving p r e v =
      let running = ap has_given_up e in
      elim (Bool-cases (is_abort_error thrown && (shutdown || aborted))) [
        | inl ends ↦ rw ends (ground (arith, v.backoff, v.errors, running))
        | inr goes ↦ rw goes (retry-InBounds p r running v)
      ]
  poll-InBounds (handles result) (handling_batch messages) p r e v =
      finish_batch-InBounds messages result p r (ap has_given_up e) v
  poll-InBounds continues receiving p r e v = v
  poll-InBounds continues (handling_batch messages) p r e v = v
  poll-InBounds continues (stopped end) p r e v = v
  poll-InBounds (receives _) at_head p r e v = v
  poll-InBounds (receives _) yielding p r e v = v
  poll-InBounds (receives _) (handling_batch messages) p r e v = v
  poll-InBounds (receives _) (stopped end) p r e v = v
  poll-InBounds (receive_fails thrown) at_head p r e v = v
  poll-InBounds (receive_fails thrown) yielding p r e v = v
  poll-InBounds (receive_fails thrown) (handling_batch messages) p r e v = v
  poll-InBounds (receive_fails thrown) (stopped end) p r e v = v
  poll-InBounds (handles result) at_head p r e v = v
  poll-InBounds (handles result) yielding p r e v = v
  poll-InBounds (handles result) receiving p r e v = v
  poll-InBounds (handles result) (stopped end) p r e v = v

set_poller-All :
    (n : ℕ) (p q : Poller) (ps : List Poller) (P : Poller → Type 0)
    → poller_at n ps ≡ some p
    → (P p → P q)
    → All P ps
    → All P (set_poller n q ps)
set_poller-All n p q [] P e h v = tt
set_poller-All zero p q (x ∷ ps) P e h v = let same : x ≡ p = cc in (h (subst P same v.0), v.1)
set_poller-All (suc n) p q (x ∷ ps) P e h v = (v.0, set_poller-All n p q ps P e h v.1)

poll_found-InBounds :
    (name : String) (deadline_ms : Number) (n now : ℕ) (event : PollEvent) (g : Group)
    (o : Option Poller)
    → poller_at n g.pollers ≡ o
    → All InBounds g.pollers
    → All InBounds ((poll_found name deadline_ms n now event g o).pollers)
poll_found-InBounds name deadline_ms n now event g none e v = v
poll_found-InBounds name deadline_ms n now event g (some p) e v =
    set_poller-All n p _ g.pollers InBounds e
      (λ h.
        poll-InBounds name deadline_ms now g.shutdown (is_aborted g.failure) event p.phase p
          g.registry refl h)
      v

run-InBounds :
    (name : String) (deadline_ms : Number) (events : List GroupEvent) (g : Group)
    → All InBounds g.pollers
    → All InBounds ((run_group name deadline_ms events g).pollers)
unfolding run_group group_step
run-InBounds name deadline_ms [] g v = v
run-InBounds name deadline_ms (polls n now event ∷ es) g v =
    run-InBounds name deadline_ms es _
      (poll_found-InBounds name deadline_ms n now event g (poller_at n g.pollers) refl v)
run-InBounds name deadline_ms (shuts_down ∷ es) g v = run-InBounds name deadline_ms es _ v

replicate-InBounds : (n : ℕ) → All InBounds (replicate_poller n)
replicate-InBounds zero = tt
replicate-InBounds (suc n) = (
  record { backoff = omega arith; errors = omega arith; all_errors = omega arith },
  replicate-InBounds n,
)

-- Whatever is received, fails or is acknowledged, in any interleaving of the pollers of a worker: a
-- poller's backoff stays between one and thirty seconds, it has at most 49 errors in a row, or it has
-- given up with 50.
pub pollers-InBounds :
    (name : String) (deadline_ms : Number) (poll_concurrency : Option Number) (now : ℕ)
    (r : Registry) (events : List GroupEvent)
    → All InBounds
        ((run_group name deadline_ms events (start_group name now poll_concurrency r)).pollers)
unfolding start_group
pollers-InBounds name deadline_ms poll_concurrency now r events =
    run-InBounds name deadline_ms events _
      (replicate-InBounds (normalize_sqs_worker_count poll_concurrency))
