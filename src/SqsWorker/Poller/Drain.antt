-- ===== src/SqsWorker/Poller/Drain.antt =====
-- How the pollers of lib/core/sqs-worker.ts end: after a shutdown or the failure of a sibling, and
-- what an end before the shutdown does to the worker.
use mailgun_ses_proxy.Base.{
  ℕ, ◌≤◌, ◌<◌, ◌≡◌, refl, String, Bool, true, false, ◌&&◌, ◌||◌, List, [], ◌∷◌, str_eq, arith,
  Bool-cases, inl, inr,
}
use mailgun_ses_proxy.Base.Number.{Number}
use mailgun_ses_proxy.Base.Attempt.{Attempt, returned, threw}
use mailgun_ses_proxy.ErrorClass.{Thrown}
use mailgun_ses_proxy.Registry.{Registry}
use mailgun_ses_proxy.SqsWorker.Circuit.{
  consecutive_failure, circuit_breaker_after_poll, is_healthy_sqs_poll,
}
use mailgun_ses_proxy.SqsWorker.Acknowledge.{Message}
use mailgun_ses_proxy.SqsWorker.Poller.{
  PollPhase, at_head, yielding, receiving, handling_batch, stopped, Poller, PollEvent, continues,
  receives, receive_fails, handles, retry, take_batch, conclude, finish_batch, is_abort_error, poll,
}

-- Whether the poller waits for the event.
abbrev pub awaits : PollPhase → PollEvent → Bool
awaits at_head continues = true
awaits yielding continues = true
awaits receiving (receives messages) = true
awaits receiving (receive_fails thrown) = true
awaits (handling_batch messages) (handles result) = true
awaits _ _ = false

-- The events that a poller can still see before it stops.
abbrev pub events_left : PollPhase → ℕ
events_left at_head = 1
events_left (handling_batch messages) = 2
events_left receiving = 3
events_left yielding = 4
events_left (stopped end) = 0

abbrev pub is_receiving : PollPhase → Bool
is_receiving receiving = true
is_receiving _ = false

abbrev pub is_yielding : PollPhase → Bool
is_yielding yielding = true
is_yielding _ = false

not_yielding : (phase : PollPhase) → events_left phase < 4 → is_yielding phase ≡ false
not_yielding at_head h = refl
not_yielding yielding h = absurd (omega (arith, h))
not_yielding receiving h = refl
not_yielding (handling_batch messages) h = refl
not_yielding (stopped end) h = refl

not_receiving : (phase : PollPhase) → events_left phase ≤ 2 → is_receiving phase ≡ false
not_receiving at_head h = refl
not_receiving yielding h = absurd (omega (arith, h))
not_receiving receiving h = absurd (omega (arith, h))
not_receiving (handling_batch messages) h = refl
not_receiving (stopped end) h = refl

retry-left :
    (name : String) (now : ℕ) (p : Poller) (r : Registry)
    → events_left ((retry name now p r).0.phase) ≤ 1
unfolding consecutive_failure
retry-left name now p r = ground arith

take_batch-left :
    (name : String) (deadline_ms : Number) (now : ℕ) (shutdown : Bool) (messages : List Message)
    (p : Poller) (r : Registry)
    → events_left ((take_batch name deadline_ms now shutdown messages p r).0.phase) ≤ 2
take_batch-left name deadline_ms now true [] p r = omega arith
take_batch-left name deadline_ms now false [] p r = omega arith
take_batch-left name deadline_ms now true (m ∷ ms) p r = omega arith
take_batch-left name deadline_ms now false (m ∷ ms) p r = omega arith

conclude-left :
    (name : String) (now : ℕ) (messages : List Message) (acknowledged : ℕ) (p : Poller)
    (r : Registry)
    → events_left ((conclude name now messages acknowledged p r).0.phase) ≤ 1
unfolding circuit_breaker_after_poll consecutive_failure is_healthy_sqs_poll
conclude-left name now messages acknowledged p r = ground arith

-- Once the shutdown has been requested or a sibling has failed, every event that a poller awaits
-- brings it closer to its end, and it stops after at most four; it starts a receive request only
-- behind a test of the loop that it had passed before, and passes none any more.
pub poll_drains :
    (name : String) (deadline_ms : Number) (now : ℕ) (shutdown aborted : Bool) (event : PollEvent)
    (p : Poller) (r : Registry)
    → (shutdown || aborted) ≡ true
    → awaits p.phase event ≡ true
    → (events_left ((poll name deadline_ms now shutdown aborted event p.phase p r).0.phase)
        < events_left p.phase)
      × (events_left p.phase ≤ 4)
      × (is_receiving (poll name deadline_ms now shutdown aborted event p.phase p r).0.phase
          ≡ is_yielding p.phase)
      × (is_yielding (poll name deadline_ms now shutdown aborted event p.phase p r).0.phase ≡ false)
poll_drains name deadline_ms now shutdown aborted event p r stopping awaited = (
  closer event p.phase awaited,
  few p.phase,
  starting event p.phase awaited,
  not_yielding _ (omega (arith, closer event p.phase awaited, few p.phase)),
)
  where
    few : (phase : PollPhase) → events_left phase ≤ 4
    few at_head = omega arith
    few yielding = omega arith
    few receiving = omega arith
    few (handling_batch messages) = omega arith
    few (stopped end) = omega arith

    finished :
        (messages : List Message) (result : Attempt ℕ)
        → events_left ((finish_batch name now messages result p r).0.phase) ≤ 1
    finished messages (returned acknowledged) = conclude-left name now messages acknowledged p _
    finished messages (threw e) = elim (Bool-cases (str_eq e "HandlerTimeoutError")) [
      | inl late ↦ rw late (omega arith)
      | inr other ↦ rw other (retry-left name now p _)
    ]

    failed :
        (thrown : Thrown)
        → events_left (
            (poll name deadline_ms now shutdown aborted
              (receive_fails thrown)
              receiving
              p
              r).0.phase)
          ≤ 1
    failed thrown =
        unfold poll in
        elim (Bool-cases (is_abort_error thrown && (shutdown || aborted))) [
          | inl ends ↦ rw ends (omega arith)
          | inr goes ↦ rw goes (retry-left name now p r)
        ]

    closer :
        (event : PollEvent) (phase : PollPhase)
        → awaits phase event ≡ true
        → events_left ((poll name deadline_ms now shutdown aborted event phase p r).0.phase)
          < events_left phase
    closer continues at_head e = unfold poll in rw stopping (omega arith)
    closer continues yielding e = unfold poll in omega arith
    closer (receives messages) receiving e =
        unfold poll in omega (arith, take_batch-left name deadline_ms now shutdown messages p r)
    closer (receive_fails thrown) receiving e = omega (arith, failed thrown)
    closer (handles result) (handling_batch messages) e =
        unfold poll in omega (arith, finished messages result)
    closer continues receiving e = cc
    closer continues (handling_batch messages) e = cc
    closer continues (stopped end) e = cc
    closer (receives _) at_head e = cc
    closer (receives _) yielding e = cc
    closer (receives _) (handling_batch messages) e = cc
    closer (receives _) (stopped end) e = cc
    closer (receive_fails thrown) at_head e = cc
    closer (receive_fails thrown) yielding e = cc
    closer (receive_fails thrown) (handling_batch messages) e = cc
    closer (receive_fails thrown) (stopped end) e = cc
    closer (handles result) at_head e = cc
    closer (handles result) yielding e = cc
    closer (handles result) receiving e = cc
    closer (handles result) (stopped end) e = cc

    starting :
        (event : PollEvent) (phase : PollPhase)
        → awaits phase event ≡ true
        → is_receiving ((poll name deadline_ms now shutdown aborted event phase p r).0.phase)
          ≡ is_yielding phase
    starting continues yielding e = unfold poll in refl
    starting continues at_head e = not_receiving _ (omega (arith, closer continues at_head e))
    starting (receives messages) receiving e =
        not_receiving _ (omega (arith, closer (receives messages) receiving e))
    starting (receive_fails thrown) receiving e =
        not_receiving _ (omega (arith, closer (receive_fails thrown) receiving e))
    starting (handles result) (handling_batch messages) e =
        not_receiving _ (omega (arith, closer (handles result) (handling_batch messages) e))
    starting continues receiving e = cc
    starting continues (handling_batch messages) e = cc
    starting continues (stopped end) e = cc
    starting (receives _) at_head e = cc
    starting (receives _) yielding e = cc
    starting (receives _) (handling_batch messages) e = cc
    starting (receives _) (stopped end) e = cc
    starting (receive_fails thrown) at_head e = cc
    starting (receive_fails thrown) yielding e = cc
    starting (receive_fails thrown) (handling_batch messages) e = cc
    starting (receive_fails thrown) (stopped end) e = cc
    starting (handles result) at_head e = cc
    starting (handles result) yielding e = cc
    starting (handles result) receiving e = cc
    starting (handles result) (stopped end) e = cc
