-- ===== src/SqsWorker/Poller/Busy.antt =====
-- The count of batches in flight that the pollers of lib/core/sqs-worker.ts keep in the worker's
-- shared entry of lib/core/worker-registry.ts.
use mailgun_ses_proxy.Base.{
  ℕ, zero, suc, ◌+◌, ◌≡◌, refl, sym, ap, ◌∙◌, String, Bool, true, false, ◌&&◌, ◌||◌, Option, none,
  some, List, [], ◌∷◌, length, str_eq, eq_refl, if◌then◌else◌, arith,
}
use mailgun_ses_proxy.Base.Dict.{get-put}
use mailgun_ses_proxy.Base.Number.{Number}
use mailgun_ses_proxy.Base.Attempt.{Attempt, returned, threw}
use mathlib.Core.Path.{subst}
use mailgun_ses_proxy.Registry.{Registry, fresh_worker, register_worker}
use mailgun_ses_proxy.SqsWorker.Limits.{normalize_sqs_worker_count}
use mailgun_ses_proxy.SqsWorker.Circuit.{
  consecutive_failure, circuit_breaker_after_poll, is_healthy_sqs_poll,
}
use mailgun_ses_proxy.SqsWorker.Acknowledge.{Message}
use mailgun_ses_proxy.SqsWorker.Poller.{
  errors_only, give_up, back_off, batch_update, next_turn, leaves, gives_up, throws, PollPhase,
  at_head, yielding, receiving, handling_batch, stopped, Poller, PollEvent, continues, receives,
  receive_fails, handles, retry, take_batch, conclude, finish_batch, is_abort_error, poll,
}
use mailgun_ses_proxy.SqsWorker.Poller.Group.{
  Group, start_group, replicate_poller, poller_at, set_poller, is_aborted, GroupEvent, polls,
  shuts_down, poll_found, group_step, run_group,
}
use mailgun_ses_proxy.SqsWorker.Poller.Counts.{
  Counts, heartbeat-Counts, record-Counts, begin-Counts, end-Counts, failure-Counts, breaker-Counts,
}

abbrev pub handled_batches : PollPhase → ℕ
handled_batches (handling_batch messages) = 1
handled_batches _ = 0

abbrev pub busy_pollers : List Poller → ℕ
busy_pollers [] = 0
busy_pollers (p ∷ ps) = handled_batches p.phase + busy_pollers ps

module _ (name : String) where
  -- With `n` batches in flight at the other pollers.
  CountsAfter : ℕ → Poller × Registry → Type 0
  CountsAfter n (p, r) = Counts name (n + handled_batches p.phase) r

  either-CountsAfter :
      (n : ℕ) (b : Bool) (x y : Poller × Registry)
      → CountsAfter n x
      → CountsAfter n y
      → CountsAfter n (if b then x else y)
  either-CountsAfter n true x y hx hy = hx
  either-CountsAfter n false x y hx hy = hy

  idle-CountsAfter :
      (n : ℕ) (p : Poller) (r : Registry)
      → handled_batches p.phase ≡ 0
      → Counts name n r
      → CountsAfter n (p, r)
  unfolding CountsAfter
  idle-CountsAfter n p r idle v =
      let e : n + handled_batches p.phase ≡ n = omega (arith, idle) in rw e v

  retry-CountsAfter :
      (now n : ℕ) (p : Poller) (r : Registry) → Counts name n r → CountsAfter n (retry name now p r)
  retry-CountsAfter now n p r v =
      let failure = consecutive_failure name p.consecutive_errors r in
      let errors = failure.0.consecutive_errors in
      let after =
        record-Counts name (errors_only errors none) now n failure.1
          (failure-Counts name p.consecutive_errors n r v) in
      either-CountsAfter n failure.0.should_exit (give_up errors p, _) (back_off errors p, _)
        (idle-CountsAfter n (give_up errors p) _ refl after)
        (idle-CountsAfter n (back_off errors p) _ refl after)

  take_batch-CountsAfter :
      (deadline_ms : Number) (now n : ℕ) (shutdown : Bool) (messages : List Message) (p : Poller)
      (r : Registry)
      → Counts name n r
      → CountsAfter n (take_batch name deadline_ms now shutdown messages p r)
  take_batch-CountsAfter deadline_ms now n shutdown [] p r v =
      either-CountsAfter n shutdown _ _ (idle-CountsAfter n _ _ refl v) (
        idle-CountsAfter n _ _ refl
          (heartbeat-Counts name now n _ (record-Counts name _ now n r v)))
  take_batch-CountsAfter deadline_ms now n shutdown (m ∷ ms) p r v =
      either-CountsAfter n shutdown _ _ (idle-CountsAfter n _ _ refl v) (
        unfold CountsAfter in
        begin-Counts name deadline_ms now n _ (heartbeat-Counts name now n r v))

  exit_phase :
      (n : ℕ) (exits : Bool) → handled_batches (if exits then stopped gives_up else at_head) ≡ 0
  exit_phase n true = refl
  exit_phase n false = refl

  conclude-CountsAfter :
      (now n : ℕ) (messages : List Message) (acknowledged : ℕ) (p : Poller) (r : Registry)
      → Counts name n r
      → CountsAfter n (conclude name now messages acknowledged p r)
  conclude-CountsAfter now n messages acknowledged p r v =
      let circuit =
        circuit_breaker_after_poll name (length messages) acknowledged p.consecutive_errors r in
      let errors = circuit.0.consecutive_errors in
      let after =
        record-Counts name (batch_update now messages acknowledged errors) now n circuit.1
          (breaker-Counts name (length messages) acknowledged p.consecutive_errors n r v) in
      either-CountsAfter n (is_healthy_sqs_poll (length messages) acknowledged)
        (next_turn false errors p, _) (next_turn circuit.0.should_exit errors p, _)
        (idle-CountsAfter n (next_turn false errors p) _ refl (heartbeat-Counts name now n _ after))
        (idle-CountsAfter n (next_turn circuit.0.should_exit errors p) _
          (exit_phase n circuit.0.should_exit) after)

  finish_batch-CountsAfter :
      (now n : ℕ) (messages : List Message) (result : Attempt ℕ) (p : Poller) (r : Registry)
      → Counts name (n + 1) r
      → CountsAfter n (finish_batch name now messages result p r)
  finish_batch-CountsAfter now n messages (returned acknowledged) p r v =
      conclude-CountsAfter now n messages acknowledged p _ (end-Counts name n r v)
  finish_batch-CountsAfter now n messages (threw e) p r v =
      either-CountsAfter n (str_eq e "HandlerTimeoutError") (record p { phase = stopped throws }, _)
        _ (idle-CountsAfter n _ _ refl (end-Counts name n r v))
        (retry-CountsAfter now n p _ (end-Counts name n r v))

  plain : (n : ℕ) (r : Registry) → Counts name (n + 0) r → Counts name n r
  plain n r v = let e : n + 0 ≡ n = omega arith in subst (λ z. Counts name z r) e v

  stays-CountsAfter :
      (n : ℕ) (phase : PollPhase) (p : Poller) (r : Registry)
      → p.phase ≡ phase
      → Counts name (n + handled_batches phase) r
      → CountsAfter n (p, r)
  unfolding CountsAfter
  stays-CountsAfter n phase p r e v = rw e v

  head_phase : (leaving : Bool) → handled_batches (if leaving then stopped leaves else yielding) ≡ 0
  head_phase true = refl
  head_phase false = refl

  poll-CountsAfter :
      (deadline_ms : Number) (now n : ℕ) (shutdown aborted : Bool) (event : PollEvent)
      (phase : PollPhase) (p : Poller) (r : Registry)
      → p.phase ≡ phase
      → Counts name (n + handled_batches phase) r
      → CountsAfter n (poll name deadline_ms now shutdown aborted event phase p r)
  unfolding poll
  poll-CountsAfter deadline_ms now n shutdown aborted continues at_head p r e v =
      idle-CountsAfter n
        (record p { phase = if shutdown || aborted then stopped leaves else yielding }) r
        (head_phase (shutdown || aborted)) (plain n r v)
  poll-CountsAfter deadline_ms now n shutdown aborted continues yielding p r e v =
      idle-CountsAfter n (record p { phase = receiving }) r refl (plain n r v)
  poll-CountsAfter deadline_ms now n shutdown aborted (receives messages) receiving p r e v =
      take_batch-CountsAfter deadline_ms now n shutdown messages p r (plain n r v)
  poll-CountsAfter deadline_ms now n shutdown aborted (receive_fails thrown) receiving p r e v =
      either-CountsAfter n (is_abort_error thrown && (shutdown || aborted))
        (record p { phase = stopped leaves }, r) _ (idle-CountsAfter n _ _ refl (plain n r v))
        (retry-CountsAfter now n p r (plain n r v))
  poll-CountsAfter deadline_ms now n shutdown aborted (handles result) (handling_batch messages) p r
        e v =
      finish_batch-CountsAfter now n messages result p r v
  poll-CountsAfter deadline_ms now n shutdown aborted continues receiving p r e v =
      stays-CountsAfter n receiving p r e v
  poll-CountsAfter deadline_ms now n shutdown aborted continues (handling_batch messages) p r e v =
      stays-CountsAfter n (handling_batch messages) p r e v
  poll-CountsAfter deadline_ms now n shutdown aborted continues (stopped end) p r e v =
      stays-CountsAfter n (stopped end) p r e v
  poll-CountsAfter deadline_ms now n shutdown aborted (receives _) at_head p r e v =
      stays-CountsAfter n at_head p r e v
  poll-CountsAfter deadline_ms now n shutdown aborted (receives _) yielding p r e v =
      stays-CountsAfter n yielding p r e v
  poll-CountsAfter deadline_ms now n shutdown aborted (receives _) (handling_batch messages) p r e
        v =
      stays-CountsAfter n (handling_batch messages) p r e v
  poll-CountsAfter deadline_ms now n shutdown aborted (receives _) (stopped end) p r e v =
      stays-CountsAfter n (stopped end) p r e v
  poll-CountsAfter deadline_ms now n shutdown aborted (receive_fails thrown) at_head p r e v =
      stays-CountsAfter n at_head p r e v
  poll-CountsAfter deadline_ms now n shutdown aborted (receive_fails thrown) yielding p r e v =
      stays-CountsAfter n yielding p r e v
  poll-CountsAfter deadline_ms now n shutdown aborted (receive_fails thrown)
        (handling_batch messages) p r e v =
      stays-CountsAfter n (handling_batch messages) p r e v
  poll-CountsAfter deadline_ms now n shutdown aborted (receive_fails thrown) (stopped end) p r e v =
      stays-CountsAfter n (stopped end) p r e v
  poll-CountsAfter deadline_ms now n shutdown aborted (handles result) at_head p r e v =
      stays-CountsAfter n at_head p r e v
  poll-CountsAfter deadline_ms now n shutdown aborted (handles result) yielding p r e v =
      stays-CountsAfter n yielding p r e v
  poll-CountsAfter deadline_ms now n shutdown aborted (handles result) receiving p r e v =
      stays-CountsAfter n receiving p r e v
  poll-CountsAfter deadline_ms now n shutdown aborted (handles result) (stopped end) p r e v =
      stays-CountsAfter n (stopped end) p r e v

-- The other pollers' batches.
busy-others :
    (i : ℕ) (p : Poller) (ps : List Poller)
    → poller_at i ps ≡ some p
    → (n : ℕ) × (busy_pollers ps ≡ n + handled_batches p.phase)
      × ((q : Poller) → busy_pollers (set_poller i q ps) ≡ n + handled_batches q.phase)
busy-others i p [] e = absurd (wrong e)
  where
    wrong : none ≡ some p → ⊥
    wrong e = cc
busy-others zero p (x ∷ ps) e =
    let same : x ≡ p = cc in
    (busy_pollers ps, omega (arith, ap (λ z. handled_batches z.phase) same), λ q. omega arith)
busy-others (suc i) p (x ∷ ps) e =
    let rest = busy-others i p ps e in
    (handled_batches x.phase + rest.0, omega (arith, rest.1), λ q. omega (arith, rest.2 q))

poll_found-Counts :
    (name : String) (deadline_ms : Number) (i now : ℕ) (event : PollEvent) (g : Group)
    (o : Option Poller)
    → poller_at i g.pollers ≡ o
    → Counts name (busy_pollers g.pollers) g.registry
    → let after = poll_found name deadline_ms i now event g o in
      Counts name (busy_pollers after.pollers) after.registry
unfolding CountsAfter
poll_found-Counts name deadline_ms i now event g none e v = v
poll_found-Counts name deadline_ms i now event g (some p) e v =
    let others = busy-others i p g.pollers e in
    let polled =
      poll name deadline_ms now g.shutdown (is_aborted g.failure) event p.phase p g.registry in
    subst (λ z. Counts name z polled.1) (sym (others.2 polled.0))
      (poll-CountsAfter name deadline_ms now others.0 g.shutdown (is_aborted g.failure) event
        p.phase p g.registry refl (subst (λ z. Counts name z g.registry) others.1 v))

run-Counts :
    (name : String) (deadline_ms : Number) (events : List GroupEvent) (g : Group)
    → Counts name (busy_pollers g.pollers) g.registry
    → let after = run_group name deadline_ms events g in
      Counts name (busy_pollers after.pollers) after.registry
unfolding run_group group_step
run-Counts name deadline_ms [] g v = v
run-Counts name deadline_ms (polls n now event ∷ es) g v =
    run-Counts name deadline_ms es _
      (poll_found-Counts name deadline_ms n now event g (poller_at n g.pollers) refl v)
run-Counts name deadline_ms (shuts_down ∷ es) g v = run-Counts name deadline_ms es _ v

new_pollers-idle : (n : ℕ) → busy_pollers (replicate_poller n) ≡ 0
new_pollers-idle zero = refl
new_pollers-idle (suc n) = omega (arith, new_pollers-idle n)

-- In any interleaving of the pollers of a worker, its registry entry counts exactly the batches that
-- its pollers are handling: whether a batch is acknowledged, fails or runs into its deadline, it is
-- counted when it begins and no longer once it has ended.
pub busy_pollers_counted :
    (name : String) (deadline_ms : Number) (poll_concurrency : Option Number) (now : ℕ)
    (r : Registry) (events : List GroupEvent)
    → let g = run_group name deadline_ms events (start_group name now poll_concurrency r) in
      Counts name (busy_pollers g.pollers) g.registry
unfolding start_group register_worker
busy_pollers_counted name deadline_ms poll_concurrency now r events =
    run-Counts name deadline_ms events _ (record {
      entry = fresh_worker name now;
      found = get-put name name (fresh_worker name now) r ∙ rw (eq_refl name) refl;
      count = sym (new_pollers-idle (normalize_sqs_worker_count poll_concurrency));
    })
