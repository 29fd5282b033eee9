-- ===== src/SqsWorker/Poller/Ending.antt =====
-- What a poller of lib/core/sqs-worker.ts that ends before the shutdown does to its worker.
use mailgun_ses_proxy.Base.{
  ℕ, zero, suc, ◌≤◌, ◌≡◌, refl, sym, ap, ◌∙◌, String, Bool, true, false, ◌⊎◌, Option, none, some,
  List, [], ◌∷◌, length, every, some_of, str_eq, eq_iff, eq_refl, if◌then◌else◌, arith, Bool-cases,
  inl, inr,
}
use mailgun_ses_proxy.Base.Dict.{get, get-modify, map_found}
use mailgun_ses_proxy.Base.Number.{Number}
use mailgun_ses_proxy.Base.Attempt.{Attempt, returned, threw}
use mathlib.Core.Path.{subst}
use mailgun_ses_proxy.ErrorClass.{Thrown, error, value}
use mailgun_ses_proxy.Registry.{Registry, StoredWorker, mark_worker_dead, kill}
use mailgun_ses_proxy.SqsWorker.Limits.{normalize_sqs_worker_count, settings_bounds}
use mailgun_ses_proxy.SqsWorker.Poller.{
  leaves, gives_up, throws, PollPhase, at_head, yielding, receiving, handling_batch, stopped,
  Poller, PollEvent, poll,
}
use mailgun_ses_proxy.SqsWorker.Poller.Counts.{Counts}
use mailgun_ses_proxy.SqsWorker.Poller.Busy.{busy_pollers_counted}
use mailgun_ses_proxy.SqsWorker.Poller.Group.{
  Group, start_group, replicate_poller, poller_at, set_poller, is_aborted, is_stopped, rejection,
  first_failure, GroupEvent, polls, shuts_down, poll_found, group_step, run_group, worker_result,
  bootstrap_worker, start_worker, end_with,
}

abbrev stopped_poller : Poller → Bool
stopped_poller p = is_stopped p.phase

-- Before the shutdown, the group is aborted as soon as one of its pollers has stopped.
Reported : Group → Type 0
Reported g =
    g.shutdown ≡ false → some_of stopped_poller g.pollers ≡ true → is_aborted g.failure ≡ true

set_poller-stopped :
    (n : ℕ) (q : Poller) (ps : List Poller)
    → some_of stopped_poller (set_poller n q ps) ≡ true
    → (stopped_poller q ≡ true) ⊎ (some_of stopped_poller ps ≡ true)
set_poller-stopped n q [] e = inr e
set_poller-stopped zero q (p ∷ ps) e = elim (Bool-cases (stopped_poller q)) [
  | inl here ↦ inl here
  | inr running ↦ inr (ground (arith, e, running))
]
set_poller-stopped (suc n) q (p ∷ ps) e = elim (Bool-cases (stopped_poller p)) [
  | inl here ↦ inr (ground (arith, here))
  | inr running ↦ elim (set_poller-stopped n q ps (ground (arith, e, running))) [
    | inl new ↦ inl new
    | inr old ↦ inr (ground (arith, old))
  ]
]

stopped-rejection :
    (shutdown : Bool) (phase : PollPhase)
    → shutdown ≡ false
    → is_stopped phase ≡ true
    → is_aborted (rejection shutdown phase) ≡ true
stopped-rejection shutdown (stopped leaves) e h = rw e refl
stopped-rejection shutdown (stopped gives_up) e h = rw e refl
stopped-rejection shutdown (stopped throws) e h = refl
stopped-rejection shutdown at_head e h = h
stopped-rejection shutdown yielding e h = h
stopped-rejection shutdown receiving e h = h
stopped-rejection shutdown (handling_batch messages) e h = h

first_failure-aborted :
    (a b : Option Thrown)
    → (is_aborted a ≡ true) ⊎ (is_aborted b ≡ true)
    → is_aborted (first_failure a b) ≡ true
first_failure-aborted none b (inl h) = cc
first_failure-aborted none b (inr h) = h
first_failure-aborted (some e) b h = refl

poll_found-Reported :
    (name : String) (deadline_ms : Number) (n now : ℕ) (event : PollEvent) (g : Group)
    (o : Option Poller)
    → Reported g
    → Reported (poll_found name deadline_ms n now event g o)
poll_found-Reported name deadline_ms n now event g none v = v
poll_found-Reported name deadline_ms n now event g (some p) v =
    unfold Reported in
    λ running e.
      let q =
        (poll name deadline_ms now g.shutdown (is_aborted g.failure) event p.phase p
          g.registry).0 in
      first_failure-aborted g.failure (rejection g.shutdown q.phase)
        (elim (set_poller-stopped n q g.pollers e) [
          | inl new ↦ inr (stopped-rejection g.shutdown q.phase running new)
          | inr old ↦ inl (v running old)
        ])

run-Reported :
    (name : String) (deadline_ms : Number) (events : List GroupEvent) (g : Group)
    → Reported g
    → Reported (run_group name deadline_ms events g)
unfolding run_group group_step
run-Reported name deadline_ms [] g v = v
run-Reported name deadline_ms (polls n now event ∷ es) g v =
    run-Reported name deadline_ms es _
      (poll_found-Reported name deadline_ms n now event g (poller_at n g.pollers) v)
run-Reported name deadline_ms (shuts_down ∷ es) g v =
    run-Reported name deadline_ms es _ (unfold Reported in λ running. absurd (wrong running))
  where
    wrong : true ≡ false → ⊥
    wrong e = cc

length-set_poller : (n : ℕ) (q : Poller) (ps : List Poller) → length (set_poller n q ps) ≡ length ps
length-set_poller n q [] = refl
length-set_poller zero q (p ∷ ps) = refl
length-set_poller (suc n) q (p ∷ ps) = ap suc (length-set_poller n q ps)

run-length :
    (name : String) (deadline_ms : Number) (events : List GroupEvent) (g : Group)
    → length ((run_group name deadline_ms events g).pollers) ≡ length g.pollers
unfolding run_group group_step
run-length name deadline_ms [] g = refl
run-length name deadline_ms (polls n now event ∷ es) g =
    run-length name deadline_ms es _ ∙ found-length (poller_at n g.pollers)
  where
    found-length :
        (o : Option Poller)
        → length ((poll_found name deadline_ms n now event g o).pollers) ≡ length g.pollers
    found-length none = refl
    found-length (some p) = length-set_poller n _ g.pollers
run-length name deadline_ms (shuts_down ∷ es) g = run-length name deadline_ms es _

length-replicate : (n : ℕ) → length (replicate_poller n) ≡ n
length-replicate zero = refl
length-replicate (suc n) = ap suc (length-replicate n)

every-stopped :
    (ps : List Poller)
    → 1 ≤ length ps
    → every stopped_poller ps ≡ true
    → some_of stopped_poller ps ≡ true
every-stopped [] h e = absurd (omega arith)
every-stopped (p ∷ ps) h e = ground arith

none_stopped : (n : ℕ) → some_of stopped_poller (replicate_poller n) ≡ false
none_stopped zero = refl
none_stopped (suc n) = none_stopped n

start-Reported :
    (name : String) (now : ℕ) (poll_concurrency : Option Number) (r : Registry)
    → Reported (start_group name now poll_concurrency r)
unfolding Reported start_group
start-Reported name now poll_concurrency r running e =
    absurd (wrong (sym (none_stopped (normalize_sqs_worker_count poll_concurrency)) ∙ e))
  where
    wrong : false ≡ true → ⊥
    wrong e = cc

started-length :
    (name : String) (now : ℕ) (poll_concurrency : Option Number) (r : Registry)
    → 1 ≤ length ((start_group name now poll_concurrency r).pollers)
unfolding start_group
started-length name now poll_concurrency r = omega (
  arith,
  length-replicate (normalize_sqs_worker_count poll_concurrency),
  (settings_bounds poll_concurrency none none none).0.0,
)

-- The error that `startWorker` throws, and the worker's dead entry.
pub record FailsDead (name : String) (answer : Attempt {0} Unit) (r : Registry) : Type 0 where
  pub message : String
  pub thrown : answer ≡ threw message
  pub entry : StoredWorker
  pub found : get name r ≡ some entry
  pub dead : entry.alive ≡ false

marked-FailsDead :
    (name message : String) (thrown : Thrown) (n : ℕ) (r : Registry)
    → Counts name n r
    → FailsDead name (threw message) (mark_worker_dead name thrown r)
unfolding mark_worker_dead
marked-FailsDead name message thrown n r v = record {
  message = message;
  thrown = refl;
  entry = kill thrown v.entry;
  found =
      get-modify name name (kill thrown) r
      ∙ rw (eq_refl name) (ap (map_found (kill thrown)) v.found);
  dead = refl;
}

end_with-FailsDead :
    (name : String) (n : ℕ) (r : Registry) (failure : Option Thrown)
    → is_aborted failure ≡ true
    → Counts name n r
    → FailsDead name ((end_with name r failure).0) ((end_with name r failure).1)
end_with-FailsDead name n r none h v = cc
end_with-FailsDead name n r (some (error e)) h v = marked-FailsDead name e (error e) n r v
end_with-FailsDead name n r (some value) h v = marked-FailsDead name "" value n r v

group-FailsDead :
    (name : String) (deadline_ms : Number) (poll_concurrency : Option Number) (now : ℕ)
    (r : Registry) (events : List GroupEvent) (answer : Attempt {0} Unit) (after : Registry)
    → (run_group name deadline_ms events (start_group name now poll_concurrency r)).shutdown ≡ false
    → worker_result name
        (run_group name deadline_ms events (start_group name now poll_concurrency r))
      ≡ some (answer, after)
    → FailsDead name answer after
unfolding worker_result Reported
group-FailsDead name deadline_ms poll_concurrency now r events answer after running ended =
    let start = start_group name now poll_concurrency r in
    let g = run_group name deadline_ms events start in
    let counted = busy_pollers_counted name deadline_ms poll_concurrency now r events in
    let nonempty : 1 ≤ length g.pollers = omega (
      arith,
      run-length name deadline_ms events start,
      started-length name now poll_concurrency r,
    ) in
    by_test g (every stopped_poller g.pollers) ended (λ all_stopped.
      end_with-FailsDead name _ g.registry g.failure
        (run-Reported name deadline_ms events start (start-Reported name now poll_concurrency r)
          running (every-stopped g.pollers nonempty all_stopped))
        counted)
  where
    by_test :
        (g : Group) (all_stopped : Bool)
        → (if all_stopped then some (end_with name g.registry g.failure) else none)
          ≡ some (answer, after)
        → (all_stopped ≡ true
            → FailsDead name
                ((end_with name g.registry g.failure).0)
                ((end_with name g.registry g.failure).1))
        → FailsDead name answer after
    by_test g true e h =
        let same : end_with name g.registry g.failure ≡ (answer, after) = cc in
        subst (λ z. FailsDead name z.0 z.1) same (h refl)
    by_test g false e h = cc

-- Whatever the pollers of a worker see, if `startWorker` ends while no shutdown has been requested,
-- then it throws, for the process supervisor to see, and its registry entry is dead; or it had no
-- queue URL or no client, and has returned at once with nothing registered.
pub ends_before_shutdown :
    (name queue_url : String) (client_made : Bool) (deadline_ms : Number)
    (poll_concurrency : Option Number) (now : ℕ) (r : Registry) (events : List GroupEvent)
    (answer : Attempt {0} Unit) (after : Registry)
    → (run_group name deadline_ms events (start_group name now poll_concurrency r)).shutdown ≡ false
    → start_worker name queue_url client_made deadline_ms poll_concurrency now r events
      ≡ some (answer, after)
    → FailsDead name answer after
      ⊎ (((queue_url ≡ "") ⊎ (client_made ≡ false)) × (answer ≡ returned tt) × (after ≡ r))
unfolding start_worker bootstrap_worker
ends_before_shutdown name queue_url client_made deadline_ms poll_concurrency now r events answer
      after running ended =
    elim (Bool-cases (bootstrap_worker queue_url client_made)) [
      | inl made ↦ inl (
          group-FailsDead name deadline_ms poll_concurrency now r events answer after running
            (rw (start_worker, made) at ended))
      | inr missing ↦
          let same : (returned tt, r) ≡ (answer, after) =
            some_inj (rw (start_worker, missing) at ended) in
          inr (reason missing, ap (λ z. z.0) (sym same), ap (λ z. z.1) (sym same))
    ]
  where
    some_inj : {x y : Attempt {0} Unit × Registry} → some x ≡ some y → x ≡ y
    some_inj e = cc

    reason :
        bootstrap_worker queue_url client_made ≡ false → (queue_url ≡ "") ⊎ (client_made ≡ false)
    reason missing = elim (Bool-cases (str_eq queue_url "")) [
      | inl empty ↦ inl ((eq_iff queue_url "").0 empty)
      | inr given ↦ inr (ground (arith, missing, given))
    ]
