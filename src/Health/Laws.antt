-- ===== src/Health/Laws.antt =====
-- What the snapshot of lib/core/health-status.ts says of the registry.
use mailgun_ses_proxy.Base.{
  ℕ, String, ◌≡◌, refl, ap, ◌∙◌, Bool, true, false, not, ◌&&◌, max, Option, none, some, List, [],
  ◌∷◌, map, if◌then◌else◌, arith, eq_iff, str_eq, All, every, Bool-cases, inl, inr,
}
use mathlib.Core.Path.{ap₂}
use mailgun_ses_proxy.Base.Names.{has, Distinct}
use mailgun_ses_proxy.Base.Number.{nat}
use mailgun_ses_proxy.Base.Dict.{Dict, get, put, keys, get-put}
use mailgun_ses_proxy.Registry.{
  StoredWorker, WorkerStatus, Registry, status_of, is_stale, get_worker_statuses, Op, run,
  mark_worker_dead,
}
use mailgun_ses_proxy.Registry.Keys.{IsIndexed, Named, run-IsIndexed, marked-IsIndexed}
use mailgun_ses_proxy.Registry.Liveness.{is_down, is_silent, run-is_down, marked-is_down}
use mailgun_ses_proxy.ErrorClass.{Thrown}
use mailgun_ses_proxy.Health.{
  Env, present_or_missing, health_thresholds, index_by_name, is_up, expected_worker_names,
  build_health_snapshot, healthy, degraded, unhealthy,
}

abbrev pub find_status : ℕ → ℕ → Option StoredWorker → Option WorkerStatus
find_status threshold now none = none
find_status threshold now (some entry) = some (status_of threshold now entry)

-- The index by name finds what the registry holds.
get-index :
    (threshold now : ℕ) (k : String) (r : Registry) (index : Dict WorkerStatus)
    → Distinct (keys r)
    → All Named r
    → get k (index_by_name (map (λ e. status_of threshold now e.1) r) index)
      ≡ (if has (keys r) k then find_status threshold now (get k r) else get k index)
unfolding get has
get-index threshold now k [] index d a = refl
get-index threshold now k ((j, e) ∷ r) index d a =
    get-index threshold now k r (put e.name (status_of threshold now e) index) d.1 a.1
    ∙ ground (
      arith,
      get-put e.name k (status_of threshold now e) index,
      eq_iff j k,
      eq_iff e.name k,
      a.0,
      d.0,
    )

find_of_missing :
    (threshold now : ℕ) (k : String) (r : Registry) → has (keys r) k ≡ false → get k r ≡ none
unfolding get has
find_of_missing threshold now k [] h = refl
find_of_missing threshold now k ((j, e) ∷ r) h = ground (arith, find_of_missing threshold now k r)

find-index :
    (threshold now : ℕ) (k : String) (r : Registry)
    → IsIndexed r
    → get k (index_by_name (map (λ e. status_of threshold now e.1) r) [])
      ≡ find_status threshold now (get k r)
unfolding get
find-index threshold now k r v =
    get-index threshold now k r [] v.distinct v.named
    ∙ ground (arith, find_of_missing threshold now k r)

-- The worker stale threshold is within its bounds, so `getWorkerStatuses` takes it as it is.
stale_threshold :
    (env : Env)
    → max 1 (health_thresholds env).worker_stale_ms ≡ (health_thresholds env).worker_stale_ms
stale_threshold env = ground arith

-- A worker is up when it is registered, alive and not stale.
abbrev pub is_up_at : Env → ℕ → Option StoredWorker → Bool
is_up_at env now none = false
is_up_at env now (some entry) =
    entry.alive && not (is_stale (health_thresholds env).worker_stale_ms now entry)

is_up-find :
    (env : Env) (now : ℕ) (name : String) (o : Option StoredWorker)
    → is_up (present_or_missing name (find_status (health_thresholds env).worker_stale_ms now o))
      ≡ is_up_at env now o
is_up-find env now name none = refl
is_up-find env now name (some entry) = refl

module _ (env : Env) (now : ℕ) (r : Registry) (v : IsIndexed r) where
  found_in_index :
      (name : String)
      → get name (
          index_by_name
            (get_worker_statuses (nat (health_thresholds env).worker_stale_ms) now r)
            [])
        ≡ find_status (health_thresholds env).worker_stale_ms now (get name r)
  unfolding get_worker_statuses
  found_in_index name = rw (stale_threshold env) (find-index _ now name r v)

  name_up :
      (name : String)
      → is_up (
          present_or_missing name (
            get name (
              index_by_name
                (get_worker_statuses (nat (health_thresholds env).worker_stale_ms) now r)
                [])))
        ≡ is_up_at env now (get name r)
  name_up name = rw (found_in_index name) (is_up-find env now name (get name r))

  every_name_up :
      (names : List String)
      → every is_up (
          map
            (λ name. present_or_missing name (
              get name (
                index_by_name
                  (get_worker_statuses (nat (health_thresholds env).worker_stale_ms) now r)
                  [])))
            names)
        ≡ every (λ name. is_up_at env now (get name r)) names
  every_name_up [] = refl
  every_name_up (name ∷ names) = ap₂ ◌&&◌ (name_up name) (every_name_up names)

  -- From a registry with one entry for each name, stored under it, the service is ready exactly when each of the three expected workers is registered, alive and not
  -- stale by the configured threshold when the registry is read, whatever time the snapshot is asked
  -- for; then the HTTP status is 200, and otherwise 503 with the status
  -- `unhealthy`, whatever the backlog.
  pub snapshot_ready :
      (asked_at : ℕ)
      → ((build_health_snapshot env asked_at now r).ready
          ≡ every (λ name. is_up_at env now (get name r)) expected_worker_names)
        × ((build_health_snapshot env asked_at now r).http_status ≡ (
            if every (λ name. is_up_at env now (get name r)) expected_worker_names
            then 200
            else 503))
        × ((build_health_snapshot env asked_at now r).status ≡ (
            if every (λ name. is_up_at env now (get name r)) expected_worker_names
            then (if (build_health_snapshot env asked_at now r).degraded then degraded else healthy)
            else unhealthy))
  unfolding build_health_snapshot
  snapshot_ready asked_at = (
    every_name_up expected_worker_names,
    ap (λ (b : Bool). if b then 200 else 503) (every_name_up expected_worker_names),
    ap
        (λ (b : Bool).
          if b
          then (if (build_health_snapshot env asked_at now r).degraded then degraded else healthy)
          else unhealthy)
        (every_name_up expected_worker_names),
  )

every-false :
    (p : String → Bool) (names : List String) (name : String)
    → has names name ≡ true
    → p name ≡ false
    → every p names ≡ false
unfolding has
every-false p [] name h e = cc
every-false p (x ∷ names) name h e = elim (Bool-cases (str_eq x name)) [
  | inl same ↦ ground (arith, ap p ((eq_iff x name).0 same))
  | inr differs ↦ ground (arith, differs, every-false p names name)
]

down-not_up :
    (env : Env) (now : ℕ) (o : Option StoredWorker) → is_down o ≡ true → is_up_at env now o ≡ false
down-not_up env now none h = refl
down-not_up env now (some entry) h = ground arith

-- Once an expected worker is marked dead, the health endpoint answers 503 and `unhealthy`, whatever
-- else is recorded, until that worker's next heartbeat: for every history with no such heartbeat,
-- from a registry with one entry for each name.
pub dead_worker_unhealthy :
    (env : Env) (asked_at now : ℕ) (r : Registry) (name : String) (thrown : Thrown) (ops : List Op)
    → IsIndexed r
    → has expected_worker_names name ≡ true
    → is_silent name ops ≡ true
    → ((build_health_snapshot env asked_at now
          (run (mark_worker_dead name thrown r) ops)).http_status
        ≡ 503)
      × ((build_health_snapshot env asked_at now (run (mark_worker_dead name thrown r) ops)).status
          ≡ unhealthy)
dead_worker_unhealthy env asked_at now r name thrown ops v expected silent = (
  (snapshot_ready env now after indexed asked_at).1 ∙ rw not_ready refl,
  (snapshot_ready env now after indexed asked_at).2 ∙ rw not_ready refl,
)
  where
    after : Registry
    after = run (mark_worker_dead name thrown r) ops

    indexed : IsIndexed after
    indexed = run-IsIndexed ops _ (marked-IsIndexed name thrown r v)

    not_ready : every (λ k. is_up_at env now (get k after)) expected_worker_names ≡ false
    not_ready =
        every-false (λ k. is_up_at env now (get k after)) expected_worker_names name expected
          (down-not_up env now (get name after)
            (run-is_down name ops _ silent (marked-is_down name thrown r)))
