-- ===== src/Health.antt =====
-- lib/core/health-status.ts: one snapshot of readiness from the worker registry. The environment is
-- a function from a variable's name to the number that `Number(process.env[name])` gives.
pub mod Laws
mod Examples
use mailgun_ses_proxy.Base.{
  ℕ, String, Bool, true, false, not, ◌&&◌, ◌||◌, ◌+◌, max, Option, none, some, List, [], ◌∷◌, map,
  ltb, leb, every, some_of, if◌then◌else◌,
}
use mailgun_ses_proxy.Base.Dict.{Dict, get, put}
use mailgun_ses_proxy.Base.Number.{Number, is_finite, clamp_floor, nat}
use mailgun_ses_proxy.Registry.{
  Registry, StoredWorker, WorkerStatus, QueueTelemetry, get_worker_statuses, empty_queue, get_or,
  older,
}

abbrev pub Env : Type 0
Env = String → Number

abbrev pub bounded_env : Number → ℕ → ℕ → ℕ → ℕ
bounded_env value fallback lo hi = if is_finite value then clamp_floor lo hi value else fallback

pub record Thresholds : Type 0 where
  pub worker_stale_ms : ℕ
  pub telemetry_stale_ms : ℕ
  pub backlog_threshold : ℕ
  pub age_threshold_ms : ℕ

abbrev pub health_thresholds : Env → Thresholds
health_thresholds env = record {
  worker_stale_ms = bounded_env (env "HEALTH_WORKER_STALE_MS") 60000 30000 300000;
  telemetry_stale_ms = bounded_env (env "SQS_TELEMETRY_STALE_MS") 90000 30000 600000;
  backlog_threshold = bounded_env (env "SQS_BACKLOG_DEGRADED_THRESHOLD") 1000 1 1000000;
  age_threshold_ms = bounded_env (env "SQS_AGE_DEGRADED_MS") 900000 10000 86400000;
}

abbrev pub expected_worker_names : List String
expected_worker_names = "newsletter-sender" ∷ "newsletter-events" ∷ "system-events" ∷ []

-- The fields of a registered or missing worker that the snapshot reads; `missing` tells them apart.
pub record HealthWorker : Type 0 where
  pub name : String
  pub missing : Bool
  pub alive : Bool
  pub stale : Bool
  pub last_message_age_ms : Option ℕ
  pub queue : QueueTelemetry

abbrev pub missing_worker : String → HealthWorker
missing_worker name = record {
  name = name;
  missing = true;
  alive = false;
  stale = true;
  last_message_age_ms = none;
  queue = empty_queue;
}

abbrev pub present_worker : WorkerStatus → HealthWorker
present_worker status = record {
  name = status.worker.name;
  missing = false;
  alive = status.worker.alive;
  stale = status.stale;
  last_message_age_ms = status.worker.last_message_age_ms;
  queue = status.worker.queue;
}

-- `new Map(statuses.map(worker => [worker.name, worker]))`
abbrev pub index_by_name : List WorkerStatus → Dict WorkerStatus → Dict WorkerStatus
index_by_name [] index = index
index_by_name (status ∷ statuses) index =
    index_by_name statuses (put status.worker.name status index)

abbrev pub present_or_missing : String → Option WorkerStatus → HealthWorker
present_or_missing name none = missing_worker name
present_or_missing name (some status) = present_worker status

abbrev pub is_up : HealthWorker → Bool
is_up worker = worker.alive && not worker.stale

abbrev pub sum : (QueueTelemetry → Option ℕ) → List HealthWorker → ℕ
sum key [] = 0
sum key (worker ∷ workers) = get_or (key worker.queue) 0 + sum key workers

-- `Math.max(0, ...ages)`
abbrev pub oldest : List HealthWorker → ℕ
oldest [] = 0
oldest (worker ∷ workers) = max (get_or worker.last_message_age_ms 0) (oldest workers)

abbrev pub telemetry_is_stale : ℕ → ℕ → HealthWorker → Bool
telemetry_is_stale threshold now worker = older worker.queue.sampled_at threshold now

pub data HealthStatus : Type 0 where
  healthy degraded unhealthy : HealthStatus

pub record Backlog : Type 0 where
  pub visible : ℕ
  pub not_visible : ℕ
  pub delayed : ℕ
  pub oldest_observed_age_ms : ℕ
  pub telemetry_stale : Bool

pub record Snapshot : Type 0 where
  pub status : HealthStatus
  pub ready : Bool
  pub degraded : Bool
  pub timestamp : ℕ
  pub workers : List HealthWorker
  pub backlog : Backlog
  pub http_status : ℕ

abbrev pub is_degraded : Thresholds → Backlog → Bool
is_degraded thresholds backlog =
    backlog.telemetry_stale
    || leb thresholds.backlog_threshold backlog.visible
    || leb thresholds.backlog_threshold backlog.not_visible
    || leb thresholds.backlog_threshold backlog.delayed
    || leb thresholds.age_threshold_ms backlog.oldest_observed_age_ms

abbrev pub status_for : Bool → Bool → HealthStatus
status_for ready is_low = if ready then (if is_low then degraded else healthy) else unhealthy

abbrev pub snapshot_of : Thresholds → ℕ → List HealthWorker → Snapshot
snapshot_of thresholds now workers =
    let backlog : Backlog = record {
      visible = sum (λ q. q.visible) workers;
      not_visible = sum (λ q. q.not_visible) workers;
      delayed = sum (λ q. q.delayed) workers;
      oldest_observed_age_ms = oldest workers;
      telemetry_stale = some_of (telemetry_is_stale thresholds.telemetry_stale_ms now) workers;
    } in
    let ready = every is_up workers in
    let low = is_degraded thresholds backlog in
    record {
      status = status_for ready low;
      ready = ready;
      degraded = low;
      timestamp = now;
      workers = workers;
      backlog = backlog;
      http_status = if ready then 200 else 503;
    }

unfoldable pub health_workers : Env → ℕ → Registry → List HealthWorker
unfolding get put get_worker_statuses
health_workers env now r =
    let by_name =
      index_by_name (get_worker_statuses (nat (health_thresholds env).worker_stale_ms) now r) [] in
    map (λ name. present_or_missing name (get name by_name)) expected_worker_names

-- `now` is the argument, `read_at` what the clock says when `getWorkerStatuses` reads it.
unfoldable pub build_health_snapshot : Env → (now read_at : ℕ) → Registry → Snapshot
unfolding health_workers
build_health_snapshot env now read_at r =
    snapshot_of (health_thresholds env) now (health_workers env read_at r)

pub record PublicHealth : Type 0 where
  pub status : HealthStatus
  pub ready : Bool
  pub degraded : Bool
  pub timestamp : ℕ

unfoldable pub public_health_projection : Snapshot → PublicHealth
public_health_projection snapshot = record {
  status = snapshot.status;
  ready = snapshot.ready;
  degraded = snapshot.degraded;
  timestamp = snapshot.timestamp;
}

pub record DetailedHealth : Type 0 where
  pub status : HealthStatus
  pub ready : Bool
  pub degraded : Bool
  pub timestamp : ℕ
  pub workers : List HealthWorker
  pub backlog : Backlog

unfoldable pub detailed_health_projection : Snapshot → DetailedHealth
detailed_health_projection snapshot = record {
  status = snapshot.status;
  ready = snapshot.ready;
  degraded = snapshot.degraded;
  timestamp = snapshot.timestamp;
  workers = snapshot.workers;
  backlog = snapshot.backlog;
}
