-- ===== src/Registry.antt =====
-- lib/core/worker-registry.ts: the process-wide registry of worker health. The `Map` on globalThis
-- is the argument `r`, `Date.now()` the argument `now` (milliseconds). Times are numbers also where
-- the code keeps their ISO text (`startedAt`), and counters do not wrap.
pub mod Entries
pub mod Keys
pub mod Liveness
pub mod Staleness
mod Examples
use mailgun_ses_proxy.Base.{
  ℕ, String, Bool, true, false, not, ◌&&◌, ◌||◌, ◌+◌, ◌-◌, min, max, Option, none, some, List, [],
  ◌∷◌, map, ltb, leb, if◌then◌else◌,
}
use mailgun_ses_proxy.Base.Dict.{Dict, put, modify}
use mailgun_ses_proxy.Base.Number.{Number, is_finite, floor, to_nat, is_negative, clamp_floor}
use mailgun_ses_proxy.ErrorClass.{Thrown, error_class}

pub record QueueTelemetry : Type 0 where
  pub visible : Option ℕ
  pub not_visible : Option ℕ
  pub delayed : Option ℕ
  pub sampled_at : Option ℕ

pub record StoredWorker : Type 0 where
  pub name : String
  pub last_heartbeat : Option ℕ
  pub alive : Bool
  pub started_at : Option ℕ
  pub received : ℕ
  pub acked : ℕ
  pub failed : ℕ
  pub consecutive_errors : ℕ
  pub last_message_at : Option ℕ
  pub last_message_age_ms : Option ℕ
  pub processing : Bool
  pub processing_count : ℕ
  pub processing_started_at : Option ℕ
  pub processing_deadline_at : Option ℕ
  pub queue : QueueTelemetry
  pub telemetry_error_class : Option String

-- `WorkerStatus`: a stored worker with its staleness.
pub record WorkerStatus : Type 0 where
  pub worker : StoredWorker
  pub stale : Bool

abbrev pub Registry : Type 0
Registry = Dict StoredWorker

abbrev pub empty_queue : QueueTelemetry
empty_queue = record { visible = none; not_visible = none; delayed = none; sampled_at = none }

-- safeCount: NaN, the infinities and a missing value count as 0.
abbrev pub safe_count : Option Number → ℕ
safe_count none = 0
safe_count (some value) = if is_finite value then to_nat (floor value) else 0

abbrev pub bounded_processing_deadline : Number → ℕ
bounded_processing_deadline value = if is_finite value then clamp_floor 1 43200000 value else 30000

abbrev pub nullable_count : Option Number → Option ℕ
nullable_count none = none
nullable_count (some value) = some (safe_count (some value))

abbrev pub finite_timestamp : Option Number → Option ℕ
finite_timestamp none = none
finite_timestamp (some value) =
    if is_finite value && not (is_negative value) then some (to_nat (floor value)) else none

abbrev pub get_or {ℓ} : {A : Type ℓ} → Option A → A → A
get_or none d = d
get_or (some a) d = a

abbrev pub fresh_worker : String → ℕ → StoredWorker
fresh_worker name now = record {
  name = name;
  last_heartbeat = none;
  alive = false;
  started_at = some now;
  received = 0;
  acked = 0;
  failed = 0;
  consecutive_errors = 0;
  last_message_at = none;
  last_message_age_ms = none;
  processing = false;
  processing_count = 0;
  processing_started_at = none;
  processing_deadline_at = none;
  queue = empty_queue;
  telemetry_error_class = none;
}

unfoldable pub register_worker : String → ℕ → Registry → Registry
register_worker name now r = put name (fresh_worker name now) r

-- What each operation does to the entry that it finds.
abbrev pub beat : ℕ → StoredWorker → StoredWorker
beat now entry = record entry { last_heartbeat = some now; alive = true }

abbrev pub begin : ℕ → Number → StoredWorker → StoredWorker
begin now deadline_ms entry = record entry {
  processing_count = entry.processing_count + 1;
  processing = true;
  processing_started_at = some (get_or entry.processing_started_at now);
  processing_deadline_at =
      some (
        max (get_or entry.processing_deadline_at 0)
          (now + bounded_processing_deadline deadline_ms));
}

abbrev pub finish : StoredWorker → StoredWorker
finish entry =
    if ltb 0 (entry.processing_count - 1)
    then record entry { processing_count = entry.processing_count - 1 }
    else record entry {
      processing_count = entry.processing_count - 1;
      processing = false;
      processing_started_at = none;
      processing_deadline_at = none;
    }

-- `undefined` is `none`; the age's inner `none` is `null`.
pub record ProcessingUpdate : Type 0 where
  pub received : Option Number
  pub acked : Option Number
  pub failed : Option Number
  pub consecutive_errors : Option Number
  pub last_message_age_ms : Option (Option Number)

abbrev errors_after : Option Number → ℕ → ℕ
errors_after none n = n
errors_after (some value) n = safe_count (some value)

abbrev message_at_after : Option (Option Number) → ℕ → Option ℕ → Option ℕ
message_at_after (some (some age)) now at = some now
message_at_after _ now at = at

abbrev message_age_after : Option (Option Number) → Option ℕ → Option ℕ
message_age_after none age = age
message_age_after (some age) _ = nullable_count age

abbrev pub tally : ℕ → ProcessingUpdate → StoredWorker → StoredWorker
tally now update entry = record entry {
  received = entry.received + safe_count update.received;
  acked = entry.acked + safe_count update.acked;
  failed = entry.failed + safe_count update.failed;
  consecutive_errors = errors_after update.consecutive_errors entry.consecutive_errors;
  last_message_at = message_at_after update.last_message_age_ms now entry.last_message_at;
  last_message_age_ms = message_age_after update.last_message_age_ms entry.last_message_age_ms;
}

-- The sample as the caller hands it over.
pub record RawTelemetry : Type 0 where
  pub visible : Option Number
  pub not_visible : Option Number
  pub delayed : Option Number
  pub sampled_at : Option Number

abbrev pub sample : RawTelemetry → StoredWorker → StoredWorker
sample queue entry = record entry {
  queue = record {
    visible = nullable_count queue.visible;
    not_visible = nullable_count queue.not_visible;
    delayed = nullable_count queue.delayed;
    sampled_at = finite_timestamp queue.sampled_at;
  };
  telemetry_error_class = none;
}

abbrev pub note_error : Thrown → StoredWorker → StoredWorker
note_error thrown entry = record entry { telemetry_error_class = some (error_class thrown) }

abbrev pub kill : Thrown → StoredWorker → StoredWorker
kill thrown entry = record entry {
  alive = false;
  telemetry_error_class = some (error_class thrown);
}

unfoldable pub heartbeat : String → ℕ → Registry → Registry
heartbeat name now r = modify name (beat now) r

unfoldable pub begin_worker_processing : String → Number → ℕ → Registry → Registry
begin_worker_processing name deadline_ms now r = modify name (begin now deadline_ms) r

unfoldable pub end_worker_processing : String → Registry → Registry
end_worker_processing name r = modify name finish r

unfoldable pub record_worker_processing : String → ProcessingUpdate → ℕ → Registry → Registry
record_worker_processing name update now r = modify name (tally now update) r

unfoldable pub record_queue_telemetry : String → RawTelemetry → Registry → Registry
record_queue_telemetry name queue r = modify name (sample queue) r

unfoldable pub record_telemetry_error : String → Thrown → Registry → Registry
record_telemetry_error name thrown r = modify name (note_error thrown) r

unfoldable pub mark_worker_dead : String → Thrown → Registry → Registry
mark_worker_dead name thrown r = modify name (kill thrown) r

abbrev pub at_least : Option ℕ → ℕ → Bool
at_least none now = true
at_least (some t) now = leb t now

-- `now - lastHeartbeat >= threshold` is written without subtraction.
abbrev pub older : Option ℕ → ℕ → ℕ → Bool
older none threshold now = true
older (some t) threshold now = leb (t + threshold) now

abbrev pub is_stale : ℕ → ℕ → StoredWorker → Bool
is_stale threshold now entry =
    if entry.processing
    then at_least entry.processing_deadline_at now
    else older entry.last_heartbeat threshold now

abbrev pub status_of : ℕ → ℕ → StoredWorker → WorkerStatus
status_of threshold now entry = record { worker = entry; stale = is_stale threshold now entry }

unfoldable pub get_worker_statuses : Number → ℕ → Registry → List WorkerStatus
get_worker_statuses stale_threshold_ms now r =
    map (λ e. status_of (max 1 (safe_count (some stale_threshold_ms))) now e.1) r

-- The operations as data, for histories: one on an entry that is there, or a registration.
pub data Event : Type 0 where
  beats : (now : ℕ) → Event
  begins : (now : ℕ) (deadline_ms : Number) → Event
  finishes : Event
  tallies : (now : ℕ) → ProcessingUpdate → Event
  samples : RawTelemetry → Event
  sampling_fails : Thrown → Event
  dies : Thrown → Event

pub data Op : Type 0 where
  registers : (name : String) (now : ℕ) → Op
  acts : (name : String) → Event → Op

abbrev pub act : Event → StoredWorker → StoredWorker
act (beats now) entry = beat now entry
act (begins now deadline_ms) entry = begin now deadline_ms entry
act finishes entry = finish entry
act (tallies now update) entry = tally now update entry
act (samples queue) entry = sample queue entry
act (sampling_fails thrown) entry = note_error thrown entry
act (dies thrown) entry = kill thrown entry

unfoldable pub apply : Registry → Op → Registry
unfolding register_worker heartbeat begin_worker_processing end_worker_processing
    record_worker_processing record_queue_telemetry record_telemetry_error mark_worker_dead
apply r (registers name now) = register_worker name now r
apply r (acts name (beats now)) = heartbeat name now r
apply r (acts name (begins now deadline_ms)) = begin_worker_processing name deadline_ms now r
apply r (acts name finishes) = end_worker_processing name r
apply r (acts name (tallies now update)) = record_worker_processing name update now r
apply r (acts name (samples queue)) = record_queue_telemetry name queue r
apply r (acts name (sampling_fails thrown)) = record_telemetry_error name thrown r
apply r (acts name (dies thrown)) = mark_worker_dead name thrown r

unfoldable pub run : Registry → List Op → Registry
unfolding apply
run r [] = r
run r (op ∷ ops) = run (apply r op) ops
