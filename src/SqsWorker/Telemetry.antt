-- ===== src/SqsWorker/Telemetry.antt =====
-- The queue telemetry sampler of lib/core/sqs-worker.ts: when it sends requests.
use mailgun_ses_proxy.Base.{
  ℕ, ◌+◌, ◌≤◌, ◌≡◌, refl, sym, ap, ◌∙◌, String, Bool, true, false, ◌||◌, Option, none, some, List,
  [], ◌∷◌, ltb, str_eq, eq_iff, if◌then◌else◌, arith, Bool-cases, inl, inr,
}
use mailgun_ses_proxy.Base.Dict.{Dict, get, put, delete, keys, get-put}
use mailgun_ses_proxy.Base.Names.{has, add, without}
use mailgun_ses_proxy.ErrorClass.{Thrown}
use mailgun_ses_proxy.Base.Number.{Number, nat}
use mailgun_ses_proxy.Registry.{Registry, record_queue_telemetry, record_telemetry_error}
use mailgun_ses_proxy.SqsWorker.Limits.{parse_sqs_count}

-- The module's variables. A timer is kept with its interval, and `samples` logs the requests, newest
-- first.
pub record Telemetry : Type 0 where
  pub requests : List String
  pub last_sample : Dict ℕ
  pub timers : Dict ℕ
  pub samples : List (String × ℕ)

abbrev pub no_telemetry : Telemetry
no_telemetry = record { requests = []; last_sample = []; timers = []; samples = [] }

abbrev pub is_too_soon : Option ℕ → (interval_ms now : ℕ) → Bool
is_too_soon none interval_ms now = false
is_too_soon (some last) interval_ms now = ltb now (last + interval_ms)

unfoldable pub launch_queue_telemetry_sample :
    String → (interval_ms now : ℕ) → Telemetry → Telemetry
unfolding get put has
launch_queue_telemetry_sample name interval_ms now t =
    if has t.requests name || is_too_soon (get name t.last_sample) interval_ms now
    then t
    else record t {
      requests = add t.requests name;
      last_sample = put name now t.last_sample;
      samples = (name, now) ∷ t.samples;
    }

unfoldable pub clear_queue_telemetry_sampling : String → Telemetry → Telemetry
unfolding delete
clear_queue_telemetry_sampling name t = record t {
  timers = delete name t.timers;
  last_sample = delete name t.last_sample;
}

unfoldable pub start_queue_telemetry_sampling :
    String → (interval_ms now : ℕ) → Telemetry → Telemetry
unfolding clear_queue_telemetry_sampling launch_queue_telemetry_sample put
start_queue_telemetry_sampling name interval_ms now t =
    let launched =
      launch_queue_telemetry_sample name interval_ms now (clear_queue_telemetry_sampling name t) in
    record launched { timers = put name interval_ms launched.timers }

abbrev clear_names : List String → Telemetry → Telemetry
clear_names [] t = t
clear_names (name ∷ names) t = clear_names names (clear_queue_telemetry_sampling name t)

unfoldable pub clear_all_queue_telemetry_sampling : Telemetry → Telemetry
clear_all_queue_telemetry_sampling t = clear_names (keys t.timers) t

-- `.finally(() => telemetryRequests.delete(name))`.
abbrev pub request_settles : String → Telemetry → Telemetry
request_settles name t = record t { requests = without t.requests name }

-- What a sample's answer gives, as far as the code reads it.
pub record Attributes : Type 0 where
  pub visible : Option String
  pub not_visible : Option String
  pub delayed : Option String

abbrev count_number : Option ℕ → Option Number
count_number none = none
count_number (some n) = some (nat n)

-- The answer is `none` where the request fails, with what it throws.
unfoldable pub sample_queue_telemetry :
    String → (now : ℕ) → Thrown → Option Attributes → Registry → Bool × Registry
unfolding record_queue_telemetry record_telemetry_error parse_sqs_count
sample_queue_telemetry name now thrown none r = (false, record_telemetry_error name thrown r)
sample_queue_telemetry name now thrown (some attributes) r = (
  true,
  record_queue_telemetry name
      (record {
        visible = count_number (parse_sqs_count attributes.visible);
        not_visible = count_number (parse_sqs_count attributes.not_visible);
        delayed = count_number (parse_sqs_count attributes.delayed);
        sampled_at = some (nat now);
      })
      r,
)

-- The timers' ticks and the ends of the requests. A name's interval stays that of its worker.
pub data Tick : Type 0 where
  ticks : (name : String) (now : ℕ) → Tick
  ends : (name : String) → Tick

module _ (interval : String → ℕ) where
  abbrev pub tick : Tick → Telemetry → Telemetry
  tick (ticks name now) t = launch_queue_telemetry_sample name (interval name) now t
  tick (ends name) t = request_settles name t

  unfoldable pub run_ticks : List Tick → Telemetry → Telemetry
  run_ticks [] t = t
  run_ticks (e ∷ es) t = run_ticks es (tick e t)

-- The times of a name's requests, newest first.
abbrev pub times_of : String → List (String × ℕ) → List ℕ
times_of name [] = []
times_of name ((n, now) ∷ samples) =
    if str_eq n name then now ∷ times_of name samples else times_of name samples

abbrev pub Spaced : ℕ → List ℕ → Type 0
Spaced interval [] = Unit
Spaced interval (now ∷ []) = Unit
Spaced interval (now ∷ last ∷ times) = (last + interval ≤ now) × Spaced interval (last ∷ times)

abbrev newest : List ℕ → Option ℕ
newest [] = none
newest (now ∷ times) = some now

module _ (name : String) where
  record Paced (interval : ℕ) (t : Telemetry) : Type 0 where
    latest : get name t.last_sample ≡ newest (times_of name t.samples)
    spaced : Spaced interval (times_of name t.samples)

  add_time :
      (interval now : ℕ) (times : List ℕ)
      → is_too_soon (newest times) interval now ≡ false
      → Spaced interval times
      → Spaced interval (now ∷ times)
  add_time interval now [] h v = tt
  add_time interval now (last ∷ times) h v = (ground (arith, h), v)

  launch-Paced :
      (interval : ℕ) (n : String) (k now : ℕ) (t : Telemetry)
      → (str_eq n name ≡ true → k ≡ interval)
      → Paced interval t
      → Paced interval (launch_queue_telemetry_sample n k now t)
  unfolding launch_queue_telemetry_sample
  launch-Paced interval n k now t same v =
      stays_or (has t.requests n || is_too_soon (get n t.last_sample) k now) (λ go.
        elim (Bool-cases (str_eq n name)) [
          | inl here ↦
              let same_name : n ≡ name = (eq_iff n name).0 here in
              let last_same : get n t.last_sample ≡ newest (times_of name t.samples) =
                ap (λ z. get z t.last_sample) same_name ∙ v.latest in
              let soon : is_too_soon (get n t.last_sample) k now ≡ false =
                or_right (has t.requests n) _ go in
              let due : is_too_soon (newest (times_of name t.samples)) interval now ≡ false =
                sym (ap (λ z. is_too_soon (newest (times_of name t.samples)) z now) (same here))
                ∙ sym (ap (λ z. is_too_soon z k now) last_same)
                ∙ soon in
              record {
                latest = get-put n name now t.last_sample ∙ rw here refl;
                spaced = rw here (add_time interval now (times_of name t.samples) due v.spaced);
              }
          | inr differs ↦ record {
            latest = get-put n name now t.last_sample ∙ rw differs v.latest;
            spaced = rw differs v.spaced;
          }
        ])
    where
      or_right : (a b : Bool) → (a || b) ≡ false → b ≡ false
      or_right true b e = cc
      or_right false b e = e

      stays_or :
          (b : Bool) {launched : Telemetry}
          → (b ≡ false → Paced interval launched)
          → Paced interval (if b then t else launched)
      stays_or true h = v
      stays_or false h = h refl

module _ (interval : String → ℕ) (name : String) where
  tick-Paced :
      (e : Tick) (t : Telemetry)
      → Paced name (interval name) t
      → Paced name (interval name) (tick interval e t)
  tick-Paced (ticks n now) t v =
      launch-Paced name (interval name) n (interval n) now t
        (λ here. ap interval ((eq_iff n name).0 here)) v
  tick-Paced (ends n) t v = record { latest = v.latest; spaced = v.spaced }

  run-Paced :
      (es : List Tick) (t : Telemetry)
      → Paced name (interval name) t
      → Paced name (interval name) (run_ticks interval es t)
  unfolding run_ticks
  run-Paced [] t v = v
  run-Paced (e ∷ es) t v = run-Paced es (tick interval e t) (tick-Paced e t v)

-- From the start of the process, as long as no sampling is restarted or cleared: whatever the clock
-- shows when the timers tick, and whenever requests end, two successive requests for the telemetry of
-- one worker are at least its interval apart.
pub samples-Spaced :
    (interval : String → ℕ) (name : String) (es : List Tick)
    → Spaced (interval name) (times_of name ((run_ticks interval es no_telemetry).samples))
unfolding get
samples-Spaced interval name es =
    (run-Paced interval name es no_telemetry (record { latest = refl; spaced = tt })).spaced
