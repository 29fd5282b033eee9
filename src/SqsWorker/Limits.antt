-- ===== src/SqsWorker/Limits.antt =====
-- The clamped settings of lib/core/sqs-worker.ts and service/background-process.ts, and the numbers
-- that it reads from texts.
use mailgun_ses_proxy.Base.{
  ℕ, ◌+◌, ◌-◌, ◌*◌, ◌≤◌, min, max, String, Bool, false, ◌&&◌, Option, none, some, List, [], ◌∷◌,
  leb, every, if◌then◌else◌, arith,
}
use mailgun_ses_proxy.Base.Number.{Number, ℤ, is_finite, to_nat, clamp_floor, max_safe_integer}
use mailgun_ses_proxy.ErrorClass.{codes}

abbrev pub sqs_batch_limit : ℕ
sqs_batch_limit = 10

-- `undefined` is `none`.
unfoldable pub normalize_sqs_worker_count : Option Number → ℕ
normalize_sqs_worker_count none = 1
normalize_sqs_worker_count (some value) =
    if is_finite value then clamp_floor 1 sqs_batch_limit value else 1

unfoldable pub normalize_telemetry_sample_interval : Option Number → ℕ
normalize_telemetry_sample_interval none = 30000
normalize_telemetry_sample_interval (some value) =
    if is_finite value then clamp_floor 10000 300000 value else 30000

unfoldable pub receive_deadline_ms_from_wait_time_seconds : Option Number → ℕ
receive_deadline_ms_from_wait_time_seconds none = 30000
receive_deadline_ms_from_wait_time_seconds (some value) =
    (if is_finite value then clamp_floor 0 20 value else 20) * 1000 + 10000

-- For whole seconds, as every caller gives them: the product has no fraction to cut off.
unfoldable pub processing_deadline_ms_from_visibility_timeout : Option ℤ → ℕ
processing_deadline_ms_from_visibility_timeout none = 30000
processing_deadline_ms_from_visibility_timeout (some seconds) =
    min 43200000 (max 1 (to_nat seconds * 1000))

abbrev pub is_digit : ℕ → Bool
is_digit c = leb b'0' c && leb c b'9'

-- /^\d+$/
abbrev pub is_decimal : List ℕ → Bool
is_decimal [] = false
is_decimal (c ∷ cs) = is_digit c && every is_digit cs

-- `Number(text)` of a decimal text; exact where the code goes on, up to the safe integers.
abbrev pub decimal_from : ℕ → List ℕ → ℕ
decimal_from n [] = n
decimal_from n (c ∷ cs) = decimal_from (n * 10 + (c - b'0')) cs

abbrev safe_decimal : List ℕ → Option ℕ
safe_decimal cs =
    if is_decimal cs
    then (if leb (decimal_from 0 cs) max_safe_integer then some (decimal_from 0 cs) else none)
    else none

unfoldable pub parse_sqs_count : Option String → Option ℕ
parse_sqs_count none = none
parse_sqs_count (some value) = safe_decimal (codes value)

-- Every setting is within the bounds that SQS and the health check want, whatever number or missing
-- value is configured: batch sizes and pool sizes from 1 to 10, the sampling interval from ten
-- seconds to five minutes, the receive deadline from 10 to 30 seconds and the processing deadline
-- from one millisecond to twelve hours.
pub settings_bounds :
    (count interval wait : Option Number) (visibility : Option ℤ)
    → ((1 ≤ normalize_sqs_worker_count count) × (normalize_sqs_worker_count count ≤ 10))
      × ((10000 ≤ normalize_telemetry_sample_interval interval)
          × (normalize_telemetry_sample_interval interval ≤ 300000))
      × ((10000 ≤ receive_deadline_ms_from_wait_time_seconds wait)
          × (receive_deadline_ms_from_wait_time_seconds wait ≤ 30000))
      × ((1 ≤ processing_deadline_ms_from_visibility_timeout visibility)
          × (processing_deadline_ms_from_visibility_timeout visibility ≤ 43200000))
settings_bounds count interval wait visibility =
    (count_bounds count, interval_bounds interval, wait_bounds wait, visibility_bounds visibility)
  where
    count_bounds :
        (count : Option Number)
        → (1 ≤ normalize_sqs_worker_count count) × (normalize_sqs_worker_count count ≤ 10)
    count_bounds none = unfold normalize_sqs_worker_count in omega arith
    count_bounds (some v) = unfold normalize_sqs_worker_count in ground arith

    interval_bounds :
        (interval : Option Number)
        → (10000 ≤ normalize_telemetry_sample_interval interval)
          × (normalize_telemetry_sample_interval interval ≤ 300000)
    interval_bounds none = unfold normalize_telemetry_sample_interval in omega arith
    interval_bounds (some v) = unfold normalize_telemetry_sample_interval in ground arith

    wait_bounds :
        (wait : Option Number)
        → (10000 ≤ receive_deadline_ms_from_wait_time_seconds wait)
          × (receive_deadline_ms_from_wait_time_seconds wait ≤ 30000)
    wait_bounds none = unfold receive_deadline_ms_from_wait_time_seconds in omega arith
    wait_bounds (some v) = unfold receive_deadline_ms_from_wait_time_seconds in ground arith

    visibility_bounds :
        (visibility : Option ℤ)
        → (1 ≤ processing_deadline_ms_from_visibility_timeout visibility)
          × (processing_deadline_ms_from_visibility_timeout visibility ≤ 43200000)
    visibility_bounds none = unfold processing_deadline_ms_from_visibility_timeout in omega arith
    visibility_bounds (some z) =
        unfold processing_deadline_ms_from_visibility_timeout in ground arith
