-- ===== src/Retention/Instant.antt =====
-- `parseStrictUtcIso` in service/newsletter-retention.ts and service/newsletter-retention-plan.ts. A
-- timestamp is counted in milliseconds from the start of the year 0, so that it is not negative; the
-- code only compares and subtracts timestamps.
use mailgun_ses_proxy.Base.{
  ℕ, zero, suc, ◌+◌, ◌-◌, ◌*◌, ◌/◌, ◌%◌, ◌≡◌, refl, String, Bool, not, ◌&&◌, ◌||◌, Option, none,
  some, List, [], ◌∷◌, ltb, leb, ◌==◌, if◌then◌else◌,
}
use mailgun_ses_proxy.Base.Attempt.{Attempt, returned, threw}
use mailgun_ses_proxy.ErrorClass.{codes}
use mailgun_ses_proxy.SqsWorker.Limits.{is_digit}

-- `\d{n}`, with the number read so far.
abbrev pub digits : ℕ → ℕ → List ℕ → Option (ℕ × List ℕ)
digits zero value cs = some (value, cs)
digits (suc n) value [] = none
digits (suc n) value (c ∷ cs) = if is_digit c then digits n (value * 10 + (c - b'0')) cs else none

abbrev pub literal : ℕ → Option (ℕ × List ℕ) → Option (ℕ × List ℕ)
literal sign none = none
literal sign (some (value, [])) = none
literal sign (some (value, c ∷ cs)) = if c == sign then some (value, cs) else none

-- A number of `n` digits and the sign after it, handed on with the rest.
abbrev field : {A : Type 0} → ℕ → ℕ → List ℕ → (ℕ → List ℕ → Option A) → Option A
field n sign cs next = elim (literal sign (digits n 0 cs)) [
  | none ↦ none
  | some parsed ↦ next parsed.0 parsed.1
]

pub record Civil : Type 0 where
  pub year : ℕ
  pub month : ℕ
  pub day : ℕ
  pub hour : ℕ
  pub minute : ℕ
  pub second : ℕ
  pub millisecond : ℕ

abbrev ends_with : Civil → List ℕ → Option Civil
ends_with civil [] = some civil
ends_with civil (c ∷ cs) = none

-- /^\d{4}-\d{2}-\d{2}T\d{2}:\d{2}:\d{2}\.\d{3}Z$/
abbrev pub matched : List ℕ → Option Civil
matched cs = field 4 b'-' cs λ year cs. field 2 b'-' cs λ month cs. field 2 b'T' cs λ day cs.
    field 2 b':' cs λ hour cs. field 2 b':' cs λ minute cs. field 2 b'.' cs λ second cs.
      field 3 b'Z' cs λ millisecond cs.
        ends_with
          (record {
            year = year;
            month = month;
            day = day;
            hour = hour;
            minute = minute;
            second = second;
            millisecond = millisecond;
          })
          cs

abbrev pub is_leap : ℕ → Bool
is_leap year = year % 4 == 0 && (not (year % 100 == 0) || year % 400 == 0)

abbrev pub days_in_month : ℕ → ℕ → ℕ
days_in_month year month =
    if month == 2
    then (if is_leap year then 29 else 28)
    else if month == 4 || month == 6 || month == 9 || month == 11
    then 30
    else 31

-- The date and time exist; `Date.parse` gives NaN for others, or the text of another date.
abbrev pub is_date : Civil → Bool
is_date d =
    leb 1 d.month
    && leb d.month 12
    && leb 1 d.day
    && leb d.day (days_in_month d.year d.month)
    && ltb d.hour 24
    && ltb d.minute 60
    && ltb d.second 60

abbrev pub days_of_months : ℕ → ℕ → ℕ
days_of_months year zero = 0
days_of_months year (suc month) = days_of_months year month + days_in_month year (suc month)

abbrev pub days_of_years : ℕ → ℕ
days_of_years zero = 0
days_of_years (suc year) = 365 * suc year + year / 4 - year / 100 + year / 400 + 1

abbrev pub timestamp_of : Civil → ℕ
timestamp_of d =
    ((((days_of_years d.year + days_of_months d.year (d.month - 1) + (d.day - 1)) * 24 + d.hour)
              * 60
            + d.minute)
          * 60
        + d.second)
      * 1000
    + d.millisecond

abbrev checked : String → Option Civil → Attempt ℕ
checked message none = threw message
checked message (some d) = if is_date d then returned (timestamp_of d) else threw message

unfoldable pub parse_strict_utc_iso : (message value : String) → Attempt ℕ
parse_strict_utc_iso message value = checked message (matched (codes value))

epoch : parse_strict_utc_iso "" "1970-01-01T00:00:00.000Z" ≡ returned 62167219200000
unfolding parse_strict_utc_iso
epoch = refl

no_such_day : parse_strict_utc_iso "bad" "2023-02-29T00:00:00.000Z" ≡ threw "bad"
unfolding parse_strict_utc_iso
no_such_day = refl

day_after_leap_day : parse_strict_utc_iso "" "2024-03-01T00:00:00.000Z" ≡ returned 63876470400000
unfolding parse_strict_utc_iso
day_after_leap_day = refl
