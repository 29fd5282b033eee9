-- ===== src/Escrow/ManifestHash.antt =====
-- `hashCanonicalJson` of service/newsletter-retention.ts for the fields of a manifest; SHA-256 is a
-- parameter. Timestamps are of the years 0 to 9999, as those that the code parses.
use mailgun_ses_proxy.Base.{
  ℕ, zero, suc, ◌+◌, ◌-◌, ◌/◌, ◌%◌, List, [], ◌∷◌, ◌++◌, map, leb, if◌then◌else◌,
}
use mailgun_ses_proxy.Retention.Instant.{days_of_years, days_of_months}
use mailgun_ses_proxy.Retention.Order.{sort, compare_units}
use mailgun_ses_proxy.Retention.Plan.{Candidate}
use mailgun_ses_proxy.Retention.Manifest.{Manifest}
use mailgun_ses_proxy.Escrow.Text.{Text, of, stringify_number, stringify_string}

-- The last digits of a number before more text.
abbrev padded : ℕ → ℕ → Text → Text
padded zero n rest = rest
padded (suc width) n rest = padded width (n / 10) ((b'0' + n % 10) ∷ rest)

-- The year of a day, from an earlier one on. A day of the years up to 9999 is at most 30 years after
-- the quotient by 366.
unfoldable pub year_from : ℕ → ℕ → (days : ℕ) → ℕ
year_from zero year days = year
year_from (suc fuel) year days =
    let later = year_from fuel (suc year) days in
    if leb (days_of_years (suc year)) days then later else year

-- The month of a day of a year, from one on.
unfoldable pub month_from : ℕ → (year month day : ℕ) → ℕ
month_from zero year month day = month
month_from (suc fuel) year month day =
    let later = month_from fuel year (suc month) day in
    if leb (days_of_months year month) day then later else month

-- `new Date(timestamp).toISOString()`.
unfoldable pub to_utc_iso : ℕ → Text
unfolding year_from month_from
to_utc_iso timestamp =
    let days = timestamp / 86400000 in
    let year = year_from 32 (days / 366) days in
    let day = days - days_of_years year in
    let month = month_from 11 year 1 day in
    padded 4 year (
      b'-'
      ∷ padded 2 month (
          b'-'
          ∷ padded 2 (suc (day - days_of_months year (month - 1))) (
              b'T'
              ∷ padded 2 (timestamp / 3600000 % 24) (
                  b':'
                  ∷ padded 2 (timestamp / 60000 % 60) (
                      b':'
                      ∷ padded 2 (timestamp / 1000 % 60)
                          (b'.' ∷ padded 3 (timestamp % 1000) (b'Z' ∷ [])))))))

-- `canonicalJson` of an array and of an object whose items and values are given in their canonical
-- form.
abbrev items_joined : List Text → Text
items_joined [] = []
items_joined (item ∷ []) = item
items_joined (item ∷ next ∷ items) = item ++ b',' ∷ items_joined (next ∷ items)

abbrev pub canonical_array : List Text → Text
canonical_array items = b'[' ∷ (items_joined items ++ b']' ∷ [])

unfoldable pub canonical_object : List (Text × Text) → Text
canonical_object entries =
    b'{'
    ∷ (items_joined (
          map (λ e. stringify_string e.0 ++ b':' ∷ e.1)
            (sort (λ left right. compare_units left.0 right.0) entries))
        ++ b'}' ∷ [])

unfoldable pub canonical_batch : Candidate → Text
unfolding to_utc_iso canonical_object
canonical_batch batch = canonical_object (
    (of "batchId", stringify_string (of batch.batch_id))
    ∷ (of "createdAt", stringify_string (to_utc_iso batch.created_at))
    ∷ (of "messageCount", stringify_number batch.message_count)
    ∷ (of "notificationCount", stringify_number batch.notification_count)
    ∷ (of "errorCount", stringify_number batch.error_count)
    ∷ [])

unfoldable pub canonical_payload : Manifest → Text
unfolding canonical_object canonical_batch
canonical_payload manifest = canonical_object (
    (of "siteId", stringify_string (of manifest.site_id))
    ∷ (of "batches", canonical_array (map canonical_batch manifest.batches))
    ∷ (of "cutoff", stringify_string (of manifest.cutoff))
    ∷ (of "policyVersion", stringify_number manifest.policy_version)
    ∷ [])

module _ (sha256_hex : Text → Text) where
  unfoldable pub manifest_hash : Manifest → Text
  unfolding canonical_payload
  manifest_hash manifest = sha256_hex (canonical_payload manifest)
