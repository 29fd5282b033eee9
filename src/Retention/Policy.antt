-- ===== src/Retention/Policy.antt =====
-- The policy and the evidence of service/newsletter-retention.ts. Values of other types than the
-- interfaces declare are left out. A timestamp that was parsed prints as the text it was read from,
-- which `parseStrictUtcIso` checks, so that the texts are handed on.
use mailgun_ses_proxy.Base.{
  ℕ, ◌-◌, String, Bool, true, false, not, ◌&&◌, ◌||◌, Option, none, some, List, [], ◌∷◌, ltb, leb,
  ◌==◌, str_eq,
}
use Prim.Native.String.{◌++◌ as concat}
use mailgun_ses_proxy.Base.Attempt.{Attempt, returned, ◌>>=◌, ◌>>◌, throw_if}
use mailgun_ses_proxy.Base.Number.{
  Number, is_finite, is_integer, is_not_positive, is_safe_integer, exceeds, floor, to_nat,
}
use mailgun_ses_proxy.ErrorClass.{codes}
use mailgun_ses_proxy.Retention.Instant.{parse_strict_utc_iso}

-- The white space that `trim` removes.
abbrev pub is_space : ℕ → Bool
is_space c =
    leb 9 c && leb c 13
    || c == 32
    || c == 160
    || c == 5760
    || leb 8192 c && leb c 8202
    || c == 8232
    || c == 8233
    || c == 8239
    || c == 8287
    || c == 12288
    || c == 65279

abbrev pub ends_in_space : List ℕ → Bool
ends_in_space [] = false
ends_in_space (c ∷ []) = is_space c
ends_in_space (c ∷ d ∷ cs) = ends_in_space (d ∷ cs)

abbrev pub starts_with_space : List ℕ → Bool
starts_with_space [] = false
starts_with_space (c ∷ cs) = is_space c

-- `siteId !== siteId.trim()`.
abbrev pub is_trimmed : List ℕ → Bool
is_trimmed cs = not (starts_with_space cs) && not (ends_in_space cs)

unfoldable pub normalize_site_id : String → Attempt String
normalize_site_id site_id = do
  throw_if (not (is_trimmed (codes site_id)) || str_eq site_id "")
      "siteId must be a non-empty string"
  returned site_id

-- `limit` is the text of `max`.
unfoldable pub clamp_positive_integer :
    Option Number → (fallback max : ℕ) → (field limit : String) → Attempt ℕ
clamp_positive_integer none fallback max field limit = returned fallback
clamp_positive_integer (some value) fallback max field limit = do
  throw_if (not (is_finite value) || not (is_integer value) || is_not_positive value)
      (concat field " must be a positive integer")
  throw_if (exceeds value max) (concat field (concat " must not exceed " limit))
  returned (to_nat (floor value))

-- For a policy version that is set.
unfoldable pub normalize_policy_version : Option Number → Attempt ℕ
normalize_policy_version none = returned 1
normalize_policy_version (some value) = do
  throw_if (not (is_safe_integer value) || is_not_positive value)
      "policyVersion must be a positive safe integer"
  returned (to_nat (floor value))

abbrev pub utc_message : String → String
utc_message field = concat field " must be a strict UTC ISO-8601 string"

pub record PolicyInput : Type 0 where
  pub site_id : String
  pub cutoff : String
  pub apply : Option Bool
  pub max_batches : Option Number
  pub max_messages : Option Number

pub record RetentionPolicy : Type 0 where
  pub site_id : String
  pub cutoff : String
  pub dry_run : Bool
  pub max_batches : ℕ
  pub max_messages : ℕ
  pub policy_version : ℕ

abbrev pub applies : Option Bool → Bool
applies (some true) = true
applies _ = false

unfoldable pub parse_newsletter_retention_policy : PolicyInput → Attempt RetentionPolicy
unfolding normalize_site_id clamp_positive_integer
parse_newsletter_retention_policy input = do
  site_id ← normalize_site_id input.site_id
  _ ← parse_strict_utc_iso (utc_message "cutoff") input.cutoff
  max_batches ← clamp_positive_integer input.max_batches 10 100 "maxBatches" "100"
  max_messages ← clamp_positive_integer input.max_messages 1000 10000 "maxMessages" "10000"
  returned (record {
    site_id = site_id;
    cutoff = input.cutoff;
    dry_run = not (applies input.apply);
    max_batches = max_batches;
    max_messages = max_messages;
    policy_version = 1;
  })

pub record Evidence : Type 0 where
  pub now : String
  pub backup_verified_at : String
  pub backup_restored_at : String
  pub restore_verified_at : String
  pub restore_restored_at : String
  pub queue_checked_at : String
  pub proxy_checked_at : String
  pub queue_healthy : Bool
  pub proxy_healthy : Bool

-- The same as timestamps.
pub record EvidenceTimes : Type 0 where
  pub now : ℕ
  pub backup_verified : ℕ
  pub backup_restored : ℕ
  pub restore_verified : ℕ
  pub restore_restored : ℕ
  pub queue_checked : ℕ
  pub proxy_checked : ℕ

unfoldable pub parse_times : Evidence → Attempt EvidenceTimes
parse_times input = do
  now ← parse_strict_utc_iso (utc_message "now") input.now
  backup_verified ← parse_strict_utc_iso (utc_message "backup.verifiedAt") input.backup_verified_at
  backup_restored ← parse_strict_utc_iso (utc_message "backup.restoredAt") input.backup_restored_at
  restore_verified ←
      parse_strict_utc_iso (utc_message "restore.verifiedAt") input.restore_verified_at
  restore_restored ←
      parse_strict_utc_iso (utc_message "restore.restoredAt") input.restore_restored_at
  queue_checked ← parse_strict_utc_iso (utc_message "health.queueCheckedAt") input.queue_checked_at
  proxy_checked ← parse_strict_utc_iso (utc_message "health.proxyCheckedAt") input.proxy_checked_at
  returned (record {
    now = now;
    backup_verified = backup_verified;
    backup_restored = backup_restored;
    restore_verified = restore_verified;
    restore_restored = restore_restored;
    queue_checked = queue_checked;
    proxy_checked = proxy_checked;
  })

unfoldable pub ensure_fresh_evidence :
    (label : String) (evidence_time_ms now_ms max_age_ms : ℕ) → Attempt (Unit {0})
ensure_fresh_evidence label evidence_time_ms now_ms max_age_ms = do
  throw_if (ltb now_ms evidence_time_ms) (concat label " is stale")
  throw_if (ltb max_age_ms (now_ms - evidence_time_ms)) (concat label " is stale")

abbrev pub max_backup_restore_age_ms : ℕ
max_backup_restore_age_ms = 86400000

abbrev pub max_health_age_ms : ℕ
max_health_age_ms = 900000

unfoldable pub ensure_all_fresh : EvidenceTimes → Attempt (Unit {0})
unfolding ensure_fresh_evidence
ensure_all_fresh t = do
  ensure_fresh_evidence "backup evidence" t.backup_verified t.now max_backup_restore_age_ms
  ensure_fresh_evidence "backup evidence" t.backup_restored t.now max_backup_restore_age_ms
  ensure_fresh_evidence "restore evidence" t.restore_verified t.now max_backup_restore_age_ms
  ensure_fresh_evidence "restore evidence" t.restore_restored t.now max_backup_restore_age_ms
  ensure_fresh_evidence "health evidence" t.queue_checked t.now max_health_age_ms
  ensure_fresh_evidence "health evidence" t.proxy_checked t.now max_health_age_ms

unfoldable pub parse_newsletter_retention_evidence : Evidence → Attempt Evidence
unfolding parse_times ensure_all_fresh
parse_newsletter_retention_evidence input = do
  times ← parse_times input
  throw_if (not input.queue_healthy || not input.proxy_healthy) "health evidence must be healthy"
  ensure_all_fresh times
  returned input
