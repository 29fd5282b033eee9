-- ===== src/Escrow/DryRun/Examples.antt =====
-- A dry run with an escrow of one newsletter.
use mailgun_ses_proxy.Base.{◌≡◌, refl, true, none, some, [], ◌∷◌, map}
use mailgun_ses_proxy.Base.Dict.{get, put, delete}
use mailgun_ses_proxy.Base.Attempt.{returned, map_attempt}
use mailgun_ses_proxy.Base.Number.{nat}
use mailgun_ses_proxy.Retention.Instant.{parse_strict_utc_iso}
use mailgun_ses_proxy.Retention.Order.{sort, compare_canonical_strings}
use mailgun_ses_proxy.Retention.Policy.{
  RetentionPolicy, Evidence, normalize_site_id, parse_times, ensure_fresh_evidence,
  ensure_all_fresh, parse_newsletter_retention_evidence, parse_newsletter_retention_policy,
  clamp_positive_integer, normalize_policy_version,
}
use mailgun_ses_proxy.Retention.Plan.{
  SelectionPlan, normalize_count, parse_candidate_created_at, safe_add_integers,
  normalize_selection_candidate, total_from, build_newsletter_retention_selection_plan,
}
use mailgun_ses_proxy.Retention.Lock.{
  create_process_local_anti_overlap_lock, with_process_local_anti_overlap_lock, try_acquire,
  release,
}
use mailgun_ses_proxy.Retention.Manifest.{
  build_newsletter_retention_manifest, normalize_manifest_batch, normalize_manifest_batch_id,
  normalize_manifest_count,
}
use mailgun_ses_proxy.Retention.Coordinator.{DryRunResult, normalize_dry_run_policy, plan_dry_run}
use mailgun_ses_proxy.Escrow.Text.{
  Text, of, ◌===◌, ge, has, stringify_string, stringify_number, digits_of, quoted_units,
}
use mailgun_ses_proxy.Escrow.Record.{newsletter_batch, newsletter_message, newsletter_notification}
use mailgun_ses_proxy.Escrow.Stage.{result_of}
use mailgun_ses_proxy.Escrow.Writer.Verified.{chunks_onto}
use mailgun_ses_proxy.Escrow.Loader.{
  Delegate, load_batch_row, load_message_rows, load_error_rows, load_notification_rows,
  validate_orphan_count, remember_key, remember_rows, assert_snapshot_unique_keys, load_batch,
  stream_from, prepare, stream_escrow_records,
}
use mailgun_ses_proxy.Escrow.Loader.Candidates.{
  normalize_strict_string, normalize_utc_millis, safe_add, normalize_candidate, compare_candidates,
  add_candidate, normalize_from, normalize_candidates,
}
use mailgun_ses_proxy.Escrow.Loader.Candidates
use mailgun_ses_proxy.Escrow.Loader.Rows.{
  normalize_prisma_date, normalize_batch_row, normalize_message_row, normalize_error_row,
  normalize_notification_row, normalize_rows, normalize_message_rows, normalize_error_rows,
  normalize_notification_rows,
}
use mailgun_ses_proxy.Escrow.ManifestHash.{
  to_utc_iso, year_from, month_from, canonical_object, canonical_batch, canonical_payload,
  manifest_hash,
}
use mailgun_ses_proxy.Escrow.Examples.{
  hash_text, constant_hash, header, batch, message, notification, in_first, footer, lines, parse,
  written_and_read,
}
use mailgun_ses_proxy.Escrow.DryRun.{
  EscrowDryRunInput, EscrowDryRunResult, without_escrow, as_input, loader_candidate,
  assert_escrow_matches_plan, plan_escrow_dry_run, build_newsletter_retention_escrow_dry_run_result,
}
use mailgun_ses_proxy.Escrow.DryRun.Committed.{IsCommitted, dry_run-IsCommitted}

abbrev delegate : Delegate
delegate = record {
  find_batch = λ id site. returned (
      some (record {
        id = batch.id;
        site_id = batch.site_id;
        from_email = batch.from_email;
        contents = batch.contents;
        batch_id = batch.batch_id;
        created = some batch.created;
      }));
  find_messages = λ id n. returned (
      record {
        id = message.id;
        message_id = message.message_id;
        to_email = message.to_email;
        newsletter_batch_id = message.newsletter_batch_id;
        created = some message.created;
        formated_contents = message.formated_contents;
        recipient_data = none;
      }
      ∷ []);
  find_errors = λ id n. returned [];
  find_notifications = λ id n. returned (
      record {
        id = notification.id;
        type = notification.type;
        notification_id = notification.notification_id;
        message_id = notification.message_id;
        raw_event = notification.raw_event;
        timestamp = some notification.timestamp;
        created = some notification.created;
      }
      ∷ []);
  count_orphans = λ ids. returned (nat 0);
}

abbrev input : EscrowDryRunInput
input = record {
  policy = record {
    site_id = "site";
    cutoff = "2024-02-01T00:00:00.000Z";
    apply = none;
    max_batches = none;
    max_messages = none;
  };
  evidence = record {
    now = "2025-06-02T12:00:00.000Z";
    backup_verified_at = "2025-06-02T11:00:00.000Z";
    backup_restored_at = "2025-06-02T10:00:00.000Z";
    restore_verified_at = "2025-06-01T13:00:00.000Z";
    restore_restored_at = "2025-06-01T12:00:00.000Z";
    queue_checked_at = "2025-06-02T11:45:00.000Z";
    proxy_checked_at = "2025-06-02T12:00:00.000Z";
    queue_healthy = true;
    proxy_healthy = true;
  };
  queue_healthy = true;
  dlq_healthy = true;
  candidates =
      record {
        site_id = "site";
        batch_record_id = "b1";
        batch_id = "n1";
        created_at = "2024-01-01T00:00:00.000Z";
        message_count = nat 1;
        notification_count = nat 1;
        error_count = nat 0;
        orphan_count = nat 0;
        correlation_complete = true;
      }
      ∷ [];
  delegate = delegate;
  schema_fingerprint = "00112233445566778899aabbccddeeff00112233445566778899aabbccddeeff";
}

abbrev policy : RetentionPolicy
policy = record {
  site_id = "site";
  cutoff = "2024-02-01T00:00:00.000Z";
  dry_run = true;
  max_batches = 10;
  max_messages = 1000;
  policy_version = 1;
}

abbrev plan : SelectionPlan
plan = record {
  site_id = "site";
  cutoff = "2024-02-01T00:00:00.000Z";
  batch_count = 1;
  totals = record { message_count = 1; notification_count = 1; error_count = 0 };
  batches =
      record {
        batch_id = "n1";
        created_at = 63871286400000;
        message_count = 1;
        notification_count = 1;
        error_count = 0;
      }
      ∷ [];
}

abbrev run : DryRunResult
run = record {
  policy_version = 1;
  plan = plan;
  manifest = record {
    site_id = "site";
    cutoff = "2024-02-01T00:00:00.000Z";
    policy_version = 1;
    batches = plan.batches;
  };
}

planned : plan_dry_run policy input.evidence (without_escrow input) ≡ returned run
unfolding plan_dry_run build_newsletter_retention_manifest normalize_manifest_batch
    normalize_manifest_batch_id normalize_manifest_count normalize_site_id normalize_policy_version
    build_newsletter_retention_selection_plan parse_newsletter_retention_evidence parse_times
    parse_strict_utc_iso ensure_all_fresh ensure_fresh_evidence map_attempt
    normalize_selection_candidate normalize_count parse_candidate_created_at sort
    compare_canonical_strings total_from safe_add_integers
planned = refl

loaded :
    stream_escrow_records delegate (as_input policy) (map loader_candidate input.candidates)
    ≡ returned (in_first (newsletter_batch batch))
      ∷ returned (in_first (newsletter_message message))
      ∷ returned (in_first (newsletter_notification notification))
      ∷ []
unfolding ◌===◌ ge has load_batch_row load_message_rows load_error_rows load_notification_rows
    validate_orphan_count remember_key remember_rows assert_snapshot_unique_keys load_batch
    stream_from prepare stream_escrow_records normalize_strict_string Candidates.normalize_count
    Candidates.parse_strict_utc_iso normalize_utc_millis safe_add normalize_candidate
    compare_candidates add_candidate normalize_from normalize_candidates normalize_prisma_date
    normalize_batch_row normalize_message_row normalize_error_row normalize_notification_row
    normalize_rows normalize_message_rows normalize_error_rows normalize_notification_rows
    parse_newsletter_retention_policy normalize_site_id clamp_positive_integer sort
    parse_strict_utc_iso
loaded = refl

new_year : to_utc_iso 63871286400000 ≡ of "2024-01-01T00:00:00.000Z"
unfolding to_utc_iso year_from month_from
new_year = refl

leap_day : to_utc_iso 63876470399999 ≡ of "2024-02-29T23:59:59.999Z"
unfolding to_utc_iso year_from month_from
leap_day = refl

last_day : to_utc_iso 315569519999999 ≡ of "9999-12-31T23:59:59.999Z"
unfolding to_utc_iso year_from month_from
last_day = refl

abbrev canonical_run : Text
canonical_run =
    of
      "{\"batches\":[{\"batchId\":\"n1\",\"createdAt\":\"2024-01-01T00:00:00.000Z\",\"errorCount\":0,\"messageCount\":1,\"notificationCount\":1}],\"cutoff\":\"2024-02-01T00:00:00.000Z\",\"policyVersion\":1,\"siteId\":\"site\"}"

canonical : canonical_payload run.manifest ≡ canonical_run
unfolding canonical_payload canonical_batch canonical_object to_utc_iso year_from month_from sort
    stringify_string stringify_number digits_of quoted_units
canonical = refl

abbrev result : EscrowDryRunResult
result = record { run = run; escrow = result_of header hash_text footer.counts }

committed :
    build_newsletter_retention_escrow_dry_run_result constant_hash parse
      (λ written line. true)
      7
      input
      []
    ≡ ((chunks_onto lines [], returned result), [])
unfolding build_newsletter_retention_escrow_dry_run_result plan_escrow_dry_run
    normalize_dry_run_policy parse_newsletter_retention_policy normalize_site_id
    clamp_positive_integer parse_strict_utc_iso parse_newsletter_retention_evidence parse_times
    ensure_all_fresh ensure_fresh_evidence create_process_local_anti_overlap_lock
    with_process_local_anti_overlap_lock try_acquire release get put delete
    assert_escrow_matches_plan ◌===◌ manifest_hash
committed = rw (planned, loaded, written_and_read) refl

dry_run-IsCommitted_example :
    (p : RetentionPolicy) × (evidence : Evidence) × (normalize_dry_run_policy input.policy
      ≡ returned p)
    × (parse_newsletter_retention_evidence input.evidence ≡ returned evidence)
    × IsCommitted constant_hash parse
        (λ written line. true)
        p
        evidence
        input
        (chunks_onto lines [])
        result
dry_run-IsCommitted_example =
    dry_run-IsCommitted constant_hash parse (λ written line. true) 7 input [] []
      (chunks_onto lines []) result committed
