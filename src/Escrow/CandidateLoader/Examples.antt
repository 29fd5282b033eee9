-- ===== src/Escrow/CandidateLoader/Examples.antt =====
-- A run of service/newsletter-retention-candidate-loader.ts.
use mailgun_ses_proxy.Base.{◌≡◌, refl, true, some, List, [], ◌∷◌}
use mailgun_ses_proxy.Base.Attempt.{returned}
use mailgun_ses_proxy.Base.Number.{nat}
use mailgun_ses_proxy.Retention.Policy.{RetentionPolicy}
use mailgun_ses_proxy.Escrow.Text.{of}
use mailgun_ses_proxy.Escrow.Loader.Candidates.{CandidateRecord}
use mailgun_ses_proxy.Escrow.CandidateLoader.{CandidateDelegate}
use mailgun_ses_proxy.Escrow.CandidateLoader.Loaded.{AreLoaded, records-AreLoaded}
use mailgun_ses_proxy.Escrow.CandidateLoader.{
  normalize_count, normalize_created_at, normalize_row_id, normalize_batch_id, normalize_message_id,
  normalize_site_id, parse_strict_utc_iso, normalize_positive_integer,
  normalize_limited_positive_integer, safe_add_integers, sum_from, normalize_batch_aggregate_row,
  normalize_messages_from, normalize_message_rows, compare_normalized_candidates,
  count_batch_linked_orphans, load_with_messages, load_candidate, load_candidate_records,
}
use mailgun_ses_proxy.Escrow.Text.{has, ◌===◌}
use mailgun_ses_proxy.Retention.Order.{sort}
use mailgun_ses_proxy.Base.Attempt.{map_attempt}

abbrev policy : RetentionPolicy
policy = record {
  site_id = "site";
  cutoff = "2024-02-01T00:00:00.000Z";
  dry_run = true;
  max_batches = 10;
  max_messages = 1000;
  policy_version = 1;
}

abbrev delegate : CandidateDelegate
delegate = record {
  find_batches = λ site cutoff n. returned (
      record {
        id = of "b2";
        batch_id = of "n2";
        created = some (of "2024-01-02T00:00:00.000Z");
        newsletters_errors = nat 1;
        newsletters_messages = nat 0;
      }
      ∷ record {
        id = of "b1";
        batch_id = of "n1";
        created = some (of "2024-01-01T00:00:00.000Z");
        newsletters_errors = nat 0;
        newsletters_messages = nat 2;
      }
      ∷ []);
  find_messages = λ id n. returned (
      record { message_id = of "ses1"; notification_events = nat 3 }
      ∷ record { message_id = of "ses2"; notification_events = nat 0 }
      ∷ []);
  count_orphans = λ ids. returned (nat 0);
}

abbrev records : List CandidateRecord
records =
    record {
      site_id = of "site";
      batch_record_id = of "b1";
      batch_id = of "n1";
      created_at = of "2024-01-01T00:00:00.000Z";
      message_count = nat 2;
      notification_count = nat 3;
      error_count = nat 0;
      orphan_count = nat 0;
      correlation_complete = true;
    }
    ∷ record {
      site_id = of "site";
      batch_record_id = of "b2";
      batch_id = of "n2";
      created_at = of "2024-01-02T00:00:00.000Z";
      message_count = nat 0;
      notification_count = nat 0;
      error_count = nat 1;
      orphan_count = nat 0;
      correlation_complete = true;
    }
    ∷ []

loaded : load_candidate_records delegate policy ≡ returned records
unfolding normalize_count normalize_created_at normalize_row_id normalize_batch_id
    normalize_message_id normalize_site_id parse_strict_utc_iso normalize_positive_integer
    normalize_limited_positive_integer safe_add_integers sum_from normalize_batch_aggregate_row
    normalize_messages_from normalize_message_rows compare_normalized_candidates
    count_batch_linked_orphans load_with_messages load_candidate load_candidate_records has ◌===◌
    sort map_attempt
loaded = refl

records-AreLoaded_example : AreLoaded delegate policy records
records-AreLoaded_example = records-AreLoaded delegate policy records loaded
