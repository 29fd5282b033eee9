-- ===== src/Escrow/Completeness/Examples.antt =====
-- Two batches whose records the accumulator accepts.
use mailgun_ses_proxy.Base.{◌≡◌, refl, none, List, [], ◌∷◌, arith}
use mailgun_ses_proxy.Base.Attempt.{returned}
use mailgun_ses_proxy.Escrow.Text.{Text, of, ◌===◌, ge, has}
use mailgun_ses_proxy.Escrow.Record.{Header, BatchRow, MessageRow, ErrorRow, NotificationRow}
use mailgun_ses_proxy.Escrow.Accumulator.{Limits}
use mailgun_ses_proxy.Escrow.Spec.{Manifest, records_of, view}
use mailgun_ses_proxy.Escrow.Step.{manifest}
use mailgun_ses_proxy.Escrow.Completeness.Readable.{IsReadable}
use mailgun_ses_proxy.Escrow.Completeness.Records.{consume_all, records-accepted}

abbrev header : Header
header = record {
  version = 1;
  site_id = of "site";
  cutoff = of "2024-02-01T00:00:00.000Z";
  policy_version = 1;
  public_manifest_hash = of "public";
  schema_fingerprint = of "schema";
}

abbrev limits : Limits
limits = record { line_bytes = 100; total_bytes = 1000; records = 10; batches = 2; messages = 3 }

abbrev batch : Text → BatchRow
batch id = record {
  id = id;
  site_id = of "site";
  from_email = of "a@b.c";
  contents = of "{}";
  batch_id = of "n";
  created = of "2024-01-01T00:00:00.000Z";
}

abbrev message : Text → Text → Text → MessageRow
message id ses batch_id = record {
  id = id;
  message_id = ses;
  to_email = of "d@e.f";
  newsletter_batch_id = batch_id;
  created = of "2024-01-01T00:00:00.000Z";
  formated_contents = of "hello";
  recipient_data = none;
}

abbrev failure : ErrorRow
failure = record {
  id = of "f1";
  to_email = of "d@e.f";
  error = of "bounced";
  created = of "2024-01-01T00:00:01.000Z";
  newsletter_batch_id = of "b1";
  message_id = of "s3";
  formated_contents = of "hello";
  recipient_data = none;
}

abbrev notification : NotificationRow
notification = record {
  id = of "e1";
  type = of "Delivery";
  notification_id = of "x1";
  message_id = of "s1";
  raw_event = of "{}";
  timestamp = of "2024-01-01T00:00:01.000Z";
  created = of "2024-01-01T00:00:02.000Z";
}

-- The second batch has one message; the first one has two, an error and a notification.
abbrev batches : List Manifest
batches =
    manifest (batch (of "b2")) (message (of "m1") (of "s0") (of "b2") ∷ []) [] []
    ∷ manifest (batch (of "b1"))
        (message (of "m3") (of "s2") (of "b1") ∷ message (of "m2") (of "s1") (of "b1") ∷ [])
        (failure ∷ []) (notification ∷ [])
    ∷ []

batches-IsReadable : IsReadable limits (of "site") batches
unfolding ◌===◌ ge has
batches-IsReadable = record {
  well_formed = record {
    complete = (
      record {
        site = refl;
        messages_ascend = tt;
        errors_ascend = tt;
        notifications_ascend = tt;
        messages_belong = (refl, tt);
        errors_belong = tt;
        notifications_belong = tt;
      },
      (
        record {
          site = refl;
          messages_ascend = (refl, tt);
          errors_ascend = tt;
          notifications_ascend = tt;
          messages_belong = (refl, (refl, tt));
          errors_belong = (refl, tt);
          notifications_belong = (refl, tt);
        },
        tt,
      ),
    );
    batches = (refl, (refl, tt));
    message_rows = (refl, (refl, (refl, tt)));
    messages = (refl, (refl, (refl, tt)));
    error_rows = (refl, tt);
    error_messages = (refl, tt);
    notification_rows = (refl, tt);
    notifications = (refl, tt);
  };
  identified = (refl, (refl, tt));
  batches = omega arith;
  messages = omega arith;
  errors = omega arith;
  notifications = omega arith;
}

records-accepted_example :
    consume_all limits header (records_of batches) ≡ returned (view header batches)
records-accepted_example =
    records-accepted limits header (omega arith) (omega arith) batches batches-IsReadable
