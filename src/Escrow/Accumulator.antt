-- ===== src/Escrow/Accumulator.antt =====
-- `NewsletterRetentionEscrowAccumulatorState` in service/newsletter-retention-escrow.ts: the check of an
-- escrow file line by line. `JSON.parse` and SHA-256 are parameters; a line of bytes is the text that
-- the UTF-8 decoder makes of it, and its length. A call that throws leaves the state as it was but for
-- `failed`: what the code has assigned by then is never read again.
use mailgun_ses_proxy.Base.{ℕ, String, Bool, false, Option, none, List, []}
use mailgun_ses_proxy.Base.Number.{Number}
use mailgun_ses_proxy.Base.Attempt.{Attempt, returned, ◌>>=◌}
use mailgun_ses_proxy.Escrow.Text.{Text}
use mailgun_ses_proxy.Escrow.Value.{normalize_escrow_limit}
use mailgun_ses_proxy.Escrow.Record.{Header, Counts, VerificationResult}

pub data Kind : Type 0 where
  batch_kind message_kind error_kind notification_kind : Kind

abbrev pub kind_name : Kind → String
kind_name batch_kind = "newsletterBatch"
kind_name message_kind = "newsletterMessages"
kind_name error_kind = "newsletterErrors"
kind_name notification_kind = "newsletterNotifications"

-- The number of a kind in the order of a batch's records.
abbrev pub rank : Kind → ℕ
rank batch_kind = 0
rank message_kind = 1
rank error_kind = 2
rank notification_kind = 3

-- `Map<kind, A>`, where a missing entry reads as the value that the code uses then.
pub record ByKind (A : Type 0) : Type 0 where
  pub batch : A
  pub message : A
  pub error : A
  pub notification : A

abbrev pub get_kind : {A : Type 0} → Kind → ByKind A → A
get_kind batch_kind map = map.batch
get_kind message_kind map = map.message
get_kind error_kind map = map.error
get_kind notification_kind map = map.notification

abbrev pub set_kind : {A : Type 0} → Kind → A → ByKind A → ByKind A
set_kind batch_kind a map = record map { batch = a }
set_kind message_kind a map = record map { message = a }
set_kind error_kind a map = record map { error = a }
set_kind notification_kind a map = record map { notification = a }

abbrev pub no_ids : ByKind (Option Text)
no_ids = record { batch = none; message = none; error = none; notification = none }

-- `footer-ready` is never assigned.
pub data Phase : Type 0 where
  await_header parent messages errors notifications footer_ready : Phase

abbrev pub phase_rank : Phase → ℕ
phase_rank parent = 0
phase_rank messages = 1
phase_rank errors = 2
phase_rank notifications = 3
phase_rank _ = 4

pub record Limits : Type 0 where
  pub line_bytes : ℕ
  pub total_bytes : ℕ
  pub records : ℕ
  pub batches : ℕ
  pub messages : ℕ

pub record Options : Type 0 where
  pub line_bytes_limit : Option Number
  pub total_bytes_limit : Option Number
  pub record_limit : Option Number
  pub batch_limit : Option Number
  pub message_limit : Option Number

abbrev pub no_options : Options
no_options = record {
  line_bytes_limit = none;
  total_bytes_limit = none;
  record_limit = none;
  batch_limit = none;
  message_limit = none;
}

unfoldable pub normalize_limits : Options → Attempt Limits
normalize_limits options = do
  line_bytes ← normalize_escrow_limit options.line_bytes_limit 16777216 "lineBytesLimit"
  total_bytes ← normalize_escrow_limit options.total_bytes_limit 536870912 "totalBytesLimit"
  records ← normalize_escrow_limit options.record_limit 250000 "recordLimit"
  batches ← normalize_escrow_limit options.batch_limit 100 "batchLimit"
  max_messages ← normalize_escrow_limit options.message_limit 100000 "messageLimit"
  returned (record {
    line_bytes = line_bytes;
    total_bytes = total_bytes;
    records = records;
    batches = batches;
    messages = max_messages;
  })

-- The state that the records of a file change. `manifest_index` is none for -1.
pub record Rows : Type 0 where
  pub header : Option Header
  pub counts : Counts
  pub manifest_index : Option ℕ
  pub phase : Phase
  pub last_ids : ByKind (Option Text)
  pub seen_row_ids : ByKind (List Text)
  pub seen_message_ids : List Text
  pub seen_error_message_ids : List Text
  pub seen_notification_ids : List Text
  pub current_batch_id : Option Text
  pub current_message_ids : List Text

-- The whole state; `hashed` is the text that the hash has been updated with.
pub record State : Type 0 where
  pub limits : Limits
  pub total_bytes : ℕ
  pub total_records : ℕ
  pub seen_footer : Bool
  pub failed : Bool
  pub resolved : Option VerificationResult
  pub hashed : Text
  pub rows : Rows

abbrev pub no_rows : Rows
no_rows = record {
  header = none;
  counts = record { batches = 0; messages = 0; errors = 0; notifications = 0 };
  manifest_index = none;
  phase = await_header;
  last_ids = no_ids;
  seen_row_ids = record { batch = []; message = []; error = []; notification = [] };
  seen_message_ids = [];
  seen_error_message_ids = [];
  seen_notification_ids = [];
  current_batch_id = none;
  current_message_ids = [];
}

unfoldable pub create_accumulator : Options → Attempt State
unfolding normalize_limits
create_accumulator options = do
  limits ← normalize_limits options
  returned (record {
    limits = limits;
    total_bytes = 0;
    total_records = 0;
    seen_footer = false;
    failed = false;
    resolved = none;
    hashed = [];
    rows = no_rows;
  })
