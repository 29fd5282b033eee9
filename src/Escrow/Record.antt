-- ===== src/Escrow/Record.antt =====
-- The header, the records and the footer of service/newsletter-retention-escrow.ts. The `kind` of each
-- is its type, or the constructor of its row.
use mailgun_ses_proxy.Base.{ℕ, Option}
use mailgun_ses_proxy.Escrow.Text.{Text}

pub record Header : Type 0 where
  pub version : ℕ
  pub site_id : Text
  pub cutoff : Text
  pub policy_version : ℕ
  pub public_manifest_hash : Text
  pub schema_fingerprint : Text

pub record BatchRow : Type 0 where
  pub id : Text
  pub site_id : Text
  pub from_email : Text
  pub contents : Text
  pub batch_id : Text
  pub created : Text

pub record MessageRow : Type 0 where
  pub id : Text
  pub message_id : Text
  pub to_email : Text
  pub newsletter_batch_id : Text
  pub created : Text
  pub formated_contents : Text
  pub recipient_data : Option Text

pub record ErrorRow : Type 0 where
  pub id : Text
  pub to_email : Text
  pub error : Text
  pub created : Text
  pub newsletter_batch_id : Text
  pub message_id : Text
  pub formated_contents : Text
  pub recipient_data : Option Text

pub record NotificationRow : Type 0 where
  pub id : Text
  pub type : Text
  pub notification_id : Text
  pub message_id : Text
  pub raw_event : Text
  pub timestamp : Text
  pub created : Text

pub data Row : Type 0 where
  newsletter_batch : BatchRow → Row
  newsletter_message : MessageRow → Row
  newsletter_error : ErrorRow → Row
  newsletter_notification : NotificationRow → Row

pub record EscrowRecord : Type 0 where
  pub manifest_index : ℕ
  pub row : Row

pub record Counts : Type 0 where
  pub batches : ℕ
  pub messages : ℕ
  pub errors : ℕ
  pub notifications : ℕ

pub record Footer : Type 0 where
  pub counts : Counts
  pub content_hash : Text

pub record VerificationResult : Type 0 where
  pub version : ℕ
  pub site_id : Text
  pub cutoff : Text
  pub policy_version : ℕ
  pub public_manifest_hash : Text
  pub schema_fingerprint : Text
  pub content_hash : Text
  pub counts : Counts
