-- ===== src/Escrow/Writer.antt =====
-- service/newsletter-retention-escrow-writer.ts: an escrow file written line by line. The input has
-- the shape that its type declares. The sink is a parameter, which says whether a chunk is written
-- after others; `written` are the chunks so far, the last first.
pub mod Verified
use mailgun_ses_proxy.Base.{
  ℕ, ◌+◌, String, Bool, true, false, not, ◌||◌, Option, none, some, List, [], ◌∷◌, ◌++◌, leb, ◌==◌,
}
use mailgun_ses_proxy.Base.Number.{max_safe_integer}
use mailgun_ses_proxy.Base.Attempt.{Attempt, returned, threw, throw_if, ◌>>=◌ as and_then}
use mailgun_ses_proxy.Escrow.Text.{Text}
use mailgun_ses_proxy.Escrow.Value.{Value}
use mailgun_ses_proxy.Escrow.Record.{
  Header, Row, newsletter_batch, newsletter_message, newsletter_error, newsletter_notification,
  EscrowRecord, Counts, VerificationResult,
}
use mailgun_ses_proxy.Escrow.Serialize.{serialize_header, serialize_record, serialize_footer}
use mailgun_ses_proxy.Escrow.Accumulator.{State, no_options, create_accumulator}
use mailgun_ses_proxy.Escrow.Verify.{text_line, consume, finalize}

-- A call that writes and returns or throws.
abbrev pub Writing : Type 0 → Type 0
Writing A = List Text → List Text × Attempt A

abbrev pub continue_with :
    {A B : Type 0} → List Text × Attempt A → (A → Writing B) → List Text × Attempt B
continue_with (written, returned a) next = next a written
continue_with (written, threw message) next = (written, threw message)

infixl 4 ◌>>=◌ ◌>>◌
abbrev pub ◌>>=◌ : {A B : Type 0} → Writing A → (A → Writing B) → Writing B
(first >>= next) written = continue_with (first written) next

abbrev pub ◌>>◌ : {A B : Type 0} → Writing A → Writing B → Writing B
first >> second = first >>= λ a. second

abbrev pub lift : {A : Type 0} → Attempt A → Writing A
lift r written = (written, r)

-- A chunk for a line.
abbrev pub chunk : Text → Text
chunk line = line ++ 10 ∷ []

-- For counts, which are not negative.
unfoldable pub add_one : ℕ → (message : String) → Attempt ℕ
add_one value message =
    and_then (throw_if (not (leb value max_safe_integer) || value == max_safe_integer) message)
      (λ u. returned (value + 1))

unfoldable pub increment_count : Row → Counts → Attempt Counts
unfolding add_one
increment_count (newsletter_batch row) counts =
    and_then (add_one counts.batches "batch count overflow")
      (λ n. returned (record counts { batches = n }))
increment_count (newsletter_message row) counts =
    and_then (add_one counts.messages "message count overflow")
      (λ n. returned (record counts { messages = n }))
increment_count (newsletter_error row) counts =
    and_then (add_one counts.errors "error count overflow")
      (λ n. returned (record counts { errors = n }))
increment_count (newsletter_notification row) counts =
    and_then (add_one counts.notifications "notification count overflow")
      (λ n. returned (record counts { notifications = n }))

pub record Writer : Type 0 where
  pub accumulator : State
  pub hashed : Text
  pub counts : Counts

abbrev pub no_counts : Counts
no_counts = record { batches = 0; messages = 0; errors = 0; notifications = 0 }

abbrev found : Option VerificationResult → Attempt (Unit {0})
found none = threw "escrow footer verification failed"
found (some result) = returned tt

module _ (json_parse : Text → Option Value) (sha256_hex : Text → Text)
    (accepts : List Text → Text → Bool) where
  unfoldable pub write_canonical_line : Text → Writing (Unit {0})
  write_canonical_line line written = elim (accepts written (chunk line)) [
    | true ↦ (chunk line ∷ written, returned tt)
    | false ↦ (written, threw "escrow sink write failed")
  ]

  -- `accumulator.consume(line)`, with the state after it.
  abbrev pub consume_text : Text → State → Attempt State
  consume_text line s =
      and_then (consume json_parse sha256_hex (text_line line) s).1
        (λ o. returned (consume json_parse sha256_hex (text_line line) s).0)

  -- The records, each of which the source may throw in place of.
  unfoldable pub write_records : List (Attempt EscrowRecord) → Writer → Writing Writer
  write_records [] w = lift (returned w)
  write_records (next ∷ records) w = do
    r ← lift next
    line ← lift (serialize_record r)
    accumulator ← lift (consume_text line w.accumulator)
    counts ← lift (increment_count r.row w.counts)
    write_canonical_line line
    write_records records
        (record { accumulator = accumulator; hashed = w.hashed ++ chunk line; counts = counts })

  unfoldable pub write_escrow : Header → List (Attempt EscrowRecord) → Writing VerificationResult
  unfolding write_records write_canonical_line
  write_escrow header records = do
    created ← lift (create_accumulator no_options)
    header_line ← lift (serialize_header header)
    opened ← lift (consume_text header_line created)
    write_canonical_line header_line
    w ←
        write_records records
          (record { accumulator = opened; hashed = chunk header_line; counts = no_counts })
    footer_line ←
        lift (serialize_footer (record { counts = w.counts; content_hash = sha256_hex w.hashed }))
    closed ← lift (consume_text footer_line w.accumulator)
    _ ←
        lift
          (and_then (consume json_parse sha256_hex (text_line footer_line) w.accumulator).1 found)
    write_canonical_line footer_line
    lift (finalize json_parse sha256_hex closed)
