-- ===== src/Escrow/Verify.antt =====
-- Reading a line and checking a file of lines in service/newsletter-retention-escrow.ts. `JSON.parse`
-- (none where it throws) and SHA-256 of a text in UTF-8, in lowercase hexadecimal, are parameters.
use mailgun_ses_proxy.Base.{
  ℕ, suc, ◌+◌, ◌&&◌, String, Bool, true, false, not, Option, none, some, List, [], ◌∷◌, ◌++◌, ltb,
  leb, ◌==◌, if◌then◌else◌,
}
use mailgun_ses_proxy.Base.Attempt.{Attempt, returned, threw, ◌>>=◌, ◌>>◌, throw_if}
use mailgun_ses_proxy.Escrow.Text.{Text, of, ◌===◌, is_high, starts_low}
use mailgun_ses_proxy.Escrow.Value.{Value, object, get_member}
use mailgun_ses_proxy.Escrow.Record.{Header, EscrowRecord, Counts, Footer, VerificationResult}
use mailgun_ses_proxy.Escrow.Normalize.{
  is_text, normalize_escrow_header, normalize_escrow_footer, normalize_escrow_record,
}
use mailgun_ses_proxy.Escrow.Serialize.{serialize_header, serialize_record, serialize_footer}
use mailgun_ses_proxy.Escrow.Scanner.{invalid, ensure_unique_json_keys}
use mailgun_ses_proxy.Escrow.Accumulator.{State, Options, create_accumulator}
use mailgun_ses_proxy.Escrow.Consume.{add_safe_integer, consume_header, consume_record}

-- A line that is given: a text, or bytes by what they decode to (none if they are not UTF-8) and
-- their number, or another value.
pub data Line : Type 0 where
  text_line : Text → Line
  byte_line : Option Text → ℕ → Line
  other_line : Line

-- The bytes of a text in UTF-8, where a surrogate without its pair is written as U+FFFD.
unfoldable pub byte_length : Text → ℕ
byte_length [] = 0
byte_length (c ∷ cs) =
    (if ltb c 128 then 1 else if ltb c 2048 then 2 else if is_high c && starts_low cs then 1 else 3)
    + byte_length cs

unfoldable pub normalize_raw_line : Line → Attempt (Text × ℕ)
unfolding byte_length
normalize_raw_line (text_line text) = returned (text, byte_length text)
normalize_raw_line (byte_line (some text) bytes) = returned (text, bytes)
normalize_raw_line (byte_line none bytes) = threw "escrow line must be valid UTF-8"
normalize_raw_line other_line = threw "escrow line must be a string or Uint8Array"

pub data Parsed : Type 0 where
  header_line : Header → Parsed
  footer_line : Footer → Parsed
  record_line : EscrowRecord → Parsed

abbrev is_empty : Text → Bool
is_empty [] = true
is_empty (c ∷ cs) = false

abbrev canonical_message : String
canonical_message = "escrow line must use canonical encoding"

abbrev pub same_counts : Counts → Counts → Bool
same_counts a b =
    a.batches == b.batches
    && a.messages == b.messages
    && a.errors == b.errors
    && a.notifications == b.notifications

module _ (json_parse : Text → Option Value) (sha256_hex : Text → Text) where
  abbrev pub parse_object : Option Value → Attempt Parsed
  parse_object none = threw invalid
  parse_object (some (object members)) =
      if is_text (get_member (of "kind") members) "header"
      then (normalize_escrow_header (object members) >>= λ h. returned (header_line h))
      else if is_text (get_member (of "kind") members) "footer"
      then (normalize_escrow_footer (object members) >>= λ f. returned (footer_line f))
      else (normalize_escrow_record (object members) >>= λ r. returned (record_line r))
  parse_object (some _) = threw "escrow line must be a plain object"

  unfoldable pub parse_escrow_line : Text → Attempt Parsed
  parse_escrow_line text = do
    throw_if (is_empty text) invalid
    ensure_unique_json_keys text
    parse_object (json_parse text)

  unfoldable pub consume_footer : Footer → State → Attempt VerificationResult
  consume_footer footer s = elim s.rows.header [
    | none ↦ threw "header must appear before footer"
    | some header ↦ do
      throw_if (not (same_counts footer.counts s.rows.counts))
          "footer counts must match observed counts"
      throw_if (not (footer.content_hash === sha256_hex s.hashed))
          "footer contentHash must match observed content"
      returned (record {
        version = header.version;
        site_id = header.site_id;
        cutoff = header.cutoff;
        policy_version = header.policy_version;
        public_manifest_hash = header.public_manifest_hash;
        schema_fingerprint = header.schema_fingerprint;
        content_hash = sha256_hex s.hashed;
        counts = s.rows.counts;
      })
  ]

  -- What a line that was read does; the text is the line's, `s` the state with its bytes counted.
  unfoldable pub consume_parsed : Text → Parsed → State → Attempt State
  unfolding consume_footer
  consume_parsed text (header_line header) s = do
    canonical ← serialize_header header
    throw_if (not (text === canonical)) canonical_message
    rows ← consume_header header s.rows
    returned (record s { rows = rows; hashed = s.hashed ++ canonical ++ 10 ∷ [] })
  consume_parsed text (footer_line footer) s = do
    canonical ← serialize_footer footer
    throw_if (not (text === canonical)) canonical_message
    result ← consume_footer footer s
    returned (record s { seen_footer = true; resolved = some result })
  consume_parsed text (record_line r) s = do
    total_records ←
        add_safe_integer s.total_records 1 s.limits.records "escrow record limit exceeded"
    canonical ← serialize_record r
    throw_if (not (text === canonical)) canonical_message
    rows ← consume_record s.limits r s.rows
    returned (record s {
      total_records = total_records;
      rows = rows;
      hashed = s.hashed ++ canonical ++ 10 ∷ [];
    })

  unfoldable pub consume_line : Line → State → Attempt State
  unfolding normalize_raw_line consume_parsed
  consume_line line s = do
    throw_if s.seen_footer "records after footer are not allowed"
    raw ← normalize_raw_line line
    throw_if (not (leb raw.1 s.limits.line_bytes)) "escrow line exceeds byte limit"
    total_bytes ←
        add_safe_integer s.total_bytes (suc raw.1) s.limits.total_bytes
          "escrow byte budget exceeded"
    parsed ← parse_escrow_line raw.0
    consume_parsed raw.0 parsed (record s { total_bytes = total_bytes })

  -- The state after the call, and whether it threw. The result of a footer is `resolved`.
  abbrev pub settled : State → Attempt State → State × Attempt (Option VerificationResult)
  settled s (returned t) = (t, returned t.resolved)
  settled s (threw message) = (record s { failed = true }, threw message)

  unfoldable pub consume : Line → State → State × Attempt (Option VerificationResult)
  unfolding consume_line
  consume line s =
      if s.failed
      then (s, threw "escrow accumulator is failed")
      else settled s (consume_line line s)

  unfoldable pub finalize : State → Attempt VerificationResult
  finalize s = elim s.resolved [
    | some result ↦ returned result
    | none ↦ threw "escrow footer is required"
  ]

  -- `for await (const line of lines) accumulator.consume(line)`.
  unfoldable pub consume_lines : List Line → State → Attempt State
  unfolding consume
  consume_lines [] s = returned s
  consume_lines (line ∷ lines) s = do _ ← (consume line s).1; consume_lines lines (consume line s).0

  -- What openVerifiedNewsletterRetentionEscrowSource in service/newsletter-retention-cli.ts does with
  -- the lines of a file.
  unfoldable pub verify_lines : Options → List Line → Attempt VerificationResult
  unfolding consume_lines finalize
  verify_lines options lines = do
    created ← create_accumulator options
    verified ← consume_lines lines created
    finalize verified
