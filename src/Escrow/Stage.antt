-- ===== src/Escrow/Stage.antt =====
-- What lines encode batches, and where the accumulator of service/newsletter-retention-escrow.ts is
-- after the lines that it has accepted.
use mailgun_ses_proxy.Base.{
  ◌≡◌, refl, sym, ap, ◌∙◌, true, false, not, Option, none, some, List, [], ◌∷◌, ◌++◌, arith,
}
use mailgun_ses_proxy.Base.Attempt.{Attempt, returned, ◌>>=◌}
use mailgun_ses_proxy.Escrow.Text.{Text, ◌===◌, ===-eq}
use mailgun_ses_proxy.Escrow.Value.{Value}
use mailgun_ses_proxy.Escrow.Record.{Header, EscrowRecord, Counts, VerificationResult}
use mailgun_ses_proxy.Escrow.Serialize.{serialize_header, serialize_record, serialize_footer}
use mailgun_ses_proxy.Escrow.Accumulator.{Rows, no_rows, State}
use mailgun_ses_proxy.Escrow.Verify.{Line, text_line, byte_line, same_counts}
use mailgun_ses_proxy.Escrow.Spec.{Manifest, records_of, counts_of, IsWellFormed, view}
use mailgun_ses_proxy.Escrow.Step.{same_parts}

-- The text that a line has.
abbrev pub text_of : Line → Text
text_of (text_line text) = text
text_of (byte_line (some text) bytes) = text
text_of _ = []

-- The texts of lines, the last line's first.
abbrev pub texts_from : List Line → List Text → List Text
texts_from [] texts = texts
texts_from (line ∷ lines) texts = texts_from lines (text_of line ∷ texts)

-- The lines of a header and of records, the last first.
abbrev pub printed : Header → List EscrowRecord → Attempt (List Text)
printed header [] = serialize_header header >>= λ text. returned (text ∷ [])
printed header (r ∷ rs) = do
  texts ← printed header rs
  text ← serialize_record r
  returned (text ∷ texts)

-- What is hashed of them.
abbrev pub content : List Text → Text
content [] = []
content (text ∷ texts) = content texts ++ text ++ 10 ∷ []

-- The result for a header, a hash and counts.
abbrev pub result_of : Header → Text → Counts → VerificationResult
result_of header hash counts = record {
  version = header.version;
  site_id = header.site_id;
  cutoff = header.cutoff;
  policy_version = header.policy_version;
  public_manifest_hash = header.public_manifest_hash;
  schema_fingerprint = header.schema_fingerprint;
  content_hash = hash;
  counts = counts;
}

module _ (json_parse : Text → Option Value) (sha256_hex : Text → Text) where
  -- Lines, the last first, that encode well-formed batches, and the result that says so.
  pub record IsEscrow (lines : List Text) (result : VerificationResult) : Type 0 where
    pub header : Header
    pub batches : List Manifest
    pub well_formed : IsWellFormed header.site_id batches
    pub texts : List Text
    pub encoded : printed header (records_of batches) ≡ returned texts
    pub footer : Text
    pub footer_encoded :
        serialize_footer
          (record { counts = counts_of batches; content_hash = sha256_hex (content texts) })
        ≡ returned footer
    pub all : lines ≡ footer ∷ texts
    pub as_result : result ≡ result_of header (sha256_hex (content texts)) (counts_of batches)

  -- Where the accumulator is after lines, the last first.
  pub data Stage (lines : List Text) (s : State) : Type 0 where
    fresh : lines ≡ [] → s.rows ≡ no_rows → s.hashed ≡ [] → s.resolved ≡ none → Stage lines s
    opened :
        (h : Header) (ms : List Manifest)
        → s.rows ≡ view h ms
        → printed h (records_of ms) ≡ returned lines
        → s.hashed ≡ content lines
        → s.resolved ≡ none
        → IsWellFormed h.site_id ms
        → Stage lines s
    closed :
        (result : VerificationResult)
        → s.seen_footer ≡ true
        → s.resolved ≡ some result
        → IsEscrow lines result
        → Stage lines s

  view-header : (h : Header) (ms : List Manifest) → (view h ms).header ≡ some h
  view-header h [] = refl
  view-header h (m ∷ ms) = refl

  pub view-counts : (h : Header) (ms : List Manifest) → (view h ms).counts ≡ counts_of ms
  view-counts h [] = refl
  view-counts h (m ∷ ms) = refl

  pub nothing_read : (h : Header) → IsWellFormed h.site_id []
  nothing_read h = record {
    complete = tt;
    batches = tt;
    message_rows = tt;
    messages = tt;
    error_rows = tt;
    error_messages = tt;
    notification_rows = tt;
    notifications = tt;
  }

  pub canonical_lem : (text canonical : Text) → not (text === canonical) ≡ false → text ≡ canonical
  canonical_lem text canonical e = ===-eq text canonical (ground (arith, e))

  pub same_counts_lem : (a b : Counts) → same_counts a b ≡ true → a ≡ b
  same_counts_lem a b e =
      same_parts (λ x y z w. record { batches = x; messages = y; errors = z; notifications = w })
        (ground (arith, e)) (ground (arith, e)) (ground (arith, e)) (ground (arith, e))

  pub read_header :
      (h : Header) (ms : List Manifest) (rows : Rows) → rows ≡ view h ms → rows.header ≡ some h
  read_header h ms rows e = ap (λ r. r.header) e ∙ view-header h ms

  pub not_closed {ι} : {P : Type ι} (s : State) → s.seen_footer ≡ false → s.seen_footer ≡ true → P
  not_closed s unseen seen = absurd (wrong (sym unseen ∙ seen))
    where
      wrong : false ≡ true → ⊥
      wrong e = cc
