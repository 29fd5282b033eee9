-- ===== src/Escrow/Advance.antt =====
-- Where a header, a record or a footer that the accumulator of service/newsletter-retention-escrow.ts
-- accepts takes it.
use mailgun_ses_proxy.Base.{
  ℕ, ◌≡◌, refl, sym, ap, ◌∙◌, true, false, not, Option, some, List, [], ◌∷◌, ◌++◌, arith,
}
use mathlib.Core.Path.{subst₂}
use mailgun_ses_proxy.Base.Attempt.{
  returned, through, through_test, value_of_returned, threw_not_returned,
}
use mailgun_ses_proxy.Escrow.Text.{Text, ◌===◌, ===-eq}
use mailgun_ses_proxy.Escrow.Value.{Value}
use mailgun_ses_proxy.Escrow.Record.{Header, EscrowRecord, Footer, VerificationResult}
use mailgun_ses_proxy.Escrow.Serialize.{serialize_header, serialize_record, serialize_footer}
use mailgun_ses_proxy.Escrow.Accumulator.{parent, Rows, State}
use mailgun_ses_proxy.Escrow.Consume.{add_safe_integer, consume_header, consume_record}
use mailgun_ses_proxy.Escrow.Verify.{
  Parsed, header_line, footer_line, record_line, same_counts, consume_footer, consume_parsed,
}
use mailgun_ses_proxy.Escrow.Spec.{counts_of}
use mailgun_ses_proxy.Escrow.Step.{same_parts}
use mailgun_ses_proxy.Escrow.Step.Batches.{record-Step}
use mailgun_ses_proxy.Escrow.Stage.{
  content, result_of, Stage, fresh, opened, closed, canonical_lem, same_counts_lem, nothing_read,
  read_header, not_closed, view-counts,
}

module _ (json_parse : Text → Option Value) (sha256_hex : Text → Text) where
  header_stage :
      (lines : List Text) (s : State) (header : Header) (canonical : Text) (rows : Rows)
      → Stage json_parse sha256_hex lines s
      → s.seen_footer ≡ false
      → serialize_header header ≡ returned canonical
      → consume_header header s.rows ≡ returned rows
      → Stage json_parse sha256_hex
          (canonical ∷ lines)
          (record s { rows = rows; hashed = s.hashed ++ canonical ++ 10 ∷ [] })
  unfolding consume_header
  header_stage lines s header canonical rows (fresh none_yet r c u) f encoded read =
      opened header []
        (sym (value_of_returned _ rows (rw (consume_header, r) at read))
          ∙ ap (λ (x : Rows). record x { header = some header; phase = parent }) r)
        (rw encoded (rw none_yet refl)) (rw c (rw none_yet refl)) u
        (nothing_read json_parse sha256_hex header)
  header_stage lines s header canonical rows (opened h ms r p c u w) f encoded read = absurd (
      threw_not_returned
        (rw (consume_header, read_header json_parse sha256_hex h ms s.rows r) at read))
  header_stage lines s header canonical rows (closed result y u x) f encoded read =
      not_closed json_parse sha256_hex s f y

  record_stage :
      (lines : List Text) (s : State) (r : EscrowRecord) (canonical : Text) (rows : Rows) (n : ℕ)
      → Stage json_parse sha256_hex lines s
      → s.seen_footer ≡ false
      → serialize_record r ≡ returned canonical
      → consume_record s.limits r s.rows ≡ returned rows
      → Stage json_parse sha256_hex
          (canonical ∷ lines)
          (record s { total_records = n; rows = rows; hashed = s.hashed ++ canonical ++ 10 ∷ [] })
  unfolding consume_record
  record_stage lines s r canonical rows n (fresh none_yet q c u) f encoded read =
      absurd (threw_not_returned (rw (consume_record, q) at read))
  record_stage lines s r canonical rows n (opened h ms q p c u w) f encoded read =
      let step = record-Step s.limits r h ms rows (rw q at read) w in
      opened h step.after step.state (rw step.history (rw p (rw encoded refl))) (rw c refl) u
        step.well_formed
  record_stage lines s r canonical rows n (closed result y u x) f encoded read =
      not_closed json_parse sha256_hex s f y

  footer_stage :
      (lines : List Text) (s : State) (footer : Footer) (canonical : Text)
      (result : VerificationResult)
      → Stage json_parse sha256_hex lines s
      → s.seen_footer ≡ false
      → serialize_footer footer ≡ returned canonical
      → consume_footer json_parse sha256_hex footer s ≡ returned result
      → Stage json_parse sha256_hex
          (canonical ∷ lines)
          (record s { seen_footer = true; resolved = some result })
  unfolding consume_footer
  footer_stage lines s footer canonical result (fresh none_yet q c u) f encoded read =
      absurd (threw_not_returned (rw (consume_footer, q) at read))
  footer_stage lines s footer canonical result (opened h ms q p c u w) f encoded read =
      through_test (not (same_counts footer.counts s.rows.counts)) _ _ result
        (rw (consume_footer, read_header json_parse sha256_hex h ms s.rows q) at read)
        λ counts e1.
          through_test (not (footer.content_hash === sha256_hex s.hashed)) _ _ result e1 λ hash e2.
            let counted : footer.counts ≡ counts_of ms =
              same_counts_lem json_parse sha256_hex footer.counts s.rows.counts
                (ground (arith, counts))
              ∙ ap (λ x. x.counts) q
              ∙ view-counts json_parse sha256_hex h ms in
            let hashed : sha256_hex s.hashed ≡ sha256_hex (content lines) = ap sha256_hex c in
            let same_hash : footer.content_hash ≡ sha256_hex (content lines) =
              ===-eq footer.content_hash (sha256_hex s.hashed) (ground (arith, hash)) ∙ hashed in
            closed result refl refl (record {
              header = h;
              batches = ms;
              well_formed = w;
              texts = lines;
              encoded = p;
              footer = canonical;
              footer_encoded = rw (sym counted) (rw (sym same_hash) encoded);
              all = refl;
              as_result =
                  sym (value_of_returned _ result e2)
                  ∙ same_parts (λ x y (z v : ℕ). result_of h x y) hashed
                      (ap (λ x. x.counts) q ∙ view-counts json_parse sha256_hex h ms) (refl {a = 0})
                      (refl {a = 0});
            })
  footer_stage lines s footer canonical result (closed r y u x) f encoded read =
      not_closed json_parse sha256_hex s f y

  -- A line that was read, whatever it is.
  pub parsed_stage :
      (lines : List Text) (s : State) (text : Text) (parsed : Parsed) (t : State)
      → Stage json_parse sha256_hex lines s
      → s.seen_footer ≡ false
      → consume_parsed json_parse sha256_hex text parsed s ≡ returned t
      → Stage json_parse sha256_hex (text ∷ lines) t
  unfolding consume_parsed
  parsed_stage lines s text (header_line header) t stage f e =
      through (serialize_header header) _ t e λ canonical encoded e1.
        through_test (not (text === canonical)) _ _ t e1 λ same e2.
          through (consume_header header s.rows) _ t e2 λ rows read e3.
            subst₂ (λ line u. Stage json_parse sha256_hex (line ∷ lines) u)
              (sym (canonical_lem json_parse sha256_hex text canonical same))
              (value_of_returned _ t e3)
              (header_stage lines s header canonical rows stage f encoded read)
  parsed_stage lines s text (footer_line footer) t stage f e =
      through (serialize_footer footer) _ t e λ canonical encoded e1.
        through_test (not (text === canonical)) _ _ t e1 λ same e2.
          through (consume_footer json_parse sha256_hex footer s) _ t e2 λ result read e3.
            subst₂ (λ line u. Stage json_parse sha256_hex (line ∷ lines) u)
              (sym (canonical_lem json_parse sha256_hex text canonical same))
              (value_of_returned _ t e3)
              (footer_stage lines s footer canonical result stage f encoded read)
  parsed_stage lines s text (record_line r) t stage f e =
      through (add_safe_integer s.total_records 1 s.limits.records "escrow record limit exceeded") _
        t e
        λ n counted e0. through (serialize_record r) _ t e0 λ canonical encoded e1.
          through_test (not (text === canonical)) _ _ t e1 λ same e2.
            through (consume_record s.limits r s.rows) _ t e2 λ rows read e3.
              subst₂ (λ line u. Stage json_parse sha256_hex (line ∷ lines) u)
                (sym (canonical_lem json_parse sha256_hex text canonical same))
                (value_of_returned _ t e3)
                (record_stage lines s r canonical rows n stage f encoded read)
