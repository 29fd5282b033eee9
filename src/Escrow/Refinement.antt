-- ===== src/Escrow/Refinement.antt =====
-- A file that the accumulator of service/newsletter-retention-escrow.ts verifies is the encoding of
-- batches as the specification has them.
use mailgun_ses_proxy.Base.{
  String, Bool, if◌then◌else◌, ℕ, suc, ◌≡◌, refl, sym, ap, true, false, not, Option, none, some,
  List, [], ◌∷◌, leb,
}
use mathlib.Core.Path.{subst}
use mailgun_ses_proxy.Base.Attempt.{
  Attempt, returned, threw, through, through_test, value_of_returned, threw_not_returned,
}
use mailgun_ses_proxy.Escrow.Text.{Text}
use mailgun_ses_proxy.Escrow.Value.{Value}
use mailgun_ses_proxy.Escrow.Record.{VerificationResult}
use mailgun_ses_proxy.Escrow.Accumulator.{State, Options, create_accumulator, normalize_limits}
use mailgun_ses_proxy.Escrow.Consume.{add_safe_integer}
use mailgun_ses_proxy.Escrow.Verify.{
  Line, text_line, byte_line, other_line, normalize_raw_line, parse_escrow_line, consume_line,
  settled, consume, consume_lines, finalize, verify_lines,
}
use mailgun_ses_proxy.Escrow.Stage.{text_of, texts_from, IsEscrow, Stage, fresh, opened, closed}
use mailgun_ses_proxy.Escrow.Advance.{parsed_stage}

module _ (json_parse : Text → Option Value) (sha256_hex : Text → Text) where
  raw_text :
      (line : Line) (raw : Text × ℕ) → normalize_raw_line line ≡ returned raw → raw.0 ≡ text_of line
  unfolding normalize_raw_line
  raw_text (text_line text) raw e = ap (λ x. x.0) (sym (value_of_returned _ raw e))
  raw_text (byte_line (some text) bytes) raw e = ap (λ x. x.0) (sym (value_of_returned _ raw e))
  raw_text (byte_line none bytes) raw e = absurd (threw_not_returned e)
  raw_text other_line raw e = absurd (threw_not_returned e)

  with_bytes :
      (lines : List Text) (s : State) (n : ℕ)
      → Stage json_parse sha256_hex lines s
      → Stage json_parse sha256_hex lines (record s { total_bytes = n })
  with_bytes lines s n (fresh a b c d) = fresh a b c d
  with_bytes lines s n (opened h ms a b c d w) = opened h ms a b c d w
  with_bytes lines s n (closed result a b x) = closed result a b x

  line_stage :
      (lines : List Text) (s : State) (line : Line) (t : State)
      → Stage json_parse sha256_hex lines s
      → consume_line json_parse sha256_hex line s ≡ returned t
      → Stage json_parse sha256_hex (text_of line ∷ lines) t
  unfolding consume_line
  line_stage lines s line t stage e = through_test s.seen_footer _ _ t e λ unseen e1.
      through (normalize_raw_line line) _ t e1 λ raw is_raw e2.
        through_test (not (leb raw.1 s.limits.line_bytes)) _ _ t e2 λ fits e3.
          through
            (add_safe_integer s.total_bytes (suc raw.1) s.limits.total_bytes
              "escrow byte budget exceeded")
            _ t e3
            λ n counted e4.
              through (parse_escrow_line json_parse sha256_hex raw.0) _ t e4 λ parsed is_parsed e5.
                subst (λ text. Stage json_parse sha256_hex (text ∷ lines) t)
                  (raw_text line raw is_raw)
                  (parsed_stage json_parse sha256_hex lines (record s { total_bytes = n }) raw.0
                    parsed t (with_bytes lines s n stage) unseen e5)

  -- The end of the lines.
  finished :
      (lines : List Text) (s : State) (result : VerificationResult)
      → Stage json_parse sha256_hex lines s
      → finalize json_parse sha256_hex s ≡ returned result
      → IsEscrow json_parse sha256_hex lines result
  unfolding finalize
  finished lines s result (fresh a b c u) e = absurd (threw_not_returned (rw (finalize, u) at e))
  finished lines s result (opened h ms a b c u w) e =
      absurd (threw_not_returned (rw (finalize, u) at e))
  finished lines s result (closed r f u x) e =
      subst (IsEscrow json_parse sha256_hex lines)
        (value_of_returned r result (rw (finalize, u) at e)) x

  consume_settled :
      (failed : Bool) (message : String) (s : State) (o : Option VerificationResult)
      (r : Attempt State)
      → (if failed then (s, threw message) else settled json_parse sha256_hex s r).1 ≡ returned o
      → r ≡ returned (if failed then (s, threw message) else settled json_parse sha256_hex s r).0
  consume_settled false message s o (returned t) e = refl
  consume_settled false message s o (threw other) e = absurd (threw_not_returned e)
  consume_settled true message s o r e = absurd (threw_not_returned e)

  consume_returned :
      (line : Line) (s : State) (o : Option VerificationResult)
      → (consume json_parse sha256_hex line s).1 ≡ returned o
      → consume_line json_parse sha256_hex line s
        ≡ returned (consume json_parse sha256_hex line s).0
  unfolding consume
  consume_returned line s o e =
      consume_settled s.failed _ s o (consume_line json_parse sha256_hex line s) e

  lines_stage :
      (lines : List Line) (texts : List Text) (s t : State)
      → Stage json_parse sha256_hex texts s
      → consume_lines json_parse sha256_hex lines s ≡ returned t
      → Stage json_parse sha256_hex (texts_from lines texts) t
  unfolding consume_lines
  lines_stage [] texts s t stage e =
      subst (Stage json_parse sha256_hex texts) (value_of_returned s t e) stage
  lines_stage (line ∷ lines) texts s t stage e =
      through (consume json_parse sha256_hex line s).1 _ t e λ o read e1.
        lines_stage lines (text_of line ∷ texts) (consume json_parse sha256_hex line s).0 t
          (line_stage texts s line (consume json_parse sha256_hex line s).0 stage
            (consume_returned line s o read))
          e1

  -- If a file is verified with a result, then its lines are the canonical encoding of a header, of the
  -- records of well-formed batches in their order and of a footer, and the result is the header's
  -- values, the number of the batches, messages, errors and notifications, and the hash of the lines
  -- before the footer. Well-formed means: each batch is of the header's site; the rows of each kind
  -- ascend by id within a batch and no id occurs twice in the file; messages and errors name their
  -- batch, and notifications a message of their batch; no message, error or notification identifier
  -- occurs twice.
  pub verify-IsEscrow :
      (options : Options) (lines : List Line) (result : VerificationResult)
      → verify_lines json_parse sha256_hex options lines ≡ returned result
      → IsEscrow json_parse sha256_hex (texts_from lines []) result
  unfolding verify_lines create_accumulator
  verify-IsEscrow options lines result e =
      through (create_accumulator options) _ result e λ s made e1.
        through (normalize_limits options) _ s made λ limits given made1.
          through (consume_lines json_parse sha256_hex lines s) _ result e1 λ t read e2.
            finished (texts_from lines []) t result
              (lines_stage lines [] s t
                (subst (Stage json_parse sha256_hex []) (value_of_returned _ s made1)
                  (fresh refl refl refl refl))
                read)
              e2
