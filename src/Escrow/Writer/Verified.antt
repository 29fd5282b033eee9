-- ===== src/Escrow/Writer/Verified.antt =====
-- What service/newsletter-retention-escrow-writer.ts writes is verified by
-- service/newsletter-retention-escrow.ts.
use mailgun_ses_proxy.Base.{
  ◌≡◌, refl, sym, ap, ◌∙◌, Bool, true, false, Option, List, [], ◌∷◌, ◌++◌, map,
}
use mathlib.Core.Path.{subst}
use mailgun_ses_proxy.Base.Attempt.{
  Attempt, returned, threw, ◌>>=◌ as and_then, through, value_of_returned, threw_not_returned,
}
use mailgun_ses_proxy.Escrow.Text.{Text}
use mailgun_ses_proxy.Escrow.Value.{Value}
use mailgun_ses_proxy.Escrow.Record.{Header, EscrowRecord, VerificationResult}
use mailgun_ses_proxy.Escrow.Serialize.{serialize_header, serialize_record, serialize_footer}
use mailgun_ses_proxy.Escrow.Accumulator.{State, no_options, create_accumulator}
use mailgun_ses_proxy.Escrow.Verify.{
  Line, text_line, consume, consume_lines, finalize, verify_lines,
}
use mailgun_ses_proxy.Escrow.Writer.{
  Writing, continue_with, chunk, increment_count, Writer, found, write_canonical_line, consume_text,
  write_records, write_escrow,
}

-- What a sequence of writes that returned went through.
module _ {ι} {A B : Type 0} {P : Type ι} where
  pub wrote :
      (first : List Text × Attempt A) (next : A → Writing B) (after : List Text) (b : B)
      → continue_with first next ≡ (after, returned b)
      → ((a : A) → first ≡ (first.0, returned a) → next a first.0 ≡ (after, returned b) → P)
      → P
  wrote (written, returned a) next after b e goal = goal a refl e
  wrote (written, threw message) next after b e goal = absurd (threw_not_returned (ap (λ r. r.1) e))

  pub lifted :
      (first : Attempt A) (next : A → Writing B) (before after : List Text) (b : B)
      → continue_with (before, first) next ≡ (after, returned b)
      → ((a : A) → first ≡ returned a → next a before ≡ (after, returned b) → P)
      → P
  lifted (returned a) next before after b e goal = goal a refl e
  lifted (threw message) next before after b e goal = absurd (threw_not_returned (ap (λ r. r.1) e))

map-append : (xs ys : List Text) → map text_line (xs ++ ys) ≡ map text_line xs ++ map text_line ys
map-append [] ys = refl
map-append (x ∷ xs) ys = ap (λ t. text_line x ∷ t) (map-append xs ys)

-- Lines as chunks, pushed on those before.
abbrev pub chunks_onto : List Text → List Text → List Text
chunks_onto [] written = written
chunks_onto (line ∷ lines) written = chunks_onto lines (chunk line ∷ written)

module _ (json_parse : Text → Option Value) (sha256_hex : Text → Text)
    (accepts : List Text → Text → Bool) where
  line_written {ι} :
      {P : Type ι} {B : Type 0} (line : Text) (next : Unit {0} → Writing B)
      (before after : List Text) (b : B)
      → continue_with (write_canonical_line json_parse sha256_hex accepts line before) next
        ≡ (after, returned b)
      → (next tt (chunk line ∷ before) ≡ (after, returned b) → P)
      → P
  unfolding write_canonical_line
  line_written {P} line next before after b e goal = by_answer (accepts before (chunk line)) e
    where
      by_answer :
          (answer : Bool)
          → continue_with
              (elim answer [
                | true ↦ (chunk line ∷ before, returned tt)
                | false ↦ (before, threw "escrow sink write failed")
              ])
              next
            ≡ (after, returned b)
          → P
      by_answer true e = goal e
      by_answer false e = absurd (threw_not_returned (ap (λ r. r.1) e))

  -- Lines that were consumed one by one are consumed in a row.
  consumed :
      (line : Text) (s t : State)
      → consume_text json_parse sha256_hex accepts line s ≡ returned t
      → consume_lines json_parse sha256_hex (text_line line ∷ []) s ≡ returned t
  unfolding consume_lines
  consumed line s t e = e

  consume_lines-append :
      (xs ys : List Line) (s t u : State)
      → consume_lines json_parse sha256_hex xs s ≡ returned t
      → consume_lines json_parse sha256_hex ys t ≡ returned u
      → consume_lines json_parse sha256_hex (xs ++ ys) s ≡ returned u
  unfolding consume_lines
  consume_lines-append [] ys s t u e f =
      subst (λ x. consume_lines json_parse sha256_hex ys x ≡ returned u)
        (sym (value_of_returned s t e)) f
  consume_lines-append (x ∷ xs) ys s t u e f =
      through (consume json_parse sha256_hex x s).1 _ t e λ o first rest.
        rw first (consume_lines-append xs ys (consume json_parse sha256_hex x s).0 t u rest f)

  chunks_onto-append :
      (xs ys written : List Text)
      → chunks_onto (xs ++ ys) written ≡ chunks_onto ys (chunks_onto xs written)
  chunks_onto-append [] ys written = refl
  chunks_onto-append (x ∷ xs) ys written = chunks_onto-append xs ys (chunk x ∷ written)

  record RecordsWritten (s t : State) (before after : List Text) : Type 0 where
    lines : List Text
    consumed_as : consume_lines json_parse sha256_hex (map text_line lines) s ≡ returned t
    written_as : after ≡ chunks_onto lines before

  records_written :
      (records : List (Attempt EscrowRecord)) (w v : Writer) (before after : List Text)
      → write_records json_parse sha256_hex accepts records w before ≡ (after, returned v)
      → RecordsWritten w.accumulator v.accumulator before after
  unfolding write_records consume_lines
  records_written [] w v before after e = record {
    lines = [];
    consumed_as =
        ap (λ (x : Attempt Writer). and_then x (λ y. returned y.accumulator)) (ap (λ r. r.1) e);
    written_as = ap (λ r. r.0) (sym e);
  }
  records_written (next ∷ records) w v before after e = lifted next _ before after v e λ r given e1.
      lifted (serialize_record r) _ before after v e1 λ line encoded e2.
        lifted (consume_text json_parse sha256_hex accepts line w.accumulator) _ before after v e2
          λ s read e3.
            lifted (increment_count r.row w.counts) _ before after v e3 λ counts counted e4.
              line_written line _ before after v e4 λ e5.
                let rest =
                  records_written records
                    (record { accumulator = s; hashed = w.hashed ++ chunk line; counts = counts }) v
                    (chunk line ∷ before) after e5 in
                record {
                  lines = line ∷ rest.lines;
                  consumed_as =
                      consume_lines-append (text_line line ∷ []) (map text_line rest.lines)
                        w.accumulator s v.accumulator (consumed line w.accumulator s read)
                        rest.consumed_as;
                  written_as = rest.written_as;
                }

  -- The lines of a whole file, from those of its parts.
  read_back :
      (created opened end closed : State) (header_line footer_line : Text) (lines : List Text)
      (result : VerificationResult)
      → create_accumulator no_options ≡ returned created
      → consume_lines json_parse sha256_hex (text_line header_line ∷ []) created ≡ returned opened
      → consume_lines json_parse sha256_hex (map text_line lines) opened ≡ returned end
      → consume_lines json_parse sha256_hex (text_line footer_line ∷ []) end ≡ returned closed
      → finalize json_parse sha256_hex closed ≡ returned result
      → verify_lines json_parse sha256_hex no_options
          (map text_line (header_line ∷ (lines ++ footer_line ∷ [])))
        ≡ returned result
  unfolding verify_lines
  read_back created opened end closed header_line footer_line lines result made a b c d =
      rw made (rw all d)
    where
      rest :
          consume_lines json_parse sha256_hex (map text_line (lines ++ footer_line ∷ [])) opened
          ≡ returned closed
      rest = rw (map-append lines (footer_line ∷ [])) (
          consume_lines-append (map text_line lines) (text_line footer_line ∷ []) opened end closed
            b c)

      all :
          consume_lines json_parse sha256_hex
            (text_line header_line ∷ map text_line (lines ++ footer_line ∷ []))
            created
          ≡ returned closed
      all =
          consume_lines-append (text_line header_line ∷ [])
            (map text_line (lines ++ footer_line ∷ [])) created opened closed a rest

  -- If an escrow file is written with a result, then reading the lines that were written, in their
  -- order and each of them as one chunk, verifies with the same result.
  pub written-verified :
      (header : Header) (records : List (Attempt EscrowRecord)) (written : List Text)
      (result : VerificationResult)
      → write_escrow json_parse sha256_hex accepts header records [] ≡ (written, returned result)
      → (lines : List Text) × (written ≡ chunks_onto lines [])
        × (verify_lines json_parse sha256_hex no_options (map text_line lines) ≡ returned result)
  unfolding write_escrow verify_lines
  written-verified header records written result e =
      lifted (create_accumulator no_options) _ [] written result e λ created made e1.
        lifted (serialize_header header) _ [] written result e1 λ header_line encoded e2.
          lifted (consume_text json_parse sha256_hex accepts header_line created) _ [] written
            result e2
            λ opened read e3. line_written header_line _ [] written result e3 λ e4.
              wrote (write_records json_parse sha256_hex accepts records _ (chunk header_line ∷ []))
                _ written result e4
                λ w all_written e5.
                  lifted
                    (serialize_footer
                      (record { counts = w.counts; content_hash = sha256_hex w.hashed }))
                    _ _ written result e5
                    λ footer_line footer_encoded e6.
                      lifted (consume_text json_parse sha256_hex accepts footer_line w.accumulator)
                        _ _ written result e6
                        λ closed footer_read e7.
                          lifted
                            (and_then
                              (consume json_parse sha256_hex (text_line footer_line)
                                w.accumulator).1
                              found)
                            _ _ written result e7
                            λ u verified e8. line_written footer_line _ _ written result e8 λ e9.
                              let all =
                                records_written records _ w (chunk header_line ∷ []) _
                                  all_written in
                              (
                                header_line ∷ (all.lines ++ footer_line ∷ []),
                                ap (λ r. r.0) (sym e9)
                                    ∙ ap (λ x. chunk footer_line ∷ x) all.written_as
                                    ∙ sym (
                                        chunks_onto-append all.lines (footer_line ∷ [])
                                          (chunk header_line ∷ [])),
                                read_back created opened w.accumulator closed header_line
                                    footer_line all.lines result made
                                    (consumed header_line created opened read) all.consumed_as
                                    (consumed footer_line w.accumulator closed footer_read)
                                    (ap (λ r. r.1) e9),
                              )
