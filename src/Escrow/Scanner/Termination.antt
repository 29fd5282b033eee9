-- ===== src/Escrow/Scanner/Termination.antt =====
-- The scanner of service/newsletter-retention-escrow.ts ends on every text.
use mailgun_ses_proxy.Base.{
  ℕ, zero, suc, ◌+◌, ◌<◌, ◌≡◌, refl, ◌⊎◌, inl, inr, String, List, [], ◌∷◌, length, arith,
}
use mailgun_ses_proxy.Base.Attempt.{Attempt, returned, threw}
use mailgun_ses_proxy.Escrow.Text.{Text, has}
use mailgun_ses_proxy.Escrow.Scanner.{
  repeated, skip_whitespace, starts_with, rest_of, expect, parse_number, parse_string, Start,
  of_object, of_array, of_string, of_number, nothing, of_literal, start, Separator, comma, closed,
  neither, separator, parse_value, parse_members, parse_items, ensure_unique_json_keys, at_end,
  by_separator, by_start, inside,
}
use mailgun_ses_proxy.Escrow.Scanner.Tokens.{
  IsError, Ends, Ends-bind, Ends-throw_if, Below, skip_whitespace-le, rest_of-le, Ends-expect,
  Ends-weaken, Ends-if, Ends-number, Ends-literal, EndsString-weaken, EndsString-string,
}

-- What continues on fewer than n characters leaves fewer than n.
abbrev Goes : ℕ → (Text → Attempt Text) → Type 0
Goes n continue = (cs : Text) → length cs < n → Ends (Below n) (continue cs)

Ends-separator :
    (closing : ℕ) (continue : Text → Attempt Text) (cs : Text)
    → Goes (length cs) continue
    → Ends (Below (suc (length cs))) (by_separator (separator closing cs) continue cs)
Ends-separator closing continue [] h = inl refl
Ends-separator closing continue (c ∷ cs) h = by_kind (separator closing (c ∷ cs))
  where
    by_kind :
        (k : Separator) → Ends (Below (suc (suc (length cs)))) (by_separator k continue (c ∷ cs))
    by_kind comma =
        Ends-weaken (suc (length cs)) (suc (suc (length cs))) (continue cs) (omega arith)
          (h cs (omega arith))
    by_kind closed = omega arith
    by_kind neither = inl refl

Ends-inside :
    (closing n : ℕ) (continue : Text → Attempt Text) (cs : Text)
    → Goes n continue
    → length cs < n
    → Ends (Below n) (inside closing continue cs)
Ends-inside closing n continue cs h e =
    Ends-if (Below n) (starts_with closing cs) (returned (rest_of cs)) (continue cs)
      (omega (arith, e, rest_of-le cs)) (h cs e)

Ends-start :
    (members items : Text → Attempt Text) (cs : Text)
    → Goes (length cs) members
    → Goes (length cs) items
    → Ends (Below (suc (length cs))) (by_start (start cs) members items cs)
Ends-start members items [] h k = inl refl
Ends-start members items (c ∷ cs) h k = by_kind (start (c ∷ cs))
  where
    n : ℕ
    n = suc (length cs)

    inner : length (skip_whitespace cs) < n
    inner = omega (arith, skip_whitespace-le cs)

    by_kind : (s : Start) → Ends (Below (suc n)) (by_start s members items (c ∷ cs))
    by_kind of_object =
        Ends-weaken n (suc n) (inside b'}' members (skip_whitespace cs)) (omega arith)
          (Ends-inside b'}' n members (skip_whitespace cs) h inner)
    by_kind of_array =
        Ends-weaken n (suc n) (inside b']' items (skip_whitespace cs)) (omega arith)
          (Ends-inside b']' n items (skip_whitespace cs) k inner)
    by_kind of_string =
        Ends-bind (λ parsed. length parsed.1 < n) (Below (suc n)) (parse_string (c ∷ cs)) _
          (EndsString-string (c ∷ cs)) λ parsed below. omega (arith, below)
    by_kind (of_literal literal) = Ends-literal literal (c ∷ cs)
    by_kind of_number =
        Ends-weaken n (suc n) (parse_number (c ∷ cs)) (omega arith) (Ends-number (c ∷ cs))
    by_kind nothing = inl refl

mutual
  unfolding parse_value parse_members parse_items

  Ends-value :
      (fuel : ℕ) (cs : Text)
      → length cs + length cs < fuel
      → Ends (Below (suc (length cs))) (parse_value fuel cs)
  Ends-value zero cs h = absurd (omega (arith, h))
  Ends-value (suc fuel) cs h =
      Ends-weaken (suc (length (skip_whitespace cs))) (suc (length cs))
        (by_start (start (skip_whitespace cs)) (parse_members fuel []) (parse_items fuel)
          (skip_whitespace cs))
        (omega (arith, skip_whitespace-le cs))
        (Ends-start (parse_members fuel []) (parse_items fuel) (skip_whitespace cs)
          (λ ds less.
            Ends-weaken (suc (length ds)) (length (skip_whitespace cs)) (parse_members fuel [] ds)
              (omega (arith, less))
              (Ends-members fuel [] ds (omega (arith, h, less, skip_whitespace-le cs))))
          (λ ds less.
            Ends-weaken (suc (length ds)) (length (skip_whitespace cs)) (parse_items fuel ds)
              (omega (arith, less))
              (Ends-items fuel ds (omega (arith, h, less, skip_whitespace-le cs)))))

  Ends-members :
      (fuel : ℕ) (keys : List Text) (cs : Text)
      → suc (length cs + length cs) < fuel
      → Ends (Below (suc (length cs))) (parse_members fuel keys cs)
  Ends-members zero keys cs h = absurd (omega (arith, h))
  Ends-members (suc fuel) keys cs h =
      Ends-bind (λ parsed. length parsed.1 < length cs) (Below (suc (length cs)))
        (parse_string (skip_whitespace cs)) _
        (EndsString-weaken (length (skip_whitespace cs)) (length cs)
          (parse_string (skip_whitespace cs)) (skip_whitespace-le cs)
          (EndsString-string (skip_whitespace cs)))
        λ key below.
          Ends-throw_if (Below (suc (length cs))) (has keys key.0) repeated _ (inr refl) (
            Ends-bind (Below (length cs)) (Below (suc (length cs)))
              (expect b':' (skip_whitespace key.1)) _
              (Ends-weaken (length (skip_whitespace key.1)) (length cs)
                (expect b':' (skip_whitespace key.1))
                (omega (arith, below, skip_whitespace-le key.1))
                (Ends-expect b':' (skip_whitespace key.1)))
              λ ds less.
                Ends-bind (Below (length cs)) (Below (suc (length cs))) (parse_value fuel ds) _
                  (Ends-weaken (suc (length ds)) (length cs) (parse_value fuel ds)
                    (omega (arith, less)) (Ends-value fuel ds (omega (arith, h, less))))
                  λ es left.
                    Ends-weaken (suc (length (skip_whitespace es))) (suc (length cs)) _
                      (omega (arith, left, skip_whitespace-le es))
                      (Ends-separator b'}' (parse_members fuel (key.0 ∷ keys)) (skip_whitespace es)
                        λ fs fewer.
                          Ends-weaken (suc (length fs)) (length (skip_whitespace es))
                            (parse_members fuel (key.0 ∷ keys) fs) (omega (arith, fewer))
                            (Ends-members fuel (key.0 ∷ keys) fs
                              (omega (arith, h, left, fewer, skip_whitespace-le es)))))

  Ends-items :
      (fuel : ℕ) (cs : Text)
      → suc (length cs + length cs) < fuel
      → Ends (Below (suc (length cs))) (parse_items fuel cs)
  Ends-items zero cs h = absurd (omega (arith, h))
  Ends-items (suc fuel) cs h =
      Ends-bind (Below (suc (length cs))) (Below (suc (length cs))) (parse_value fuel cs) _
        (Ends-value fuel cs (omega (arith, h)))
        λ es left.
          Ends-weaken (suc (length (skip_whitespace es))) (suc (length cs)) _
            (omega (arith, left, skip_whitespace-le es))
            (Ends-separator b']' (parse_items fuel) (skip_whitespace es) λ fs fewer.
              Ends-weaken (suc (length fs)) (length (skip_whitespace es)) (parse_items fuel fs)
                (omega (arith, fewer))
                (Ends-items fuel fs (omega (arith, h, left, fewer, skip_whitespace-le es))))

-- On every text the scanner ends: it accepts the text, or throws that it is no valid JSON or that it
-- repeats a key.
pub scanner-ends :
    (text : Text)
    → (ensure_unique_json_keys text ≡ returned tt)
      ⊎ ((message : String) × (ensure_unique_json_keys text ≡ threw message) × IsError message)
unfolding ensure_unique_json_keys
scanner-ends text = decided (ensure_unique_json_keys text) (
    Ends-bind (Below (suc (length text))) (λ u. Unit)
      (parse_value (suc (length text + length text)) text) _
      (Ends-value (suc (length text + length text)) text (omega arith))
      λ rest below. ended (skip_whitespace rest))
  where
    ended : (cs : Text) → Ends (λ u. Unit) (at_end cs)
    ended [] = tt
    ended (c ∷ cs) = inl refl

    decided :
        (r : Attempt (Unit {0}))
        → Ends (λ u. Unit) r
        → (r ≡ returned tt) ⊎ ((message : String) × (r ≡ threw message) × IsError message)
    decided (returned tt) e = inl refl
    decided (threw message) e = inr (message, refl, e)
