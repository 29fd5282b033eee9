-- ===== src/Escrow/Scanner/Tokens.antt =====
-- The scanner of service/newsletter-retention-escrow.ts ends on every white space, number, literal and
-- string.
use mailgun_ses_proxy.Base.{
  ℕ, zero, suc, ◌≤◌, ◌<◌, ◌≡◌, refl, ◌⊎◌, inl, String, Bool, true, false, not, ◌||◌, [], ◌∷◌, ◌++◌,
  length, if◌then◌else◌, arith, ◌&&◌, ◌==◌,
}
use mailgun_ses_proxy.Base.Attempt.{Attempt, returned, threw, ◌>>=◌, ◌>>◌, throw_if}
use mailgun_ses_proxy.SqsWorker.Limits.{is_digit}
use mailgun_ses_proxy.Escrow.Text.{Text}
use mailgun_ses_proxy.Escrow.Scanner.{
  invalid, repeated, skip_whitespace, starts_with, rest_of, expect, skip_digits, parse_digits,
  parse_integer, parse_fraction, optional, is_hex, signless, parse_exponent, parse_number,
  parse_literal, StringEnd, Escaped, stands_for, unicode, unknown, escaped, Character, close,
  backslash, control, plain, character, parse_unicode, parse_escape, parse_string_rest,
  parse_string, by_character, by_escaped,
}

abbrev pub IsError : String → Type 0
IsError message = (message ≡ invalid) ⊎ (message ≡ repeated)

-- It threw one of the two errors, or returned what satisfies P.
abbrev pub Ends : {A : Type 0} → (A → Type 0) → Attempt A → Type 0
Ends P (returned a) = P a
Ends P (threw message) = IsError message

pub Ends-bind :
    {A B : Type 0} (P : A → Type 0) (Q : B → Type 0) (first : Attempt A) (next : A → Attempt B)
    → Ends P first
    → ((a : A) → P a → Ends Q (next a))
    → Ends Q (first >>= next)
Ends-bind P Q (returned a) next h continue = continue a h
Ends-bind P Q (threw message) next h continue = h

pub Ends-throw_if :
    {B : Type 0} (Q : B → Type 0) (test : Bool) (message : String) (next : Attempt B)
    → IsError message
    → Ends Q next
    → Ends Q (throw_if test message >> next)
Ends-throw_if Q true message next h continue = h
Ends-throw_if Q false message next h continue = continue

-- At most n characters are left, or fewer.
abbrev pub AtMost : ℕ → Text → Type 0
AtMost n cs = length cs ≤ n

abbrev pub Below : ℕ → Text → Type 0
Below n cs = length cs < n

pub skip_whitespace-le : (cs : Text) → length (skip_whitespace cs) ≤ length cs
unfolding skip_whitespace
skip_whitespace-le [] = omega arith
skip_whitespace-le (c ∷ cs) = ground (arith, skip_whitespace-le cs)

skip_digits-le : (cs : Text) → length (skip_digits cs) ≤ length cs
unfolding skip_digits
skip_digits-le [] = omega arith
skip_digits-le (c ∷ cs) = ground (arith, skip_digits-le cs)

pub rest_of-le : (cs : Text) → length (rest_of cs) ≤ length cs
rest_of-le [] = omega arith
rest_of-le (c ∷ cs) = omega arith

pub Ends-expect : (char : ℕ) (cs : Text) → Ends (Below (length cs)) (expect char cs)
Ends-expect char [] = inl refl
Ends-expect char (c ∷ cs) = by_test (c == char)
  where
    by_test : (b : Bool) → Ends (Below (suc (length cs))) (if b then returned cs else threw invalid)
    by_test true = omega arith
    by_test false = inl refl

Ends-digits : (cs : Text) → Ends (Below (length cs)) (parse_digits cs)
unfolding parse_digits
Ends-digits [] = inl refl
Ends-digits (c ∷ cs) = by_test (is_digit c)
  where
    by_test :
        (b : Bool)
        → Ends (Below (suc (length cs))) (if b then returned (skip_digits cs) else threw invalid)
    by_test true = omega (arith, skip_digits-le cs)
    by_test false = inl refl

-- What is left may be counted against more.
pub Ends-weaken : (m n : ℕ) (r : Attempt Text) → m ≤ n → Ends (Below m) r → Ends (Below n) r
Ends-weaken m n (returned a) h e = omega (arith, h, e)
Ends-weaken m n (threw message) h e = e

-- One way or the other, by a test.
pub Ends-if :
    (P : Text → Type 0) (b : Bool) (x y : Attempt Text)
    → Ends P x
    → Ends P y
    → Ends P (if b then x else y)
Ends-if P true x y h k = h
Ends-if P false x y h k = k

optional-le : (b : Bool) (cs : Text) → length (optional b cs) ≤ length cs
optional-le true cs = rest_of-le cs
optional-le false cs = omega arith

Ends-integer : (cs : Text) → Ends (Below (length cs)) (parse_integer cs)
unfolding parse_digits
Ends-integer [] = inl refl
Ends-integer (c ∷ cs) =
    Ends-if (Below (suc (length cs))) (c == b'0') (returned cs) (parse_digits (c ∷ cs))
      (omega arith) (Ends-digits (c ∷ cs))

Ends-fraction : (cs : Text) → Ends (Below (suc (length cs))) (parse_fraction cs)
Ends-fraction cs =
    Ends-if (Below (suc (length cs))) (starts_with b'.' cs) (parse_digits (rest_of cs))
      (returned cs)
      (Ends-weaken (length (rest_of cs)) (suc (length cs)) (parse_digits (rest_of cs))
        (omega (arith, rest_of-le cs)) (Ends-digits (rest_of cs)))
      (omega arith)

Ends-exponent : (cs : Text) → Ends (Below (suc (length cs))) (parse_exponent cs)
Ends-exponent cs =
    Ends-if (Below (suc (length cs))) (starts_with b'e' cs || starts_with b'E' cs)
      (parse_digits (signless (rest_of cs))) (returned cs)
      (Ends-weaken (length (signless (rest_of cs))) (suc (length cs))
        (parse_digits (signless (rest_of cs)))
        (omega (
          arith,
          rest_of-le cs,
          optional-le (starts_with b'+' (rest_of cs) || starts_with b'-' (rest_of cs)) (rest_of cs),
        ))
        (Ends-digits (signless (rest_of cs))))
      (omega arith)

pub Ends-number : (cs : Text) → Ends (Below (length cs)) (parse_number cs)
unfolding parse_number
Ends-number cs =
    Ends-bind (Below (length cs)) (Below (length cs)) (parse_integer digits) _
      (Ends-weaken (length digits) (length cs) (parse_integer digits)
        (optional-le (starts_with b'-' cs) cs) (Ends-integer digits))
      λ a below.
        Ends-bind (Below (length cs)) (Below (length cs)) (parse_fraction a) _
          (Ends-weaken (suc (length a)) (length cs) (parse_fraction a) (omega (arith, below))
            (Ends-fraction a))
          λ b below_b.
            Ends-weaken (suc (length b)) (length cs) (parse_exponent b) (omega (arith, below_b))
              (Ends-exponent b)
  where
    digits : Text
    digits = optional (starts_with b'-' cs) cs

pub Ends-literal : (ls cs : Text) → Ends (Below (suc (length cs))) (parse_literal ls cs)
unfolding parse_literal
Ends-literal [] cs = omega arith
Ends-literal (l ∷ ls) [] = inl refl
Ends-literal (l ∷ ls) (c ∷ cs) =
    Ends-if (Below (suc (suc (length cs)))) (l == c) (parse_literal ls cs) (threw invalid)
      (Ends-weaken (suc (length cs)) (suc (suc (length cs))) (parse_literal ls cs) (omega arith)
        (Ends-literal ls cs))
      (inl refl)

-- A string's rest, for what continues it on fewer characters.
abbrev pub EndsString : ℕ → Attempt StringEnd → Type 0
EndsString n r = Ends (λ parsed. length parsed.1 < n) r

pub EndsString-weaken : (m n : ℕ) (r : Attempt StringEnd) → m ≤ n → EndsString m r → EndsString n r
EndsString-weaken m n (returned a) h e = omega (arith, h, e)
EndsString-weaken m n (threw message) h e = e

module _ (continue : Text → Text → Attempt StringEnd) (n : ℕ) where
  abbrev Continues : Type 0
  Continues = (value cs : Text) → length cs < n → EndsString n (continue value cs)

  EndsString-unicode :
      Continues → (value cs : Text) → length cs < n → EndsString n (parse_unicode continue value cs)
  EndsString-unicode h value [] e = inl refl
  EndsString-unicode h value (a ∷ []) e = inl refl
  EndsString-unicode h value (a ∷ b ∷ []) e = inl refl
  EndsString-unicode h value (a ∷ b ∷ c ∷ []) e = inl refl
  EndsString-unicode h value (a ∷ b ∷ c ∷ d ∷ cs) e =
      Ends-throw_if (λ parsed. length parsed.1 < n)
        (not (is_hex a && is_hex b && is_hex c && is_hex d)) invalid _ (inl refl)
        (h _ cs (omega (arith, e)))

  EndsString-escaped :
      Continues
      → (k : Escaped) (value cs : Text) → length cs < n
      → EndsString n (by_escaped k continue value cs)
  EndsString-escaped h (stands_for unit) value cs e = h (value ++ unit ∷ []) cs e
  EndsString-escaped h unicode value cs e = EndsString-unicode h value cs e
  EndsString-escaped h unknown value cs e = inl refl

  EndsString-escape :
      Continues → (value cs : Text) → length cs < n → EndsString n (parse_escape continue value cs)
  EndsString-escape h value [] e = inl refl
  EndsString-escape h value (c ∷ cs) e =
      EndsString-escaped h (escaped c) value cs (omega (arith, e))

  EndsString-character :
      Continues
      → (k : Character) (value : Text) (c : ℕ) (cs : Text) → length cs < n
      → EndsString n (by_character k continue value c cs)
  EndsString-character h close value c cs e = e
  EndsString-character h backslash value c cs e = EndsString-escape h value cs e
  EndsString-character h control value c cs e = inl refl
  EndsString-character h plain value c cs e = h (value ++ c ∷ []) cs e

EndsString-rest :
    (fuel : ℕ) (n : ℕ) (value cs : Text)
    → n ≤ fuel
    → length cs < n
    → EndsString n (parse_string_rest fuel value cs)
unfolding parse_string_rest
EndsString-rest zero n value cs h e = absurd (omega (arith, h, e))
EndsString-rest (suc fuel) n value [] h e = inl refl
EndsString-rest (suc fuel) n value (c ∷ cs) h e =
    EndsString-weaken (suc (length cs)) n
      (by_character (character c) (parse_string_rest fuel) value c cs) (omega (arith, e))
      (EndsString-character (parse_string_rest fuel) (suc (length cs))
        (λ v ds less. EndsString-rest fuel (suc (length cs)) v ds (omega (arith, h, e)) less)
        (character c) value c cs (omega arith))

pub EndsString-string : (cs : Text) → EndsString (length cs) (parse_string cs)
unfolding parse_string
EndsString-string cs =
    Ends-bind (Below (length cs)) (λ parsed. length parsed.1 < length cs) (expect 34 cs) _
      (Ends-expect 34 cs)
      λ rest below.
        EndsString-weaken (suc (length rest)) (length cs)
          (parse_string_rest (suc (length rest)) [] rest) (omega (arith, below))
          (EndsString-rest (suc (length rest)) (suc (length rest)) [] rest (omega arith)
            (omega arith))
