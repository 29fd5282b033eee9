-- ===== src/Escrow/Text.antt =====
-- Texts as JavaScript has them, sequences of UTF-16 code units, with the comparisons and the sets of
-- texts that the escrow uses, and `JSON.stringify` of texts and numbers.
use mailgun_ses_proxy.Base.{
  ℕ, zero, suc, ◌+◌, ◌-◌, ◌/◌, ◌%◌, ◌≡◌, refl, String, Bool, true, false, not, ◌&&◌, ◌||◌, List, [],
  ◌∷◌, ◌++◌, ltb, leb, ◌==◌, if◌then◌else◌, arith,
}
use mailgun_ses_proxy.ErrorClass.{codes}
use mailgun_ses_proxy.Retention.Order.{Comparison, before, units, compare_units}

abbrev pub Text : Type 0
Text = List ℕ

-- A text of the source.
abbrev pub of : String → Text
of s = units (codes s)

infix 50 ◌===◌
unfoldable pub ◌===◌ : Text → Text → Bool
[] === [] = true
[] === (d ∷ ds) = false
(c ∷ cs) === [] = false
(c ∷ cs) === (d ∷ ds) = c == d && cs === ds

pub ===-eq : (cs ds : Text) → (cs === ds) ≡ true → cs ≡ ds
unfolding ◌===◌
===-eq [] [] e = refl
===-eq [] (d ∷ ds) e = cc
===-eq (c ∷ cs) [] e = cc
===-eq (c ∷ cs) (d ∷ ds) e = ground (arith, e, ===-eq cs ds)

pub ===-refl : (cs : Text) → (cs === cs) ≡ true
unfolding ◌===◌
===-refl [] = refl
===-refl (c ∷ cs) = ground (arith, ===-refl cs)

-- `left >= right`.
abbrev is_not_before : Comparison → Bool
is_not_before before = false
is_not_before _ = true

unfoldable pub ge : Text → Text → Bool
ge left right = is_not_before (compare_units left right)

-- `Set<string>`, the last added first; every `add` of the escrow stands under a test with `has`.
unfoldable pub has : List Text → Text → Bool
has [] t = false
has (x ∷ xs) t = x === t || has xs t

abbrev pub Distinct : List Text → Type 0
Distinct [] = Unit
Distinct (x ∷ xs) = (has xs x ≡ false) × Distinct xs

-- The last digits of a number, with fuel.
unfoldable pub digits_of : ℕ → ℕ → Text → Text
digits_of zero n rest = rest
digits_of (suc fuel) n rest =
    let more = digits_of fuel (n / 10) ((b'0' + n % 10) ∷ rest) in
    if ltb n 10 then (b'0' + n) ∷ rest else more

-- `String(n)`; no safe integer has more than 16 digits.
unfoldable pub stringify_number : ℕ → Text
unfolding digits_of
stringify_number n = digits_of 17 n []

abbrev pub is_high : ℕ → Bool
is_high c = leb 55296 c && leb c 56319

abbrev pub is_low : ℕ → Bool
is_low c = leb 56320 c && leb c 57343

abbrev pub starts_low : Text → Bool
starts_low [] = false
starts_low (c ∷ cs) = is_low c

abbrev pub hex_digit : ℕ → ℕ
hex_digit n = if ltb n 10 then b'0' + n else b'a' + (n - 10)

abbrev pub unicode_escape : ℕ → Text
unicode_escape c =
    b'\\'
    ∷ b'u'
    ∷ hex_digit (c / 4096 % 16)
    ∷ hex_digit (c / 256 % 16)
    ∷ hex_digit (c / 16 % 16)
    ∷ hex_digit (c % 16)
    ∷ []

-- A unit of a text that `JSON.stringify` quotes, `paired` if it is a surrogate of a pair.
abbrev pub quoted_unit : Bool → ℕ → Text
quoted_unit paired c =
    if c == 34
    then b'\\' ∷ 34 ∷ []
    else if c == 92
    then 92 ∷ 92 ∷ []
    else if c == 8
    then 92 ∷ b'b' ∷ []
    else if c == 9
    then 92 ∷ b't' ∷ []
    else if c == 10
    then 92 ∷ b'n' ∷ []
    else if c == 12
    then 92 ∷ b'f' ∷ []
    else if c == 13
    then 92 ∷ b'r' ∷ []
    else if ltb c 32 || not paired && (is_high c || is_low c)
    then unicode_escape c
    else c ∷ []

-- The units after one; `low` if the one before is the high surrogate of a pair.
unfoldable pub quoted_units : Bool → Text → Text
quoted_units low [] = []
quoted_units low (c ∷ cs) =
    let pair = not low && is_high c && starts_low cs in
    quoted_unit (low || pair) c ++ quoted_units pair cs

-- `JSON.stringify(text)`.
unfoldable pub stringify_string : Text → Text
unfolding quoted_units
stringify_string t = 34 ∷ (quoted_units false t ++ 34 ∷ [])

pub ===-sym : (cs ds : Text) → (cs === ds) ≡ (ds === cs)
unfolding ◌===◌
===-sym [] [] = refl
===-sym [] (d ∷ ds) = refl
===-sym (c ∷ cs) [] = refl
===-sym (c ∷ cs) (d ∷ ds) = ground (arith, ===-sym cs ds)
