-- ===== src/Escrow/Scanner.antt =====
-- `JsonDuplicateKeyScanner` in service/newsletter-retention-escrow.ts. The place in the text is what
-- is left of it; its loops and its recursion stand on fuel.
pub mod Tokens
pub mod Termination
use mailgun_ses_proxy.Base.{
  ℕ, zero, suc, ◌+◌, ◌-◌, ◌*◌, String, Bool, true, false, not, ◌&&◌, ◌||◌, List, [], ◌∷◌, ◌++◌, ltb,
  leb, ◌==◌, length, if◌then◌else◌,
}
use mailgun_ses_proxy.Base.Attempt.{Attempt, returned, threw, ◌>>=◌, ◌>>◌, throw_if}
use mailgun_ses_proxy.SqsWorker.Limits.{is_digit}
use mailgun_ses_proxy.Escrow.Text.{Text, of, has}

abbrev pub invalid : String
invalid = "escrow line must be valid JSON"

abbrev pub repeated : String
repeated = "escrow line must contain unique JSON keys"

abbrev pub out_of_fuel : String
out_of_fuel = "out of fuel"

abbrev pub is_json_whitespace : ℕ → Bool
is_json_whitespace c = c == 9 || c == 10 || c == 13 || c == 32

unfoldable pub skip_whitespace : Text → Text
skip_whitespace [] = []
skip_whitespace (c ∷ cs) =
    let rest = skip_whitespace cs in if is_json_whitespace c then rest else c ∷ cs

-- `current() === char`; a missing character is ''.
abbrev pub starts_with : ℕ → Text → Bool
starts_with char [] = false
starts_with char (c ∷ cs) = c == char

abbrev pub rest_of : Text → Text
rest_of [] = []
rest_of (c ∷ cs) = cs

abbrev pub expect : ℕ → Text → Attempt Text
expect char cs = if starts_with char cs then returned (rest_of cs) else threw invalid

unfoldable pub skip_digits : Text → Text
skip_digits [] = []
skip_digits (c ∷ cs) = let rest = skip_digits cs in if is_digit c then rest else c ∷ cs

unfoldable pub parse_digits : Text → Attempt Text
unfolding skip_digits
parse_digits [] = threw invalid
parse_digits (c ∷ cs) = if is_digit c then returned (skip_digits cs) else threw invalid

abbrev pub optional : Bool → Text → Text
optional test cs = if test then rest_of cs else cs

abbrev pub parse_integer : Text → Attempt Text
parse_integer cs = if starts_with b'0' cs then returned (rest_of cs) else parse_digits cs

abbrev pub parse_fraction : Text → Attempt Text
parse_fraction cs = if starts_with b'.' cs then parse_digits (rest_of cs) else returned cs

abbrev pub signless : Text → Text
signless cs = optional (starts_with b'+' cs || starts_with b'-' cs) cs

abbrev pub parse_exponent : Text → Attempt Text
parse_exponent cs =
    if starts_with b'e' cs || starts_with b'E' cs
    then parse_digits (signless (rest_of cs))
    else returned cs

unfoldable pub parse_number : Text → Attempt Text
parse_number cs = do
  cs ← parse_integer (optional (starts_with b'-' cs) cs)
  cs ← parse_fraction cs
  parse_exponent cs

-- What is left after a literal, whose first character is there.
unfoldable pub parse_literal : Text → Text → Attempt Text
parse_literal [] cs = returned cs
parse_literal (l ∷ ls) [] = threw invalid
parse_literal (l ∷ ls) (c ∷ cs) =
    let rest = parse_literal ls cs in if l == c then rest else threw invalid

-- What a character of a string starts.
pub data Character : Type 0 where
  close backslash control plain : Character

abbrev pub character : ℕ → Character
character c =
    if c == 34 then close else if c == 92 then backslash else if ltb c 32 then control else plain

-- What a character after a backslash stands for.
pub data Escaped : Type 0 where
  stands_for : ℕ → Escaped
  unicode unknown : Escaped

abbrev pub escaped : ℕ → Escaped
escaped c =
    if c == 34 || c == 92 || c == 47
    then stands_for c
    else if c == b'b'
    then stands_for 8
    else if c == b'f'
    then stands_for 12
    else if c == b'n'
    then stands_for 10
    else if c == b'r'
    then stands_for 13
    else if c == b't'
    then stands_for 9
    else if c == b'u'
    then unicode
    else unknown

abbrev pub is_hex : ℕ → Bool
is_hex c = is_digit c || leb b'a' c && leb c b'f' || leb b'A' c && leb c b'F'

abbrev hex_value : ℕ → ℕ
hex_value c = if is_digit c then c - b'0' else if leb b'a' c then c - b'a' + 10 else c - b'A' + 10

abbrev pub StringEnd : Type 0
StringEnd = Text × Text

abbrev pub parse_unicode : (Text → Text → Attempt StringEnd) → Text → Text → Attempt StringEnd
parse_unicode continue value (a ∷ b ∷ c ∷ d ∷ cs) = do
  throw_if (not (is_hex a && is_hex b && is_hex c && is_hex d)) invalid
  continue
      (value ++ (((hex_value a * 16 + hex_value b) * 16 + hex_value c) * 16 + hex_value d) ∷ []) cs
parse_unicode continue value _ = threw invalid

abbrev pub by_escaped :
    Escaped → (Text → Text → Attempt StringEnd) → Text → Text → Attempt StringEnd
by_escaped (stands_for unit) continue value cs = continue (value ++ unit ∷ []) cs
by_escaped unicode continue value cs = parse_unicode continue value cs
by_escaped unknown continue value cs = threw invalid

abbrev pub parse_escape : (Text → Text → Attempt StringEnd) → Text → Text → Attempt StringEnd
parse_escape continue value [] = threw invalid
parse_escape continue value (c ∷ cs) = by_escaped (escaped c) continue value cs

abbrev pub by_character :
    Character → (Text → Text → Attempt StringEnd) → Text → ℕ → Text → Attempt StringEnd
by_character close continue value c cs = returned (value, cs)
by_character backslash continue value c cs = parse_escape continue value cs
by_character control continue value c cs = threw invalid
by_character plain continue value c cs = continue (value ++ c ∷ []) cs

-- The rest of a string, with the value read so far.
unfoldable pub parse_string_rest : ℕ → Text → Text → Attempt StringEnd
parse_string_rest zero value cs = threw out_of_fuel
parse_string_rest (suc fuel) value [] = threw invalid
parse_string_rest (suc fuel) value (c ∷ cs) =
    by_character (character c) (parse_string_rest fuel) value c cs

unfoldable pub parse_string : Text → Attempt StringEnd
unfolding parse_string_rest
parse_string cs = do cs ← expect 34 cs; parse_string_rest (suc (length cs)) [] cs

-- What the first character of a value starts.
pub data Start : Type 0 where
  of_object of_array of_string of_number nothing : Start
  of_literal : Text → Start

abbrev pub start : Text → Start
start [] = nothing
start (c ∷ cs) =
    if c == b'{'
    then of_object
    else if c == b'['
    then of_array
    else if c == 34
    then of_string
    else if c == b't'
    then of_literal (of "true")
    else if c == b'f'
    then of_literal (of "false")
    else if c == b'n'
    then of_literal (of "null")
    else if c == b'-' || is_digit c
    then of_number
    else nothing

-- What follows a member or an item.
pub data Separator : Type 0 where
  comma closed neither : Separator

abbrev pub separator : ℕ → Text → Separator
separator closing [] = neither
separator closing (c ∷ cs) = if c == b',' then comma else if c == closing then closed else neither

-- What is done at a separator; `cs` starts with it.
abbrev pub by_separator : Separator → (Text → Attempt Text) → Text → Attempt Text
by_separator comma continue cs = continue (rest_of cs)
by_separator closed continue cs = returned (rest_of cs)
by_separator neither continue cs = threw invalid

-- What is in brackets, after the first of them.
abbrev pub inside : ℕ → (Text → Attempt Text) → Text → Attempt Text
inside closing continue cs = if starts_with closing cs then returned (rest_of cs) else continue cs

-- What is done at the start of a value; `cs` starts with it.
abbrev pub by_start : Start → (members items : Text → Attempt Text) → Text → Attempt Text
by_start of_object members items cs = inside b'}' members (skip_whitespace (rest_of cs))
by_start of_array members items cs = inside b']' items (skip_whitespace (rest_of cs))
by_start of_string members items cs = parse_string cs >>= λ parsed. returned parsed.1
by_start (of_literal literal) members items cs = parse_literal literal cs
by_start of_number members items cs = parse_number cs
by_start nothing members items cs = threw invalid

unfoldable mutual
  pub parse_value : ℕ → Text → Attempt Text
  parse_value zero cs = threw out_of_fuel
  parse_value (suc fuel) cs =
      by_start (start (skip_whitespace cs)) (parse_members fuel []) (parse_items fuel)
        (skip_whitespace cs)

  pub parse_members : ℕ → List Text → Text → Attempt Text
  parse_members zero keys cs = threw out_of_fuel
  parse_members (suc fuel) keys cs = do
    key ← parse_string (skip_whitespace cs)
    throw_if (has keys key.0) repeated
    cs ← expect b':' (skip_whitespace key.1)
    cs ← parse_value fuel cs
    by_separator (separator b'}' (skip_whitespace cs)) (parse_members fuel (key.0 ∷ keys))
        (skip_whitespace cs)

  pub parse_items : ℕ → Text → Attempt Text
  parse_items zero cs = threw out_of_fuel
  parse_items (suc fuel) cs = do
    cs ← parse_value fuel cs
    by_separator (separator b']' (skip_whitespace cs)) (parse_items fuel) (skip_whitespace cs)

abbrev pub at_end : Text → Attempt (Unit {0})
at_end [] = returned tt
at_end (c ∷ cs) = threw invalid

unfoldable pub ensure_unique_json_keys : Text → Attempt (Unit {0})
unfolding parse_value
ensure_unique_json_keys text = do
  rest ← parse_value (suc (length text + length text)) text
  at_end (skip_whitespace rest)
