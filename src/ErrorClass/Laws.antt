-- ===== src/ErrorClass/Laws.antt =====
-- The bound on what lib/core/error-class.ts lets through.
use mailgun_ses_proxy.Base.{
  ℕ, ◌≤◌, String, ◌≡◌, refl, true, ◌⊎◌, inl, inr, List, [], ◌∷◌, Bool-cases, every, length, All,
  if◌then◌else◌, str_eq, arith,
}
use mailgun_ses_proxy.ErrorClass.{
  Thrown, error, value, codes, is_letter, is_word, is_identifier, error_class,
}

abbrev pub IsLetter : ℕ → Type 0
IsLetter c = ((65 ≤ c) × (c ≤ 90)) ⊎ ((97 ≤ c) × (c ≤ 122))

abbrev pub IsWord : ℕ → Type 0
IsWord c = IsLetter c ⊎ (((48 ≤ c) × (c ≤ 57)) ⊎ (c ≡ 95))

-- A letter, then letters, digits and underscores, 64 characters at most.
pub record IsShort (cs : List ℕ) : Type 0 where
  pub first : ℕ
  pub others : List ℕ
  pub all : cs ≡ first ∷ others
  pub letter : IsLetter first
  pub words : All IsWord others
  pub few : length cs ≤ 64

letter_lem : (c : ℕ) → is_letter c ≡ true → IsLetter c
letter_lem c e = ground (arith, e)

word_lem : (c : ℕ) → is_word c ≡ true → IsWord c
word_lem c e = ground (arith, e)

words_lem : (cs : List ℕ) → every is_word cs ≡ true → All IsWord cs
words_lem [] e = tt
words_lem (c ∷ cs) e = (word_lem c (ground (arith, e)), words_lem cs (ground (arith, e)))

identifier-IsShort : (cs : List ℕ) → is_identifier cs ≡ true → IsShort cs
identifier-IsShort [] e = cc
identifier-IsShort (c ∷ cs) e = record {
  first = c;
  others = cs;
  all = refl;
  letter = letter_lem c (ground (arith, e));
  words = words_lem cs (ground (arith, e));
  few = ground (arith, e);
}

-- Whatever is thrown, its class is a letter followed by letters, digits and underscores, at most 64
-- characters together.
pub error_class-IsShort : (thrown : Thrown) → IsShort (codes (error_class thrown))
unfolding error_class
error_class-IsShort value = identifier-IsShort (codes "UnknownError") refl
error_class-IsShort (error name) = safe (if str_eq name "" then "Error" else name)
  where
    safe :
        (shown : String) → IsShort (codes (if is_identifier (codes shown) then shown else "Error"))
    safe shown = elim (Bool-cases (is_identifier (codes shown))) [
      | inl fits ↦ rw fits (identifier-IsShort (codes shown) fits)
      | inr not_so ↦ rw not_so (identifier-IsShort (codes "Error") refl)
    ]
