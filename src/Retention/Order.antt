-- ===== src/Retention/Order.antt =====
-- `compareCanonicalStrings`, the comparisons chained by `||`, and `Array.prototype.sort`, which is
-- stable.
use mailgun_ses_proxy.Base.{
  ℕ, suc, ◌+◌, ◌-◌, ◌/◌, ◌%◌, ◌≡◌, refl, sym, ap, ◌∙◌, String, Bool, true, false, List, [], ◌∷◌,
  ltb, length, All, if◌then◌else◌, arith, Bool-cases, inl, inr,
}
use mathlib.Core.List.{Permᴰ}
use mathlib.Core.List.Permᴰ
use mailgun_ses_proxy.ErrorClass.{codes}

-- The sign of a comparison.
pub data Comparison : Type 0 where
  before same after : Comparison

abbrev pub reversed : Comparison → Comparison
reversed before = after
reversed same = same
reversed after = before

-- `left || right`.
infixr 2 ◌or_else◌
abbrev pub ◌or_else◌ : Comparison → Comparison → Comparison
before or_else c = before
after or_else c = after
same or_else c = c

abbrev pub compare_numbers : ℕ → ℕ → Comparison
compare_numbers a b = if ltb a b then before else if ltb b a then after else same

-- The UTF-16 code units by which JavaScript compares texts.
abbrev pub units : List ℕ → List ℕ
units [] = []
units (c ∷ cs) =
    if ltb c 65536
    then c ∷ units cs
    else (55296 + (c - 65536) / 1024) ∷ (56320 + (c - 65536) % 1024) ∷ units cs

abbrev pub compare_units : List ℕ → List ℕ → Comparison
compare_units [] [] = same
compare_units [] (d ∷ ds) = before
compare_units (c ∷ cs) [] = after
compare_units (c ∷ cs) (d ∷ ds) = compare_numbers c d or_else compare_units cs ds

unfoldable pub compare_canonical_strings : String → String → Comparison
compare_canonical_strings left right = compare_units (units (codes left)) (units (codes right))

pub reversed_or : (c d : Comparison) → reversed (c or_else d) ≡ (reversed c or_else reversed d)
reversed_or before d = refl
reversed_or same d = refl
reversed_or after d = refl

pub compare_numbers-reversed : (a b : ℕ) → compare_numbers b a ≡ reversed (compare_numbers a b)
compare_numbers-reversed a b = elim (Bool-cases (ltb a b)) [
  | inl less ↦ let other : ltb b a ≡ false = ground (arith, less) in rw less (rw other refl)
  | inr greater ↦ elim (Bool-cases (ltb b a)) [
    | inl less ↦ rw greater (rw less refl)
    | inr equal ↦ rw greater (rw equal refl)
  ]
]

pub compare_units-reversed : (cs ds : List ℕ) → compare_units ds cs ≡ reversed (compare_units cs ds)
compare_units-reversed [] [] = refl
compare_units-reversed [] (d ∷ ds) = refl
compare_units-reversed (c ∷ cs) [] = refl
compare_units-reversed (c ∷ cs) (d ∷ ds) = rw (compare_numbers-reversed c d) (
    rw (compare_units-reversed cs ds)
      (sym (reversed_or (compare_numbers c d) (compare_units cs ds))))

pub compare_strings-reversed :
    (a b : String) → compare_canonical_strings b a ≡ reversed (compare_canonical_strings a b)
unfolding compare_canonical_strings
compare_strings-reversed a b = compare_units-reversed (units (codes a)) (units (codes b))

abbrev pub is_after : Comparison → Bool
is_after after = true
is_after _ = false

module _ {A : Type 0} (compare : A → A → Comparison) where
  abbrev pub insert : A → List A → List A
  insert x [] = x ∷ []
  insert x (y ∷ ys) =
      let rest = insert x ys in if is_after (compare x y) then y ∷ rest else x ∷ y ∷ ys

  unfoldable pub sort : List A → List A
  sort [] = []
  sort (x ∷ xs) = insert x (sort xs)

  -- No element comes after the next one.
  abbrev pub Sorted : List A → Type 0
  Sorted [] = Unit
  Sorted (x ∷ []) = Unit
  Sorted (x ∷ y ∷ ys) = (is_after (compare x y) ≡ false) × Sorted (y ∷ ys)

  module _ (compare-reversed : (x y : A) → compare y x ≡ reversed (compare x y)) where
    not_after : (x y : A) → is_after (compare x y) ≡ true → is_after (compare y x) ≡ false
    not_after x y h = rw (compare-reversed x y) (flip (compare x y) h)
      where
        flip : (c : Comparison) → is_after c ≡ true → is_after (reversed c) ≡ false
        flip before e = cc
        flip same e = cc
        flip after e = refl

    insert-Sorted : (x : A) (ys : List A) → Sorted ys → Sorted (insert x ys)
    insert-Sorted x [] v = tt
    insert-Sorted x (y ∷ []) v = elim (Bool-cases (is_after (compare x y))) [
      | inl later ↦ rw later (not_after x y later, tt)
      | inr sooner ↦ rw sooner (sooner, tt)
    ]
    insert-Sorted x (y ∷ z ∷ zs) v = elim (Bool-cases (is_after (compare x y))) [
      | inl later ↦
          rw later (behind later (is_after (compare x z)) refl (insert-Sorted x (z ∷ zs) v.1))
      | inr sooner ↦ rw sooner (sooner, v)
    ]
      where
        behind :
            is_after (compare x y) ≡ true
            → (b : Bool) → is_after (compare x z) ≡ b
            → Sorted (if b then z ∷ insert x zs else x ∷ z ∷ zs)
            → Sorted (y ∷ (if b then z ∷ insert x zs else x ∷ z ∷ zs))
        behind later true e sorted = (v.0, sorted)
        behind later false e sorted = (not_after x y later, sorted)

    pub sort-Sorted : (xs : List A) → Sorted (sort xs)
    unfolding sort
    sort-Sorted [] = tt
    sort-Sorted (x ∷ xs) = insert-Sorted x (sort xs) (sort-Sorted xs)

  module _ (P : A → Type 0) where
    insert-All : (x : A) (ys : List A) → P x → All P ys → All P (insert x ys)
    insert-All x [] h v = (h, tt)
    insert-All x (y ∷ ys) h v = elim (Bool-cases (is_after (compare x y))) [
      | inl later ↦ rw later (v.0, insert-All x ys h v.1)
      | inr sooner ↦ rw sooner (h, v)
    ]

    pub sort-All : (xs : List A) → All P xs → All P (sort xs)
    unfolding sort
    sort-All [] v = tt
    sort-All (x ∷ xs) v = insert-All x (sort xs) v.0 (sort-All xs v.1)

  length-insert : (x : A) (ys : List A) → length (insert x ys) ≡ suc (length ys)
  length-insert x [] = refl
  length-insert x (y ∷ ys) = elim (Bool-cases (is_after (compare x y))) [
    | inl later ↦ rw later (ap suc (length-insert x ys))
    | inr sooner ↦ rw sooner refl
  ]

  pub length-sort : (xs : List A) → length (sort xs) ≡ length xs
  unfolding sort
  length-sort [] = refl
  length-sort (x ∷ xs) = length-insert x (sort xs) ∙ ap suc (length-sort xs)

  insert-Perm : (x : A) (ys : List A) → Permᴰ (insert x ys) (x ∷ ys)
  insert-Perm x [] = Permᴰ.refl (x ∷ [])
  insert-Perm x (y ∷ ys) = elim (Bool-cases (is_after (compare x y))) [
    | inl later ↦ rw later (Permᴰ.trans (Permᴰ.cons refl (insert-Perm x ys)) (Permᴰ.swap refl refl))
    | inr sooner ↦ rw sooner (Permᴰ.refl (x ∷ y ∷ ys))
  ]

  pub sort-Perm : (xs : List A) → Permᴰ (sort xs) xs
  unfolding sort
  sort-Perm [] = Permᴰ.nil
  sort-Perm (x ∷ xs) = Permᴰ.trans (insert-Perm x (sort xs)) (Permᴰ.cons refl (sort-Perm xs))
