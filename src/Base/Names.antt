-- ===== src/Base/Names.antt =====
-- Sets of names (`Set<string>`) as lists in insertion order.
use Prim.Native.Nat.{suc, ◌≤◌}
use Prim.Native.String.{String}
use mathlib.Core.Path.{◌≡◌, refl}
use mathlib.Core.Logic.{inl, inr}
use mathlib.Core.Bool.{Bool, true, false, ◌||◌}
use mathlib.Core.List.{List, [], ◌∷◌, ◌++◌}
use native.Mathlib.Omega.{arith}
use text.Mathlib.Text.{◌==◌ as str_eq}
use text.Mathlib.TextEquality.{eq_iff}
use mailgun_ses_proxy.Base.Tests.{if◌then◌else◌, Bool-cases}
use mailgun_ses_proxy.Base.Lists.{length, length-append}

unfoldable pub has : List String → String → Bool
has [] a = false
has (x ∷ xs) a = str_eq x a || has xs a

unfoldable pub add : List String → String → List String
unfolding has
add xs a = if has xs a then xs else xs ++ a ∷ []

-- `new Set(xs)`.
unfoldable pub to_set_from : List String → List String → List String
to_set_from acc [] = acc
to_set_from acc (x ∷ xs) = to_set_from (add acc x) xs

abbrev pub Distinct : List String → Type 0
Distinct [] = Unit
Distinct (x ∷ xs) = (has xs x ≡ false) × Distinct xs

-- Every name of the first list is in the second.
abbrev pub Within : List String → List String → Type 0
Within [] ys = Unit
Within (x ∷ xs) ys = (has ys x ≡ true) × Within xs ys

unfoldable pub without : List String → String → List String
without [] a = []
without (x ∷ xs) a = if str_eq x a then xs else x ∷ without xs a

pub has-append : (xs ys : List String) (a : String) → has (xs ++ ys) a ≡ (has xs a || has ys a)
unfolding has
has-append [] ys a = refl
has-append (x ∷ xs) ys a = ground (arith, has-append xs ys a)

pub has-add : (xs : List String) (a b : String) → has (add xs a) b ≡ (str_eq a b || has xs b)
unfolding has add
has-add xs a b = ground (arith, has-append xs (a ∷ []) b, eq_iff a b)

pub length-without :
    (xs : List String) (a : String) → has xs a ≡ true → length xs ≡ suc (length (without xs a))
unfolding has without
length-without [] a h = ground arith
length-without (x ∷ xs) a h = ground (arith, length-without xs a)

pub has-without :
    (xs : List String) (a b : String)
    → has xs b ≡ true
    → str_eq a b ≡ false
    → has (without xs a) b ≡ true
unfolding has without
has-without [] a b h n = h
has-without (x ∷ xs) a b h n =
    ground (arith, has-without xs a b, eq_iff x a, eq_iff x b, eq_iff a b)

pub length-add :
    (xs : List String) (a : String) → has xs a ≡ false → length (add xs a) ≡ suc (length xs)
unfolding add
length-add xs a h = ground (arith, length-append xs (a ∷ []))

-- Adding a name to a set of distinct names.
pub Distinct-append :
    (xs : List String) (a : String) → Distinct xs → has xs a ≡ false → Distinct (xs ++ a ∷ [])
unfolding has
Distinct-append [] a d h = (refl, tt)
Distinct-append (x ∷ xs) a d h = (
  ground (arith, has-append xs (a ∷ []) x, eq_iff x a, eq_iff a x, d.0),
  Distinct-append xs a d.1 (ground arith),
)

pub Distinct-add : (xs : List String) (a : String) → Distinct xs → Distinct (add xs a)
unfolding add
Distinct-add xs a d = elim (Bool-cases (has xs a)) [
  | inl old ↦ rw old d
  | inr new ↦ rw new (Distinct-append xs a d new)
]

Within-append :
    (xs ys : List String) (a : String) → Within xs ys → has ys a ≡ true → Within (xs ++ a ∷ []) ys
Within-append [] ys a w h = (h, tt)
Within-append (x ∷ xs) ys a w h = (w.0, Within-append xs ys a w.1 h)

pub Within-add :
    (xs ys : List String) (a : String) → Within xs ys → has ys a ≡ true → Within (add xs a) ys
unfolding add
Within-add xs ys a w h = elim (Bool-cases (has xs a)) [
  | inl old ↦ rw old w
  | inr new ↦ rw new (Within-append xs ys a w h)
]

Within-without :
    (xs ys : List String) (a : String) → Within xs ys → has xs a ≡ false → Within xs (without ys a)
unfolding has
Within-without [] ys a w h = tt
Within-without (x ∷ xs) ys a w h = (
  has-without ys a x w.0 (ground (arith, eq_iff x a, eq_iff a x)),
  Within-without xs ys a w.1 (ground arith),
)

-- A set within another has no more elements.
pub length-Within-le : (xs ys : List String) → Distinct xs → Within xs ys → length xs ≤ length ys
length-Within-le [] ys d w = omega arith
length-Within-le (x ∷ xs) ys d w = omega (
  arith,
  length-without ys x w.0,
  length-Within-le xs (without ys x) d.1 (Within-without xs ys x w.1 d.0),
)

-- If it has as many, it has them all.
pub has_of_full :
    (xs ys : List String) (a : String)
    → Distinct xs
    → Within xs ys
    → length xs ≡ length ys
    → has ys a ≡ true
    → has xs a ≡ true
has_of_full xs ys a d w e h = elim (Bool-cases (has xs a)) [
  | inl there ↦ there
  | inr missing ↦ absurd (omega (arith, length-Within-le (a ∷ xs) ys (missing, d) (h, w)))
]

pub Within-add_right : (xs ys : List String) (a : String) → Within xs ys → Within xs (add ys a)
Within-add_right [] ys a w = tt
Within-add_right (x ∷ xs) ys a w =
    (ground (arith, has-add ys a x, w.0), Within-add_right xs ys a w.1)

Distinct-to_set_from : (acc xs : List String) → Distinct acc → Distinct (to_set_from acc xs)
unfolding to_set_from
Distinct-to_set_from acc [] d = d
Distinct-to_set_from acc (x ∷ xs) d = Distinct-to_set_from (add acc x) xs (Distinct-add acc x d)

pub Distinct-to_set : (xs : List String) → Distinct (to_set_from [] xs)
Distinct-to_set xs = Distinct-to_set_from [] xs tt

Within-cons : (xs ys : List String) (y : String) → Within xs ys → Within xs (y ∷ ys)
unfolding has
Within-cons [] ys y w = tt
Within-cons (x ∷ xs) ys y w = (ground (arith, w.0), Within-cons xs ys y w.1)

Within-refl : (xs : List String) → Within xs xs
unfolding has
Within-refl [] = tt
Within-refl (x ∷ xs) = (ground (arith, eq_iff x x), Within-cons xs xs x (Within-refl xs))

-- `Within` by its elements.
has-Within_of :
    (xs ys zs : List String)
    → Within xs zs
    → ((a : String) → has zs a ≡ true → has ys a ≡ true)
    → Within xs ys
has-Within_of [] ys zs w f = tt
has-Within_of (x ∷ xs) ys zs w f = (f x w.0, has-Within_of xs ys zs w.1 f)

pub has-Within :
    (xs ys : List String) → ((a : String) → has xs a ≡ true → has ys a ≡ true) → Within xs ys
has-Within xs ys f = has-Within_of xs ys xs (Within-refl xs) f
