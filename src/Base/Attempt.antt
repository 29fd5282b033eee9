-- ===== src/Base/Attempt.antt =====
-- A call that returns or throws `new Error(message)`.
use Prim.Native.String.{String}
use mathlib.Core.Path.{◌≡◌, refl}
use mathlib.Core.Bool.{Bool, true, false}
use mathlib.Core.List.{List, [], ◌∷◌}
use native.Mathlib.Omega.{arith}

pub data Attempt {ℓ} (A : Type ℓ) : Type ℓ where
  returned : A → Attempt A
  threw : (message : String) → Attempt A

module _ {ℓ κ} {A : Type ℓ} {B : Type κ} where
  infixl 4 ◌>>=◌ ◌>>◌
  abbrev pub ◌>>=◌ : Attempt A → (A → Attempt B) → Attempt B
  threw message >>= next = threw message
  returned a >>= next = next a

  abbrev pub ◌>>◌ : Attempt A → Attempt B → Attempt B
  first >> second = first >>= λ _. second

  -- What a sequence that returned went through.
  pub returned_through :
      (first : Attempt A) (next : A → Attempt B) (b : B)
      → (first >>= next) ≡ returned b
      → (a : A) × (first ≡ returned a) × (next a ≡ returned b)
  returned_through (returned a) next b e = (a, refl, e)
  returned_through (threw message) next b e = absurd (contradiction e)
    where
      contradiction : threw message ≡ returned b → ⊥
      contradiction e = cc

-- `items.map(call)` for a call that may throw.
module _ {ℓ κ} {A : Type ℓ} {B : Type κ} (call : A → Attempt B) where
  unfoldable pub map_attempt : List A → Attempt (List B)
  map_attempt [] = returned []
  map_attempt (a ∷ items) = do b ← call a; bs ← map_attempt items; returned (b ∷ bs)

-- `if (test) throw new Error(message)`.
abbrev pub throw_if : Bool → String → Attempt (Unit {0})
throw_if true message = threw message
throw_if false message = returned tt

pub throw_if_passed :
    (test : Bool) (message : String) (u : Unit {0})
    → throw_if test message ≡ returned u
    → test ≡ false
throw_if_passed test message u e = ground arith

pub throw_if_through {κ} :
    {B : Type κ} (test : Bool) (message : String) (rest : Attempt B) (b : B)
    → (throw_if test message >> rest) ≡ returned b
    → (test ≡ false) × (rest ≡ returned b)
throw_if_through true message rest b e = absurd (contradiction e)
  where
    contradiction : threw message ≡ returned b → ⊥
    contradiction e = cc
throw_if_through false message rest b e = (refl, e)

-- The same, for a goal that follows from what the sequence went through.
module _ {ℓ κ ι} {A : Type ℓ} {B : Type κ} {P : Type ι} where
  pub through :
      (first : Attempt A) (next : A → Attempt B) (b : B)
      → (first >>= next) ≡ returned b
      → ((a : A) → first ≡ returned a → next a ≡ returned b → P)
      → P
  through first next b e goal =
      let found = returned_through first next b e in goal found.0 found.1 found.2

module _ {κ ι} {B : Type κ} {P : Type ι} where
  pub through_test :
      (test : Bool) (message : String) (rest : Attempt B) (b : B)
      → (throw_if test message >> rest) ≡ returned b
      → (test ≡ false → rest ≡ returned b → P)
      → P
  through_test test message rest b e goal =
      let found = throw_if_through test message rest b e in goal found.0 found.1

pub value_of_returned {ℓ} : {A : Type ℓ} (a b : A) → returned a ≡ returned b → a ≡ b
value_of_returned a b e = cc

pub threw_not_returned {ℓ} :
    {A : Type ℓ} {message : String} {a : A} → threw message ≡ returned a → ⊥
threw_not_returned e = cc
