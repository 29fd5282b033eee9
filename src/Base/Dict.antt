-- ===== src/Base/Dict.antt =====
-- `Map<string, V>`: an association list in insertion order.
use Prim.Native.String.{String}
use mathlib.Core.Path.{◌≡◌, refl, ap, ◌∙◌, subst, subst₂}
use mathlib.Core.Logic.{inl, inr}
use mathlib.Core.Bool.{true, ◌||◌}
use mathlib.Core.Option.{Option, none, some}
use mathlib.Core.List.{List, [], ◌∷◌, map}
use native.Mathlib.Omega.{arith}
use text.Mathlib.Text.{◌==◌ as str_eq}
use text.Mathlib.TextEquality.{eq_iff}
use text.Mathlib.TextPositions.{eq_refl}
use mailgun_ses_proxy.Base.Tests.{if◌then◌else◌, Bool-cases}
use mailgun_ses_proxy.Base.Lists.{All}
use mailgun_ses_proxy.Base.Names.{has, Distinct}

abbrev pub Dict {ℓ} : Type ℓ → Type ℓ
Dict V = List (String × V)

module _ {ℓ} {V : Type ℓ} where
  unfoldable pub get : String → Dict V → Option V
  get k [] = none
  get k ((j, v) ∷ m) = if str_eq j k then some v else get k m

  -- `Map.set` keeps the place of a key that is there.
  unfoldable pub put : String → V → Dict V → Dict V
  put k v [] = (k, v) ∷ []
  put k v ((j, w) ∷ m) = if str_eq j k then (j, v) ∷ m else (j, w) ∷ put k v m

  unfoldable pub delete : String → Dict V → Dict V
  delete k [] = []
  delete k ((j, w) ∷ m) = if str_eq j k then delete k m else (j, w) ∷ delete k m

  -- `const entry = map.get(k); if (!entry) return;`, then assignments to the entry's fields.
  abbrev modify_found : String → (V → V) → Dict V → Option V → Dict V
  modify_found k f m none = m
  modify_found k f m (some v) = put k (f v) m

  unfoldable pub modify : String → (V → V) → Dict V → Dict V
  unfolding get put
  modify k f m = modify_found k f m (get k m)

  abbrev pub keys : Dict V → List String
  keys m = map (λ e. e.0) m

  pub get-put :
      (k j : String) (v : V) (m : Dict V)
      → get j (put k v m) ≡ (if str_eq k j then some v else get j m)
  unfolding get put
  get-put k j v [] = refl
  get-put k j v ((i, w) ∷ m) = ground (arith, eq_iff k j, eq_iff i k, eq_iff i j, get-put k j v m)

  pub get-delete :
      (k j : String) (m : Dict V) → get j (delete k m) ≡ (if str_eq k j then none else get j m)
  unfolding get delete
  get-delete k j [] = ground arith
  get-delete k j ((i, w) ∷ m) = ground (arith, eq_iff k j, eq_iff i k, eq_iff i j, get-delete k j m)

  abbrev pub map_found : (V → V) → Option V → Option V
  map_found f none = none
  map_found f (some v) = some (f v)

  get-modify_found :
      (k j : String) (f : V → V) (m : Dict V) (o : Option V)
      → get k m ≡ o
      → get j (modify_found k f m o) ≡ (if str_eq k j then map_found f (get j m) else get j m)
  get-modify_found k j f m none e = ground (arith, eq_iff k j)
  get-modify_found k j f m (some v) e = ground (arith, get-put k j (f v) m, eq_iff k j)

  pub get-modify :
      (k j : String) (f : V → V) (m : Dict V)
      → get j (modify k f m) ≡ (if str_eq k j then map_found f (get j m) else get j m)
  unfolding modify
  get-modify k j f m = get-modify_found k j f m (get k m) refl

  pub keys-put-has :
      (k j : String) (v : V) (m : Dict V)
      → has (keys (put k v m)) j ≡ (str_eq k j || has (keys m) j)
  unfolding put has
  keys-put-has k j v [] = ground (arith, eq_iff k j)
  keys-put-has k j v ((i, w) ∷ m) =
      ground (arith, eq_iff k j, eq_iff i k, eq_iff i j, keys-put-has k j v m)

  pub Distinct-put :
      (k : String) (v : V) (m : Dict V) → Distinct (keys m) → Distinct (keys (put k v m))
  unfolding put has
  Distinct-put k v [] d = (refl, tt)
  Distinct-put k v ((i, w) ∷ m) d = elim (Bool-cases (str_eq i k)) [
    | inl same ↦ rw same d
    | inr differs ↦
        rw differs (
          ground (arith, keys-put-has k i v m, d.0, eq_iff i k, eq_iff k i),
          Distinct-put k v m d.1,
        )
  ]

  -- A property of each entry, kept by a write that has it under every key equal to its own.
  pub put-All {κ} :
      (P : String × V → Type κ) (k : String) (v : V) (m : Dict V)
      → ((j : String) → str_eq k j ≡ true → P (j, v))
      → All P m
      → All P (put k v m)
  unfolding put
  put-All P k v [] h a = (h k (eq_refl k), tt)
  put-All P k v ((i, w) ∷ m) h a = elim (Bool-cases (str_eq i k)) [
    | inl same ↦ rw same (h i (ground (arith, eq_iff i k, eq_iff k i, same)), a.1)
    | inr differs ↦ rw differs (a.0, put-All P k v m h a.1)
  ]

  get-All {κ} :
      (P : String × V → Type κ) (k : String) (v : V) (m : Dict V)
      → All P m
      → get k m ≡ some v
      → P (k, v)
  unfolding get
  get-All P k v [] a e = absurd (wrong e)
    where
      wrong : none ≡ some v → ⊥
      wrong e = cc
  get-All P k v ((i, w) ∷ m) a e = elim (Bool-cases (str_eq i k)) [
    | inl same ↦
        let here : i ≡ k = (eq_iff i k).0 same in
        let found : w ≡ v = ground (arith, same) in subst₂ (λ j x. P (j, x)) here found a.0
    | inr differs ↦ get-All P k v m a.1 (ground (arith, differs))
  ]

  pub modify-Distinct :
      (k : String) (f : V → V) (m : Dict V) → Distinct (keys m) → Distinct (keys (modify k f m))
  unfolding modify
  modify-Distinct k f m d = by_found (get k m)
    where
      by_found : (o : Option V) → Distinct (keys (modify_found k f m o))
      by_found none = d
      by_found (some v) = Distinct-put k (f v) m d

  pub modify-All {κ} :
      (P : String × V → Type κ) (k : String) (f : V → V) (m : Dict V)
      → ((j : String) (v : V) → P (j, v) → P (j, f v))
      → All P m
      → All P (modify k f m)
  unfolding modify
  modify-All P k f m keep a = by_found (get k m) refl
    where
      by_found : (o : Option V) → get k m ≡ o → All P (modify_found k f m o)
      by_found none e = a
      by_found (some v) e =
          put-All P k (f v) m
            (λ j same.
              subst (λ x. P (x, f v)) ((eq_iff k j).0 same) (keep k v (get-All P k v m a e)))
            a

  -- Writing the same value again changes nothing.
  pub put_again : (k : String) (v : V) (m : Dict V) → put k v (put k v m) ≡ put k v m
  unfolding put
  put_again k v [] = ground (arith, eq_refl k)
  put_again k v ((i, w) ∷ m) = elim (Bool-cases (str_eq i k)) [
    | inl same ↦ rw (same, same) refl
    | inr differs ↦ rw (differs, differs) (ap (λ t. (i, w) ∷ t) (put_again k v m))
  ]

  pub get-put_self : (k : String) (v : V) (m : Dict V) → get k (put k v m) ≡ some v
  get-put_self k v m = get-put k k v m ∙ rw (eq_refl k)
