-- ===== src/Base/Map.antt =====
-- Go's built-in map as an association list with one entry for each key (`Distinct`).
-- `range` visits the entries in list order.
use Prim.Native.Nat.{◌+◌}
use mathlib.Core.Path.{◌≡◌, refl, subst}
use mathlib.Core.Logic.{◌⊎◌, inl, inr}
use mathlib.Core.Bool.{Bool, true, false}
use mathlib.Core.Option.{Option, none, some}
use mathlib.Core.List.{List, [], ◌∷◌}
use native.Mathlib.Omega.{arith}
use topia.Base.Tests.{if◌then◌else◌, Bool-cases}
use topia.Base.Lists.{length}
use topia.Base.Eq.{Comparable, ◌==◌, ==_iff}

abbrev pub Map {ℓ κ} : Type ℓ → Type κ → Type (ℓ ⊔ κ)
Map K V = List (K × V)

abbrev pub is_some {ℓ} : {A : Type ℓ} → Option A → Bool
is_some none = false
is_some (some a) = true

abbrev pub or_else {ℓ} : {A : Type ℓ} → Option A → Option A → Option A
or_else none b = b
or_else (some a) b = some a

module _ {ℓ κ} {K : Type ℓ} {V : Type κ} ⦃e : Comparable K⦄ where
  -- v, ok := m[k]
  unfoldable pub lookup : K → Map K V → Option V
  lookup key [] = none
  lookup key (entry ∷ rest) =
      let further = lookup key rest in if entry.0 == key then some entry.1 else further

  -- m[k] = v
  unfoldable pub insert : K → V → Map K V → Map K V
  insert key value [] = (key, value) ∷ []
  insert key value (entry ∷ rest) =
      let kept = insert key value rest in
      if entry.0 == key then (key, value) ∷ rest else entry ∷ kept

  -- delete(m, k)
  unfoldable pub delete : K → Map K V → Map K V
  delete key [] = []
  delete key (entry ∷ rest) =
      let kept = delete key rest in if entry.0 == key then rest else entry ∷ kept

  -- for k, v := range a { b[k] = v }
  unfoldable pub merge : Map K V → Map K V → Map K V
  merge [] b = b
  merge ((k, v) ∷ a) b = merge a (insert k v b)

  abbrev pub Distinct : Map K V → Type κ
  Distinct [] = Unit
  Distinct ((k, v) ∷ m) = (lookup k m ≡ none) × Distinct m

  pub lookup-insert :
      (k j : K) (v : V) (m : Map K V)
      → lookup j (insert k v m) ≡ (if k == j then some v else lookup j m)
  unfolding insert lookup
  lookup-insert k j v [] = refl
  lookup-insert k j v (entry ∷ m) =
      ground (arith, ==_iff k j, ==_iff entry.0 j, ==_iff entry.0 k, lookup-insert k j v m)

  pub lookup-insert_self : (k : K) (v : V) (m : Map K V) → lookup k (insert k v m) ≡ some v
  lookup-insert_self k v m = ground (arith, lookup-insert k k v m, ==_iff k k)

  pub lookup-delete :
      (k j : K) (m : Map K V)
      → Distinct m
      → lookup j (delete k m) ≡ (if k == j then none else lookup j m)
  unfolding lookup delete
  lookup-delete k j [] d = ground arith
  lookup-delete k j ((i, v) ∷ m) d =
      ground (arith, ==_iff i k, ==_iff i j, ==_iff k j, lookup-delete k j m d.1)

  pub Distinct-insert : (k : K) (v : V) (m : Map K V) → Distinct m → Distinct (insert k v m)
  unfolding lookup insert
  Distinct-insert k v [] d = (refl, tt)
  Distinct-insert k v ((i, w) ∷ m) d =
      ground (arith, ==_iff i k, ==_iff k i, lookup-insert k i v m, Distinct-insert k v m d.1)

  pub Distinct-delete : (k : K) (m : Map K V) → Distinct m → Distinct (delete k m)
  unfolding lookup delete
  Distinct-delete k [] d = d
  Distinct-delete k ((i, w) ∷ m) d =
      ground (arith, ==_iff k i, lookup-delete k i m d.1, Distinct-delete k m d.1)

  pub length-insert :
      (k : K) (v : V) (m : Map K V)
      → length (insert k v m) ≡ length m + (if is_some (lookup k m) then 0 else 1)
  unfolding lookup insert
  length-insert k v [] = omega arith
  length-insert k v ((i, w) ∷ m) = ground (arith, length-insert k v m)

  pub length-delete :
      (k : K) (m : Map K V)
      → length (delete k m) + (if is_some (lookup k m) then 1 else 0) ≡ length m
  unfolding lookup delete
  length-delete k [] = omega arith
  length-delete k ((i, w) ∷ m) = ground (arith, length-delete k m)

  pub Distinct-merge : (a b : Map K V) → Distinct b → Distinct (merge a b)
  unfolding merge
  Distinct-merge [] b d = d
  Distinct-merge ((k, v) ∷ a) b d = Distinct-merge a (insert k v b) (Distinct-insert k v b d)

  -- On keys of both maps the copied one wins.
  pub lookup-merge :
      (j : K) (a b : Map K V)
      → Distinct a
      → lookup j (merge a b) ≡ or_else (lookup j a) (lookup j b)
  unfolding merge lookup
  lookup-merge j [] b d = refl
  lookup-merge j ((k, v) ∷ a) b d =
      ground (arith, lookup-merge j a (insert k v b) d.1, lookup-insert k j v b, ==_iff k j)

  -- Copying entries of which none is in the target adds as many entries.
  pub length-merge :
      (a b : Map K V)
      → Distinct a
      → ((k : K) → (lookup k a ≡ none) ⊎ (lookup k b ≡ none))
      → length (merge a b) ≡ length a + length b
  unfolding merge lookup
  length-merge [] b d apart = omega arith
  length-merge ((k, v) ∷ a) b d apart =
      let rest =
        length-merge a (insert k v b) d.1
          λ j. ground (arith, apart j, lookup-insert k j v b, ==_iff k j, d.0) in
      ground (arith, rest, length-insert k v b, apart k, ==_iff k k)

  -- What holds of the value written and of all others holds of all values afterwards.
  pub values-insert {ι} :
      (P : V → Type ι) (k : K) (v : V) (m : Map K V)
      → ((j : K) (w : V) → lookup j m ≡ some w → P w)
      → P v
      → (j : K) (w : V) → lookup j (insert k v m) ≡ some w
      → P w
  values-insert P k v m old new j w e = elim (Bool-cases (k == j)) [
    | inl hit ↦ subst P (ground (arith, lookup-insert k j v m)) new
    | inr miss ↦ old j w (ground (arith, lookup-insert k j v m))
  ]
