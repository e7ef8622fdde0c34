-- ===== src/Shared/Map.antt =====
-- Go's maps as association lists. A `range` visits the entries in the order of the list, so what is
-- proved for every list holds for every order of iteration.
use multiserver.Shared.Tests.{Eq, ◌==◌, if◌then◌else◌}
use mathlib.Core.Path.{◌≡◌, refl}
use mathlib.Core.Bool.{Bool, false, ◌||◌}
use mathlib.Core.List.{List, [], ◌∷◌}
use mathlib.Core.Option.{Option, none, some}
use native.Mathlib.Omega.{arith}

abbrev pub GoMap {ℓ κ} : Type ℓ → Type κ → Type (ℓ ⊔ κ)
GoMap K V = List (K × V)

abbrev pub keys {ℓ κ} : {K : Type ℓ} {V : Type κ} → GoMap K V → List K
keys [] = []
keys ((k, v) ∷ m) = k ∷ keys m

module _ {ℓ κ} {K : Type ℓ} {V : Type κ} ⦃e : Eq K⦄ where
  -- `v, ok := m[k]`
  unfoldable pub lookup : K → GoMap K V → Option V
  lookup k [] = none
  lookup k ((j, v) ∷ m) = if j == k then some v else lookup k m

  -- `m[k] = v`
  unfoldable pub insert : K → V → GoMap K V → GoMap K V
  insert k v [] = (k, v) ∷ []
  insert k v ((j, w) ∷ m) = if j == k then (j, v) ∷ m else (j, w) ∷ insert k v m

  -- `delete(m, k)`
  unfoldable pub erase : K → GoMap K V → GoMap K V
  erase k [] = []
  erase k ((j, w) ∷ m) = let rest = erase k m in if j == k then rest else (j, w) ∷ rest

  -- A map has one entry for a key.
  abbrev pub NodupKeys : GoMap K V → Type κ
  NodupKeys [] = Unit
  NodupKeys ((k, v) ∷ m) = (lookup k m ≡ none) × NodupKeys m

  pub lookup-insert :
      (j k : K) (v : V) (m : GoMap K V)
      → lookup j (insert k v m) ≡ (if k == j then some v else lookup j m)
  unfolding lookup insert
  lookup-insert j k v [] = refl
  lookup-insert j k v ((i, w) ∷ m) =
      ground (arith, e.same_iff k j, e.same_iff i k, e.same_iff i j, lookup-insert j k v m)

  pub lookup-erase :
      (j k : K) (m : GoMap K V) → lookup j (erase k m) ≡ (if k == j then none else lookup j m)
  unfolding lookup erase
  lookup-erase j k [] = ground arith
  lookup-erase j k ((i, w) ∷ m) =
      ground (arith, e.same_iff k j, e.same_iff i k, e.same_iff i j, lookup-erase j k m)

  pub insert-NodupKeys : (k : K) (v : V) (m : GoMap K V) → NodupKeys m → NodupKeys (insert k v m)
  unfolding insert lookup
  insert-NodupKeys k v [] _ = (refl, tt)
  insert-NodupKeys k v ((j, w) ∷ m) (fresh, u) =
      ground
        (arith, e.same_iff j k, e.same_iff k j, insert-NodupKeys k v m u, lookup-insert j k v m)

-- Whether a list has a value.
unfoldable pub contains {ℓ} : {K : Type ℓ} ⦃e : Eq K⦄ → K → List K → Bool
contains k [] = false
contains k (j ∷ js) = j == k || contains k js

-- `m[k]` of a map of booleans: `false` where the key is missing.
unfoldable pub holds {ℓ} : {K : Type ℓ} ⦃e : Eq K⦄ → K → GoMap K Bool → Bool
holds k m = elim (lookup k m) [ none ↦ false | some b ↦ b ]

module _ {ℓ} {K : Type ℓ} ⦃e : Eq K⦄ where
  pub holds-cons :
      (j k : K) (b : Bool) (m : GoMap K Bool)
      → holds j ((k, b) ∷ m) ≡ (if k == j then b else holds j m)
  unfolding holds lookup
  holds-cons j k b m = ground arith

  pub holds_missing : (k : K) (m : GoMap K Bool) → lookup k m ≡ none → holds k m ≡ false
  unfolding holds
  holds_missing k m h = rw (h, holds)

  pub holds-insert :
      (j k : K) (b : Bool) (m : GoMap K Bool)
      → holds j (insert k b m) ≡ (if k == j then b else holds j m)
  unfolding holds
  holds-insert j k b m = ground (arith, lookup-insert j k b m)
