-- ===== src/Base/Maps.antt =====
-- A Go map as an association list, each key once. An insertion puts a new key in front and
-- otherwise writes in place.
use mathlib.Core.Path.{◌≡◌, refl}
use mathlib.Core.Logic.{◌≢◌, inl, inr}
use mathlib.Core.Bool.{Bool, true, false, ◌||◌}
use mathlib.Core.Option.{Option, none, some}
use mathlib.Core.List.{List, [], ◌∷◌}
use native.Mathlib.Omega.{arith}
use package_index.Base.Tests.{Eq, ◌==◌, if◌then◌else◌, Bool-cases}

module _ {ℓ κ} {K : Type ℓ} {V : Type κ} ⦃e : Eq K⦄ where
  -- `v, ok := m[k]`
  unfoldable pub lookup : K → List (K × V) → Option V
  lookup k [] = none
  lookup k ((j, v) ∷ m) = if j == k then some v else lookup k m

  -- `_, ok := m[k]`
  unfoldable pub has : K → List (K × V) → Bool
  has k [] = false
  has k ((j, v) ∷ m) = j == k || has k m

  unfoldable pub replace : K → V → List (K × V) → List (K × V)
  replace k v [] = []
  replace k v ((j, w) ∷ m) = if j == k then (j, v) ∷ m else (j, w) ∷ replace k v m

  -- `m[k] = v`
  unfoldable pub insert : K → V → List (K × V) → List (K × V)
  insert k v m = if has k m then replace k v m else (k, v) ∷ m

  -- `delete(m, k)`
  unfoldable pub erase : K → List (K × V) → List (K × V)
  erase k [] = []
  erase k ((j, v) ∷ m) = if j == k then m else (j, v) ∷ erase k m

module _ {ℓ κ} {K : Type ℓ} {V : Type κ} ⦃e : Eq K⦄ where
  pub lookup-of_not_has : (k : K) (m : List (K × V)) → has k m ≡ false → lookup k m ≡ none
  unfolding lookup has
  lookup-of_not_has k [] h = refl
  lookup-of_not_has k ((j, v) ∷ m) h = ground (arith, lookup-of_not_has k m)

  pub lookup-of_has : (k : K) (m : List (K × V)) → has k m ≡ true → (v : V) × (lookup k m ≡ some v)
  unfolding lookup has
  lookup-of_has k [] h = cc
  lookup-of_has k ((j, v) ∷ m) h = elim (Bool-cases (j == k)) [
    | inl same ↦ rw same (v, refl)
    | inr other ↦ rw other (lookup-of_has k m (rw other at h))
  ]

  pub has-of_lookup : (k : K) (m : List (K × V)) {v : V} → lookup k m ≡ some v → has k m ≡ true
  unfolding lookup has
  has-of_lookup k [] h = cc
  has-of_lookup k ((j, w) ∷ m) {v} h = ground (arith, has-of_lookup k m {v = v})

  pub lookup-replace :
      (k j : K) (v : V) (m : List (K × V))
      → has k m ≡ true
      → lookup j (replace k v m) ≡ (if k == j then some v else lookup j m)
  unfolding lookup has replace
  lookup-replace k j v [] h = cc
  lookup-replace k j v ((i, w) ∷ m) h =
      ground (arith, e.beq_iff k j, e.beq_iff i k, e.beq_iff i j, lookup-replace k j v m)

  pub has-replace : (k j : K) (v : V) (m : List (K × V)) → has j (replace k v m) ≡ has j m
  unfolding has replace
  has-replace k j v [] = refl
  has-replace k j v ((i, w) ∷ m) = ground (arith, has-replace k j v m)

  -- Reading after a write.
  pub lookup-insert :
      (k j : K) (v : V) (m : List (K × V))
      → lookup j (insert k v m) ≡ (if k == j then some v else lookup j m)
  unfolding insert
  lookup-insert k j v m = elim (Bool-cases (has k m)) [
    | inl old ↦ rw old (lookup-replace k j v m old)
    | inr new ↦ rw new (unfold lookup in refl)
  ]

  pub has-insert : (k j : K) (v : V) (m : List (K × V)) → has j (insert k v m) ≡ (k == j || has j m)
  unfolding insert
  has-insert k j v m = elim (Bool-cases (has k m)) [
    | inl old ↦ rw old (rw (has-replace k j v m) (ground (arith, e.beq_iff k j)))
    | inr new ↦ rw new (unfold has in refl)
  ]

  pub has-erase_ne : (k j : K) (m : List (K × V)) → k ≢ j → has j (erase k m) ≡ has j m
  unfolding has erase
  has-erase_ne k j [] ne = refl
  has-erase_ne k j ((i, w) ∷ m) ne =
      ground (arith, e.beq_iff i k, e.beq_iff i j, has-erase_ne k j m)

  pub lookup-erase_ne : (k j : K) (m : List (K × V)) → k ≢ j → lookup j (erase k m) ≡ lookup j m
  unfolding lookup erase
  lookup-erase_ne k j [] ne = refl
  lookup-erase_ne k j ((i, w) ∷ m) ne =
      ground (arith, e.beq_iff i k, e.beq_iff i j, lookup-erase_ne k j m)

  pub not_has-of_lookup : (k : K) (m : List (K × V)) → lookup k m ≡ none → has k m ≡ false
  unfolding lookup has
  not_has-of_lookup k [] h = refl
  not_has-of_lookup k ((j, v) ∷ m) h = ground (arith, not_has-of_lookup k m)
