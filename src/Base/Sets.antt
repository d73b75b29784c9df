-- ===== src/Base/Sets.antt =====
-- A Go `map[K]struct{}`: the list of its keys, each once. The list's order is the order in which
-- `range` happens to visit them, which Go leaves open.
use mathlib.Core.Path.{◌≡◌, refl}
use mathlib.Core.Logic.{inl, inr}
use mathlib.Core.Bool.{Bool, false, ◌||◌}
use mathlib.Core.List.{List, [], ◌∷◌, ◌++◌}
use native.Mathlib.Omega.{arith}
use package_index.Base.Tests.{Eq, ◌==◌, if◌then◌else◌, Bool-cases}

module _ {ℓ} {K : Type ℓ} ⦃e : Eq K⦄ where
  unfoldable pub contains : List K → K → Bool
  contains [] k = false
  contains (x ∷ xs) k = x == k || contains xs k

  -- `s[k] = struct{}{}`
  unfoldable pub add : List K → K → List K
  add s k = if contains s k then s else s ++ k ∷ []

  -- No key twice.
  abbrev pub Distinct : List K → Type 0
  Distinct [] = Unit
  Distinct (x ∷ xs) = (contains xs x ≡ false) × Distinct xs

  -- The same keys, in whatever order.
  abbrev pub SameKeys : List K → List K → Type ℓ
  SameKeys s t = (k : K) → contains s k ≡ contains t k

module _ {ℓ} {K : Type ℓ} ⦃e : Eq K⦄ where
  pub contains-append :
      (xs ys : List K) (k : K) → contains (xs ++ ys) k ≡ (contains xs k || contains ys k)
  unfolding contains
  contains-append [] ys k = refl
  contains-append (x ∷ xs) ys k = ground (arith, contains-append xs ys k)

  pub contains-add : (s : List K) (k j : K) → contains (add s k) j ≡ (contains s j || k == j)
  unfolding add contains
  contains-add s k j = elim (Bool-cases (contains s k)) [
    | inl old ↦ rw old (ground (arith, e.beq_iff k j))
    | inr new ↦ rw new (ground (arith, contains-append s (k ∷ []) j))
  ]

  pub append-Distinct :
      (s : List K) (k : K) → Distinct s → contains s k ≡ false → Distinct (s ++ k ∷ [])
  unfolding contains
  append-Distinct [] k d h = (refl, tt)
  append-Distinct (x ∷ xs) k d h =
      ground (
        arith,
        append-Distinct xs k d.1,
        contains-append xs (k ∷ []) x,
        e.beq_iff x k,
        e.beq_iff k x,
      )

  pub add-Distinct : (s : List K) (k : K) → Distinct s → Distinct (add s k)
  unfolding add
  add-Distinct s k d = elim (Bool-cases (contains s k)) [
    | inl old ↦ rw old d
    | inr new ↦ rw new (append-Distinct s k d new)
  ]
