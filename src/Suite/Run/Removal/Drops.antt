-- ===== src/Suite/Run/Removal/Drops.antt =====
-- What a removal does to a graph that removals work on.
use package_index.Base.{
  ℕ, suc, ◌<◌, true, false, List, [], ◌∷◌, ◌≡◌, refl, All, Name, bytes_eq, arith, Bool-cases, inl,
  inr, ◌==◌, bytes_beq_iff,
}
use package_index.Base.Maps.{has, erase}
use package_index.Base.Sets.{contains}
use package_index.Index.Graph.{
  Graph, IsOrdered, is_needed, is_needed-dependents, drop_package, erase-IsOrdered, has-erase_self,
}
use package_index.Suite.Packages.{AllPackages, names}
use package_index.Suite.Run.Passed.{Below}

-- What depends on a package among `ps` is among `ps` too, and ranks below it.
abbrev pub IsHeld : AllPackages → (Name → ℕ) → Name × List Name → Type 0
IsHeld ps rank (x, ds) =
    (d : Name)
    → contains ds d ≡ true
    → contains (names ps) d ≡ true
    → (contains (names ps) x ≡ true) × (rank x < rank d)

-- A graph that removals work on.
pub record IsRemovable (ps : AllPackages) (rank : Name → ℕ) (g : Graph) : Type 0 where
  pub ordered : IsOrdered g
  pub held : All (IsHeld ps rank) g

not_has-erase : (x k : Name) (g : Graph) → has x g ≡ false → has x (erase k g) ≡ false
unfolding has erase
not_has-erase x k [] h = refl
not_has-erase x k ((j, ds) ∷ g) h = ground (arith, not_has-erase x k g)

pub has-drop_package :
    (x k : Name) (g : Graph) → has x g ≡ false → has x (drop_package k g).0 ≡ false
unfolding drop_package
has-drop_package x k g h = ground (arith, not_has-erase x k g)

-- A package that is dropped is gone.
pub has-dropped :
    (k : Name) (g : Graph)
    → IsOrdered g
    → (drop_package k g).1 ≡ true
    → has k (drop_package k g).0 ≡ false
unfolding drop_package
has-dropped k g o h = ground (arith, has-erase_self k g o)

erase-IsHeld :
    (ps : AllPackages) (rank : Name → ℕ) (k : Name) (g : Graph)
    → All (IsHeld ps rank) g
    → All (IsHeld ps rank) (erase k g)
unfolding erase
erase-IsHeld ps rank k [] h = tt
erase-IsHeld ps rank k ((j, ds) ∷ g) h = elim (Bool-cases (j == k)) [
  | inl same ↦ rw same h.1
  | inr different ↦ rw different (h.0, erase-IsHeld ps rank k g h.1)
]

pub drop_package-IsRemovable :
    (ps : AllPackages) (rank : Name → ℕ) (k : Name) (g : Graph)
    → IsRemovable ps rank g
    → IsRemovable ps rank (drop_package k g).0
unfolding drop_package
drop_package-IsRemovable ps rank k g r = elim (Bool-cases (has k g)) [
  | inl there ↦ rw there (elim (Bool-cases (is_needed k g)) [
    | inl needed ↦ rw needed r
    | inr free ↦ rw free (record {
      ordered = erase-IsOrdered k g (ground (arith, is_needed-dependents k g)) r.ordered;
      held = erase-IsHeld ps rank k g r.held;
    })
  ])
  | inr missing ↦ rw missing r
]

-- Nothing that is there needs a package that ranks at most `k`, once those below `k` are gone.
is_needed-Below :
    (ps : AllPackages) (rank : Name → ℕ) (k : ℕ) (d : Name) (g : Graph)
    → All (IsHeld ps rank) g
    → ((x : Name) → contains (names ps) x ≡ true → rank x < k → has x g ≡ false)
    → contains (names ps) d ≡ true
    → rank d < suc k
    → is_needed d g ≡ false
unfolding is_needed has
is_needed-Below ps rank k d [] h low c l = refl
is_needed-Below ps rank k d ((x, ds) ∷ g) h low c l = elim (Bool-cases (contains ds d)) [
  | inl needs ↦
      let held = h.0 d needs c in
      absurd (ground (arith, low x held.0 (omega (arith, held.1)), bytes_beq_iff x x))
  | inr free ↦
      rw free (is_needed-Below ps rank k d g h.1 (λ y cy ly. ground (arith, low y cy ly)) c l)
]

pub forced-free :
    (ps : AllPackages) (rank : Name → ℕ) (k : ℕ) (d : Name) (g : Graph)
    → IsRemovable ps rank g
    → Below false ps rank k g
    → contains (names ps) d ≡ true
    → rank d < suc k
    → (drop_package d g).1 ≡ true
unfolding drop_package
forced-free ps rank k d g r low c l = ground (arith, is_needed-Below ps rank k d g r.held low c l)
