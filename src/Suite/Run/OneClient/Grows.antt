-- ===== src/Suite/Run/OneClient/Grows.antt =====
-- What indexing packages makes of a graph that removals work on.
use package_index.Base.{
  ℕ, suc, ◌-◌, ◌<◌, true, List, [], ◌∷◌, ◌≡◌, All, All-append, Name, bytes_eq, bytes_beq_iff, arith,
  subst, Bool-cases, inl, inr, ◌==◌,
}
use package_index.Base.Maps.{has}
use package_index.Base.Sets.{contains, add}
use package_index.Index.{range}
use package_index.Index.Graph.{Graph, add_package, has_all}
use package_index.Server.WireFormat.Grammar.{add_all, deps_of, deps_of-Distinct}
use package_index.Suite.Packages.{Package, AllPackages, names}
use package_index.Suite.Run.Passed.{IsReady}
use package_index.Suite.Run.Removal.{IsRemovable}

add-All : (Q : Name → Type 0) (s : List Name) (d : Name) → All Q s → Q d → All Q (add s d)
unfolding add
add-All Q s d h k = elim (Bool-cases (contains s d)) [
  | inl there ↦ rw there h
  | inr new ↦ rw new (All-append Q s (d ∷ []) h (k, tt))
]

add_all-All : (Q : Name → Type 0) (s ds : List Name) → All Q s → All Q ds → All Q (add_all s ds)
add_all-All Q s [] h k = h
add_all-All Q s (d ∷ ds) h k = add_all-All Q (add s d) ds (add-All Q s d h k.0) k.1

deps_of-All : (Q : Name → Type 0) (ds : List Name) → All Q ds → All Q (range (deps_of ds))
deps_of-All Q [] h = tt
deps_of-All Q (d ∷ ds) h = add_all-All Q [] (d ∷ ds) tt h

All-contains :
    (Q : Name → Type 0) (ds : List Name) (d : Name) → All Q ds → contains ds d ≡ true → Q d
unfolding contains
All-contains Q [] d h c = cc
All-contains Q (x ∷ ds) d h c = elim (Bool-cases (x == d)) [
  | inl same ↦ subst Q ((bytes_beq_iff x d).0 same) h.0
  | inr other ↦ All-contains Q ds d h.1 (rw other at c)
]

-- The other way round: what ranks high for indexing ranks low for removing.
abbrev pub flipped : ℕ → (Name → ℕ) → Name → ℕ
flipped bound rank x = bound - suc (rank x)

pub add_package-IsRemovable :
    (all ps : AllPackages) (rank : Name → ℕ) (bound : ℕ) (p : Package)
    (ready : IsReady all ps rank p) (g : Graph)
    → contains (names ps) p.name ≡ true
    → rank p.name < bound
    → IsRemovable ps (flipped bound rank) g
    → IsRemovable ps (flipped bound rank) (add_package p.name (range (deps_of ready.deps)) g).0
unfolding add_package
add_package-IsRemovable all ps rank bound p ready g among below r =
    elim (Bool-cases (has p.name g)) [
      | inl old ↦ rw old r
      | inr fresh ↦ rw fresh (elim (Bool-cases (has_all (range (deps_of ready.deps)) g)) [
        | inl there ↦ rw there (record {
          ordered = (fresh, there, deps_of-Distinct ready.deps, r.ordered);
          held = (
            (λ d c i.
                let ranks =
                  All-contains _ (range (deps_of ready.deps)) d
                    (deps_of-All _ ready.deps ready.ranked) c in
                (among, omega (arith, ranks.0, below))),
            r.held,
          );
        })
        | inr missing ↦ rw missing r
      ])
    ]
