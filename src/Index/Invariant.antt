-- ===== src/Index/Invariant.antt =====
-- What holds of the index between calls.
use package_index.Base.{
  ◌<◌, true, false, none, some, [], ◌∷◌, ◌≡◌, ◌∙◌, refl, Name, length, ◌==◌, bytes_eq, nat_eq,
  bytes_beq_iff, if◌then◌else◌, arith, Bool-cases, inl, inr,
}
use package_index.Base.Int64.{int64_bound, inc, inc_lem}
use package_index.Base.Sets.{contains, Distinct}
use package_index.Base.Maps.{has, insert}
use package_index.Index.Graph.{
  dependents, IsOrdered, dependents-le-length, dependents-of_missing, contains-of_has_all,
}
use package_index.Index.View.{
  graph, has-graph, has_all-graph, length-graph, graph-bump_all, has-bump_all, entry_at-bump_all,
  graph-insert, entry_at-insert, deps-bump_all,
}
use package_index.Index.{Deps, range, Entry, Index, entry_at, bump_all, all_indexed, index}

-- Empty sets of dependencies are not kept.
abbrev pub trim : Deps → Deps
trim (some (d ∷ ds)) = some (d ∷ ds)
trim _ = none

-- Each count is the number of packages that depend on the entry, and no chain of dependencies
-- leaves the index or closes on itself.
pub record Inv (m : Index) : Type 0 where
  pub ordered : IsOrdered (graph m)
  pub counted : (d : Name) → (entry_at d m).ref_count ≡ dependents d (graph m)
  pub trimmed : (d : Name) → trim (entry_at d m).deps ≡ (entry_at d m).deps

abbrev new_entry : Deps → Entry
new_entry deps = record { ref_count = 0; deps = trim deps }

-- `Index` with the branch on the size of `deps` folded in.
pub index_lem :
    (pkg : Name) (deps : Deps) (m : Index)
    → index pkg deps m ≡ (
        if has pkg m
        then (m, true)
        else if all_indexed (range deps) m
        then (
          insert pkg (record { ref_count = 0; deps = trim deps }) (bump_all inc (range deps) m),
          true,
        )
        else (m, false))
unfolding index bump_all all_indexed
index_lem pkg none m = refl
index_lem pkg (some []) m = refl
index_lem pkg (some (d ∷ ds)) m = ground arith

range-trim : (deps : Deps) → range (trim deps) ≡ range deps
range-trim none = refl
range-trim (some []) = refl
range-trim (some (d ∷ ds)) = refl

trim-trim : (deps : Deps) → trim (trim deps) ≡ trim deps
trim-trim none = refl
trim-trim (some []) = refl
trim-trim (some (d ∷ ds)) = refl

module _ (pkg : Name) (deps : Deps) (m : Index) (v : Inv m) (small : length m < int64_bound)
    (distinct : Distinct (range deps)) (fresh : has pkg m ≡ false)
    (there : all_indexed (range deps) m ≡ true) where
  abbrev added : Index
  added = insert pkg (new_entry deps) (bump_all inc (range deps) m)

  absent : has pkg (bump_all inc (range deps) m) ≡ false
  absent = has-bump_all inc (range deps) pkg m there ∙ fresh

  pub graph-added : graph added ≡ (pkg, range deps) ∷ graph m
  graph-added =
      graph-insert pkg (new_entry deps) _ absent
      ∙ rw (range-trim deps, graph-bump_all inc (range deps) m there)

  unneeded : dependents pkg (graph m) ≡ 0
  unneeded = dependents-of_missing pkg (graph m) v.ordered (has-graph pkg m ∙ fresh)

  not_own : contains (range deps) pkg ≡ false
  not_own =
      contains-of_has_all (range deps) pkg (graph m) (has_all-graph (range deps) m ∙ there)
        (has-graph pkg m ∙ fresh)

  added-counted : (d : Name) → (entry_at d added).ref_count ≡ dependents d (graph added)
  unfolding dependents
  added-counted d = rw graph-added (
      ground (
        arith,
        entry_at-insert pkg d (new_entry deps) (bump_all inc (range deps) m),
        entry_at-bump_all inc (range deps) d m distinct,
        v.counted d,
        unneeded,
        not_own,
        bytes_beq_iff pkg d,
        inc_lem (entry_at d m).ref_count,
        dependents-le-length d (graph m),
        length-graph m,
        small,
      ))

  added-trimmed : (d : Name) → trim (entry_at d added).deps ≡ (entry_at d added).deps
  added-trimmed d = elim (Bool-cases (pkg == d)) [
    | inl same ↦ rw (entry_at-insert pkg d (new_entry deps) _) (rw same (trim-trim deps))
    | inr other ↦
        rw (entry_at-insert pkg d (new_entry deps) _)
          (rw other (rw (deps-bump_all inc (range deps) d m distinct) (v.trimmed d)))
  ]

  added-Inv : Inv added
  added-Inv = record {
    ordered =
        rw graph-added
          (has-graph pkg m ∙ fresh, has_all-graph (range deps) m ∙ there, distinct, v.ordered);
    counted = added-counted;
    trimmed = added-trimmed;
  }

-- `Index` keeps the invariant while the index is too small for a count to overflow.
pub index-Inv :
    (pkg : Name) (deps : Deps) (m : Index)
    → Inv m
    → length m < int64_bound
    → Distinct (range deps)
    → Inv (index pkg deps m).0
index-Inv pkg deps m v small distinct = rw (index_lem pkg deps m) (elim (Bool-cases (has pkg m)) [
  | inl old ↦ rw old v
  | inr fresh ↦ rw fresh (elim (Bool-cases (all_indexed (range deps) m)) [
    | inl there ↦ rw there (added-Inv pkg deps m v small distinct fresh there)
    | inr missing ↦ rw missing v
  ])
])
