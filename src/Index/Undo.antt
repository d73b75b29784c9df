-- ===== src/Index/Undo.antt =====
-- The graph determines the whole map, so a removal undoes an addition.
use package_index.Base.{
  suc, ◌<◌, Bool, true, false, none, some, List, [], ◌∷◌, ◌≡◌, ◌∙◌, sym, refl, ap, Name, length,
  ◌==◌, ==-refl, bytes_eq, bytes_beq_iff, arith, Bool-cases, Option-cases, inl, inr, subst,
}
use package_index.Base.Int64.{int64_bound}
use package_index.Base.Sets.{Distinct}
use package_index.Base.Maps.{lookup, has, lookup-of_not_has, not_has-of_lookup}
use package_index.Index.Graph.{Graph, IsOrdered, add_package, drop_package-newest}
use package_index.Index.View.{
  graph, has-graph, lookup-graph, length-graph, entry_at_missing, entry_at-of_lookup,
}
use package_index.Index.Invariant.{Inv, trim, index-Inv}
use package_index.Index.Removal.{remove-Inv}
use package_index.Index.Refinement.{index-add_package, remove-drop_package}
use package_index.Index.{Deps, range, Entry, Index, entry_at, index, remove}

entry_at_head : (k : Name) (e : Entry) (m : Index) → entry_at k ((k, e) ∷ m) ≡ e
entry_at_head k e m = entry_at-of_lookup k _ (unfold lookup in rw (==-refl k))

entry_at_tail :
    (k d : Name) (e : Entry) (m : Index) → (k == d) ≡ false → entry_at d ((k, e) ∷ m) ≡ entry_at d m
unfolding entry_at lookup
entry_at_tail k d e m h = rw (h, entry_at)

-- Two maps with the same graph and the same entries are the same.
index-ext :
    (m m' : Index)
    → graph m ≡ graph m'
    → IsOrdered (graph m)
    → ((d : Name) → entry_at d m ≡ entry_at d m')
    → m ≡ m'
unfolding graph
index-ext [] [] g o h = refl
index-ext [] ((k, e) ∷ m') g o h = cc
index-ext ((k, e) ∷ m) [] g o h = cc
index-ext ((k, e) ∷ m) ((k', e') ∷ m') g o h =
    let kk : k ≡ k' = cc in
    let gg : graph m ≡ graph m' = cc in
    let ee : e ≡ e' = sym (entry_at_head k e m) ∙ h k ∙ rw kk (entry_at_head k' e' m') in
    let rest = index-ext m m' gg o.3 (λ d. elim (Bool-cases (k == d)) [
      | inl same ↦
          let kd = (bytes_beq_iff k d).0 same in
          rw (← kd, entry_at_missing k m (sym (has-graph k m) ∙ o.0))
            (sym (entry_at_missing k m' (sym (has-graph k m') ∙ rw gg at o.0)))
      | inr other ↦
          sym (entry_at_tail k d e m other) ∙ h d ∙ entry_at_tail k' d e' m' (rw kk at other)
    ]) in
    cc

trim-ext : (a b : Deps) → trim a ≡ a → trim b ≡ b → range a ≡ range b → a ≡ b
trim-ext none none p q r = refl
trim-ext none (some []) p q r = cc
trim-ext none (some (d ∷ ds)) p q r = cc
trim-ext (some []) b p q r = cc
trim-ext (some (d ∷ ds)) none p q r = cc
trim-ext (some (d ∷ ds)) (some es) p q r = ap some r

edges : Name → Graph → List Name
edges d g = elim (lookup d g) [ none ↦ [] | some ds ↦ ds ]

range-entry_at : (d : Name) (m : Index) → range (entry_at d m).deps ≡ edges d (graph m)
unfolding edges
range-entry_at d m = elim (Option-cases (lookup d m)) [
  | inl missing ↦
      let out = not_has-of_lookup d m missing in
      rw (entry_at_missing d m out, edges, lookup-of_not_has d (graph m) (has-graph d m ∙ out))
  | inr (e, found) ↦ rw (entry_at-of_lookup d m found, edges, lookup-graph d m found)
]

range-lookup :
    (d : Name) (m m' : Index)
    → graph m ≡ graph m'
    → range (entry_at d m).deps ≡ range (entry_at d m').deps
range-lookup d m m' h = range-entry_at d m ∙ rw h (sym (range-entry_at d m'))

entry-ext : (a b : Entry) → a.ref_count ≡ b.ref_count → a.deps ≡ b.deps → a ≡ b
entry-ext a b p q = λ i. record { ref_count = p i; deps = q i }

-- States between calls that show the same graph are the same state.
pub Inv-ext : (m m' : Index) → Inv m → Inv m' → graph m ≡ graph m' → m ≡ m'
Inv-ext m m' v v' h = index-ext m m' h v.ordered (λ d.
    entry-ext _ _ (v.counted d ∙ rw h (sym (v'.counted d)))
      (trim-ext _ _ (v.trimmed d) (v'.trimmed d) (range-lookup d m m' h)))

index_grows :
    (pkg : Name) (deps : Deps) (m m' : Index)
    → Inv m
    → suc (length m) < int64_bound
    → Distinct (range deps)
    → has pkg m ≡ false
    → index pkg deps m ≡ (m', true)
    → graph m' ≡ (pkg, range deps) ∷ graph m
unfolding add_package
index_grows pkg deps m m' v small u fresh added =
    ground (arith, added, index-add_package pkg deps m v (omega arith) u, has-graph pkg m, fresh)

-- Removing a package that was just added puts every count and every set back, in a map that keeps
-- the invariant, had no such package and has room, if the set has no key twice.
pub remove-index :
    (pkg : Name) (deps : Deps) (m m' : Index)
    → Inv m
    → suc (length m) < int64_bound
    → Distinct (range deps)
    → has pkg m ≡ false
    → index pkg deps m ≡ (m', true)
    → remove pkg m' ≡ (m, true)
remove-index pkg deps m m' v small u fresh added =
    let v' =
      subst Inv (ap (λ (r : Index × Bool). r.0) added) (index-Inv pkg deps m v (omega arith) u) in
    let grown = index_grows pkg deps m m' v small u fresh added in
    let shrunk = rw grown at (remove-drop_package pkg m' v' (shorter grown)) in
    let back = shrunk ∙ drop_package-newest pkg (range deps) (graph m) (rw grown at v'.ordered) in
    let same =
      Inv-ext (remove pkg m').0 m (remove-Inv pkg m' v' (shorter grown)) v
        (ap (λ (r : Graph × Bool). r.0) back) in
    λ i. (same i, (back i).1)
  where
    shorter : graph m' ≡ (pkg, range deps) ∷ graph m → length m' < int64_bound
    shorter grown =
        omega (arith, ap (λ (g : Graph). length g) grown, length-graph m, length-graph m')
