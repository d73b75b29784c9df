-- ===== src/Index/Removal.antt =====
-- A removal keeps the invariant, and so does every history.
use package_index.Base.{
  ◌<◌, true, false, none, some, ◌≡◌, ◌∙◌, ◌≢◌, ap, sym, Name, length, ◌==◌, ==-refl, bytes_eq,
  bytes_beq_iff, if◌then◌else◌, arith, Bool-cases, Option-cases, inl, inr, ltb,
}
use package_index.Base.Int64.{int64_bound, dec, dec_lem, is_pos_lem}
use package_index.Base.Sets.{Distinct}
use package_index.Base.Maps.{lookup, has, erase}
use package_index.Index.Graph.{
  has_all, dependents, IsOrdered, dependents-le-length, dependents-of_missing, contains-of_has_all,
  erase-IsOrdered, dependents-erase, has-erase_self, node-IsOrdered,
}
use package_index.Index.View.{
  graph, has-graph, has_all-graph, lookup-graph, graph-erase, length-graph, graph-bump_all,
  entry_at-bump_all, deps-bump_all, entry_at-erase_ne, entry_at_missing, entry_at-of_lookup,
}
use package_index.Index.Invariant.{Inv, trim}
use package_index.Index.{range, Entry, Index, entry_at, bump_all, all_indexed, remove}

module _ (pkg : Name) (e : Entry) (m : Index) (v : Inv m) (small : length m < int64_bound)
    (found : lookup pkg m ≡ some e) (free : dependents pkg (graph m) ≡ 0) where
  abbrev dropped : Index
  dropped = bump_all dec (range e.deps) (erase pkg m)

  node : (has_all (range e.deps) (erase pkg (graph m)) ≡ true) × Distinct (range e.deps)
  node = node-IsOrdered pkg (range e.deps) (graph m) v.ordered (lookup-graph pkg m found)

  there : all_indexed (range e.deps) (erase pkg m) ≡ true
  there = sym (has_all-graph (range e.deps) _) ∙ rw (graph-erase pkg m) node.0

  pub graph-dropped : graph dropped ≡ erase pkg (graph m)
  graph-dropped = graph-bump_all dec (range e.deps) _ there ∙ graph-erase pkg m

  rest-IsOrdered : IsOrdered (erase pkg (graph m))
  rest-IsOrdered = erase-IsOrdered pkg (graph m) free v.ordered

  gone : has pkg (erase pkg (graph m)) ≡ false
  gone = has-erase_self pkg (graph m) v.ordered

  absent : has pkg (erase pkg m) ≡ false
  absent = sym (has-graph pkg _) ∙ rw (graph-erase pkg m) gone

  dropped_self : (entry_at pkg dropped).ref_count ≡ dependents pkg (erase pkg (graph m))
  dropped_self = ground (
    arith,
    entry_at-bump_all dec (range e.deps) pkg (erase pkg m) node.1,
    entry_at_missing pkg (erase pkg m) absent,
    dependents-of_missing pkg (erase pkg (graph m)) rest-IsOrdered gone,
    contains-of_has_all (range e.deps) pkg (erase pkg (graph m)) node.0 gone,
  )

  dropped_ne :
      (d : Name) → pkg ≢ d → (entry_at d dropped).ref_count ≡ dependents d (erase pkg (graph m))
  dropped_ne d ne = ground (
    arith,
    entry_at-bump_all dec (range e.deps) d (erase pkg m) node.1,
    entry_at-erase_ne pkg d m ne,
    v.counted d,
    dependents-erase pkg d (range e.deps) (graph m) (lookup-graph pkg m found),
    dec_lem (entry_at d m).ref_count,
    dependents-le-length d (graph m),
    length-graph m,
    small,
  )

  dropped-counted : (d : Name) → (entry_at d dropped).ref_count ≡ dependents d (graph dropped)
  dropped-counted d = rw graph-dropped (elim (Bool-cases (pkg == d)) [
    | inl same ↦ rw (← (bytes_beq_iff pkg d).0 same) dropped_self
    | inr other ↦ dropped_ne d (λ p. cc (==-refl pkg, ap (λ (x : Name). pkg == x) p))
  ])

  dropped-trimmed : (d : Name) → trim (entry_at d dropped).deps ≡ (entry_at d dropped).deps
  dropped-trimmed d =
      rw (deps-bump_all dec (range e.deps) d (erase pkg m) node.1) (elim (Bool-cases (pkg == d)) [
        | inl same ↦ rw (← (bytes_beq_iff pkg d).0 same, entry_at_missing pkg _ absent)
        | inr other ↦
            rw (entry_at-erase_ne pkg d m (λ p. cc (==-refl pkg, ap (λ (x : Name). pkg == x) p)))
              (v.trimmed d)
      ])

  pub dropped-Inv : Inv dropped
  dropped-Inv = record {
    ordered = rw graph-dropped rest-IsOrdered;
    counted = dropped-counted;
    trimmed = dropped-trimmed;
  }

pub remove_missing : (pkg : Name) (m : Index) → lookup pkg m ≡ none → remove pkg m ≡ (m, true)
unfolding remove
remove_missing pkg m missing = rw (missing, remove)

-- `Remove`, with its test on the stored count read as a test on the graph.
pub remove_found :
    (pkg : Name) (e : Entry) (m : Index)
    → Inv m
    → length m < int64_bound
    → lookup pkg m ≡ some e
    → remove pkg m ≡ (
        if ltb 0 (dependents pkg (graph m))
        then (m, false)
        else (bump_all dec (range e.deps) (erase pkg m), true))
unfolding remove
remove_found pkg e m v small found =
    rw (found, remove)
      (ground (
        arith,
        entry_at-of_lookup pkg m found,
        v.counted pkg,
        is_pos_lem e.ref_count,
        dependents-le-length pkg (graph m),
        length-graph m,
      ))

-- `Remove` keeps the invariant, whether it removes or not.
pub remove-Inv : (pkg : Name) (m : Index) → Inv m → length m < int64_bound → Inv (remove pkg m).0
remove-Inv pkg m v small = elim (Option-cases (lookup pkg m)) [
  | inl missing ↦ rw (remove_missing pkg m missing) v
  | inr (e, found) ↦
      rw (remove_found pkg e m v small found)
        (elim (Bool-cases (ltb 0 (dependents pkg (graph m)))) [
          | inl needed ↦ rw needed v
          | inr free ↦ rw free (dropped-Inv pkg e m v small found (ground arith))
        ])
]
