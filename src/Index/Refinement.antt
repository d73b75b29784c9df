-- ===== src/Index/Refinement.antt =====
-- The three methods do to the graph what the specification says, and so does every history.
use package_index.Base.{
  suc, ◌+◌, ◌≤◌, ◌<◌, Bool, true, List, [], ◌∷◌, ◌≡◌, refl, ap, sym, Name, length, bytes_eq, arith,
  Bool-cases, Option-cases, inl, inr, ltb, All,
}
use package_index.Base.Int64.{int64_bound}
use package_index.Base.Sets.{Distinct}
use package_index.Base.Maps.{lookup, has, erase, has-of_lookup, not_has-of_lookup}
use package_index.Index.Graph.{Graph, dependents, add_package, drop_package, is_needed-dependents}
use package_index.Index.View.{graph, has-graph, has_all-graph, length-graph}
use package_index.Index.Invariant.{Inv, index_lem, index-Inv, graph-added}
use package_index.Index.Removal.{graph-dropped, remove_missing, remove_found, remove-Inv}
use package_index.Index.{
  entry_at, Deps, range, Index, new_index, all_indexed, index, remove, query, Call, indexes,
  removes, queries, call, history,
}

-- A call's effect on the graph, and its result.
abbrev pub seen : Index × Bool → Graph × Bool
seen (m, ok) = (graph m, ok)

-- On each branch `Index` does to the graph what the specification does, and answers the same, from
-- a map that keeps the invariant and has fewer than 2 ^ 63 entries, for a set with no key twice.
pub index-add_package :
    (pkg : Name) (deps : Deps) (m : Index)
    → Inv m
    → length m < int64_bound
    → Distinct (range deps)
    → seen (index pkg deps m) ≡ add_package pkg (range deps) (graph m)
unfolding add_package
index-add_package pkg deps m v small distinct =
    rw (index_lem pkg deps m, has-graph pkg m, has_all-graph (range deps) m)
      (elim (Bool-cases (has pkg m)) [
        | inl old ↦ rw old
        | inr fresh ↦ rw fresh (elim (Bool-cases (all_indexed (range deps) m)) [
          | inl there ↦
              rw there (
                ap (λ (g : Graph). (g, true)) (graph-added pkg deps m v small distinct fresh there))
          | inr missing ↦ rw missing
        ])
      ])

-- On each branch `Remove` does to the graph what the specification does, and answers the same,
-- from a map that keeps the invariant and has fewer than 2 ^ 63 entries.
pub remove-drop_package :
    (pkg : Name) (m : Index)
    → Inv m
    → length m < int64_bound
    → seen (remove pkg m) ≡ drop_package pkg (graph m)
unfolding drop_package
remove-drop_package pkg m v small = elim (Option-cases (lookup pkg m)) [
  | inl missing ↦
      rw (remove_missing pkg m missing, has-graph pkg m, not_has-of_lookup pkg m missing)
  | inr (e, found) ↦
      rw
        (
          remove_found pkg e m v small found,
          has-graph pkg m,
          has-of_lookup pkg m found,
          is_needed-dependents pkg (graph m),
        )
        (elim (Bool-cases (ltb 0 (dependents pkg (graph m)))) [
          | inl needed ↦ rw needed
          | inr free ↦
              rw free
                (ap (λ (g : Graph). (g, true)) (graph-dropped pkg e m v small found (ground arith)))
        ])
]

pub query-has : (pkg : Name) (m : Index) → query pkg m ≡ has pkg (graph m)
unfolding query
query-has pkg m = sym (has-graph pkg m)

unfoldable pub spec_call : Call → Graph → Graph × Bool
spec_call (indexes pkg deps) g = add_package pkg (range deps) g
spec_call (removes pkg) g = drop_package pkg g
spec_call (queries pkg) g = (g, has pkg g)

unfoldable pub spec_history : List Call → Graph → Graph × List Bool
spec_history [] g = (g, [])
spec_history (c ∷ cs) g =
    let (g', ok) = spec_call c g in let (g'', oks) = spec_history cs g' in (g'', ok ∷ oks)

-- A Go map has no key twice.
abbrev pub IsCall : Call → Type 0
IsCall (indexes pkg deps) = Distinct (range deps)
IsCall _ = Unit

pub call-refines :
    (c : Call) (m : Index)
    → Inv m
    → length m < int64_bound
    → IsCall c
    → seen (call c m) ≡ spec_call c (graph m)
unfolding call spec_call
call-refines (indexes pkg deps) m v small d = index-add_package pkg deps m v small d
call-refines (removes pkg) m v small d = remove-drop_package pkg m v small
call-refines (queries pkg) m v small d = ap (λ (b : Bool). (graph m, b)) (query-has pkg m)

pub call-Inv : (c : Call) (m : Index) → Inv m → length m < int64_bound → IsCall c → Inv (call c m).0
unfolding call
call-Inv (indexes pkg deps) m v small d = index-Inv pkg deps m v small d
call-Inv (removes pkg) m v small d = remove-Inv pkg m v small
call-Inv (queries pkg) m v small d = v

length-erase-le : (pkg : Name) (g : Graph) → length (erase pkg g) ≤ length g
unfolding erase
length-erase-le pkg [] = omega arith
length-erase-le pkg ((k, ds) ∷ g) = ground (arith, length-erase-le pkg g)

length-spec_call : (c : Call) (g : Graph) → length (spec_call c g).0 ≤ suc (length g)
unfolding spec_call add_package drop_package
length-spec_call (indexes pkg deps) g = ground arith
length-spec_call (removes pkg) g = ground (arith, length-erase-le pkg g)
length-spec_call (queries pkg) g = omega arith

pub length-call :
    (c : Call) (m : Index)
    → Inv m
    → length m < int64_bound
    → IsCall c
    → length (call c m).0 ≤ suc (length m)
length-call c m v small d = omega (
  arith,
  length-graph m,
  length-graph (call c m).0,
  ap (λ (r : Graph × Bool). length r.0) (call-refines c m v small d),
  length-spec_call c (graph m),
)

pub new_index-Inv : Inv new_index
unfolding graph dependents entry_at lookup
new_index-Inv = record { ordered = tt; counted = λ d. refl; trimmed = λ d. refl }

-- From a map that keeps the invariant every history, with no key twice in its sets, that cannot
-- take the map beyond 2 ^ 63 entries keeps it.
pub history-Inv :
    (cs : List Call) (m : Index)
    → Inv m
    → length m + length cs ≤ int64_bound
    → All IsCall cs
    → Inv (history cs m).0
unfolding history
history-Inv [] m v small u = v
history-Inv (c ∷ cs) m v small u =
    history-Inv cs (call c m).0 (call-Inv c m v (omega arith) u.0)
      (omega (arith, length-call c m v (omega arith) u.0)) u.1

-- From any state that keeps the invariant, every history answers as the specification does.
pub history-spec_history :
    (cs : List Call) (m : Index)
    → Inv m
    → length m + length cs ≤ int64_bound
    → All IsCall cs
    → (graph (history cs m).0, (history cs m).1) ≡ spec_history cs (graph m)
unfolding history spec_history
history-spec_history [] m v small u = refl
history-spec_history (c ∷ cs) m v small u =
    let one = call-refines c m v (omega arith) u.0 in
    let rest =
      history-spec_history cs (call c m).0 (call-Inv c m v (omega arith) u.0)
        (omega (arith, length-call c m v (omega arith) u.0)) u.1 in
    rw (← one, ← rest)

-- A new index answers every history of at most 2 ^ 63 calls, whose sets have no key twice, as the
-- specification does, and its map ends as the specification's graph.
pub history-refines :
    (cs : List Call)
    → length cs ≤ int64_bound
    → All IsCall cs
    → (graph (history cs new_index).0, (history cs new_index).1) ≡ spec_history cs []
unfolding graph
history-refines cs small u = history-spec_history cs new_index new_index-Inv (omega arith) u
