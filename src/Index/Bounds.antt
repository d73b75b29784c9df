-- ===== src/Index/Bounds.antt =====
-- How large the index and its counts can become.
use package_index.Base.{
  suc, ◌+◌, ◌≤◌, ◌<◌, true, some, List, [], ◌∷◌, ◌≡◌, ◌∙◌, subst, ap, Name, length, ◌==◌, bytes_eq,
  bytes_beq_iff, arith, All, Bool-cases, inl, inr,
}
use package_index.Base.Int64.{int64_bound}
use package_index.Base.Maps.{lookup, has, has-of_lookup}
use package_index.Index.Graph.{Graph, IsOrdered, dependents, dependents-newest}
use package_index.Index.View.{graph, has-graph, length-graph, entry_at-of_lookup}
use package_index.Index.Invariant.{Inv}
use package_index.Index.Refinement.{IsCall, new_index-Inv, history-Inv, call-Inv, length-call}
use package_index.Index.{Entry, Index, new_index, entry_at, Call, call, history}

-- Only younger packages depend on a package, so it does not count itself.
dependents-lt-length :
    (d : Name) (g : Graph) → IsOrdered g → has d g ≡ true → dependents d g < length g
unfolding dependents has
dependents-lt-length d [] o h = cc
dependents-lt-length d ((k, ds) ∷ g) o h = elim (Bool-cases (k == d)) [
  | inl same ↦
      subst (λ (x : Name). dependents x ((k, ds) ∷ g) < suc (length g)) ((bytes_beq_iff k d).0 same)
        (omega (arith, dependents-newest k ds g o))
  | inr other ↦ ground (arith, dependents-lt-length d g o.3)
]

length-history :
    (cs : List Call) (m : Index)
    → Inv m
    → length m + length cs ≤ int64_bound
    → All IsCall cs
    → length (history cs m).0 ≤ length m + length cs
unfolding history
length-history [] m v small u = omega arith
length-history (c ∷ cs) m v small u =
    let one = length-call c m v (omega arith) u.0 in
    omega
      (arith, length-history cs (call c m).0 (call-Inv c m v (omega arith) u.0) (omega arith) u.1)

-- After any history of at most 2 ^ 63 calls, whose sets have no key twice, an entry's stored count is
-- below the number of entries, and there are no more entries than calls.
pub history-counts :
    (cs : List Call) (d : Name) (e : Entry)
    → length cs ≤ int64_bound
    → All IsCall cs
    → lookup d (history cs new_index).0 ≡ some e
    → (e.ref_count < length (history cs new_index).0)
      × (length (history cs new_index).0 ≤ length cs)
unfolding entry_at
history-counts cs d e small u found =
    let m = (history cs new_index).0 in
    let v = history-Inv cs new_index new_index-Inv (omega arith) u in
    let there = has-graph d m ∙ has-of_lookup d m found in
    (
      omega (
        arith,
        v.counted d,
        ap (λ (x : Entry). x.ref_count) (entry_at-of_lookup d m found),
        dependents-lt-length d (graph m) v.ordered there,
        length-graph m,
      ),
      omega (arith, length-history cs new_index new_index-Inv (omega arith) u),
    )
