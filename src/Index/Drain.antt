-- ===== src/Index/Drain.antt =====
-- The index never gets stuck: its packages can be removed one after the other until it is empty.
use package_index.Base.{
  suc, ◌+◌, ◌≤◌, Bool, true, List, [], ◌∷◌, ◌≡◌, ◌∙◌, refl, ap, length, bytes_eq, arith, map, All,
}
use package_index.Base.Int64.{int64_bound}
use package_index.Index.Graph.{Graph, IsOrdered, drop_package-newest}
use package_index.Index.View.{graph, length-graph}
use package_index.Index.Invariant.{Inv}
use package_index.Index.Refinement.{IsCall, spec_call, spec_history, history-spec_history}
use package_index.Index.{Index, Call, removes, history}

-- Removals in the order that ends each dependency after its dependents: the newest package first.
unfoldable pub drain : Graph → List Call
drain [] = []
drain ((k, ds) ∷ g) = removes k ∷ drain g

spec_history-drain :
    (g : Graph) → IsOrdered g → spec_history (drain g) g ≡ ([], map (λ c. true) (drain g))
unfolding spec_history spec_call drain
spec_history-drain [] o = refl
spec_history-drain ((k, ds) ∷ g) o = rw (drop_package-newest k ds g o, spec_history-drain g o.3)

length-drain : (g : Graph) → length (drain g) ≡ length g
unfolding drain
length-drain [] = refl
length-drain (x ∷ g) = ap suc (length-drain g)

drain-IsCall : (g : Graph) → All IsCall (drain g)
unfolding drain
drain-IsCall [] = tt
drain-IsCall (x ∷ g) = (tt, drain-IsCall g)

graph-nil : (m : Index) → graph m ≡ [] → m ≡ []
unfolding graph
graph-nil [] h = refl
graph-nil (x ∷ m) h = cc

-- In a map that keeps the invariant, with at most 2 ^ 62 entries, each removal of the drain
-- succeeds, and the map is empty behind them.
pub history-drain :
    (m : Index)
    → Inv m
    → length m + length m ≤ int64_bound
    → history (drain (graph m)) m ≡ ([], map (λ c. true) (drain (graph m)))
history-drain m v small =
    let all =
      history-spec_history (drain (graph m)) m v
        (omega (arith, length-drain (graph m), length-graph m)) (drain-IsCall (graph m))
      ∙ spec_history-drain (graph m) v.ordered in
    λ i. (graph-nil _ (ap (λ (r : Graph × List Bool). r.0) all) i, (all i).1)
