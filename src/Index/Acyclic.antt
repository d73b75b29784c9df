-- ===== src/Index/Acyclic.antt =====
-- Dependencies never leave the index and never close on themselves.
use package_index.Base.{
  ℕ, suc, ◌≤◌, ◌<◌, true, some, List, [], ◌∷◌, ◌≡◌, ◌∙◌, sym, Name, length, ◌==◌, bytes_eq,
  bytes_beq_iff, if◌then◌else◌, arith, Bool-cases, inl, inr, All,
}
use package_index.Base.Int64.{int64_bound}
use package_index.Base.Sets.{contains}
use package_index.Base.Maps.{lookup, has}
use package_index.Index.Graph.{Graph, IsOrdered, node-has_all, has-of_contains}
use package_index.Index.View.{graph, lookup-graph, has-graph}
use package_index.Index.Invariant.{Inv}
use package_index.Index.Refinement.{IsCall, new_index-Inv, history-Inv}
use package_index.Index.{range, Entry, Index, new_index, Call, history}

-- `k` depends on `d` in the index `m`, directly or through other packages.
pub data DependsOn (m : Index) : Name → Name → Type 0 where
  direct :
      {k d : Name} (e : Entry)
      → lookup k m ≡ some e
      → contains (range e.deps) d ≡ true
      → DependsOn m k d
  through : {k d f : Name} → DependsOn m k d → DependsOn m d f → DependsOn m k f

-- A package's place in the graph, counted from the oldest.
age : Name → Graph → ℕ
age d [] = 0
age d ((k, ds) ∷ g) = if k == d then suc (length g) else age d g

age-le-length : (d : Name) (g : Graph) → age d g ≤ length g
unfolding age
age-le-length d [] = omega arith
age-le-length d ((k, ds) ∷ g) = ground (arith, age-le-length d g)

age-lt :
    (k d : Name) (ds : List Name) (g : Graph)
    → IsOrdered g
    → lookup k g ≡ some ds
    → contains ds d ≡ true
    → age d g < age k g
unfolding age lookup
age-lt k d ds [] o h c = cc
age-lt k d ds ((j, es) ∷ g) o h c = elim (Bool-cases (j == k)) [
  | inl same ↦
      let q : some es ≡ some ds = rw same at h in
      let e : es ≡ ds = cc in
      let there : has d g ≡ true = has-of_contains ds d g (rw e at o.1) c in
      ground (arith, bytes_beq_iff j d, age-le-length d g)
  | inr other ↦
      let below : lookup k g ≡ some ds = rw other at h in
      let there : has d g ≡ true = has-of_contains ds d g (node-has_all k ds g o.3 below) c in
      ground (arith, bytes_beq_iff j d, age-lt k d ds g o.3 below c)
]

DependsOn-age :
    {m : Index} {k d : Name} → Inv m → DependsOn m k d → age d (graph m) < age k (graph m)
DependsOn-age {m} {k} {d} v (direct e found c) =
    age-lt k d (range e.deps) (graph m) v.ordered (lookup-graph k m found) c
DependsOn-age v (through p q) = omega (arith, DependsOn-age v p, DependsOn-age v q)

-- After any history of at most 2 ^ 63 calls, whose sets have no key twice, no package depends on
-- itself, however indirectly.
pub history-acyclic :
    (cs : List Call)
    → length cs ≤ int64_bound
    → All IsCall cs
    → (k : Name) → ¬ DependsOn (history cs new_index).0 k k
history-acyclic cs small u k p =
    let v = history-Inv cs new_index new_index-Inv (omega arith) u in
    absurd (omega (arith, DependsOn-age v p))

DependsOn-has : {m : Index} {k d : Name} → Inv m → DependsOn m k d → has d m ≡ true
DependsOn-has {m} {k} {d} v (direct e found c) =
    sym (has-graph d m)
    ∙ has-of_contains (range e.deps) d (graph m)
        (node-has_all k (range e.deps) (graph m) v.ordered (lookup-graph k m found)) c
DependsOn-has v (through p q) = DependsOn-has v q

-- After any history of at most 2 ^ 63 calls, whose sets have no key twice, whatever an indexed
-- package depends on, however indirectly, is indexed.
pub history-closed :
    (cs : List Call) {k d : Name}
    → length cs ≤ int64_bound
    → All IsCall cs
    → DependsOn (history cs new_index).0 k d
    → has d (history cs new_index).0 ≡ true
history-closed cs small u p =
    DependsOn-has (history-Inv cs new_index new_index-Inv (omega arith) u) p
