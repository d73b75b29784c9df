-- ===== src/Index/View.antt =====
-- The index seen as a dependency graph, and what the loops over a set of dependencies do to it.
use package_index.Base.{
  ℕ, suc, true, ◌||◌, some, List, [], ◌∷◌, ◌≡◌, ◌∙◌, ◌≢◌, sym, none, false, refl, ap, Name, length,
  ◌==◌, bytes_eq, bytes_beq_iff, ==-refl, if◌then◌else◌, arith, Bool-cases, inl, inr,
}
use package_index.Base.Sets.{contains, Distinct}
use package_index.Base.Maps.{
  lookup, has, replace, insert, erase, lookup-of_has, lookup-of_not_has, lookup-erase_ne,
  lookup-insert, has-insert,
}
use package_index.Index.Graph.{Graph, has_all}
use package_index.Index.{range, Entry, Index, entry_at, bump, bump_all, all_indexed}

-- The counts forgotten.
unfoldable pub graph : Index → Graph
graph [] = []
graph ((k, e) ∷ m) = (k, range e.deps) ∷ graph m

pub has-graph : (d : Name) (m : Index) → has d (graph m) ≡ has d m
unfolding has graph
has-graph d [] = refl
has-graph d ((k, e) ∷ m) = ap (◌||◌ (k == d)) (has-graph d m)

pub has_all-graph : (ds : List Name) (m : Index) → has_all ds (graph m) ≡ all_indexed ds m
unfolding has_all all_indexed
has_all-graph [] m = refl
has_all-graph (d ∷ ds) m = rw (has-graph d m, has_all-graph ds m)

pub lookup-graph :
    (d : Name) (m : Index) {e : Entry}
    → lookup d m ≡ some e
    → lookup d (graph m) ≡ some (range e.deps)
unfolding lookup graph
lookup-graph d [] h = cc
lookup-graph d ((k, x) ∷ m) {e} h = ground (arith, lookup-graph d m {e = e})

pub graph-erase : (k : Name) (m : Index) → graph (erase k m) ≡ erase k (graph m)
unfolding erase graph
graph-erase k [] = refl
graph-erase k ((j, e) ∷ m) = ground (arith, graph-erase k m)

pub length-graph : (m : Index) → length (graph m) ≡ length m
unfolding graph
length-graph [] = refl
length-graph ((k, e) ∷ m) = ap suc (length-graph m)

graph-replace :
    (d : Name) (v e : Entry) (m : Index)
    → lookup d m ≡ some e
    → v.deps ≡ e.deps
    → graph (replace d v m) ≡ graph m
unfolding replace graph lookup
graph-replace d v e [] h k = refl
graph-replace d v e ((j, x) ∷ m) h k = ground (arith, graph-replace d v e m)

pub entry_at-of_lookup : (d : Name) (m : Index) {e : Entry} → lookup d m ≡ some e → entry_at d m ≡ e
unfolding entry_at
entry_at-of_lookup d m h = rw (h, entry_at)

entry_at-congr : (d : Name) (m m' : Index) → lookup d m ≡ lookup d m' → entry_at d m ≡ entry_at d m'
unfolding entry_at
entry_at-congr d m m' h = rw (h, entry_at)

-- Counting up or down at a package that is there leaves the graph alone.
pub graph-bump : (f : ℕ → ℕ) (d : Name) (m : Index) → has d m ≡ true → graph (bump f d m) ≡ graph m
unfolding bump insert
graph-bump f d m h =
    let (e, found) = lookup-of_has d m h in
    rw h (graph-replace d _ e m found (ap (λ (x : Entry). x.deps) (entry_at-of_lookup d m found)))

pub has-bump : (f : ℕ → ℕ) (d j : Name) (m : Index) → has j (bump f d m) ≡ (d == j || has j m)
unfolding bump
has-bump f d j m = has-insert d j _ m

pub entry_at-bump :
    (f : ℕ → ℕ) (d j : Name) (m : Index)
    → entry_at j (bump f d m) ≡ (
        if d == j
        then record { ref_count = f (entry_at j m).ref_count; deps = (entry_at j m).deps }
        else entry_at j m)
unfolding bump
entry_at-bump f d j m = elim (Bool-cases (d == j)) [
  | inl same ↦
      rw (same, ← (bytes_beq_iff d j).0 same)
        (entry_at-of_lookup d _ (lookup-insert d d _ m ∙ rw (==-refl d)))
  | inr other ↦ rw other (entry_at-congr j _ m (lookup-insert d j _ m ∙ rw other))
]

all_indexed-bump :
    (f : ℕ → ℕ) (d : Name) (ds : List Name) (m : Index)
    → all_indexed ds m ≡ true
    → all_indexed ds (bump f d m) ≡ true
unfolding all_indexed
all_indexed-bump f d [] m h = refl
all_indexed-bump f d (x ∷ ds) m h = ground (arith, all_indexed-bump f d ds m, has-bump f d x m)

pub graph-bump_all :
    (f : ℕ → ℕ) (ds : List Name) (m : Index)
    → all_indexed ds m ≡ true
    → graph (bump_all f ds m) ≡ graph m
unfolding bump_all all_indexed
graph-bump_all f [] m h = refl
graph-bump_all f (d ∷ ds) m h =
    graph-bump_all f ds (bump f d m) (all_indexed-bump f d ds m (ground arith))
    ∙ graph-bump f d m (ground arith)

-- The loop applies `f` once to the entry of each member, and to no other.
pub entry_at-bump_all :
    (f : ℕ → ℕ) (ds : List Name) (j : Name) (m : Index)
    → Distinct ds
    → entry_at j (bump_all f ds m) ≡ (
        if contains ds j
        then record { ref_count = f (entry_at j m).ref_count; deps = (entry_at j m).deps }
        else entry_at j m)
unfolding bump_all contains
entry_at-bump_all f [] j m u = refl
entry_at-bump_all f (d ∷ ds) j m u =
    ground
      (arith, entry_at-bump_all f ds j (bump f d m) u.1, entry_at-bump f d j m, bytes_beq_iff d j)

pub deps-bump_all :
    (f : ℕ → ℕ) (ds : List Name) (j : Name) (m : Index)
    → Distinct ds
    → (entry_at j (bump_all f ds m)).deps ≡ (entry_at j m).deps
deps-bump_all f ds j m u = elim (Bool-cases (contains ds j)) [
  | inl inside ↦ rw (entry_at-bump_all f ds j m u) (rw inside)
  | inr outside ↦ rw (entry_at-bump_all f ds j m u) (rw outside)
]

pub has-bump_all :
    (f : ℕ → ℕ) (ds : List Name) (j : Name) (m : Index)
    → all_indexed ds m ≡ true
    → has j (bump_all f ds m) ≡ has j m
has-bump_all f ds j m h = sym (has-graph j _) ∙ ap (has j) (graph-bump_all f ds m h) ∙ has-graph j m

pub graph-insert :
    (k : Name) (v : Entry) (m : Index)
    → has k m ≡ false
    → graph (insert k v m) ≡ (k, range v.deps) ∷ graph m
unfolding insert graph
graph-insert k v m h = rw h

pub entry_at-insert :
    (k j : Name) (v : Entry) (m : Index)
    → entry_at j (insert k v m) ≡ (if k == j then v else entry_at j m)
entry_at-insert k j v m = elim (Bool-cases (k == j)) [
  | inl same ↦ rw same (entry_at-of_lookup j _ (lookup-insert k j v m ∙ rw same))
  | inr other ↦ rw other (entry_at-congr j _ m (lookup-insert k j v m ∙ rw other))
]

pub entry_at-erase_ne : (k j : Name) (m : Index) → k ≢ j → entry_at j (erase k m) ≡ entry_at j m
entry_at-erase_ne k j m ne = entry_at-congr j _ m (lookup-erase_ne k j m ne)

-- Of a missing package the zero entry is read.
pub entry_at_missing :
    (j : Name) (m : Index) → has j m ≡ false → entry_at j m ≡ record { ref_count = 0; deps = none }
unfolding entry_at
entry_at_missing j m h = rw (lookup-of_not_has j m h, entry_at)
