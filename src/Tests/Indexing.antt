-- ===== src/Tests/Indexing.antt =====
-- go/src/package-index/index/index_test.go, and the theorems on the index at small histories.
use package_index.Base.{
  ◌≤◌, length, ◌<◌, Bool, true, false, ◌||◌, ◌==◌, none, some, List, [], ◌∷◌, ◌≡◌, refl, Name,
  arith, All, bytes_eq, bytes_beq,
}
use package_index.Base.Text.{codes}
use package_index.Base.Sets.{contains, Distinct}
use package_index.Base.Maps.{lookup, has, replace, insert, erase}
use package_index.Base.Int64.{inc, dec, is_pos}
use package_index.Index.Graph.{Graph, has_all, is_needed, add_package, drop_package}
use package_index.Index.View.{graph}
use package_index.Index.Invariant.{Inv}
use package_index.Index.Refinement.{
  IsCall, seen, spec_call, spec_history, index-add_package, remove-drop_package, new_index-Inv,
  history-Inv, history-refines,
}
use package_index.Index.Undo.{remove-index}
use package_index.Index.Drain.{drain, history-drain}
use package_index.Index.Bounds.{history-counts}
use package_index.Index.Acyclic.{DependsOn, direct, history-acyclic, history-closed}
use package_index.Index.Order.{history-order}
use package_index.Index.{
  Index, new_index, entry_at, bump, bump_all, all_indexed, index, remove, query, Call, indexes,
  removes, queries, call, history,
}

abbrev a : Name
a = codes "A"

abbrev b : Name
b = codes "B"

abbrev c : Name
c = codes "C"

abbrev d : Name
d = codes "D"

-- `TestIndex`, call by call.
abbrev test_calls : List Call
test_calls =
    removes a
    ∷ queries a
    ∷ indexes a (some (b ∷ []))
    ∷ indexes b none
    ∷ indexes c (some [])
    ∷ indexes a (some (b ∷ []))
    ∷ indexes [] (some (a ∷ b ∷ []))
    ∷ indexes d (some ([] ∷ a ∷ []))
    ∷ queries a
    ∷ queries b
    ∷ queries c
    ∷ queries []
    ∷ queries d
    ∷ indexes a (some (b ∷ c ∷ []))
    ∷ removes c
    ∷ removes b
    ∷ removes d
    ∷ removes []
    ∷ removes a
    ∷ removes b
    ∷ queries a
    ∷ queries b
    ∷ queries c
    ∷ queries d
    ∷ queries []
    ∷ []

abbrev test_answers : List Bool
test_answers =
    true ∷ false ∷ false ∷ true ∷ true ∷ true ∷ true ∷ true ∷ true ∷ true ∷ true ∷ true ∷ true
    ∷ true ∷ true ∷ false ∷ true ∷ true ∷ true ∷ true ∷ false ∷ false ∷ false ∷ false ∷ false ∷ []

test_index : history test_calls new_index ≡ ([], test_answers)
unfolding history call index remove query bump_all bump entry_at all_indexed lookup has insert
    replace erase inc dec is_pos bytes_beq
test_index = refl

-- B, then A on B, then a removal of B that is refused.
abbrev small_calls : List Call
small_calls = indexes b none ∷ indexes a (some (b ∷ [])) ∷ removes b ∷ []

abbrev small_index : Index
small_index =
    (a, record { ref_count = 0; deps = some (b ∷ []) })
    ∷ (b, record { ref_count = 1; deps = none })
    ∷ []

small_run : history small_calls new_index ≡ (small_index, true ∷ true ∷ false ∷ [])
unfolding history call index remove query bump_all bump entry_at all_indexed lookup has insert
    replace erase inc dec is_pos bytes_beq
small_run = refl

small-IsCall : All IsCall small_calls
unfolding contains
small-IsCall = (tt, ((refl, tt), (tt, tt)))

small-Inv : Inv small_index
unfolding history call index remove query bump_all bump entry_at all_indexed lookup has insert
    replace erase inc dec is_pos bytes_beq
small-Inv = history-Inv small_calls new_index new_index-Inv (omega arith) small-IsCall

history-Inv_example : Inv (history small_calls new_index).0
history-Inv_example = history-Inv small_calls new_index new_index-Inv (omega arith) small-IsCall

-- The same with the specification run by hand.
history-refines_example :
    ◌≡◌ {A = Graph × List Bool}
      (graph (history small_calls new_index).0, (history small_calls new_index).1)
      ((a, b ∷ []) ∷ (b, []) ∷ [], true ∷ true ∷ false ∷ [])
unfolding spec_history spec_call add_package drop_package has_all is_needed contains has bytes_beq
history-refines_example = history-refines small_calls (omega arith) small-IsCall

index-add_package_example :
    seen (index c (some (a ∷ [])) small_index) ≡ ((c, a ∷ []) ∷ (a, b ∷ []) ∷ (b, []) ∷ [], true)
unfolding graph add_package has_all contains has bytes_beq
index-add_package_example =
    index-add_package c (some (a ∷ [])) small_index small-Inv (omega arith) (refl, tt)

remove-drop_package_example : seen (remove b small_index) ≡ ((a, b ∷ []) ∷ (b, []) ∷ [], false)
unfolding graph drop_package is_needed contains has bytes_beq
remove-drop_package_example = remove-drop_package b small_index small-Inv (omega arith)

abbrev grown_index : Index
grown_index =
    (c, record { ref_count = 0; deps = some (a ∷ b ∷ []) })
    ∷ (a, record { ref_count = 1; deps = some (b ∷ []) })
    ∷ (b, record { ref_count = 2; deps = none })
    ∷ []

remove-index_example : remove c grown_index ≡ (small_index, true)
unfolding history call index remove query bump_all bump entry_at all_indexed lookup has insert
    replace erase inc dec is_pos bytes_beq contains
remove-index_example =
    remove-index c (some (a ∷ b ∷ [])) small_index grown_index small-Inv (omega arith)
      (refl, (refl, tt)) refl refl

history-drain_example : history (removes a ∷ removes b ∷ []) small_index ≡ ([], true ∷ true ∷ [])
unfolding graph drain
history-drain_example = history-drain small_index small-Inv (omega arith)

b_entry : lookup b (history small_calls new_index).0 ≡ some (record { ref_count = 1; deps = none })
unfolding history call index remove query bump_all bump entry_at all_indexed lookup has insert
    replace erase inc dec is_pos bytes_beq contains
b_entry = refl

history-acyclic_example : ¬ DependsOn (history small_calls new_index).0 a a
history-acyclic_example = history-acyclic small_calls (omega arith) small-IsCall a

a-DependsOn-b : DependsOn (history small_calls new_index).0 a b
unfolding history call index remove query bump_all bump entry_at all_indexed lookup has insert
    replace erase inc dec is_pos bytes_beq contains
a-DependsOn-b = direct (record { ref_count = 0; deps = some (b ∷ []) }) refl refl

history-closed_example : has b (history small_calls new_index).0 ≡ true
history-closed_example = history-closed small_calls (omega arith) small-IsCall a-DependsOn-b

-- One package depends on `b`, and there are two.
history-counts_example :
    (1 < length (history small_calls new_index).0) × (length (history small_calls new_index).0 ≤ 3)
history-counts_example =
    history-counts small_calls b (record { ref_count = 1; deps = none }) (omega arith) small-IsCall
      b_entry

or_swap : (x y : Bool) → (x || (y || false)) ≡ (y || (x || false))
or_swap x y = ground arith

-- C depends on A and B, whichever of the two is visited first.
abbrev wide_calls : List Name → List Call
wide_calls ds = indexes a none ∷ indexes b none ∷ indexes c (some ds) ∷ removes a ∷ []

wide-IsCall : (ds : List Name) → Distinct ds → All IsCall (wide_calls ds)
wide-IsCall ds h = (tt, (tt, (h, (tt, tt))))

history-order_example :
    (history (wide_calls (a ∷ b ∷ [])) new_index).1
    ≡ (history (wide_calls (b ∷ a ∷ [])) new_index).1
unfolding contains bytes_beq
history-order_example =
    history-order (wide_calls (a ∷ b ∷ [])) (wide_calls (b ∷ a ∷ [])) (omega arith)
      (wide-IsCall (a ∷ b ∷ []) (refl, (refl, tt))) (wide-IsCall (b ∷ a ∷ []) (refl, (refl, tt)))
      ((refl, λ k. refl), ((refl, λ k. refl), ((refl, λ k. or_swap (a == k) (b == k)), (refl, tt))))
