-- ===== src/Index/Api.antt =====
-- `interface Index`, which the server calls, and the promise that its answers are those of a
-- dependency graph.
use package_index.Base.{ℕ, suc, ◌+◌, ◌≤◌, Bool, ◌≡◌, Name, length, bytes_eq, arith}
use package_index.Base.Int64.{int64_bound}
use package_index.Base.Maps.{has}
use package_index.Base.Sets.{Distinct}
use package_index.Index.Graph.{Graph, add_package, drop_package}
use package_index.Index.View.{graph}
use package_index.Index.Invariant.{Inv, index-Inv}
use package_index.Index.Removal.{remove-Inv}
use package_index.Index.Refinement.{length-call, index-add_package, remove-drop_package, query-has}
use package_index.Index.{Deps, range, Index, index, remove, query, call, indexes, removes}

-- The methods, over the state that they share.
pub record IndexApi {ℓ} (S : Type ℓ) : Type ℓ where
  pub index : Name → Deps → S → S × Bool
  pub remove : Name → S → S × Bool
  pub query : Name → S → Bool

-- `NewIndex()` as the interface's implementation.
abbrev pub index_api : IndexApi Index
index_api = record { index = index; remove = remove; query = query }

-- What an implementation promises. `Good n s` says that the state `s` is well formed and has room
-- for `n` more calls. Each method then does to the graph in the state what the specification does,
-- and answers the same.
pub record IsIndex {ℓ} {S : Type ℓ} (api : IndexApi S) : Type (ℓ ⊔ 1) where
  pub Good : ℕ → S → Type 0
  pub view : S → Graph
  pub weaken : (n : ℕ) (s : S) → Good (suc n) s → Good n s
  pub index_view :
      (n : ℕ) (pkg : Name) (deps : Deps) (s : S)
      → Good (suc n) s
      → Distinct (range deps)
      → Good n (api.index pkg deps s).0
        × ((view (api.index pkg deps s).0, (api.index pkg deps s).1)
            ≡ add_package pkg (range deps) (view s))
  pub remove_view :
      (n : ℕ) (pkg : Name) (s : S)
      → Good (suc n) s
      → Good n (api.remove pkg s).0
        × ((view (api.remove pkg s).0, (api.remove pkg s).1) ≡ drop_package pkg (view s))
  pub query_view : (n : ℕ) (pkg : Name) (s : S) → Good n s → api.query pkg s ≡ has pkg (view s)

-- A well-formed index with room for `n` more calls.
abbrev pub HasRoom : ℕ → Index → Type 0
HasRoom n m = Inv m × (length m + n ≤ int64_bound)

pub index-HasRoom :
    (n : ℕ) (pkg : Name) (deps : Deps) (m : Index)
    → HasRoom (suc n) m
    → Distinct (range deps)
    → HasRoom n (index pkg deps m).0
unfolding call
index-HasRoom n pkg deps m h d = (
  index-Inv pkg deps m h.0 (omega arith) d,
  omega (arith, length-call (indexes pkg deps) m h.0 (omega arith) d),
)

pub remove-HasRoom :
    (n : ℕ) (pkg : Name) (m : Index) → HasRoom (suc n) m → HasRoom n (remove pkg m).0
unfolding call
remove-HasRoom n pkg m h = (
  remove-Inv pkg m h.0 (omega arith),
  omega (arith, length-call (removes pkg) m h.0 (omega arith) tt),
)

-- The reference-counted index keeps the promise.
abbrev pub index_api-IsIndex : IsIndex index_api
index_api-IsIndex = record {
  Good = HasRoom;
  view = graph;
  weaken = λ n m h. (h.0, omega arith);
  index_view = λ n pkg deps m h d.
      (index-HasRoom n pkg deps m h d, index-add_package pkg deps m h.0 (omega arith) d);
  remove_view =
      λ n pkg m h. (remove-HasRoom n pkg m h, remove-drop_package pkg m h.0 (omega arith));
  query_view = λ n pkg m h. query-has pkg m;
}
