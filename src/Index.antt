-- ===== src/Index.antt =====
-- go/src/package-index/index/index.go: the reference-counted index.
--
-- `struct index` is its map `m`; each method holds the lock from its first line to its return, so a
-- call is one step from map to map. `Index.index`, `Index.remove` and `Index.query` are the methods
-- of those names, and `history` replays the calls in the order in which they got the lock.
pub mod Graph
pub mod View
pub mod Invariant
pub mod Removal
pub mod Refinement
pub mod Undo
pub mod Drain
pub mod Acyclic
pub mod Order
pub mod Api
pub mod Bounds
use package_index.Base.{
  ℕ, Bool, true, false, ◌&&◌, Option, none, some, List, [], ◌∷◌, Name, length, ◌==◌, nat_eq,
  bytes_eq, if◌then◌else◌,
}
use package_index.Base.Int64.{inc, dec, is_pos}
use package_index.Base.Maps.{lookup, has, insert, erase}

-- A `map[string]struct{}` that may be nil.
abbrev pub Deps : Type 0
Deps = Option (List Name)

-- What `range deps` visits; a nil map has nothing to visit.
abbrev pub range : Deps → List Name
range none = []
range (some ds) = ds

pub record Entry : Type 0 where
  pub ref_count : ℕ
  pub deps : Deps

abbrev pub Index : Type 0
Index = List (Name × Entry)

-- `make(map[string]entry)`
abbrev pub new_index : Index
new_index = []

-- What `m[d]` reads: the zero `entry` if `d` is missing.
unfoldable pub entry_at : Name → Index → Entry
entry_at d m = elim (lookup d m) [ none ↦ record { ref_count = 0; deps = none } | some e ↦ e ]

-- `depEntry := i.m[d]; depEntry.refCount = f(depEntry.refCount); i.m[d] = depEntry`
unfoldable pub bump : (ℕ → ℕ) → Name → Index → Index
bump f d m = let e = entry_at d m in insert d (record e { ref_count = f e.ref_count }) m

-- The loop of `bump` over a set.
unfoldable pub bump_all : (ℕ → ℕ) → List Name → Index → Index
bump_all f [] m = m
bump_all f (d ∷ ds) m = bump_all f ds (bump f d m)

-- The loop that looks for a missing dependency.
unfoldable pub all_indexed : List Name → Index → Bool
all_indexed [] m = true
all_indexed (d ∷ ds) m = has d m && all_indexed ds m

unfoldable pub index : Name → Deps → Index → Index × Bool
index pkg deps m =
    if has pkg m
    then (m, true)
    else if length (range deps) == 0
    then (insert pkg (record { ref_count = 0; deps = none }) m, true)
    else if all_indexed (range deps) m
    then (insert pkg (record { ref_count = 0; deps = deps }) (bump_all inc (range deps) m), true)
    else (m, false)

unfoldable pub remove : Name → Index → Index × Bool
remove pkg m = elim (lookup pkg m) [
  | none ↦ (m, true)
  | some e ↦
      if is_pos e.ref_count then (m, false) else (bump_all dec (range e.deps) (erase pkg m), true)
]

unfoldable pub query : Name → Index → Bool
query pkg m = has pkg m

-- A call of one of the three methods.
pub data Call : Type 0 where
  indexes : Name → Deps → Call
  removes : Name → Call
  queries : Name → Call

unfoldable pub call : Call → Index → Index × Bool
call (indexes pkg deps) m = index pkg deps m
call (removes pkg) m = remove pkg m
call (queries pkg) m = (m, query pkg m)

-- The calls of a history one after the other: the final index, and the result of each.
unfoldable pub history : List Call → Index → Index × List Bool
history [] m = (m, [])
history (c ∷ cs) m = let (m', ok) = call c m in let (m'', oks) = history cs m' in (m'', ok ∷ oks)
