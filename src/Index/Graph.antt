-- ===== src/Index/Graph.antt =====
-- The specification of the index: a dependency graph with no counts. A package is added when all
-- that it depends on is there, and removed when nothing there depends on it.
use package_index.Base.{
  ℕ, ◌+◌, ◌≤◌, some, subst, ==-refl, ap, ltb, Bool, true, false, ◌&&◌, ◌||◌, List, [], ◌∷◌, ◌≡◌,
  refl, Name, length, ◌==◌, bytes_eq, bytes_beq_iff, if◌then◌else◌, arith, Bool-cases, inl, inr,
}
use package_index.Base.Sets.{contains, Distinct}
use package_index.Base.Maps.{lookup, has, erase, has-erase_ne}

-- The packages, the newest first, each with what it depends on.
abbrev pub Graph : Type 0
Graph = List (Name × List Name)

-- How many packages depend on `d`.
unfoldable pub dependents : Name → Graph → ℕ
dependents d [] = 0
dependents d ((_, ds) ∷ g) = (if contains ds d then 1 else 0) + dependents d g

-- Does some package depend on `d`?
unfoldable pub is_needed : Name → Graph → Bool
is_needed d [] = false
is_needed d ((_, ds) ∷ g) = contains ds d || is_needed d g

unfoldable pub has_all : List Name → Graph → Bool
has_all [] g = true
has_all (d ∷ ds) g = has d g && has_all ds g

unfoldable pub add_package : Name → List Name → Graph → Graph × Bool
unfolding has_all
add_package pkg ds g =
    if has pkg g then (g, true) else if has_all ds g then ((pkg, ds) ∷ g, true) else (g, false)

unfoldable pub drop_package : Name → Graph → Graph × Bool
unfolding is_needed
drop_package pkg g =
    if has pkg g then (if is_needed pkg g then (g, false) else (erase pkg g, true)) else (g, true)

-- Each package depends on older packages only, on none twice, and has one node.
abbrev pub IsOrdered : Graph → Type 0
IsOrdered [] = Unit
IsOrdered ((k, ds) ∷ g) = (has k g ≡ false) × (has_all ds g ≡ true) × Distinct ds × IsOrdered g

pub dependents-le-length : (d : Name) (g : Graph) → dependents d g ≤ length g
unfolding dependents
dependents-le-length d [] = omega arith
dependents-le-length d ((k, ds) ∷ g) = ground (arith, dependents-le-length d g)

-- A package is needed when its dependents are more than none.
pub is_needed-dependents : (d : Name) (g : Graph) → is_needed d g ≡ ltb 0 (dependents d g)
unfolding is_needed dependents
is_needed-dependents d [] = refl
is_needed-dependents d ((k, ds) ∷ g) = ground (arith, is_needed-dependents d g)

-- What is not in the graph is no member of a set of packages that is.
pub contains-of_has_all :
    (ds : List Name) (d : Name) (g : Graph)
    → has_all ds g ≡ true
    → has d g ≡ false
    → contains ds d ≡ false
unfolding has_all contains
contains-of_has_all [] d g h k = refl
contains-of_has_all (x ∷ ds) d g h k = ground (arith, bytes_beq_iff x d, contains-of_has_all ds d g)

-- Nothing depends on what is not there.
pub dependents-of_missing :
    (d : Name) (g : Graph) → IsOrdered g → has d g ≡ false → dependents d g ≡ 0
unfolding dependents has
dependents-of_missing d [] o h = refl
dependents-of_missing d ((k, ds) ∷ g) o h =
    ground (arith, dependents-of_missing d g o.3, contains-of_has_all ds d g o.1)

-- Nothing depends on the newest package.
pub dependents-newest :
    (k : Name) (ds : List Name) (g : Graph)
    → IsOrdered ((k, ds) ∷ g)
    → dependents k ((k, ds) ∷ g) ≡ 0
unfolding dependents
dependents-newest k ds g o =
    ground (arith, dependents-of_missing k g o.3 o.0, contains-of_has_all ds k g o.1 o.0)

pub has_all-erase :
    (pkg : Name) (ds : List Name) (g : Graph)
    → contains ds pkg ≡ false
    → has_all ds g ≡ true
    → has_all ds (erase pkg g) ≡ true
unfolding has_all contains
has_all-erase pkg [] g c h = refl
has_all-erase pkg (d ∷ ds) g c h = ground (
  arith,
  has_all-erase pkg ds g,
  has-erase_ne pkg d g (λ e. cc (==-refl pkg, ap (λ (x : Name). x == pkg) e, c)),
)

pub erase-IsOrdered :
    (pkg : Name) (g : Graph) → dependents pkg g ≡ 0 → IsOrdered g → IsOrdered (erase pkg g)
unfolding erase dependents
erase-IsOrdered pkg [] z o = tt
erase-IsOrdered pkg ((k, ds) ∷ g) z o = elim (Bool-cases (k == pkg)) [
  | inl same ↦ rw same o.3
  | inr other ↦ rw other (
    rw (has-erase_ne pkg k g (λ e. cc (==-refl pkg, ap (λ (x : Name). x == pkg) e, other))) o.0,
    has_all-erase pkg ds g (ground arith) o.1,
    o.2,
    erase-IsOrdered pkg g (ground arith) o.3,
  )
]

-- An erased package takes its own edges with it.
pub dependents-erase :
    (pkg d : Name) (ds : List Name) (g : Graph)
    → lookup pkg g ≡ some ds
    → dependents d g ≡ (if contains ds d then 1 else 0) + dependents d (erase pkg g)
unfolding dependents erase lookup
dependents-erase pkg d ds [] h = cc
dependents-erase pkg d ds ((k, es) ∷ g) h = ground (arith, dependents-erase pkg d ds g)

-- A package that is there once is gone when it is erased.
pub has-erase_self : (pkg : Name) (g : Graph) → IsOrdered g → has pkg (erase pkg g) ≡ false
unfolding has erase
has-erase_self pkg [] o = refl
has-erase_self pkg ((k, ds) ∷ g) o = ground (arith, bytes_beq_iff k pkg, has-erase_self pkg g o.3)

has_all-cons :
    (ds : List Name) (k : Name) (es : List Name) (g : Graph)
    → has_all ds g ≡ true
    → has_all ds ((k, es) ∷ g) ≡ true
unfolding has_all has
has_all-cons [] k es g h = refl
has_all-cons (d ∷ ds) k es g h = ground (arith, has_all-cons ds k es g)

-- What a package depends on is there without the package too, and is listed once.
pub node-IsOrdered :
    (pkg : Name) (ds : List Name) (g : Graph)
    → IsOrdered g
    → lookup pkg g ≡ some ds
    → (has_all ds (erase pkg g) ≡ true) × Distinct ds
unfolding lookup erase
node-IsOrdered pkg ds [] o h = cc
node-IsOrdered pkg ds ((k, es) ∷ g) o h = elim (Bool-cases (k == pkg)) [
  | inl same ↦
      let q : some es ≡ some ds = rw same at h in
      let e : es ≡ ds = cc in rw same (subst (λ x. (has_all x g ≡ true) × Distinct x) e (o.1, o.2))
  | inr other ↦ rw other (
      let ih = node-IsOrdered pkg ds g o.3 (rw other at h) in
      (has_all-cons ds k es (erase pkg g) ih.0, ih.1))
]

-- Whatever a package depends on is there.
pub node-has_all :
    (pkg : Name) (ds : List Name) (g : Graph)
    → IsOrdered g
    → lookup pkg g ≡ some ds
    → has_all ds g ≡ true
unfolding lookup
node-has_all pkg ds [] o h = cc
node-has_all pkg ds ((k, es) ∷ g) o h =
    ground (arith, node-has_all pkg ds g o.3, has_all-cons ds k es g, has_all-cons es k es g o.1)

pub has-of_contains :
    (ds : List Name) (d : Name) (g : Graph)
    → has_all ds g ≡ true
    → contains ds d ≡ true
    → has d g ≡ true
unfolding has_all contains
has-of_contains [] d g h c = cc
has-of_contains (x ∷ ds) d g h c = ground (arith, bytes_beq_iff x d, has-of_contains ds d g)

-- A package that was just added can be dropped, and nothing else changes.
pub drop_package-newest :
    (k : Name) (ds : List Name) (g : Graph)
    → IsOrdered ((k, ds) ∷ g)
    → drop_package k ((k, ds) ∷ g) ≡ (g, true)
unfolding drop_package has erase
drop_package-newest k ds g o =
    ground (arith, ==-refl k, is_needed-dependents k ((k, ds) ∷ g), dependents-newest k ds g o)
