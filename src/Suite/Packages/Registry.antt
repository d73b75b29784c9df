-- ===== src/Suite/Packages/Registry.antt =====
-- A registry keeps one instance of each package, and its pointers stay in it.
use package_index.Base.{
  ℕ, zero, suc, ◌<◌, ◌≤◌, Bool, false, Option, none, some, List, [], ◌∷◌, ◌++◌, ◌≡◌, refl, ap,
  length, Bytes, Name, ◌==◌, bytes_eq, Bool-cases, Option-cases, inl, inr, All, All-append,
  All-weaken, length-append, arith, sym, subst,
}
use package_index.Base.Sets.{contains, Distinct, append-Distinct}
use package_index.Suite.Packages.{
  Package, AllPackages, make_unprocessed_package, names, last_named, found_or_new, named,
  add_dependency, add_dependencies, tokens_to_package, with_tokens, tokenise_line, add_lines,
  text_to_packages, with_asset, brew_to_packages,
}
use package_index.Suite.Packages.Lookup.{Below, last_named-Below, last_named-none, names-append}

-- The pointers of a package stay below `n`.
abbrev pub Within : ℕ → Package → Type 0
Within n p = All (λ d. d < n) p.dependencies

-- One package of each name, and every pointer leads to a package.
abbrev pub IsRegistry : AllPackages → Type 0
IsRegistry all = Distinct (names all) × All (Within (length all)) all

grows-Within : (n m : ℕ) (p : Package) → n ≤ m → Within n p → Within m p
grows-Within n m p h = All-weaken (λ d. d < n) (λ d. d < m) p.dependencies (λ d l. omega arith)

-- A registry, in which the pointer `i` leads to a package, that has lost none of `n` packages.
abbrev Holds : ℕ → AllPackages → ℕ → Type 0
Holds n all i = IsRegistry all × (i < length all) × (n ≤ length all)

make-Holds :
    (all : AllPackages) (n : Name)
    → IsRegistry all
    → contains (names all) n ≡ false
    → Holds (length all) (all ++ make_unprocessed_package n ∷ []) (length all)
unfolding names
make-Holds all n r new =
    let longer = length-append all (make_unprocessed_package n ∷ []) in
    (
      (
        subst Distinct (sym (names-append all (make_unprocessed_package n ∷ [])))
            (append-Distinct (names all) n r.0 new),
        All-append (Within _) all (make_unprocessed_package n ∷ [])
            (All-weaken (Within (length all)) (Within _) all
              (λ p. grows-Within _ _ p (omega (arith, longer))) r.1)
            (tt, tt),
      ),
      omega (arith, longer),
      omega (arith, longer),
    )

named-Holds :
    (all : AllPackages) (n : Name)
    → IsRegistry all
    → Holds (length all) (named all n).0 (named all n).1
unfolding named found_or_new
named-Holds all n r = elim (Option-cases (last_named n 0 all none)) [
  | inl new ↦ rw new (make-Holds all n r (last_named-none n 0 all new))
  | inr (i, old) ↦ rw old (
    r,
    subst (Below (length all)) old (last_named-Below n 0 (length all) all none (omega arith) tt),
    omega arith,
  )
]

names-add_dependency :
    (all : AllPackages) (pkg to : ℕ) → names (add_dependency all pkg to) ≡ names all
unfolding names add_dependency
names-add_dependency [] pkg to = refl
names-add_dependency (p ∷ ps) zero to = refl
names-add_dependency (p ∷ ps) (suc i) to = ap (◌∷◌ p.name) (names-add_dependency ps i to)

length-add_dependency :
    (all : AllPackages) (pkg to : ℕ) → length (add_dependency all pkg to) ≡ length all
unfolding add_dependency
length-add_dependency [] pkg to = refl
length-add_dependency (p ∷ ps) zero to = refl
length-add_dependency (p ∷ ps) (suc i) to = ap suc (length-add_dependency ps i to)

add_dependency-Within :
    (n : ℕ) (all : AllPackages) (pkg to : ℕ)
    → to < n
    → All (Within n) all
    → All (Within n) (add_dependency all pkg to)
unfolding add_dependency
add_dependency-Within n [] pkg to h k = tt
add_dependency-Within n (p ∷ ps) zero to h k =
    (All-append (λ d. d < n) p.dependencies (to ∷ []) k.0 (h, tt), k.1)
add_dependency-Within n (p ∷ ps) (suc i) to h k = (k.0, add_dependency-Within n ps i to h k.1)

add_dependency-IsRegistry :
    (all : AllPackages) (pkg to : ℕ)
    → to < length all
    → IsRegistry all
    → IsRegistry (add_dependency all pkg to)
add_dependency-IsRegistry all pkg to h r = (
  subst Distinct (sym (names-add_dependency all pkg to)) r.0,
  subst (λ n. All (Within n) (add_dependency all pkg to)) (sym (length-add_dependency all pkg to))
      (add_dependency-Within (length all) all pkg to h r.1),
)

add_dependencies-IsRegistry :
    (all : AllPackages) (pkg : ℕ) (ds : List Name)
    → IsRegistry all
    → IsRegistry (add_dependencies all pkg ds)
unfolding add_dependencies
add_dependencies-IsRegistry all pkg [] r = r
add_dependencies-IsRegistry all pkg (d ∷ ds) r =
    let found = named-Holds all d r in
    add_dependencies-IsRegistry (add_dependency (named all d).0 pkg (named all d).1) pkg ds
      (add_dependency-IsRegistry _ pkg _ found.1 found.0)

tokens_to_package-IsRegistry :
    (all : AllPackages) (tokens : List Name)
    → IsRegistry all
    → IsRegistry (tokens_to_package all tokens).0
unfolding tokens_to_package
tokens_to_package-IsRegistry all [] r = r
tokens_to_package-IsRegistry all (t ∷ ds) r =
    add_dependencies-IsRegistry _ _ ds (named-Holds all t r).0

with_tokens-IsRegistry :
    (all : AllPackages) (tokens : Option (List Name))
    → IsRegistry all
    → IsRegistry (with_tokens all tokens).0
unfolding with_tokens
with_tokens-IsRegistry all none r = r
with_tokens-IsRegistry all (some tokens) r = tokens_to_package-IsRegistry all tokens r

add_lines-IsRegistry :
    (matches : Bytes → Bool) (all : AllPackages) (ls : List Bytes)
    → IsRegistry all
    → IsRegistry (add_lines matches all ls).0
unfolding add_lines
add_lines-IsRegistry matches all [] r = r
add_lines-IsRegistry matches all (l ∷ ls) r =
    let step = with_tokens-IsRegistry all (tokenise_line matches l) r in
    let later =
      add_lines-IsRegistry matches (with_tokens all (tokenise_line matches l)).0 ls step in
    elim (Bool-cases (l == [])) [
      | inl empty ↦ rw empty (add_lines-IsRegistry matches all ls r)
      | inr full ↦ rw full (elim (Bool-cases (with_tokens all (tokenise_line matches l)).1) [
        | inl fine ↦ rw fine later
        | inr broken ↦ rw broken step
      ])
    ]

-- Reading any text keeps a registry, whether or not all its lines are valid and whatever lines count
-- as valid.
pub text_to_packages-IsRegistry :
    (matches : Bytes → Bool) (all : AllPackages) (text : Bytes)
    → IsRegistry all
    → IsRegistry (text_to_packages matches all text).0
unfolding text_to_packages
text_to_packages-IsRegistry matches all text r = add_lines-IsRegistry matches all _ r

with_asset-IsRegistry :
    (matches : Bytes → Bool) (o : Option Bytes) → IsRegistry (with_asset matches [] o).0
unfolding names
with_asset-IsRegistry matches none = (tt, tt)
with_asset-IsRegistry matches (some text) = text_to_packages-IsRegistry matches [] text (tt, tt)

-- Whatever the generated table holds, what is read from it is a registry.
pub brew_to_packages-IsRegistry :
    (matches : Bytes → Bool) (asset : Bytes → Option Bytes)
    → IsRegistry (brew_to_packages matches asset []).0
unfolding brew_to_packages
brew_to_packages-IsRegistry matches asset = with_asset-IsRegistry matches _
