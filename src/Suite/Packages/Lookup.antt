-- ===== src/Suite/Packages/Lookup.antt =====
-- What the loop of `Named` finds.
use package_index.Base.{
  ℕ, suc, ◌+◌, ◌<◌, ◌≤◌, false, Option, none, some, [], ◌∷◌, ◌++◌, ◌≡◌, ◌≢◌, refl, ap, length, Name,
  ◌==◌, bytes_eq, Bool-cases, Option-cases, inl, inr, arith, ==-refl, ◌∙◌,
}
use package_index.Base.Sets.{contains}
use package_index.Suite.Packages.{
  Package, AllPackages, make_unprocessed_package, names, last_named, found_or_new, named,
}

abbrev pub Below : ℕ → Option ℕ → Type 0
Below n none = Unit
Below n (some i) = i < n

pub last_named-Below :
    (n : Name) (i bound : ℕ) (ps : AllPackages) (found : Option ℕ)
    → i + length ps ≤ bound
    → Below bound found
    → Below bound (last_named n i ps found)
unfolding last_named
last_named-Below n i bound [] found h k = k
last_named-Below n i bound (p ∷ ps) found h k = elim (Bool-cases (p.name == n)) [
  | inl same ↦ rw same (last_named-Below n (suc i) bound ps (some i) (omega arith) (omega arith))
  | inr other ↦ rw other (last_named-Below n (suc i) bound ps found (omega arith) k)
]

-- A package that is found in front is only given up for a later one.
last_named-some : (n : Name) (i : ℕ) (ps : AllPackages) (j : ℕ) → last_named n i ps (some j) ≢ none
unfolding last_named
last_named-some n i [] j = λ h. ground (arith, h)
last_named-some n i (p ∷ ps) j = elim (Bool-cases (p.name == n)) [
  | inl same ↦ rw same (last_named-some n (suc i) ps i)
  | inr other ↦ rw other (last_named-some n (suc i) ps j)
]

pub last_named-none :
    (n : Name) (i : ℕ) (ps : AllPackages)
    → last_named n i ps none ≡ none
    → contains (names ps) n ≡ false
unfolding last_named names contains
last_named-none n i [] = λ h. refl
last_named-none n i (p ∷ ps) = elim (Bool-cases (p.name == n)) [
  | inl same ↦ rw same (λ h. absurd (last_named-some n (suc i) ps i h))
  | inr other ↦ rw other (last_named-none n (suc i) ps)
]

-- A package appended under the name is the last one of it.
last_named-append :
    (n : Name) (i : ℕ) (ps : AllPackages) (found : Option ℕ) (p : Package)
    → p.name ≡ n
    → last_named n i (ps ++ p ∷ []) found ≡ some (i + length ps)
unfolding last_named
last_named-append n i [] found p h = rw (h, ==-refl n) (ap some (omega arith))
last_named-append n i (q ∷ ps) found p h =
    last_named-append n (suc i) ps _ p h ∙ ap some (omega arith)

pub names-append : (ps qs : AllPackages) → names (ps ++ qs) ≡ names ps ++ names qs
unfolding names
names-append [] qs = refl
names-append (p ∷ ps) qs = ap (◌∷◌ p.name) (names-append ps qs)

-- Looking up a name once more finds the package that the first time found or made.
pub named-again : (all : AllPackages) (n : Name) → named (named all n).0 n ≡ named all n
unfolding named found_or_new
named-again all n = elim (Option-cases (last_named n 0 all none)) [
  | inl new ↦
      rw (new, last_named-append n 0 all none (make_unprocessed_package n) refl)
        (ap (λ i. (all ++ make_unprocessed_package n ∷ [], i)) (omega arith))
  | inr (i, old) ↦ rw (old, old) refl
]
