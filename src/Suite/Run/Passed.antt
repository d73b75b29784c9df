-- ===== src/Suite/Run/Passed.antt =====
-- What a brute-force round has done when it ends.
use package_index.Base.{
  ℕ, suc, ◌<◌, ◌≤◌, Bool, true, false, some, List, [], ◌∷◌, ◌≡◌, refl, ap, sym, subst, All, length,
  Name, if◌then◌else◌, bytes_eq, arith, bytes_beq_iff, Bool-cases, inl, inr, ◌==◌,
}
use package_index.Base.Maps.{has}
use package_index.Base.Sets.{contains}
use package_index.Index.Graph.{Graph}
use package_index.Suite.Packages.{Package, AllPackages, names}
use package_index.Suite.Packages.Registry.{Within}
use package_index.Suite.WireFormat.{names_at}
use package_index.Suite.WireFormat.Answers.{IsNamed}
use package_index.Suite.Run.{counts, outcome, installed}

-- A package that the format can carry, whose dependencies are among `ps` and rank below it.
pub record IsReady (all ps : AllPackages) (rank : Name → ℕ) (p : Package) : Type 0 where
  pub named : IsNamed p
  pub within : Within (length all) p
  pub deps : List Name
  pub deps_at : names_at all p.dependencies ≡ some deps
  pub ranked : All (λ d. (rank d < rank p.name) × (contains (names ps) d ≡ true)) deps

-- The packages among `ps` that rank below `k` are indexed, or for `false` none of them is.
abbrev pub Below : Bool → AllPackages → (Name → ℕ) → ℕ → Graph → Type 0
Below b ps rank k g = (x : Name) → contains (names ps) x ≡ true → rank x < k → has x g ≡ b

abbrev pub AllHave : Bool → AllPackages → Graph → Type 0
AllHave b ps g = All (λ p. has p.name g ≡ b) ps

abbrev pub AllRanked : (Name → ℕ) → ℕ → AllPackages → Type 0
AllRanked rank k ps = All (λ p. rank p.name < k) ps

abbrev pub counted : ℕ → Bool → ℕ
counted n b = if b then suc n else n

pub installed_lem : (n : ℕ) (b : Bool) → installed n (outcome b) ≡ counts (counted n b)
installed_lem n true = refl
installed_lem n false = refl

-- Nothing ranks below 0.
pub unranked : (ps : AllPackages) (rank : Name → ℕ) → AllRanked rank 0 ps → length ps ≤ 0
unranked [] rank h = omega arith
unranked (p ∷ ps) rank h = absurd (omega (arith, h.0))

pub no_packages : (b : Bool) (ps : AllPackages) (g : Graph) → length ps ≤ 0 → AllHave b ps g
no_packages b [] g h = tt
no_packages b (p ∷ ps) g h = absurd (omega (arith, h))

-- What a round over `qs` from `g`, that indexes packages or for `false` removes them, has done when it
-- ends in `g'` with `m` successes.
pub record Passed (b : Bool) (rank : Name → ℕ) (k : ℕ) (qs : AllPackages) (g : Graph) (g' : Graph)
    (m : ℕ) : Type 0 where
  pub keeps : (x : Name) → has x g ≡ b → has x g' ≡ b
  pub reaches : Below b qs rank (suc k) g'
  pub at_most : m ≤ length qs
  pub full : AllRanked rank (suc k) qs → m ≡ length qs
  pub means : length qs ≤ m → AllHave b qs g'

pub nil-Passed : (b : Bool) (rank : Name → ℕ) (k : ℕ) (g : Graph) → Passed b rank k [] g g 0
unfolding names contains
nil-Passed b rank k g = record {
  keeps = λ x h. h;
  reaches = λ x h l. absurd (ground (arith, h));
  at_most = omega arith;
  full = λ h. refl;
  means = λ h. tt;
}

-- One package more in front of a round.
module _ (b : Bool) (rank : Name → ℕ) (k : ℕ) (p : Package) (qs : AllPackages) (g g1 g' : Graph)
    (m : ℕ) (grow : (x : Name) → has x g ≡ b → has x g1 ≡ b) where
  cons-reaches :
      (rank p.name < suc k → has p.name g' ≡ b)
      → Below b qs rank (suc k) g'
      → Below b (p ∷ qs) rank (suc k) g'
  unfolding names contains
  cons-reaches now later x h l = elim (Bool-cases (p.name == x)) [
    | inl same ↦
        let e : p.name ≡ x = (bytes_beq_iff p.name x).0 same in
        subst (λ y. has y g' ≡ b) e (now (subst (λ y. rank y < suc k) (sym e) l))
    | inr other ↦ later x (ground arith) l
  ]

  pub cons-Passed :
      (ok : Bool)
      → (ok ≡ true → has p.name g1 ≡ b)
      → (rank p.name < suc k → ok ≡ true)
      → Passed b rank k qs g1 g' m
      → Passed b rank k (p ∷ qs) g g' (counted m ok)
  cons-Passed true meant forced rest = record {
    keeps = λ x h. rest.keeps x (grow x h);
    reaches = cons-reaches (λ l. rest.keeps p.name (meant refl)) rest.reaches;
    at_most = omega (arith, rest.at_most);
    full = λ h. ap suc (rest.full h.1);
    means = λ h. (rest.keeps p.name (meant refl), rest.means (omega arith));
  }
  cons-Passed false meant forced rest = record {
    keeps = λ x h. rest.keeps x (grow x h);
    reaches = cons-reaches (λ l. absurd (ground (arith, forced l))) rest.reaches;
    at_most = omega (arith, rest.at_most);
    full = λ h. absurd (ground (arith, forced h.0));
    means = λ h. absurd (omega (arith, rest.at_most, h));
  }
