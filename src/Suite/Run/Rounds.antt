-- ===== src/Suite/Run/Rounds.antt =====
-- The brute-force rounds get all packages indexed.
use package_index.Base.{
  ℕ, zero, suc, ◌+◌, Bool, ◌<◌, ◌≤◌, true, false, some, [], ◌∷◌, ◌≡◌, refl, ap, ◌∙◌, subst, All,
  All-weaken, length, Name, bytes_eq, arith, Bool-cases, inl, inr, ltb,
}
use package_index.Index.{range}
use package_index.Index.Graph.{Graph, add_package}
use package_index.Server.WireFormat.Grammar.{deps_of}
use package_index.Suite.Packages.{Package, AllPackages}
use package_index.Suite.WireFormat.Answers.{IsNamed}
use package_index.Suite.Run.Verify.{answer}
use package_index.Suite.Run.Steps.{
  has-add_package, has-added, add_package-ready, has_all-deps_of, index_package-answer,
  unlucky-fine,
}
use package_index.Suite.Run.{
  counts, fine, index_step, index_round, index_rounds, bruteforce_indexes_packages,
}
use package_index.Suite.Run.Passed.{
  IsReady, Below, AllHave, AllRanked, counted, installed_lem, unranked, no_packages, Passed,
  nil-Passed, cons-Passed,
}

not_below : (n m : ℕ) → m ≤ n → ltb n m ≡ false
not_below n m h = ground arith

counted_plus : (n m : ℕ) (b : Bool) → counted n b + m ≡ n + counted m b
counted_plus n m true = omega arith
counted_plus n m false = refl

module _ {κ} {R : Type κ} (intn : ℕ → R → ℕ × R)
    (bounded : (n : ℕ) (r : R) → 0 < n → (intn n r).0 < n) (all : AllPackages)
    (named : All IsNamed all) (chance : ℕ) where
  -- One package changes the graph as the server's answer says.
  step-answer :
      (ps : AllPackages) (rank : Name → ℕ) (p : Package) (ready : IsReady all ps rank p) (n : ℕ)
      (g : Graph) (r : R)
      → (r' : R) × (index_step answer intn all chance p n (g, r) ≡ (
        ((add_package p.name (range (deps_of ready.deps)) g).0, r'),
        counts (counted n (add_package p.name (range (deps_of ready.deps)) g).1),
      ))
  unfolding index_step
  step-answer ps rank p ready n g r =
      let (r', luck) = unlucky-fine intn bounded chance g r in
      (
        r',
        rw
            (
              luck,
              index_package-answer all p g ready.deps named ready.named ready.within ready.deps_at,
              installed_lem n (add_package p.name (range (deps_of ready.deps)) g).1,
            )
            refl,
      )

  -- A package that ranks at most `k` has its dependencies in the graph.
  forced-ready :
      (ps : AllPackages) (rank : Name → ℕ) (k : ℕ) (p : Package) (ready : IsReady all ps rank p)
      (g : Graph)
      → Below true ps rank k g
      → rank p.name < suc k
      → (add_package p.name (range (deps_of ready.deps)) g).1 ≡ true
  forced-ready ps rank k p ready g low l = add_package-ready p.name _ g (
      has_all-deps_of ready.deps g
        (All-weaken _ _ ready.deps (λ d rk. low d rk.1 (omega (arith, rk.0))) ready.ranked))

  -- A package whose addition keeps `P`.
  abbrev pub IsHandled : (Graph → Type 0) → AllPackages → (Name → ℕ) → Package → Type 0
  IsHandled P ps rank p =
      (ready : IsReady all ps rank p) × ((g : Graph)
        → P g
        → P (add_package p.name (range (deps_of ready.deps)) g).0)

  round-Passed :
      (P : Graph → Type 0) (ps : AllPackages) (rank : Name → ℕ) (k : ℕ) (qs : AllPackages)
      → All (IsHandled P ps rank) qs
      → (n : ℕ) (g : Graph) (r : R) → P g
      → Below true ps rank k g
      → (g' : Graph) × (r' : R) × (m : ℕ) × (index_round answer intn all chance qs
            ((g, r), counts n)
          ≡ ((g', r'), counts (n + m)))
        × P g'
        × Passed true rank k qs g g' m
  unfolding index_round
  round-Passed P ps rank k [] h n g r v low =
      (g, r, 0, ap (λ (j : ℕ). ((g, r), counts j)) (omega arith), v, nil-Passed true rank k g)
  round-Passed P ps rank k (p ∷ qs) h n g r v low =
      let ds = range (deps_of h.0.0.deps) in
      let (r1, step) = step-answer ps rank p h.0.0 n g r in
      let b = (add_package p.name ds g).1 in
      let g1 = (add_package p.name ds g).0 in
      let grow = λ (x : Name). has-add_package x p.name ds g in
      let (g', r', m, run, v', rest) =
        round-Passed P ps rank k qs h.1 (counted n b) g1 r1 (h.0.1 g v)
          (λ x c l. grow x (low x c l)) in
      (
        g',
        r',
        counted m b,
        ap (index_round answer intn all chance qs) step
            ∙ run
            ∙ ap (λ (j : ℕ). ((g', r'), counts j)) (counted_plus n m b),
        v',
        cons-Passed true rank k p qs g g1 g' m grow b (has-added p.name ds g)
            (forced-ready ps rank k p h.0.0 g low) rest,
      )

  rounds-end :
      (P : Graph → Type 0) (ps : AllPackages) (rank : Name → ℕ)
      → All (IsHandled P ps rank) ps
      → (fuel k n : ℕ) (g : Graph) (r : R) → AllRanked rank (k + fuel) ps
      → P g
      → Below true ps rank k g
      → (AllRanked rank k ps → length ps ≤ n)
      → (length ps ≤ n → AllHave true ps g)
      → (g' : Graph) × (r' : R) × (index_rounds answer intn fuel all chance ps ((g, r), counts n)
          ≡ some ((g', r'), fine))
        × AllHave true ps g'
        × P g'
  unfolding index_rounds
  rounds-end P ps rank h zero k n g r ranks v low full means =
      let enough : length ps ≤ n = full (subst (λ m. AllRanked rank m ps) (omega arith) ranks) in
      (g, r, rw (not_below n (length ps) enough) refl, means enough, v)
  rounds-end P ps rank h (suc fuel) k n g r ranks v low full means =
      elim (Bool-cases (ltb n (length ps))) [
        | inl more ↦
            let (g1, r1, m, run, v1, passed) = round-Passed P ps rank k ps h 0 g r v low in
            let (g', r', later, there, v') =
              rounds-end P ps rank h fuel (suc k) (0 + m) g1 r1
                (subst (λ m. AllRanked rank m ps) (omega arith) ranks) v1 passed.reaches
                (λ a. omega (arith, passed.full a)) (λ a. passed.means (omega (arith, a))) in
            (g', r', rw (more, run) later, there, v')
        | inr enough ↦ (g, r, rw enough refl, means (ground (arith, enough)), v)
      ]

  -- The loop ends with all of `ps` indexed, and what each addition keeps is kept.
  pub bruteforce_indexes_packages-leaves :
      (P : Graph → Type 0) (ps : AllPackages) (rank : Name → ℕ) (bound : ℕ)
      → All (IsHandled P ps rank) ps
      → AllRanked rank bound ps
      → (g : Graph) (r : R) → P g
      → (g' : Graph) × (r' : R) × (bruteforce_indexes_packages answer intn bound all chance ps
            (g, r)
          ≡ some ((g', r'), fine))
        × AllHave true ps g'
        × P g'
  unfolding bruteforce_indexes_packages
  bruteforce_indexes_packages-leaves P ps rank bound h ranks g r v =
      rounds-end P ps rank h bound 0 0 g r (subst (λ m. AllRanked rank m ps) (omega arith) ranks) v
        (λ x c l. absurd (omega (arith, l))) (unranked ps rank) (no_packages true ps g)

  -- One client, the only one of a server that keeps the protocol and has room for every line,
  -- brute-forces the packages `ps`, whose dependencies are among `ps` and rank below the packages
  -- that have them, with all ranks below `bound`, all pointers in the registry and all names such
  -- that the format can carry them. Whatever the index holds, whatever the chance of broken
  -- messages and the random numbers in range, the loop ends without an error in at most `bound`
  -- rounds, and all of `ps` are indexed then.
  pub bruteforce_indexes_packages-ends :
      (ps : AllPackages) (rank : Name → ℕ) (bound : ℕ)
      → All (IsReady all ps rank) ps
      → AllRanked rank bound ps
      → (g : Graph) (r : R)
      → (g' : Graph) × (r' : R) × (bruteforce_indexes_packages answer intn bound all chance ps
            (g, r)
          ≡ some ((g', r'), fine))
        × AllHave true ps g'
  bruteforce_indexes_packages-ends ps rank bound h ranks g r =
      let (g', r', run, there, _) =
        bruteforce_indexes_packages-leaves (λ x. Unit) ps rank bound
          (All-weaken _ _ ps (λ p ready. (ready, λ x v. tt)) h) ranks g r tt in
      (g', r', run, there)
