-- ===== src/Suite/Main/Passes.antt =====
-- The test program from its start.
use package_index.Base.{
  leb, Bool-cases, inl, inr, ℕ, ◌<◌, ◌⊎◌, Bool, true, false, Option, none, some, [], ◌≡◌, refl, ap,
  sym, subst, All, length, Bytes, arith,
}
use package_index.Base.Int64.{int64_bound}
use package_index.Index.Graph.{Graph, IsOrdered}
use package_index.Suite.Packages.{AllPackages, brew_to_packages}
use package_index.Suite.Packages.Registry.{IsRegistry, brew_to_packages-IsRegistry}
use package_index.Suite.Segments.{segment_list_packages}
use package_index.Suite.WireFormat.Answers.{IsNamed}
use package_index.Suite.Run.Verify.{answer}
use package_index.Suite.Phases.{Segments}
use package_index.Suite.Concurrent.{Fleet, begin_fleet, FleetSteps}
use package_index.Suite.Concurrent.Passes.{HasPassed}
use package_index.Suite.Concurrent.Whole.{FleetSteps-HasPassed}
use package_index.Suite.Main.{
  Flags, TestRun, make_test_run, Program, exited, tests, with_segments, with_packages, begin_test,
  main, default_flags,
}

module _ {κ} {R : Type κ} where
  -- What the program runs on.
  abbrev IsBegun : AllPackages → TestRun → Graph → Program Graph R → Type κ
  IsBegun read c g (exited n) = Unit
  IsBegun read c g (tests t all segments f) =
      (t ≡ c)
      × (all ≡ read)
      × (segment_list_packages all t.concurrency_level ≡ some segments)
      × ((r : R) × (f ≡ begin_fleet t.concurrency_level segments g r))

  with_segments-IsBegun :
      (all : AllPackages) (t : TestRun) (g : Graph) (r : R) (o : Option Segments)
      → segment_list_packages all t.concurrency_level ≡ o
      → IsBegun all t g (with_segments t all g r o)
  with_segments-IsBegun all t g r none e = tt
  with_segments-IsBegun all t g r (some ss) e =
      elim (Bool-cases (leb int64_bound t.concurrency_level)) [
        | inl negative ↦ rw negative tt
        | inr counts ↦ rw counts (refl, refl, e, (r, refl))
      ]

  with_packages-IsBegun :
      (t : TestRun) (g : Graph) (r : R) (b : AllPackages × Bool)
      → IsBegun b.0 t g (with_packages t g r b)
  with_packages-IsBegun t g r (all, false) = tt
  with_packages-IsBegun t g r (all, true) =
      with_segments-IsBegun all t g r (segment_list_packages all t.concurrency_level) refl

  -- The test program over a server that keeps the protocol, whatever the generated table holds, whatever
  -- lines count as valid and however math/rand is seeded, as long as its numbers are in range: if it comes
  -- to run the test, there is a package, the names are such that the format can carry them, the
  -- concurrency is positive and the packages of the server's graph depend on older ones, then in whatever
  -- order the goroutines take turns the process still runs, or main has returned with nothing left to do
  -- and none of the packages indexed.
  pub main-HasPassed :
      (intn : ℕ → R → ℕ × R) (bounded : (n : ℕ) (r : R) → 0 < n → (intn n r).0 < n)
      (matches : Bytes → Bool) (asset : Bytes → Option Bytes) (seeded : ℕ → R)
      (parse : Flags → Option Flags) (c : Flags) (g : Graph) (t : TestRun) (all : AllPackages)
      (segments : Segments) (f f' : Fleet Graph R)
      → parse default_flags ≡ some c
      → main matches asset seeded parse g ≡ tests t all segments f
      → 0 < length all
      → All IsNamed all
      → 0 < c.concurrency
      → c.concurrency < int64_bound
      → IsOrdered g
      → FleetSteps answer some (λ x. x) intn all t.unluckiness t.concurrency_level segments f f'
      → (f'.run.exit ≡ none) ⊎ HasPassed all f'
  unfolding main begin_test make_test_run
  main-HasPassed intn bounded matches asset seeded parse c g t all segments f f' e h some_package
        named pos small o steps =
      let begun : IsBegun (brew_to_packages matches asset []).0
          (make_test_run c.addr c.concurrency c.unluckiness) g (tests t all segments f) =
        subst
          (IsBegun (brew_to_packages matches asset []).0
            (make_test_run c.addr c.concurrency c.unluckiness) g)
          h
          (rw e (
            with_packages-IsBegun (make_test_run c.addr c.concurrency c.unluckiness) g
              (seeded c.seed) (brew_to_packages matches asset []))) in
      let (same, read, made, (r, starts)) = begun in
      let registry : IsRegistry all =
        subst IsRegistry (sym read) (brew_to_packages-IsRegistry matches asset) in
      let level : t.concurrency_level ≡ c.concurrency =
        ap (λ (x : TestRun). x.concurrency_level) same in
      FleetSteps-HasPassed intn bounded all named registry.1 t.unluckiness t.concurrency_level
        segments made (omega (arith, level, pos)) (omega (arith, level, small)) some_package g r f'
        o
        (subst
          (λ x.
            FleetSteps answer some (λ x. x) intn all t.unluckiness t.concurrency_level segments x
              f')
          starts steps)
