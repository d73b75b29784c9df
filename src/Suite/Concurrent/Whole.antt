-- ===== src/Suite/Concurrent/Whole.antt =====
-- The test run with all its goroutines, over the segments that it makes of its packages.
use package_index.Base.{
  ℕ, ◌<◌, ◌≤◌, min, ◌⊎◌, some, none, List, [], ◌∷◌, ◌≡◌, ap, sym, ◌∙◌, subst, All, All-left,
  All-right, length, arith, inl, inr,
}
use package_index.Base.Int64.{int64_bound}
use package_index.Index.Graph.{Graph, IsOrdered}
use package_index.Suite.Packages.{AllPackages}
use package_index.Suite.Packages.Registry.{Within}
use package_index.Suite.Segments.{flatten, segment_list_packages, segment_list_packages-IsPartition}
use package_index.Suite.WireFormat.Answers.{IsNamed}
use package_index.Suite.Run.OneClient.Passes.{All-both}
use package_index.Suite.Run.Verify.{answer}
use package_index.Suite.Phases.{Segments}
use package_index.Suite.Concurrent.{Fleet, begin_fleet, FleetSteps}
use package_index.Suite.Concurrent.Messages.{IsCarried}
use package_index.Suite.Concurrent.Passes.{HasPassed, FleetSteps-IsSound}

pub All-flatten {ℓ κ} :
    {A : Type ℓ} (P : A → Type κ) (ss : List (List A)) → All P (flatten ss) → All (All P) ss
unfolding flatten
All-flatten P [] h = tt
All-flatten P (s ∷ ss) h =
    (All-left P s (flatten ss) h, All-flatten P ss (All-right P s (flatten ss) h))

module _ {κ} {R : Type κ} (intn : ℕ → R → ℕ × R)
    (bounded : (n : ℕ) (r : R) → 0 < n → (intn n r).0 < n) (all : AllPackages)
    (named : All IsNamed all) (within : All (Within (length all)) all) (chance level : ℕ)
    (segments : Segments) (made : segment_list_packages all level ≡ some segments) (pos : 0 < level)
    (small : level < int64_bound) (some_package : 0 < length all) where
  pub part : (flatten segments ≡ all) × (length segments ≡ min level (length all))
  part =
      let (ss, e, p, share) = segment_list_packages-IsPartition all level pos small some_package in
      let same : ss ≡ segments = cc in
      (
        ap (λ (x : Segments). flatten x) (sym same) ∙ p.0,
        ap (λ (x : Segments). length x) (sym same) ∙ p.1,
      )

  few : length segments ≤ level
  few = omega (arith, part.1)

  carried : All (All (IsCarried all)) segments
  carried = All-flatten (IsCarried all) segments (
      subst (All (IsCarried all)) (sym part.0)
        (All-both IsNamed (Within (length all)) all named within))

  -- The packages have pointers into the registry and names that the format can carry, there is at least
  -- one, the concurrency level is positive and the random numbers are in range. Then whatever the
  -- server's graph, whose packages depend on older ones, whatever the unluckiness, and in whatever order
  -- the messages of the concurrent clients reach a server that keeps the protocol, no client fails and
  -- nothing panics: the process still runs, or main has returned with nothing left to do, no goroutine
  -- pending or running, and none of the packages indexed.
  pub FleetSteps-HasPassed :
      (g : Graph) (r : R) (f : Fleet Graph R)
      → IsOrdered g
      → FleetSteps answer some
          (λ x. x)
          intn
          all
          chance
          level
          segments
          (begin_fleet level segments g r)
          f
      → (f.run.exit ≡ none) ⊎ HasPassed all f
  FleetSteps-HasPassed g r f o steps =
      elim (FleetSteps-IsSound intn bounded all named chance level segments few part.0 carried g r
        steps o) [ inl sound ↦ inl sound.alive | inr passed ↦ inr passed ]
