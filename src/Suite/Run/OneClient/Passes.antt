-- ===== src/Suite/Run/OneClient/Passes.antt =====
-- The test passes, over a server that keeps the protocol.
use package_index.Base.{
  ℕ, ◌<◌, true, false, some, ◌≡◌, refl, All, All-weaken, Name, arith, List, [], ◌∷◌, bytes_eq,
}
use package_index.Index.Graph.{Graph}
use package_index.Suite.Client.{ok, fail}
use package_index.Suite.Packages.{AllPackages}
use package_index.Suite.WireFormat.Answers.{IsNamed}
use package_index.Suite.Run.Passed.{IsReady, AllHave, AllRanked}
use package_index.Suite.Run.Removal.{IsRemovable, members, bruteforce_removes_all_packages-leaves}
use package_index.Suite.Run.Rounds.{bruteforce_indexes_packages-leaves}
use package_index.Suite.Run.Verify.{answer, verify_all_packages-has}
use package_index.Suite.Run.{
  fine, bruteforce_removes_all_packages, bruteforce_indexes_packages, verify_all_packages,
}
use package_index.Suite.Run.OneClient.{removes_step, indexes_step, verifies_step, run}
use package_index.Suite.Run.OneClient.Grows.{flipped, add_package-IsRemovable}

pub All-both {ℓ κ μ} :
    {A : Type ℓ} (P : A → Type κ) (Q : A → Type μ) (xs : List A)
    → All P xs
    → All Q xs
    → All (λ x. P x × Q x) xs
All-both P Q [] h k = tt
All-both P Q (x ∷ xs) h k = ((h.0, k.0), All-both P Q xs h.1 k.1)

module _ {κ} {R : Type κ} (intn : ℕ → R → ℕ × R)
    (bounded : (n : ℕ) (r : R) → 0 < n → (intn n r).0 < n) (all : AllPackages) (rank : Name → ℕ)
    (bound : ℕ) (ready : All (IsReady all all rank) all) (ranks : AllRanked rank bound all) where
  named : All IsNamed all
  named = All-weaken (IsReady all all rank) IsNamed all (λ p h. h.named) ready

  flipped-AllRanked : AllRanked (flipped bound rank) bound all
  flipped-AllRanked = All-weaken _ _ all (λ p h. omega (arith, h)) ranks

  -- How the steps end, one after the other.
  pub steps-pass :
      (unluckiness : ℕ) (g : Graph) (r : R)
      → IsRemovable all (flipped bound rank) g
      → (g1 : Graph) × (g2 : Graph) × (r2 : R) × (g3 : Graph) × (bruteforce_removes_all_packages
            answer bound all g
          ≡ some (g1, fine))
        × (bruteforce_indexes_packages answer intn bound all unluckiness all (g1, r)
            ≡ some ((g2, r2), fine))
        × (verify_all_packages answer ok all (g2, fine) ≡ (g2, fine))
        × (bruteforce_removes_all_packages answer bound all g2 ≡ some (g3, fine))
        × (verify_all_packages answer fail all (g3, fine) ≡ (g3, fine))
        × AllHave false all g3
  steps-pass unluckiness g r v =
      let removes =
        bruteforce_removes_all_packages-leaves all (flipped bound rank) bound named
          flipped-AllRanked in
      let (g1, first, _, v1) = removes g v in
      let (g2, r2, second, there, v2) =
        bruteforce_indexes_packages-leaves intn bounded all named unluckiness
          (IsRemovable all (flipped bound rank)) all rank bound
          (All-weaken _ _ all
            (λ p h. (h.0, λ x w. add_package-IsRemovable all all rank bound p h.0 x h.1.0 h.1.1 w))
            (All-both (IsReady all all rank) _ all ready (All-both _ _ all (members all) ranks)))
          ranks g1 r v1 in
      let (g3, fourth, gone, _) = removes g2 v2 in
      (
        g1,
        g2,
        r2,
        g3,
        first,
        second,
        (verify_all_packages-has true all g2 named).1 there,
        fourth,
        (verify_all_packages-has false all g3 named).1 gone,
        gone,
      )

  -- One client runs the test over a server that keeps the protocol and has room for every line, on
  -- packages whose dependencies are among them and rank below the packages that have them, with all ranks
  -- below `bound`, all pointers in the registry and names that the format can carry, from a graph whose
  -- packages depend on older ones, in which whatever depends on one of the packages is one of them and
  -- ranks above it: whatever the unluckiness and the random numbers in range, all five steps end without
  -- an error, each loop in at most `bound` rounds, and none of the packages is indexed then.
  pub run-passes :
      (unluckiness : ℕ) (g : Graph) (r : R)
      → IsRemovable all (flipped bound rank) g
      → (g' : Graph) × (r' : R) × (run answer some (λ g. g) intn bound all unluckiness (g, r)
          ≡ some ((g', r'), fine))
        × AllHave false all g'
  unfolding run removes_step indexes_step verifies_step
  run-passes unluckiness g r v =
      let (g1, g2, r2, g3, first, second, third, fourth, fifth, gone) =
        steps-pass unluckiness g r v in
      (g3, r2, rw (first, second, third, fourth, fifth) refl, gone)
