-- ===== src/Suite/Run/OneClient/Steps.antt =====
-- A run is made of its steps.
use package_index.Base.{ℕ, Option, some, ◌≡◌, ◌∙◌, refl, ap, Bytes}
use package_index.Suite.Client.{ResponseCode, ok, fail}
use package_index.Suite.Packages.{AllPackages}
use package_index.Suite.Run.{
  Outcome, fine, bruteforce_removes_all_packages, bruteforce_indexes_packages, verify_all_packages,
}
use package_index.Suite.Run.OneClient.{
  unchanged, closing, with_client, removes_step, verifies_step, indexes_step, run,
}

module _ {ℓ κ} {S : Type ℓ} {R : Type κ} (send : S → Bytes → S × Option ResponseCode)
    (dial : S → Option S) (close : S → S) (intn : ℕ → R → ℕ × R) (fuel : ℕ)
    (all : AllPackages) where
  with_client-ends :
      (step : S × R → Option ((S × R) × Outcome)) (s c s' : S) (r r' : R)
      → dial s ≡ some c
      → step (c, r) ≡ some ((s', r'), fine)
      → with_client close step (s, r) (dial s) ≡ some ((close s', r'), fine)
  with_client-ends step s c s' r r' h k =
      ap (with_client close step (s, r)) h ∙ ap (closing close) k

  pub removes_step-ends :
      (s c s' : S) (r : R)
      → dial s ≡ some c
      → bruteforce_removes_all_packages send fuel all c ≡ some (s', fine)
      → removes_step send dial close intn fuel all (s, r) ≡ some ((close s', r), fine)
  unfolding removes_step
  removes_step-ends s c s' r h k =
      with_client-ends
        (λ (x : S × R). unchanged x.1 (bruteforce_removes_all_packages send fuel all x.0)) s c s' r
        r h (ap (unchanged r) k)

  pub verifies_step-ends :
      (expected : ResponseCode) (s c s' : S) (r : R)
      → dial s ≡ some c
      → verify_all_packages send expected all (c, fine) ≡ (s', fine)
      → verifies_step send dial close intn fuel all expected (s, r) ≡ some ((close s', r), fine)
  unfolding verifies_step
  verifies_step-ends expected s c s' r h k =
      with_client-ends
        (λ (x : S × R). unchanged x.1 (some (verify_all_packages send expected all (x.0, fine)))) s
        c s' r r h (ap (λ (x : S × Outcome). unchanged r (some x)) k)

  pub indexes_step-ends :
      (unluckiness : ℕ) (s c s' : S) (r r' : R)
      → dial s ≡ some c
      → bruteforce_indexes_packages send intn fuel all unluckiness all (c, r)
        ≡ some ((s', r'), fine)
      → indexes_step send dial close intn fuel all unluckiness (s, r) ≡ some ((close s', r'), fine)
  unfolding indexes_step
  indexes_step-ends unluckiness s c s' r r' h k =
      with_client-ends
        (λ (x : S × R). bruteforce_indexes_packages send intn fuel all unluckiness all x) s c s' r
        r' h k

  pub run-ends :
      (unluckiness : ℕ) (w w1 w2 w3 w4 w5 : S × R)
      → removes_step send dial close intn fuel all w ≡ some (w1, fine)
      → indexes_step send dial close intn fuel all unluckiness w1 ≡ some (w2, fine)
      → verifies_step send dial close intn fuel all ok w2 ≡ some (w3, fine)
      → removes_step send dial close intn fuel all w3 ≡ some (w4, fine)
      → verifies_step send dial close intn fuel all fail w4 ≡ some (w5, fine)
      → run send dial close intn fuel all unluckiness w ≡ some (w5, fine)
  unfolding run
  run-ends unluckiness w w1 w2 w3 w4 w5 a b c d e = rw (a, b, c, d, e) refl
