-- ===== src/Suite/Run/OneClient.antt =====
-- Run of go/src/test-suite/test_run.go with ConcurrencyLevel 1, where each step is one client's loop over
-- all packages and the next step waits for its end.
pub mod Grows
pub mod Passes
pub mod Steps
use package_index.Base.{ℕ, Option, none, some, List, ◌∷◌, Bytes}
use package_index.Suite.Client.{ResponseCode, ok, fail}
use package_index.Suite.Packages.{AllPackages}
use package_index.Suite.Run.{
  Outcome, fine, returns_error, panics, bruteforce_removes_all_packages,
  bruteforce_indexes_packages, verify_all_packages,
}

-- The next step, unless the process has ended.
abbrev pub next_step {ℓ} :
    {W : Type ℓ} → Option (W × Outcome) → (W → Option (W × Outcome)) → Option (W × Outcome)
next_step none step = none
next_step (some (w, fine)) step = step w
next_step (some (w, o)) step = some (w, o)

-- A step that takes no random numbers.
abbrev pub unchanged {ℓ κ} :
    {S : Type ℓ} {R : Type κ} → R → Option (S × Outcome) → Option ((S × R) × Outcome)
unchanged r none = none
unchanged r (some (s, o)) = some ((s, r), o)

-- What the process goes on with behind a step's client: `Close`, unless the process has ended.
abbrev pub closing {ℓ κ} :
    {S : Type ℓ} {R : Type κ} → (S → S) → Option ((S × R) × Outcome) → Option ((S × R) × Outcome)
closing close none = none
closing close (some ((s, r), fine)) = some ((close s, r), fine)
closing close (some (w, o)) = some (w, o)

-- A step with the client that makeClient gives it; a client that cannot dial fails the test.
abbrev pub with_client {ℓ κ} :
    {S : Type ℓ} {R : Type κ}
    → (S → S)
    → (S × R → Option ((S × R) × Outcome))
    → S × R
    → Option S
    → Option ((S × R) × Outcome)
with_client close step w none = some (w, returns_error)
with_client close step (s, r) (some s') = closing close (step (s', r))

module _ {ℓ κ} {S : Type ℓ} {R : Type κ} (send : S → Bytes → S × Option ResponseCode)
    (dial : S → Option S) (close : S → S) (intn : ℕ → R → ℕ × R) (fuel : ℕ)
    (all : AllPackages) where
  unfoldable pub removes_step : S × R → Option ((S × R) × Outcome)
  removes_step w =
      with_client close
        (λ (x : S × R). unchanged x.1 (bruteforce_removes_all_packages send fuel all x.0)) w
        (dial w.0)

  unfoldable pub verifies_step : ResponseCode → S × R → Option ((S × R) × Outcome)
  verifies_step expected w =
      with_client close
        (λ (x : S × R). unchanged x.1 (some (verify_all_packages send expected all (x.0, fine)))) w
        (dial w.0)

  unfoldable pub indexes_step : ℕ → S × R → Option ((S × R) × Outcome)
  indexes_step unluckiness w =
      with_client close
        (λ (x : S × R). bruteforce_indexes_packages send intn fuel all unluckiness all x) w
        (dial w.0)

  -- The five steps. `fuel` is for each loop of rounds.
  unfoldable pub run : ℕ → S × R → Option ((S × R) × Outcome)
  run unluckiness w = next_step (removes_step w) (λ w1.
      next_step (indexes_step unluckiness w1) (λ w2.
        next_step (verifies_step ok w2)
          (λ w3. next_step (removes_step w3) (λ w4. verifies_step fail w4))))
