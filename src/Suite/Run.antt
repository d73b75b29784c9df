-- ===== src/Suite/Run.antt =====
-- go/src/test-suite/test_run.go: what one client of the test run does with its packages.
--
-- The client's Send and `rand.Intn` are parameters, with the states that they change. A loop of rounds
-- takes fuel, and none is a loop that has not ended yet.
pub mod OneClient
pub mod Passed
pub mod Removal
pub mod Rounds
pub mod Simulation
pub mod Steps
pub mod Verify
use package_index.Base.{
  ℕ, zero, suc, ◌+◌, ◌-◌, ◌%◌, Bool, true, false, ◌&&◌, Option, none, some, List, [], ◌∷◌, length,
  Bytes, ltb, if◌then◌else◌,
}
use package_index.Base.Int64.{is_pos}
use package_index.Suite.Client.{ResponseCode, ok, fail, error}
use package_index.Suite.Packages.{Package, AllPackages}
use package_index.Suite.WireFormat.{
  choices, make_index_message, make_remove_message, make_query_message, make_broken_message,
}

pub data Outcome : Type 0 where
  fine returns_error panics : Outcome

-- Is the response the expected code?
abbrev pub is_code : ResponseCode → Option ResponseCode → Bool
is_code ok (some ok) = true
is_code fail (some fail) = true
is_code error (some error) = true
is_code _ _ = false

abbrev pub outcome : Bool → Outcome
outcome b = if b then fine else returns_error

-- How a round over the packages ends.
pub data Round : Type 0 where
  counts : ℕ → Round
  stops : Outcome → Round

abbrev installed : ℕ → Outcome → Round
installed n fine = counts (suc n)
installed n returns_error = counts n
installed n panics = stops panics

module _ {ℓ} {S : Type ℓ} (send : S → Bytes → S × Option ResponseCode) where
  -- A message that could not be made is a panic.
  unfoldable pub send_for : ResponseCode → Option Bytes → S → S × Outcome
  send_for expected none s = (s, panics)
  send_for expected (some msg) s =
      let (s', code) = send s msg in (s', outcome (is_code expected code))

  unfoldable pub index_package : AllPackages → Package → S → S × Outcome
  index_package all pkg s = send_for ok (make_index_message all pkg) s

  abbrev pub removed : ℕ → S × Option ResponseCode → S × Round
  removed n (s, none) = (s, stops returns_error)
  removed n (s, some ok) = (s, counts (n - 1))
  removed n (s, some fail) = (s, counts n)
  removed n (s, some error) = (s, counts n)

  unfoldable pub remove_round : List Package → S × Round → S × Round
  remove_round [] (s, o) = (s, o)
  remove_round (p ∷ ps) (s, stops o) = (s, stops o)
  remove_round (p ∷ ps) (s, counts n) = remove_round ps (removed n (send s (make_remove_message p)))

  -- The loop of bruteforceRemovesAllPackages, from the result of a round.
  unfoldable pub remove_rounds : ℕ → List Package → S × Round → Option (S × Outcome)
  remove_rounds fuel ps (s, stops o) = some (s, o)
  remove_rounds zero ps (s, counts n) = if ltb 0 n then none else some (s, fine)
  remove_rounds (suc fuel) ps (s, counts n) =
      let more = remove_rounds fuel ps (remove_round ps (s, counts (length ps))) in
      if ltb 0 n then more else some (s, fine)

  unfoldable pub bruteforce_removes_all_packages : ℕ → List Package → S → Option (S × Outcome)
  bruteforce_removes_all_packages fuel ps s = remove_rounds fuel ps (s, counts (length ps))

  unfoldable pub verify_all_packages : ResponseCode → List Package → S × Outcome → S × Outcome
  verify_all_packages expected [] (s, o) = (s, o)
  verify_all_packages expected (p ∷ ps) (s, fine) =
      verify_all_packages expected ps (send_for expected (some (make_query_message p)) s)
  verify_all_packages expected (p ∷ ps) (s, o) = (s, o)

module _ {ℓ κ} {S : Type ℓ} {R : Type κ} (send : S → Bytes → S × Option ResponseCode)
    (intn : ℕ → R → ℕ × R) where
  -- `rand.Intn(100) < chance`, where the chance is an `int` as its bit pattern.
  unfoldable pub should_something_bad_happen : ℕ → R → Bool × R
  should_something_bad_happen chance r =
      let (n, r') = intn 100 r in (is_pos chance && ltb n chance, r')

  unfoldable pub send_broken_message : S × R → (S × R) × Outcome
  send_broken_message (s, r) =
      let (kind, r1) = intn 10 r in
      let (choice, r2) = intn (choices kind) r1 in
      let (s', o) = send_for send error (make_broken_message kind choice) s in ((s', r2), o)

  unfoldable pub unlucky : ℕ → S × R → (S × R) × Outcome
  unlucky chance (s, r) =
      let (bad, r') = should_something_bad_happen chance r in
      let broken = send_broken_message (s, r') in if bad then broken else ((s, r'), fine)

  abbrev pub indexed : ℕ → (S × Outcome) × R → (S × R) × Round
  indexed n ((s, o), r) = ((s, r), installed n o)

  -- One package of a round, in which `n` are installed so far.
  abbrev pub after_unlucky : AllPackages → Package → ℕ → (S × R) × Outcome → (S × R) × Round
  after_unlucky all pkg n ((s, r), fine) = indexed n (index_package send all pkg s, r)
  after_unlucky all pkg n (w, o) = (w, stops o)

  unfoldable pub index_step : AllPackages → ℕ → Package → ℕ → S × R → (S × R) × Round
  index_step all chance pkg n w = after_unlucky all pkg n (unlucky chance w)

  unfoldable pub index_round : AllPackages → ℕ → List Package → (S × R) × Round → (S × R) × Round
  index_round all chance [] (w, o) = (w, o)
  index_round all chance (p ∷ ps) (w, stops o) = (w, stops o)
  index_round all chance (p ∷ ps) (w, counts n) =
      index_round all chance ps (index_step all chance p n w)

  -- The loop of bruteforceIndexesPackages, from the result of a round.
  unfoldable pub index_rounds :
      ℕ → AllPackages → ℕ → List Package → (S × R) × Round → Option ((S × R) × Outcome)
  index_rounds fuel all chance ps (w, stops o) = some (w, o)
  index_rounds zero all chance ps (w, counts n) = if ltb n (length ps) then none else some (w, fine)
  index_rounds (suc fuel) all chance ps (w, counts n) =
      let more = index_rounds fuel all chance ps (index_round all chance ps (w, counts 0)) in
      if ltb n (length ps) then more else some (w, fine)

  unfoldable pub bruteforce_indexes_packages :
      ℕ → AllPackages → ℕ → List Package → S × R → Option ((S × R) × Outcome)
  bruteforce_indexes_packages fuel all chance ps w = index_rounds fuel all chance ps (w, counts 0)
