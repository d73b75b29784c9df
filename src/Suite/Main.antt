-- ===== src/Suite/Main.antt =====
-- go/src/test-suite/main.go, and Run of go/src/test-suite/test_run.go up to its first step: how the test
-- program starts.
--
-- An `int` is its bit pattern. What flag.Parse makes of the default flags, the generated table, the
-- regular expression of a valid line and what seeding makes of math/rand are arguments.
pub mod Passes
use package_index.Base.{ℕ, Bool, true, false, Option, none, some, [], Bytes, leb, if◌then◌else◌}
use package_index.Base.Int64.{int64_bound}
use package_index.Base.Text.{codes}
use package_index.Suite.Packages.{AllPackages, brew_to_packages}
use package_index.Suite.Segments.{segment_list_packages}
use package_index.Suite.Phases.{Segments}
use package_index.Suite.Concurrent.{Fleet, begin_fleet}

pub record Flags : Type 0 where
  pub addr : Bytes
  pub concurrency : ℕ
  pub seed : ℕ
  pub unluckiness : ℕ
  pub debug : Bool

abbrev pub default_flags : Flags
default_flags = record {
  addr = codes ":8080";
  concurrency = 10;
  seed = 42;
  unluckiness = 5;
  debug = false;
}

-- `type TestRun`, without its start time and with the wait group in the run that it starts.
pub record TestRun : Type 0 where
  pub server_addr : Bytes
  pub concurrency_level : ℕ
  pub unluckiness : ℕ

unfoldable pub make_test_run : Bytes → ℕ → ℕ → TestRun
make_test_run addr level unluckiness = record {
  server_addr = addr;
  concurrency_level = level;
  unluckiness = unluckiness;
}

-- The program has ended with a status, or runs the test on segments of the packages.
pub data Program {ℓ κ} (S : Type ℓ) (R : Type κ) : Type (ℓ ⊔ κ) where
  exited : ℕ → Program S R
  tests : TestRun → AllPackages → Segments → Fleet S R → Program S R

module _ {ℓ κ} {S : Type ℓ} {R : Type κ} where
  -- No segments are a panic, and so is a negative number that is added to the wait group.
  abbrev pub with_segments : TestRun → AllPackages → S → R → Option Segments → Program S R
  with_segments t all s r none = exited 2
  with_segments t all s r (some ss) =
      if leb int64_bound t.concurrency_level
      then exited 2
      else tests t all ss (begin_fleet t.concurrency_level ss s r)

  -- An error in the data file is a panic.
  abbrev pub with_packages : TestRun → S → R → AllPackages × Bool → Program S R
  with_packages t s r (all, false) = exited 2
  with_packages t s r (all, true) =
      with_segments t all s r (segment_list_packages all t.concurrency_level)

  unfoldable pub begin_test :
      (Bytes → Bool) → (Bytes → Option Bytes) → TestRun → S → R → Program S R
  begin_test matches asset t s r = with_packages t s r (brew_to_packages matches asset [])

  -- A command line that flag.Parse refuses ends the program with status 2.
  abbrev pub with_flags :
      (Bytes → Bool) → (Bytes → Option Bytes) → (ℕ → R) → S → Option Flags → Program S R
  with_flags matches asset seeded s none = exited 2
  with_flags matches asset seeded s (some c) =
      begin_test matches asset (make_test_run c.addr c.concurrency c.unluckiness) s (seeded c.seed)

  unfoldable pub main :
      (Bytes → Bool) → (Bytes → Option Bytes) → (ℕ → R) → (Flags → Option Flags) → S → Program S R
  main matches asset seeded parse s = with_flags matches asset seeded s (parse default_flags)
