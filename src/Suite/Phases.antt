-- ===== src/Suite/Phases.antt =====
-- go/src/test-suite/test_run.go: Run, its five steps, and the goroutines of each with their wait group.
--
-- A goroutine is the segment that it works on. How its work ends, the dialling included, is up to the
-- step, and so is the order of the goroutines.
pub mod Counter
pub mod Known
pub mod Progress
use package_index.Base.{ℕ, zero, suc, ◌+◌, Option, none, some, List, [], ◌∷◌, ◌≡◌}
use package_index.Base.Choice.{bring}
use package_index.Suite.Client.{ResponseCode, ok, fail}
use package_index.Suite.Packages.{Package}
use package_index.Suite.Run.{Outcome, fine, returns_error, panics}

-- The steps of `Run`.
pub data Task : Type 0 where
  removes indexes : Task
  verifies : ResponseCode → Task

abbrev pub Segments : Type 0
Segments = List (List Package)

pub record Run : Type 0 where
  -- The steps after the one that runs.
  pub todo : List Task
  -- What the wait group counts.
  pub counter : ℕ
  -- The segments whose goroutines have yet to be started, and those whose goroutines run.
  pub pending : Segments
  pub running : Segments
  -- The process's exit status.
  pub exit : Option ℕ

-- `t.Fail`: its first `os.Exit` does not return.
unfoldable pub fail_run : Run → Run
fail_run r = record r { exit = some 0 }

-- A panic ends the process with status 2.
abbrev pub crash : Run → Run
crash r = record r { exit = some 2 }

-- `t.waiting.Done()`, which panics if nothing is counted.
abbrev pub wait_done : ℕ → Run → Run
wait_done zero r = crash r
wait_done (suc n) r = record r { counter = n }

-- A goroutine ends, and `rest` run on.
unfoldable pub after_client : Outcome → Segments → Run → Run
after_client fine rest r = wait_done r.counter (record r { running = rest })
after_client returns_error rest r = fail_run r
after_client panics rest r = crash r

-- A concurrent step up to its loop: `t.waiting.Add(t.ConcurrencyLevel)`. A run is begun with levels that
-- are not negative only, since the first `Add` panics otherwise: see Suite.Main.
unfoldable pub begin : ℕ → Segments → List Task → Run → Run
begin level segments todo r = record r {
  todo = todo;
  counter = r.counter + level;
  pending = segments;
}

-- `Run` up to the loop of its first step.
unfoldable pub begin_run : ℕ → Segments → Run
begin_run level segments =
    begin level segments (indexes ∷ verifies ok ∷ removes ∷ verifies fail ∷ [])
      (record { todo = []; counter = 0; pending = []; running = []; exit = none })

-- What can happen next, as long as the process runs.
pub data RunStep (level : ℕ) (segments : Segments) : Run → Run → Type 0 where
  starts :
      (r : Run) (s : List Package) (rest : Segments)
      → r.exit ≡ none
      → r.pending ≡ s ∷ rest
      → RunStep level segments r (record r { pending = rest; running = s ∷ r.running })
  ends :
      (r : Run) (i : ℕ) (s : List Package) (rest : Segments) (o : Outcome)
      → r.exit ≡ none
      → bring i r.running ≡ some (s, rest)
      → RunStep level segments r (after_client o rest r)
  -- `t.waiting.Wait()` returns, and the next step begins.
  goes_on :
      (r : Run) (t : Task) (ts : List Task)
      → r.exit ≡ none
      → r.pending ≡ []
      → r.counter ≡ 0
      → r.todo ≡ t ∷ ts
      → RunStep level segments r (begin level segments ts r)
  -- It returns in the last step, and `main` does.
  returns :
      (r : Run)
      → r.exit ≡ none
      → r.pending ≡ []
      → r.counter ≡ 0
      → r.todo ≡ []
      → RunStep level segments r (record r { exit = some 0 })

pub data RunSteps (level : ℕ) (segments : Segments) (r : Run) : Run → Type 0 where
  here : RunSteps level segments r r
  next :
      {t u : Run}
      → RunSteps level segments r t
      → RunStep level segments t u
      → RunSteps level segments r u
