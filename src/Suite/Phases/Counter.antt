-- ===== src/Suite/Phases/Counter.antt =====
-- What the wait group counts while a run goes on.
use package_index.Base.{ℕ, zero, suc, ◌+◌, ◌≤◌, none, some, List, ◌≡◌, ap, length, arith}
use package_index.Base.Choice.{bring, length-bring}
use package_index.Suite.Packages.{Package}
use package_index.Suite.Run.{Outcome, fine, returns_error, panics}
use package_index.Suite.Phases.{
  Segments, Run, wait_done, after_client, fail_run, begin, begin_run, RunStep, starts, ends,
  goes_on, returns, RunSteps, here, next,
}

-- While the process runs, the counter is ahead of the goroutines that have yet to end by as much as the
-- concurrency level is ahead of the segments.
abbrev pub IsAhead : ℕ → Segments → Run → Type 0
IsAhead level segments r =
    r.exit ≡ none → r.counter + length segments ≡ level + (length r.pending + length r.running)

wait_done-IsAhead :
    (level : ℕ) (segments : Segments) (n : ℕ) (r : Run)
    → n + length segments ≡ suc (level + (length r.pending + length r.running))
    → IsAhead level segments (wait_done n r)
wait_done-IsAhead level segments zero r h = λ e. ground (arith, e)
wait_done-IsAhead level segments (suc n) r h = λ e. omega (arith, h)

after_client-IsAhead :
    (level : ℕ) (segments : Segments) (o : Outcome) (s : List Package) (rest : Segments) (i : ℕ)
    (r : Run)
    → r.exit ≡ none
    → bring i r.running ≡ some (s, rest)
    → IsAhead level segments r
    → IsAhead level segments (after_client o rest r)
unfolding after_client fail_run
after_client-IsAhead level segments fine s rest i r alive e h =
    wait_done-IsAhead level segments r.counter (record r { running = rest })
      (omega (arith, h alive, length-bring i r.running s rest e))
after_client-IsAhead level segments returns_error s rest i r alive e h = λ q. ground (arith, q)
after_client-IsAhead level segments panics s rest i r alive e h = λ q. ground (arith, q)

RunStep-IsAhead :
    {level : ℕ} {segments : Segments} {r t : Run}
    → length segments ≤ level
    → RunStep level segments r t
    → IsAhead level segments r
    → IsAhead level segments t
unfolding begin
RunStep-IsAhead enough (starts r s rest alive p) h =
    λ q. omega (arith, h alive, ap (λ (x : Segments). length x) p)
RunStep-IsAhead enough (ends r i s rest o alive e) h =
    after_client-IsAhead _ _ o s rest i r alive e h
RunStep-IsAhead enough (goes_on r t ts alive p c todo) h =
    λ q. omega (arith, h alive, c, ap (λ (x : Segments). length x) p, enough)
RunStep-IsAhead enough (returns r alive p c todo) h = λ q. ground (arith, q)

pub RunSteps-IsAhead :
    {level : ℕ} {segments : Segments} {r t : Run}
    → length segments ≤ level
    → RunSteps level segments r t
    → IsAhead level segments r
    → IsAhead level segments t
RunSteps-IsAhead enough here h = h
RunSteps-IsAhead enough (next before last) h =
    RunStep-IsAhead enough last (RunSteps-IsAhead enough before h)

pub begin_run-IsAhead :
    (level : ℕ) (segments : Segments) → IsAhead level segments (begin_run level segments)
unfolding begin_run begin
begin_run-IsAhead level segments = λ e. omega arith
