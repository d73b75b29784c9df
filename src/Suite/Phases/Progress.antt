-- ===== src/Suite/Phases/Progress.antt =====
-- What the wait group counts, when a test run can go on, and with what status it ends.
use package_index.Base.{
  ℕ, zero, suc, ◌+◌, ◌-◌, ◌<◌, ◌≤◌, none, some, List, [], ◌∷◌, ◌≡◌, ◌≢◌, refl, ap, sym, ◌∙◌, length,
  arith, min,
}
use package_index.Base.Choice.{bring}
use package_index.Base.Int64.{int64_bound}
use package_index.Suite.Packages.{Package}
use package_index.Suite.Segments.{segment_list_packages, segment_list_packages-IsPartition}
use package_index.Suite.Run.{fine, returns_error, panics}
use package_index.Suite.Phases.{
  Task, Segments, Run, wait_done, after_client, fail_run, begin, begin_run, RunStep, starts, ends,
  goes_on, returns, RunSteps, here, next,
}
use package_index.Suite.Phases.Counter.{IsAhead, RunSteps-IsAhead, begin_run-IsAhead}

-- Some move is left while a phase has goroutines, or its wait group counts none.
can_move :
    {level : ℕ} {segments : Segments} (r : Run) (pending running : Segments) (todo : List Task)
    → r.exit ≡ none
    → r.pending ≡ pending
    → r.running ≡ running
    → r.todo ≡ todo
    → (length pending + length running ≡ 0 → r.counter ≡ 0)
    → (t : Run) × RunStep level segments r t
unfolding bring
can_move r (s ∷ rest) running todo alive p q e h = (_, starts r s rest alive p)
can_move r [] (s ∷ rest) todo alive p q e h = (_, ends r 0 s rest fine alive (ap (bring 0) q))
can_move r [] [] (t ∷ ts) alive p q e h = (_, goes_on r t ts alive p (h refl) e)
can_move r [] [] [] alive p q e h = (_, returns r alive p (h refl) e)

goes_on_lem :
    {level : ℕ} {segments : Segments} {t : Run}
    → length segments ≡ level
    → RunSteps level segments (begin_run level segments) t
    → t.exit ≡ none
    → (u : Run) × RunStep level segments t u
goes_on_lem {level} {segments} {t} same moves alive =
    can_move t t.pending t.running t.todo alive refl refl refl (λ h. omega (
      arith,
      h,
      same,
      RunSteps-IsAhead (omega (arith, same)) moves (begin_run-IsAhead level segments) alive,
    ))

todo-wait_done : (k : ℕ) (r : Run) → (wait_done k r).todo ≡ r.todo
todo-wait_done zero r = refl
todo-wait_done (suc k) r = refl

todo-RunStep :
    {level : ℕ} {segments : Segments} {r t : Run}
    → length segments < level
    → IsAhead level segments r
    → RunStep level segments r t
    → t.todo ≡ r.todo
unfolding after_client fail_run
todo-RunStep fewer ahead (starts r s rest alive p) = refl
todo-RunStep fewer ahead (ends r i s rest fine alive e) = todo-wait_done r.counter _
todo-RunStep fewer ahead (ends r i s rest returns_error alive e) = refl
todo-RunStep fewer ahead (ends r i s rest panics alive e) = refl
todo-RunStep fewer ahead (goes_on r t ts alive p c e) =
    absurd (omega (arith, ahead alive, c, fewer))
todo-RunStep fewer ahead (returns r alive p c e) = refl

waits_lem :
    {level : ℕ} {segments : Segments} {t : Run}
    → length segments < level
    → RunSteps level segments (begin_run level segments) t
    → t.exit ≡ none
    → (t.todo ≡ (begin_run level segments).todo) × (0 < t.counter)
waits_lem {level} {segments} fewer moves alive = (
  still moves,
  omega (
    arith,
    fewer,
    RunSteps-IsAhead (omega (arith, fewer)) moves (begin_run-IsAhead level segments) alive,
  ),
)
  where
    still :
        {t : Run}
        → RunSteps level segments (begin_run level segments) t
        → t.todo ≡ (begin_run level segments).todo
    still here = refl
    still (next before last) =
        todo-RunStep fewer
          (RunSteps-IsAhead (omega (arith, fewer)) before (begin_run-IsAhead level segments)) last
        ∙ still before

exit-wait_done : (k : ℕ) (r : Run) → r.exit ≡ none → (wait_done k r).exit ≢ some 1
exit-wait_done zero r alive = λ h. ground (arith, h)
exit-wait_done (suc k) r alive = λ h. ground (arith, h, alive)

exit-RunStep :
    {level : ℕ} {segments : Segments} {r t : Run} → RunStep level segments r t → t.exit ≢ some 1
unfolding after_client fail_run begin
exit-RunStep (starts r s rest alive p) = λ h. ground (arith, h, alive)
exit-RunStep (ends r i s rest fine alive e) = exit-wait_done r.counter _ alive
exit-RunStep (ends r i s rest returns_error alive e) = λ h. ground (arith, h)
exit-RunStep (ends r i s rest panics alive e) = λ h. ground (arith, h)
exit-RunStep (goes_on r t ts alive p c e) = λ h. ground (arith, h, alive)
exit-RunStep (returns r alive p c e) = λ h. ground (arith, h)

-- No run ends with the status 1 that `Fail` is meant to give, whatever fails.
pub exit-ne-1 :
    {level : ℕ} {segments : Segments} {t : Run}
    → RunSteps level segments (begin_run level segments) t
    → t.exit ≢ some 1
unfolding begin_run begin
exit-ne-1 here = λ h. ground (arith, h)
exit-ne-1 (next before last) = exit-RunStep last

-- One segment for each client, or for each package if there are fewer.
length-segments :
    (packages : List Package) (level : ℕ) (segments : Segments)
    → segment_list_packages packages level ≡ some segments
    → 0 < level
    → level < int64_bound
    → 0 < length packages
    → length segments ≡ min level (length packages)
length-segments packages level segments made pos small some_package =
    let (ss, e, part, share) =
      segment_list_packages-IsPartition packages level pos small some_package in
    let same : ss ≡ segments = cc in ap (λ (x : Segments). length x) (sym same) ∙ part.1

-- With at least one package and a positive concurrency level, in each state of a test run over the segments,
-- as long as the process runs, the wait group counts the goroutines of the step that have not ended, those
-- that have yet to be started included, and as many more as the level is above the number of packages.
pub counter-RunSteps :
    {t : Run} (packages : List Package) (level : ℕ) (segments : Segments)
    → segment_list_packages packages level ≡ some segments
    → 0 < length packages
    → 0 < level
    → level < int64_bound
    → RunSteps level segments (begin_run level segments) t
    → t.exit ≡ none
    → t.counter ≡ length t.pending + length t.running + (level - length packages)
counter-RunSteps packages level segments made some_package pos small moves alive =
    let size = length-segments packages level segments made pos small some_package in
    omega (
      arith,
      size,
      RunSteps-IsAhead (omega (arith, size)) moves (begin_run-IsAhead level segments) alive,
    )

-- With at least as many packages as the concurrency level, which is positive, a test run over their
-- segments never gets stuck: as long as the process runs there is a next move.
pub run-goes_on :
    {t : Run} (packages : List Package) (level : ℕ) (segments : Segments)
    → segment_list_packages packages level ≡ some segments
    → 0 < level
    → level < int64_bound
    → level ≤ length packages
    → RunSteps level segments (begin_run level segments) t
    → t.exit ≡ none
    → (u : Run) × RunStep level segments t u
run-goes_on packages level segments made pos small enough moves alive =
    goes_on_lem
      (omega (arith, length-segments packages level segments made pos small (omega arith))) moves
      alive

-- With fewer packages than the concurrency level, but at least one, no test run over their segments
-- gets behind its first step: as long as the process runs the wait group counts something, so that
-- `Wait` does not return.
pub run-waits :
    {t : Run} (packages : List Package) (level : ℕ) (segments : Segments)
    → segment_list_packages packages level ≡ some segments
    → 0 < length packages
    → level < int64_bound
    → length packages < level
    → RunSteps level segments (begin_run level segments) t
    → t.exit ≡ none
    → (t.todo ≡ (begin_run level segments).todo) × (0 < t.counter)
run-waits packages level segments made some_package small fewer moves alive =
    waits_lem
      (omega (arith, length-segments packages level segments made (omega arith) small some_package))
      moves alive
