-- ===== src/Tests/Phases.antt =====
-- Runs of go/src/test-suite/test_run.go with one package.
use package_index.Base.{ℕ, ◌+◌, ◌<◌, some, List, [], ◌∷◌, ◌≡◌, ◌≢◌, refl, arith}
use package_index.Base.Text.{codes}
use package_index.Base.Int64.{is_pos}
use package_index.Base.Choice.{bring}
use package_index.Suite.Packages.{Package}
use package_index.Suite.Segments.{
  slice, segment_list_packages, with_size, int_div, segments, last_segment,
}
use package_index.Suite.Run.{returns_error}
use package_index.Suite.Phases.{
  Segments, Run, after_client, fail_run, begin, begin_run, RunSteps, starts, ends, here, next,
}
use package_index.Suite.Phases.Progress.{counter-RunSteps, run-waits, exit-ne-1}

abbrev pub packages : List Package
packages = record { name = codes "a"; dependencies = [] } ∷ []

abbrev pub one : Segments
one = packages ∷ []

pub one_segment : segment_list_packages packages 1 ≡ some one
unfolding segment_list_packages with_size int_div segments last_segment slice is_pos
one_segment = refl

still_one_segment : segment_list_packages packages 3 ≡ some one
unfolding segment_list_packages with_size int_div segments last_segment slice is_pos
still_one_segment = refl

abbrev started : ℕ → Run
started level = record (begin_run level one) { pending = []; running = packages ∷ [] }

started-RunSteps : (level : ℕ) → RunSteps level one (begin_run level one) (started level)
unfolding begin_run begin
started-RunSteps level = next here (starts (begin_run level one) packages [] refl refl)

failed-RunSteps : RunSteps 1 one (begin_run 1 one) (after_client returns_error [] (started 1))
unfolding begin_run begin bring
failed-RunSteps = next (started-RunSteps 1) (ends (started 1) 0 packages [] returns_error refl refl)

test_failed : (after_client returns_error [] (started 1)).exit ≡ some 0
unfolding after_client fail_run
test_failed = refl

counter-RunSteps_example : (started 3).counter ≡ 1 + 2
unfolding begin_run begin
counter-RunSteps_example =
    counter-RunSteps packages 3 one still_one_segment (omega arith) (omega arith) (omega arith)
      (started-RunSteps 3) refl

run-waits_example : ((started 3).todo ≡ (begin_run 3 one).todo) × (0 < (started 3).counter)
unfolding begin_run begin
run-waits_example =
    run-waits packages 3 one still_one_segment (omega arith) (omega arith) (omega arith)
      (started-RunSteps 3) refl

exit-ne-1_example : (after_client returns_error [] (started 1)).exit ≢ some 1
exit-ne-1_example = exit-ne-1 failed-RunSteps
