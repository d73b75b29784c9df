-- ===== src/Tests/OneClient.antt =====
-- The whole test run with one client, at two packages and from an empty index.
use package_index.Base.{ℕ, false, some, [], ◌≡◌, arith, bytes_eq, bytes_beq}
use package_index.Index.Graph.{Graph}
use package_index.Suite.Run.{fine}
use package_index.Suite.Run.Passed.{AllHave}
use package_index.Suite.Run.Verify.{answer}
use package_index.Suite.Run.OneClient.{run}
use package_index.Suite.Run.OneClient.Passes.{run-passes}
use package_index.Tests.Running.{pair, rank, always_zero, b_IsReady, a_IsReady}

run-passes_example :
    (g' : Graph) × (r' : ℕ) × (run answer some (λ g. g) always_zero 2 pair 5 ([], 0)
      ≡ some ((g', r'), fine))
    × AllHave false pair g'
unfolding bytes_beq
run-passes_example =
    run-passes always_zero (λ n r h. h) pair rank 2 (b_IsReady, (a_IsReady, tt))
      (omega arith, (omega arith, tt)) 5 [] 0 (record { ordered = tt; held = tt })
