-- ===== src/Tests/Program.antt =====
-- go/src/test-suite/main.go and client.go at an input.
use package_index.Base.{
  ℕ, ◌+◌, ◌*◌, true, false, none, some, Option, [], ◌≡◌, ◌⊎◌, refl, arith, Bytes, ◌==◌, nat_eq,
  bytes_beq, if◌then◌else◌,
}
use package_index.Base.Int64.{is_pos}
use package_index.Base.Text.{codes, split}
use package_index.Index.Graph.{Graph}
use package_index.Suite.Client.{
  make_tcp_package_index_client, close_client, extend_timeout_for, send,
}
use package_index.Suite.Client.Timeouts.{send-IsTimed}
use package_index.Suite.Packages.{
  last_named, found_or_new, named, add_dependency, add_dependencies, tokens_to_package, trim_left,
  keep_unless, trim_right, halve_spaces, tokenise_line, with_tokens, add_lines, text_to_packages,
  brew_to_packages,
}
use package_index.Suite.Segments.{
  slice, segment_list_packages, with_size, int_div, segments, last_segment,
}
use package_index.Suite.Concurrent.{begin_fleet}
use package_index.Suite.Concurrent.Passes.{HasPassed}
use package_index.Suite.Main.{Flags, TestRun, make_test_run, exited, tests, begin_test, main}
use package_index.Suite.Main.Passes.{main-HasPassed}
use package_index.Tests.Fleet.{dialled, dialled-FleetSteps}
use package_index.Tests.Phases.{packages, one}
use package_index.Tests.Running.{always_zero}

-- `-concurrency 1` on the command line.
abbrev one_client : Flags → Option Flags
one_client c = some (record c { concurrency = 1 })

abbrev lone_run : TestRun
lone_run = record { server_addr = codes ":8080"; concurrency_level = 1; unluckiness = 5 }

begins :
    main {S = Graph} {R = ℕ} (λ line. true) (λ file. some (codes "a")) (λ seed. 0) one_client []
    ≡ tests lone_run packages one (begin_fleet 1 one [] 0)
unfolding main begin_test make_test_run brew_to_packages text_to_packages add_lines with_tokens
    tokens_to_package add_dependencies add_dependency named found_or_new last_named tokenise_line
    trim_left trim_right keep_unless halve_spaces split bytes_beq segment_list_packages with_size
    int_div segments last_segment slice is_pos
begins = refl

-- Without the data file the program panics.
test_no_data :
    main {S = Graph} {R = ℕ} (λ line. true) (λ file. none) (λ seed. 0) one_client [] ≡ exited 2
unfolding main begin_test brew_to_packages
test_no_data = refl

main-HasPassed_example : (dialled.run.exit ≡ none) ⊎ HasPassed packages dialled
main-HasPassed_example =
    main-HasPassed always_zero (λ n r h. h) (λ line. true) (λ file. some (codes "a")) (λ seed. 0)
      one_client
      (record { addr = codes ":8080"; concurrency = 1; seed = 42; unluckiness = 5; debug = false })
      [] lone_run packages one (begin_fleet 1 one [] 0) dialled refl begins (omega arith)
      ((λ e. ground (arith, e), (refl, tt)), tt) (omega arith) (omega arith) tt dialled-FleetSteps

-- A connection is its clock and its deadline, and answers OK.
abbrev Clocked : Type 0
Clocked = ℕ × ℕ

abbrev reads : Clocked → Clocked × Option Bytes
reads s = (s, some (codes "OK"))

abbrev reads_in_time : Clocked → Clocked × Option Bytes
reads_in_time s = (s, if s.1 == s.0 + 10 * 1000000000 then some (codes "OK") else none)

in_time : (s : Clocked) → s.1 ≡ s.0 + 10 * 1000000000 → reads s ≡ reads_in_time s
in_time s h = ground (arith, h)

send-IsTimed_example :
    send
      (extend_timeout_for (λ (s : Clocked). s.0) (λ t s. (s.0, t)))
      (λ s msg. (s, true))
      reads
      (7, 0)
      (codes "QUERY|a|")
    ≡ send
        (extend_timeout_for (λ (s : Clocked). s.0) (λ t s. (s.0, t)))
        (λ s msg. (s, true))
        reads_in_time
        (7, 0)
        (codes "QUERY|a|")
send-IsTimed_example =
    send-IsTimed (λ (s : Clocked). s.0) (λ s. s.1) (λ t s. (s.0, t)) (λ s msg. (s, true))
      (λ s msg. (s, true)) reads reads_in_time (λ t s. refl) (λ t s. refl) (λ s msg h. refl) in_time
      (7, 0) (codes "QUERY|a|")

test_client :
    (make_tcp_package_index_client (λ addr. some addr) (codes "c") (codes ":8080")
      ≡ some (record { name = codes "c"; conn = codes ":8080" }))
    × (close_client {S = ℕ} (λ s. (0, true)) (record { name = codes "c"; conn = 3 })
        ≡ (record { name = codes "c"; conn = 0 }, true))
unfolding make_tcp_package_index_client close_client
test_client = (refl, refl)
