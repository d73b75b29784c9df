-- ===== src/Tests/Starting.antt =====
-- The server's process, from its command line on.
use package_index.Base.{true, false, none, some, ◌≡◌, refl}
use package_index.Index.{Index, new_index}
use package_index.Index.Api.{index_api}
use package_index.Server.Main.{
  Config, default_config, running, exited, exit_error, begin_serving, listen_and_serve, main,
  ProcessSteps, at_start, goes_on, serves, returns,
}
use package_index.Server.Main.Exits.{main-IsSound}
use package_index.Server.Accept.{Server, accept, accepts, other_error, new_server}

-- `-max-conns 1`, and a process that ends after the loop has met an error.
abbrev one_conn : Config
one_conn = record default_config { max_conns = 1 }

abbrev failing : Server Index
failing = accept 1 other_error (new_server 2048 new_index)

failing-ProcessSteps :
    ProcessSteps index_api (main (λ c. some (record c { max_conns = 1 })) true new_index) (exited 1)
unfolding main listen_and_serve begin_serving accept new_server
failing-ProcessSteps =
    goes_on (goes_on at_start (serves (accepts (new_server 2048 new_index) other_error refl)))
      (returns refl)

main-IsSound_example : 1 ≡ exit_error
main-IsSound_example =
    main-IsSound index_api one_conn (λ c. some (record c { max_conns = 1 })) true new_index
      (exited 1) refl refl failing-ProcessSteps

-- The default settings serve; a negative `-max-conns` panics.
test_main :
    (main some true new_index ≡ running 300 (new_server 2048 new_index))
    × (main some false new_index ≡ exited 1)
    × (main (λ c. none) true new_index ≡ exited 2)
    × (main (λ c. some (record c { max_conns = 18446744073709551615 })) true new_index ≡ exited 2)
unfolding main listen_and_serve begin_serving
test_main = (refl, refl, refl, refl)
