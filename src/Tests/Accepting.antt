-- ===== src/Tests/Accepting.antt =====
-- Two connections to a server of go/src/package-index/server/server.go that has room for one.
use package_index.Base.{[], ◌∷◌, ◌≡◌, refl, length, arith}
use package_index.Base.Choice.{bring}
use package_index.Base.Text.{codes}
use package_index.Index.{Index, new_index}
use package_index.Index.Api.{HasRoom, index_api, index_api-IsIndex}
use package_index.Index.Refinement.{new_index-Inv}
use package_index.Server.Bufio.{bytes}
use package_index.Server.Serve.{Conn}
use package_index.Server.Accept.{
  connection, Server, accept, run_at, Steps, accepts, runs, start, then_step, count_steps,
  new_server,
}
use package_index.Server.Accept.Protocol.{SpecSteps}
use package_index.Server.Accept.Refinement.{observed, events, Steps-SpecSteps}
use package_index.Server.Accept.Limits.{IsLimited, new_server-IsLimited}

abbrev asks : Conn
asks = record {
  incoming = bytes b'Q' (codes "UERY|a|\n") ∷ [];
  deadlines = [];
  writes = [];
  choices = [];
  output = [];
}

abbrev started : Server Index
started = new_server 4096 new_index

abbrev one : Server Index
one = accept 1 (connection asks) started

abbrev two : Server Index
two = accept 1 (connection asks) one

abbrev answered : Server Index
answered = run_at index_api (bring 0 two.conns) two

test_refused : (length two.conns ≡ 1) × (length two.refused ≡ 1) × (two.outstanding ≡ 1)
unfolding accept new_server
test_refused = (refl, refl, refl)

answered-Steps : Steps index_api 1 started answered
unfolding accept new_server
answered-Steps =
    then_step started two answered
      (then_step started one two
        (then_step started started one (start started) (accepts started (connection asks) refl))
        (accepts one (connection asks) refl))
      (runs two 0)

new_server-IsLimited_example : IsLimited 1 answered
new_server-IsLimited_example =
    new_server-IsLimited index_api 1 4096 new_index answered answered-Steps

Steps-SpecSteps_example :
    HasRoom 5 answered.store
    × SpecSteps 4096
        (observed index_api index_api-IsIndex started)
        (events answered-Steps)
        (observed index_api index_api-IsIndex answered)
unfolding count_steps new_server answered-Steps
Steps-SpecSteps_example =
    Steps-SpecSteps index_api index_api-IsIndex 5 answered-Steps (new_index-Inv, omega arith) tt
