-- ===== src/Tests/Served.antt =====
-- The test client's loops over the server at two packages.
use package_index.Base.{
  false, ℕ, none, some, [], ◌∷◌, ◌++◌, ◌≡◌, ◌≤◌, refl, All, arith, Bytes, bytes_eq, bytes_beq, List,
  nat_eq,
}
use package_index.Base.Text.{codes}
use package_index.Base.Maps.{lookup, has, insert, replace}
use package_index.Base.Sets.{contains}
use package_index.Base.Int64.{inc}
use package_index.Index.{
  Index, Call, indexes, new_index, history, call, index, bump_all, bump, entry_at, all_indexed,
}
use package_index.Index.Graph.{Graph}
use package_index.Index.View.{graph}
use package_index.Index.Refinement.{IsCall, new_index-Inv, history-Inv}
use package_index.Index.Api.{index_api, index_api-IsIndex}
use package_index.Server.Bufio.{Arrival, bytes}
use package_index.Server.ReadMessage.Framing.{Delivers, last}
use package_index.Server.Serve.{World}
use package_index.Suite.Run.{fine}
use package_index.Suite.Run.Passed.{AllHave}
use package_index.Suite.Served.{served, Serves, IsServable}
use package_index.Suite.WireFormat.{make_remove_message}
use package_index.Base.Text.{join}
use package_index.Suite.WireFormat.{make_index_message, names_at, get_elem?}
use package_index.Suite.Run.OneClient.{run}
use package_index.Suite.Served.Whole.{FitsBuffer, run-served}
use package_index.Tests.Running.{rank, always_zero, b_IsReady, a_IsReady, pair, both}

-- A network that brings each message in one piece.
abbrev one_piece : Bytes → List Arrival
one_piece [] = []
one_piece (c ∷ cs) = bytes c cs ∷ []

one_piece-Delivers : (msg : Bytes) → Delivers msg (one_piece (msg ++ b'\n' ∷ []))
one_piece-Delivers [] = last b'\n' [] refl
one_piece-Delivers (c ∷ cs) = last c (cs ++ b'\n' ∷ []) refl

abbrev both_calls : List Call
both_calls = indexes (codes "a") none ∷ indexes (codes "b") (some (codes "a" ∷ [])) ∷ []

both_calls-IsCall : All IsCall both_calls
unfolding contains
both_calls-IsCall = (tt, ((refl, tt), tt))

-- A connection to a server that has both packages.
abbrev world : World Index
world = record {
  conn = record { incoming = []; deadlines = []; writes = []; choices = []; output = [] };
  store = (history both_calls new_index).0;
  pool = record { buf_size = 2048; pool = [] };
}

world-Serves : (n : ℕ) → n ≤ 4 → Serves index_api index_api-IsIndex 2048 n world both
unfolding graph history call index bump_all bump entry_at all_indexed lookup has insert replace inc
    bytes_beq
world-Serves n h = record {
  incoming_is = refl;
  deadlines_is = refl;
  writes_is = refl;
  output_is = refl;
  good =
      (history-Inv both_calls new_index new_index-Inv (omega arith) both_calls-IsCall, omega arith);
  shows = refl;
  uniform = tt;
  sized = refl;
}

pair-IsServable : All (IsServable 2048) pair
unfolding make_remove_message
pair-IsServable = (
  ((λ e. ground (arith, e), (refl, tt)), omega arith),
  ((((λ e. ground (arith, e), (refl, tt)), omega arith), tt)),
)

-- A connection to a new server.
abbrev lone : World Index
lone = record world { store = new_index }

lone-Serves : Serves index_api index_api-IsIndex 2048 20 lone []
unfolding graph
lone-Serves = record {
  incoming_is = refl;
  deadlines_is = refl;
  writes_is = refl;
  output_is = refl;
  good = (new_index-Inv, omega arith);
  shows = refl;
  uniform = tt;
  sized = refl;
}

pair-FitsBuffer : All (FitsBuffer 2048 pair) pair
unfolding make_remove_message make_index_message names_at get_elem? join
pair-FitsBuffer = ((omega arith, omega arith), ((omega arith, omega arith), tt))

-- A new connection to the same server.
abbrev reconnect : World Index → World Index
reconnect w = record w { conn = lone.conn }

reconnect-Serves :
    (n : ℕ) (w : World Index) (g : Graph)
    → Serves index_api index_api-IsIndex 2048 n w g
    → Serves index_api index_api-IsIndex 2048 n (reconnect w) g
reconnect-Serves n w g s = record {
  incoming_is = refl;
  deadlines_is = refl;
  writes_is = refl;
  output_is = refl;
  good = s.good;
  shows = s.shows;
  uniform = s.uniform;
  sized = s.sized;
}

run-served_example :
    (w' : World Index) × (g' : Graph) × (r' : ℕ) × (run
        (served index_api one_piece)
        (λ w. some (reconnect w))
        (λ w. w)
        always_zero
        2
        pair
        5
        (lone, 0)
      ≡ some ((w', r'), fine))
    × Serves index_api index_api-IsIndex 2048 0 w' g'
    × AllHave false pair g'
unfolding bytes_beq
run-served_example =
    run-served index_api one_piece index_api-IsIndex 2048 one_piece-Delivers always_zero pair
      (λ w. some (reconnect w)) (λ w. w) (λ n w g s. (reconnect w, refl, reconnect-Serves n w g s))
      (λ n w g s. s) (λ n r h. h) rank 2 (b_IsReady, (a_IsReady, tt))
      (omega arith, (omega arith, tt)) 5 lone [] 0 (omega arith) pair-FitsBuffer
      (record { ordered = tt; held = tt }) lone-Serves
