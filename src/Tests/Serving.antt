-- ===== src/Tests/Serving.antt =====
-- go/src/package-index/server/server_test.go in small, and the theorems on the server at a session.
use package_index.Base.{
  true, false, none, some, List, [], ◌∷◌, ◌++◌, ◌+◌, ◌≤◌, ◌≡◌, ◌∙◌, ap, length, refl, All, arith,
  bytes_eq, bytes_beq,
}
use package_index.Base.Sets.{contains, add}
use package_index.Base.Text.{codes}
use package_index.Index.{Index, range}
use package_index.Index.Api.{index_api, index_api-IsIndex}
use package_index.Index.View.{graph}
use package_index.Index.Refinement.{new_index-Inv}
use package_index.Server.WireFormat.{
  Message, returns, parse_message, ends_in_newline, scan_command, scan_package, scan_dependencies,
  after_scan, count_commas, collect,
}
use package_index.Server.Bufio.{
  Arrival, bytes, error, BufioReaderPool, read_slice, buffer_full, net_error, IoError, other,
}
use package_index.Server.Pool.{IsUniform}
use package_index.Server.ReadMessage.Bounds.{names_volume, read_message-bounded}
use package_index.Server.ReadMessage.{got, failed, parsed, after_slice, read_message}
use package_index.Server.ReadMessage.Total.{Settles, read_message-fresh, read_message-Settles}
use package_index.Server.ReadMessage.Framing.{
  NotNewline, last, more, read_message-line, read_message-drops,
}
use package_index.Server.Serve.Failing.{told, failures, IsUp, serve-failures}
use package_index.Server.Serve.Ends.{weight, serve-closes}
use package_index.Server.Serve.Session.{Line, feed, replies, Ready}
use package_index.Server.Serve.Session.Rounds.{Answered, serve-session}
use package_index.Server.Serve.{World, closed, serve}

-- A pool of readers of 16 bytes, one of them in the pool.
abbrev pool : BufioReaderPool
pool = record { buf_size = 5; pool = record { size = 16; buffered = codes "old" } ∷ [] }

pool-IsUniform : IsUniform pool
pool-IsUniform = (refl, tt)

index_a_bytes : All NotNewline (codes "INDEX|a|")
index_a_bytes = ground arith

long_bytes : All NotNewline (codes "QUERY|aaaaaaaaaaaaaaaaaaaa|")
long_bytes = ground arith

-- `INDEX|a|` in two pieces.
abbrev index_a : Line
index_a = record {
  body = codes "INDEX|a|";
  pieces = bytes b'I' (codes "ND") ∷ bytes b'E' (codes "X|a|\n") ∷ [];
  delivers = more b'I' (codes "ND") (codes "EX|a|") refl (last b'E' (codes "X|a|\n") refl);
  no_newline = index_a_bytes;
}

-- More than 16 bytes.
abbrev long_line : Line
long_line = record {
  body = codes "QUERY|aaaaaaaaaaaaaaaaaaaa|";
  pieces = bytes b'Q' (codes "UERY|aaaaaaaaaaaaaaaaaaaa|\n") ∷ [];
  delivers = last b'Q' (codes "UERY|aaaaaaaaaaaaaaaaaaaa|\n") refl;
  no_newline = long_bytes;
}

read_message-line_example :
    (read_message true pool (long_line.pieces ++ index_a.pieces)).0
    ≡ some (failed buffer_full, index_a.pieces)
read_message-line_example =
    read_message-line true pool index_a.pieces pool-IsUniform long_line.delivers
      long_line.no_newline

abbrev two_pieces : List Arrival
two_pieces = index_a.pieces

ab_bytes : All NotNewline (codes "A|B|")
ab_bytes = ground arith

-- The second of two lines in one piece is lost.
read_message-drops_example :
    (read_message true pool (bytes b'A' (codes "|B|\nC|D|\n") ∷ [])).0
    ≡ some (parsed (parse_message (codes "A|B|\n")), [])
read_message-drops_example =
    read_message-drops true pool b'A' (codes "|B|\nC|D|\n") (codes "A|B|") (codes "C|D|\n") []
      pool-IsUniform ab_bytes refl (omega arith)

read_message-fresh_example :
    ((read_message true pool two_pieces).0 ≡ after_slice 16 (read_slice 16 [] two_pieces))
    × IsUniform (read_message true pool two_pieces).1
    × ((read_message true pool two_pieces).1.buf_size ≡ 5)
read_message-fresh_example = read_message-fresh true pool two_pieces pool-IsUniform

read_message-Settles_example :
    Settles (read_message true pool two_pieces).0 × IsUniform (read_message true pool two_pieces).1
read_message-Settles_example = read_message-Settles true pool two_pieces pool-IsUniform

-- `INDEX|a|b,b` fits the buffer.
abbrev index_a_b : Message
index_a_b = record {
  command = codes "INDEX";
  pkg = codes "a";
  dependencies = some (codes "b" ∷ []);
}

ab_line_bytes : All NotNewline (codes "INDEX|a|b,b")
ab_line_bytes = ground arith

parse_ab : parse_message (codes "INDEX|a|b,b\n") ≡ returns index_a_b none
unfolding parse_message ends_in_newline scan_command scan_package scan_dependencies after_scan
    count_commas collect add contains bytes_beq
parse_ab = refl

read_ab :
    (read_message true pool (bytes b'I' (codes "NDEX|a|b,b\n") ∷ [])).0 ≡ some (got index_a_b, [])
read_ab =
    read_message-drops true pool b'I' (codes "NDEX|a|b,b\n") (codes "INDEX|a|b,b") [] []
      pool-IsUniform ab_line_bytes refl (omega arith)
    ∙ ap (λ r. some (parsed r, [])) parse_ab

read_message-bounded_example :
    length index_a_b.command
      + length index_a_b.pkg
      + names_volume (range index_a_b.dependencies)
      + 2
    ≤ 16
read_message-bounded_example =
    read_message-bounded true pool (bytes b'I' (codes "NDEX|a|b,b\n") ∷ []) [] index_a_b
      pool-IsUniform read_ab

-- A connection on which a read times out after a line.
abbrev dying : World Index
dying = record {
  conn = record {
    incoming = index_a.pieces ++ error (net_error true true) ∷ index_a.pieces;
    deadlines = [];
    writes = [];
    choices = false ∷ [];
    output = [];
  };
  store = [];
  pool = pool;
}

serve-closes_example : (w' : World Index) × (serve index_api 30 dying ≡ some (w', closed))
unfolding weight
serve-closes_example = serve-closes index_api 30 dying (omega arith) pool-IsUniform

-- Three reads fail: two for good, one for a while.
abbrev broken : List IoError
broken = net_error false false ∷ net_error false true ∷ other ∷ []

abbrev broken_off : World Index
broken_off = record dying { conn = record dying.conn { incoming = failures broken index_a.pieces } }

serve-failures_example :
    (w' : World Index) × (serve index_api 5 broken_off ≡ serve index_api 2 w')
    × IsUp index_api [] (codes "ERROR\nERROR\n") index_a.pieces w'
unfolding told
serve-failures_example =
    serve-failures index_api broken 2 [] [] index_a.pieces broken_off (refl, (refl, (tt, tt)))
      (record {
        incoming_is = refl;
        deadlines_is = refl;
        writes_is = refl;
        output_is = refl;
        store_is = refl;
        uniform = pool-IsUniform;
      })

abbrev session : List Line
session = index_a ∷ long_line ∷ index_a ∷ []

abbrev client : World Index
client = record {
  conn = record {
    incoming = index_a.pieces ++ (long_line.pieces ++ (index_a.pieces ++ []));
    deadlines = [];
    writes = [];
    choices = true ∷ [];
    output = [];
  };
  store = [];
  pool = pool;
}

client-Ready : Ready index_api index_api-IsIndex 16 3 [] [] (feed session) client
unfolding feed graph
client-Ready = record {
  incoming_is = refl;
  deadlines_is = refl;
  writes_is = refl;
  output_is = refl;
  good = (new_index-Inv, omega arith);
  shows = refl;
  uniform = pool-IsUniform;
  sized = refl;
}

serve-session_example :
    Answered index_api index_api-IsIndex 16 (replies 16 session []) [] (serve index_api 4 client)
serve-session_example =
    serve-session index_api index_api-IsIndex 16 session [] [] client client-Ready
