-- ===== src/Server/Accept/Protocol.antt =====
-- What the server promises to all its clients together: a machine of the dependency graph and of the
-- connections that are served, with no counts, no pool and no channel. A connection's turn is one step, so
-- concurrent clients see their messages handled one after the other.
use package_index.Base.{
  ℕ, Bool, true, Option, none, some, List, [], ◌∷◌, ◌++◌, ◌≡◌, Bytes, if◌then◌else◌,
}
use package_index.Base.Choice.{bring}
use package_index.Index.Graph.{Graph}
use package_index.Server.Bufio.{io, eof, net_error, Arrival, read_slice}
use package_index.Server.ReadMessage.{Read, got, failed, crashed, after_slice}
use package_index.Server.Serve.{WriteResult, sent, written, error_response, first, others}
use package_index.Server.Serve.Session.{spec_handle}

-- A connection: what has yet to arrive, which deadlines and writes succeed, and what has been sent.
pub record Peer : Type 0 where
  pub incoming : List Arrival
  pub deadlines : List Bool
  pub writes : List WriteResult
  pub output : Bytes

-- What is done about what has been read.
pub data Reaction : Type 0 where
  says : Bytes → Reaction
  is_silent : Reaction
  hangs_up : Reaction

abbrev pub saying : Graph × Bytes → Graph × Reaction
saying (g, out) = (g, says out)

-- A message gets the graph's answer. The end of the stream and a timeout end the connection, another
-- temporary failure is passed over, and the rest gets an ERROR.
abbrev pub spec_react : Read → Graph → Graph × Reaction
spec_react (got m) g = saying (spec_handle m g)
spec_react (failed (io eof)) g = (g, hangs_up)
spec_react (failed (io (net_error timeout temporary))) g =
    (g, if timeout then hangs_up else if temporary then is_silent else says error_response)
spec_react (failed e) g = (g, says error_response)
spec_react crashed g = (g, hangs_up)

-- What is left of the connection. The response is sent as far as the write succeeds.
abbrev pub after_reaction : Peer → Graph × Reaction → Graph × Option Peer
after_reaction p (g, says out) = (
  g,
  some (record p {
    writes = others p.writes;
    output = p.output ++ written (first sent p.writes) out;
  }),
)
after_reaction p (g, is_silent) = (g, some p)
after_reaction p (g, hangs_up) = (g, none)

abbrev pub after_reading : Peer → Graph → Option (Read × List Arrival) → Graph × Option Peer
after_reading p g none = (g, none)
after_reading p g (some (r, later)) =
    after_reaction (record p { incoming = later }) (spec_react r g)

-- A turn of a connection: unless no deadline can be set, the next message of at most `size` bytes is read
-- from what arrives on it, by a new reader, and reacted to.
abbrev pub spec_turn : ℕ → Peer → Graph → Graph × Option Peer
spec_turn size p g =
    if first true p.deadlines
    then after_reading (record p { deadlines = others p.deadlines }) g
        (after_slice size (read_slice size [] p.incoming))
    else (g, none)

-- The graph, and the connections that are served.
abbrev pub Served : Type 0
Served = Graph × List Peer

abbrev pub after_spec_turn : List Peer → Graph × Option Peer → Served
after_spec_turn rest (g, some p) = (g, p ∷ rest)
after_spec_turn rest (g, none) = (g, rest)

-- What happens: somebody calls, or the connection number `i` gets its turn.
pub data Event : Type 0 where
  calls : Option Peer → Event
  takes_turn : ℕ → Event

-- A caller may be turned away, and a turn of a connection that is not there changes nothing.
pub data SpecStep (size : ℕ) : Event → Served → Served → Type 0 where
  turned_away : (o : Option Peer) (s : Served) → SpecStep size (calls o) s s
  joins :
      (g : Graph) (p : Peer) (ps : List Peer) → SpecStep size (calls (some p)) (g, ps) (g, p ∷ ps)
  is_gone :
      (g : Graph) (i : ℕ) (ps : List Peer)
      → bring i ps ≡ none
      → SpecStep size (takes_turn i) (g, ps) (g, ps)
  turns :
      (g : Graph) (i : ℕ) (ps : List Peer) (p : Peer) (rest : List Peer)
      → bring i ps ≡ some (p, rest)
      → SpecStep size (takes_turn i) (g, ps) (after_spec_turn rest (spec_turn size p g))

-- Steps with the events that they are about, the last event first.
pub data SpecSteps (size : ℕ) (s : Served) : List Event → Served → Type 0 where
  done : SpecSteps size s [] s
  more :
      {t u : Served} {e : Event} {es : List Event}
      → SpecSteps size s es t
      → SpecStep size e t u
      → SpecSteps size s (e ∷ es) u
