-- ===== src/Server/Serve/Session.antt =====
-- A session of a client that sends line by line, against the specification of the index.
pub mod Replies
pub mod Rounds
use package_index.Base.{
  ℕ, zero, suc, Bool, true, false, Option, none, some, List, [], ◌∷◌, ◌++◌, ◌≡◌, ◌≢◌, ◌∙◌, refl,
  sym, ap, length, arith, All, max, Bytes, if◌then◌else◌, leb, ◌==◌, bytes_eq, append_assoc,
  append-nil, Bool-cases, inl, inr,
}
use package_index.Base.Text.{codes}
use package_index.Base.Maps.{has}
use package_index.Base.Sets.{Distinct}
use package_index.Index.{range}
use package_index.Index.Graph.{Graph, add_package, drop_package}
use package_index.Index.Api.{IndexApi, IsIndex}
use package_index.Server.WireFormat.{Message, Parsed, returns, panics, parse_message}
use package_index.Server.WireFormat.Total.{parse_message-ne-panics}
use package_index.Server.WireFormat.Grammar.{parse_message-Distinct}
use package_index.Server.Bufio.{
  ReadError, io, eof, buffer_full, malformed, Arrival, BufioReaderPool,
}
use package_index.Server.Pool.{IsUniform}
use package_index.Server.ReadMessage.{Read, got, failed, parsed, read_message}
use package_index.Server.ReadMessage.Total.{read_message-fresh, read_message-Settles}
use package_index.Server.ReadMessage.Framing.{NotNewline, Delivers, read_message-line}
use package_index.Server.Serve.Ends.{after_read-eof, read_message-nil, serve_closed, serve_going}
use package_index.Server.Serve.{
  written, sent, error_response, ok_response, fail_response, Conn, World, Status, going, closed,
  respond, handle, react, after_read, read_round, turn, serve, first, others,
}

-- A line of the client, without its newline, and the pieces in which the network brings it.
pub record Line : Type 0 where
  pub body : Bytes
  pub pieces : List Arrival
  pub delivers : Delivers body pieces
  pub no_newline : All NotNewline body

unfoldable pub feed : List Line → List Arrival
feed [] = []
feed (l ∷ ls) = l.pieces ++ feed ls

abbrev pub verdict : Graph × Bool → Graph × Bytes
verdict (g, ok) = (g, if ok then ok_response else fail_response)

-- What the protocol answers to a message.
unfoldable pub spec_handle : Message → Graph → Graph × Bytes
spec_handle m g =
    if m.command == codes "INDEX"
    then verdict (add_package m.pkg (range m.dependencies) g)
    else if m.command == codes "REMOVE"
    then verdict (drop_package m.pkg g)
    else if m.command == codes "QUERY"
    then verdict (g, has m.pkg g)
    else (g, error_response)

abbrev pub reply_to : Parsed → Graph → Graph × Bytes
reply_to (returns m none) g = spec_handle m g
reply_to _ g = (g, error_response)

-- What it answers to a line, with `size` the largest message.
unfoldable pub reply : ℕ → Bytes → Graph → Graph × Bytes
reply size body g =
    if leb (suc (length body)) size
    then reply_to (parse_message (body ++ b'\n' ∷ [])) g
    else (g, error_response)

unfoldable pub replies : ℕ → List Line → Graph → Graph × Bytes
replies size [] g = (g, [])
replies size (l ∷ ls) g =
    let (g', out) = reply size l.body g in
    let (g'', outs) = replies size ls g' in (g'', out ++ outs)

module _ {ℓ} {S : Type ℓ} (api : IndexApi S) (promise : IsIndex api) (size : ℕ) where
  open promise use {Good, view, weaken, index_view, remove_view, query_view}

  -- The connection is about to read `rest`, all deadlines and writes succeed, `out` has been sent,
  -- and the index shows the graph `g` and has room for `n` more calls.
  pub record Ready (n : ℕ) (g : Graph) (out : Bytes) (rest : List Arrival) (w : World S)
      : Type ℓ where
    pub incoming_is : w.conn.incoming ≡ rest
    pub deadlines_is : w.conn.deadlines ≡ []
    pub writes_is : w.conn.writes ≡ []
    pub output_is : w.conn.output ≡ out
    pub good : Good n w.store
    pub shows : view w.store ≡ g
    pub uniform : IsUniform w.pool
    pub sized : max 16 w.pool.buf_size ≡ size
