-- ===== src/Server/Serve/Session/Rounds.antt =====
-- Each round of the loop answers one line, and the end of the stream closes the connection.
use package_index.Base.{
  ℕ, suc, true, Option, some, List, [], ◌∷◌, ◌++◌, ◌≡◌, ◌∙◌, refl, sym, ap, subst, length, max,
  Bytes, if◌then◌else◌, leb, bytes_eq, append_assoc, append-nil, Bool-cases, inl, inr,
}
use package_index.Index.Graph.{Graph}
use package_index.Index.Api.{IndexApi, IsIndex}
use package_index.Server.WireFormat.{parse_message}
use package_index.Server.WireFormat.Total.{parse_message-ne-panics}
use package_index.Server.WireFormat.Grammar.{parse_message-Distinct}
use package_index.Server.Bufio.{io, eof, buffer_full, Arrival}
use package_index.Server.ReadMessage.{Read, failed, parsed, read_message}
use package_index.Server.ReadMessage.Total.{read_message-fresh}
use package_index.Server.ReadMessage.Framing.{read_message-line}
use package_index.Server.Serve.Ends.{read_message-nil, serve_closed, serve_going}
use package_index.Server.Serve.{
  World, Status, closed, react, after_read, read_round, turn, serve, first, others,
}
use package_index.Server.Serve.Session.{Line, feed, reply, replies, Ready}
use package_index.Server.Serve.Session.Replies.{Replied, react-Replied, large-Replied}

module _ {ℓ} {S : Type ℓ} (api : IndexApi S) (promise : IsIndex api) (size : ℕ) where
  open promise use {view}

  -- The round after `readMessage` has read one line.
  line-Replied :
      (n : ℕ) (g : Graph) (out body : Bytes) (rest : List Arrival) (w : World S)
      → Ready api promise size (suc n) g out rest w
      → Replied api promise size n g out rest (reply size body g) (
          react api
            (if leb (suc (length body)) size
              then parsed (parse_message (body ++ b'\n' ∷ []))
              else failed buffer_full)
            w)
  unfolding reply
  line-Replied n g out body rest w r = elim (Bool-cases (leb (suc (length body)) size)) [
    | inl fits ↦ rw fits (
        react-Replied api promise size n g out rest w (parse_message (body ++ b'\n' ∷ [])) r
          (parse_message-ne-panics _) (parse_message-Distinct _))
    | inr big ↦ rw big (large-Replied api promise size n g out rest w r)
  ]

  after_read-Replied :
      (n : ℕ) (g : Graph) (out : Bytes) (rest : List Arrival) (w : World S)
      (o : Option (Read × List Arrival)) (q : Graph × Bytes) (r : Read)
      → o ≡ some (r, rest)
      → Replied api promise size n g out rest q
          (react api r (record w { conn = record w.conn { incoming = rest } }))
      → Replied api promise size n g out rest q (after_read api o w)
  unfolding after_read
  after_read-Replied n g out rest w o q r e h = rw e h

  -- The world between the read deadline and the reaction to what was read.
  abbrev begun : World S → World S
  begun w = record w { conn = record w.conn { deadlines = others w.conn.deadlines } }

  turn_set :
      (w : World S) → first true w.conn.deadlines ≡ true → turn api w ≡ read_round api (begun w)
  unfolding turn
  turn_set w e = rw (e, turn)

  read_round-Replied :
      (n : ℕ) (g : Graph) (out : Bytes) (l : Line) (rest : List Arrival) (w : World S)
      → Ready api promise size (suc n) g out (l.pieces ++ rest) w
      → Replied api promise size n g out rest (reply size l.body g) (read_round api w)
  unfolding read_round
  read_round-Replied n g out l rest w r =
      let ch = first true w.conn.choices in
      let fresh = read_message-fresh ch w.pool w.conn.incoming r.uniform in
      let now = record w {
        conn = record w.conn { choices = others w.conn.choices };
        pool = (read_message ch w.pool w.conn.incoming).1;
      } in
      after_read-Replied n g out rest now _ (reply size l.body g) _
        (ap (λ (x : List Arrival). (read_message ch w.pool x).0) r.incoming_is
          ∙ read_message-line ch w.pool rest r.uniform l.delivers l.no_newline
          ∙ ap {B = Option (Read × List Arrival)}
              (λ (z : ℕ). some (
                (if leb (suc (length l.body)) z
                    then parsed (parse_message (l.body ++ b'\n' ∷ []))
                    else failed buffer_full),
                rest,
              ))
              r.sized)
        (line-Replied n g out l.body rest
          (record now { conn = record now.conn { incoming = rest } })
          (record {
            incoming_is = refl;
            deadlines_is = r.deadlines_is;
            writes_is = r.writes_is;
            output_is = r.output_is;
            good = r.good;
            shows = r.shows;
            uniform = fresh.1;
            sized = ap (max 16) fresh.2 ∙ r.sized;
          }))

  begun-Ready :
      (n : ℕ) (g : Graph) (out : Bytes) (rest : List Arrival) (w : World S)
      → Ready api promise size n g out rest w
      → Ready api promise size n g out rest (begun w)
  begun-Ready n g out rest w r = record {
    incoming_is = r.incoming_is;
    deadlines_is = ap others r.deadlines_is;
    writes_is = r.writes_is;
    output_is = r.output_is;
    good = r.good;
    shows = r.shows;
    uniform = r.uniform;
    sized = r.sized;
  }

  -- A line is answered, and the connection is ready for the next one.
  pub turn-Replied :
      (n : ℕ) (g : Graph) (out : Bytes) (l : Line) (rest : List Arrival) (w : World S)
      → Ready api promise size (suc n) g out (l.pieces ++ rest) w
      → Replied api promise size n g out rest (reply size l.body g) (turn api w)
  turn-Replied n g out l rest w r =
      subst (Replied api promise size n g out rest (reply size l.body g))
        (sym (turn_set w (ap (first true) r.deadlines_is)))
        (read_round-Replied n g out l rest (begun w) (begun-Ready (suc n) g out _ w r))

  -- The client has closed the connection.
  abbrev Ended : Graph → Bytes → World S × Status → Type 0
  Ended g out r = (r.1 ≡ closed) × (r.0.conn.output ≡ out) × (view r.0.store ≡ g)

  after_read-Ended :
      (g : Graph) (out : Bytes) (w : World S) (o : Option (Read × List Arrival))
      → o ≡ some (failed (io eof), [])
      → w.conn.output ≡ out
      → view w.store ≡ g
      → Ended g out (after_read api o w)
  unfolding after_read react
  after_read-Ended g out w o e h k = rw e (refl, h, k)

  read_round-Ended :
      (n : ℕ) (g : Graph) (out : Bytes) (w : World S)
      → Ready api promise size n g out [] w
      → Ended g out (read_round api w)
  unfolding read_round
  read_round-Ended n g out w r =
      let ch = first true w.conn.choices in
      after_read-Ended g out _ _
        (ap (λ (x : List Arrival). (read_message ch w.pool x).0) r.incoming_is
          ∙ read_message-nil ch w.pool r.uniform)
        r.output_is r.shows

  turn-Ended :
      (n : ℕ) (g : Graph) (out : Bytes) (w : World S)
      → Ready api promise size n g out [] w
      → Ended g out (turn api w)
  turn-Ended n g out w r =
      subst (Ended g out) (sym (turn_set w (ap (first true) r.deadlines_is)))
        (read_round-Ended n g out (begun w) (begun-Ready n g out [] w r))

  -- What a session leaves: everything has been answered, and the connection is closed.
  abbrev pub Answered : Graph × Bytes → Bytes → Option (World S × Status) → Type ℓ
  Answered q out o =
      (w' : World S) × (o ≡ some (w', closed))
      × (w'.conn.output ≡ out ++ q.1)
      × (view w'.store ≡ q.0)

  -- In one round for each line and one for the end of the stream `serve` ends, from a connection
  -- that is about to deliver the lines `ls`, in whatever pieces, and on which no deadline and no
  -- write fails, over an index that keeps its promise, shows `g` and has room for a call for each
  -- line: the client gets for each line, in order, the reply of the specification, and the index
  -- ends as the specification's graph.
  pub serve-session :
      (ls : List Line) (g : Graph) (out : Bytes) (w : World S)
      → Ready api promise size (length ls) g out (feed ls) w
      → Answered (replies size ls g) out (serve api (suc (length ls)) w)
  unfolding feed replies
  serve-session [] g out w r =
      let (end, sent_is, shown) = turn-Ended 0 g out w r in
      ((turn api w).0, serve_closed api 0 w end, rw append-nil sent_is, shown)
  serve-session (l ∷ ls) g out w r =
      let (go, next) = turn-Replied (length ls) g out l (feed ls) w r in
      let q = reply size l.body g in
      let (w', done, sent_is, shown) = serve-session ls q.0 (out ++ q.1) (turn api w).0 next in
      (
        w',
        serve_going api (suc (length ls)) w go ∙ done,
        sent_is ∙ append_assoc out q.1 (replies size ls q.0).1,
        shown,
      )
