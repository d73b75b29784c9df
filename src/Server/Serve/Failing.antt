-- ===== src/Server/Serve/Failing.antt =====
-- Reads that fail, one after the other.
use package_index.Base.{
  ℕ, ◌+◌, Bool, true, false, Option, some, List, [], ◌∷◌, ◌++◌, ◌≡◌, ◌∙◌, refl, sym, ap, subst,
  length, Bytes, max, arith, All, if◌then◌else◌, append_assoc, append-nil,
}
use package_index.Index.Api.{IndexApi}
use package_index.Server.Bufio.{
  io, eof, net_error, other, IoError, Arrival, error, read_slice, BufioReaderPool,
}
use package_index.Server.Pool.{IsUniform}
use package_index.Server.ReadMessage.{Read, failed, after_slice, read_message}
use package_index.Server.ReadMessage.Framing.{look_short}
use package_index.Server.ReadMessage.Total.{read_message-fresh}
use package_index.Server.Serve.Ends.{serve_going}
use package_index.Server.Serve.{
  World, Status, going, closed, respond, react, after_read, read_round, turn, serve, first, others,
  error_response, written, sent,
}

-- A failing read that has taken no bytes before.
read_message-failing :
    (chosen : Bool) (p : BufioReaderPool) (e : IoError) (rest : List Arrival)
    → IsUniform p
    → (read_message chosen p (error e ∷ rest)).0 ≡ some (failed (io e), rest)
unfolding read_slice after_slice
read_message-failing chosen p e rest u =
    (read_message-fresh chosen p (error e ∷ rest) u).0
    ∙ rw (look_short (max 16 p.buf_size) [] tt (omega arith))

-- Neither the end of the stream nor a timeout.
abbrev pub IsSurvived : IoError → Type 0
IsSurvived eof = ⊥
IsSurvived (net_error timeout temporary) = timeout ≡ false
IsSurvived other = Unit

-- What the client is told of a failure.
abbrev pub said : IoError → Bytes
said (net_error timeout true) = []
said _ = error_response

unfoldable pub told : List IoError → Bytes
told [] = []
told (e ∷ es) = said e ++ told es

unfoldable pub failures : List IoError → List Arrival → List Arrival
failures [] rest = rest
failures (e ∷ es) rest = error e ∷ failures es rest

module _ {ℓ} {S : Type ℓ} (api : IndexApi S) where
  -- The connection is about to deliver `rest`, no deadline and no write fails, `out` has been sent, and
  -- the index is as it was.
  pub record IsUp (store : S) (out : Bytes) (rest : List Arrival) (w : World S) : Type ℓ where
    pub incoming_is : w.conn.incoming ≡ rest
    pub deadlines_is : w.conn.deadlines ≡ []
    pub writes_is : w.conn.writes ≡ []
    pub output_is : w.conn.output ≡ out
    pub store_is : w.store ≡ store
    pub uniform : IsUniform w.pool

  responded :
      (store : S) (out : Bytes) (rest : List Arrival) (w : World S)
      → IsUp store out rest w
      → IsUp store (out ++ error_response) rest (record w { conn = respond error_response w.conn })
  unfolding respond
  responded store out rest w r = record {
    incoming_is = r.incoming_is;
    deadlines_is = r.deadlines_is;
    writes_is = ap others r.writes_is;
    output_is = λ i. r.output_is i ++ written (first sent (r.writes_is i)) error_response;
    store_is = r.store_is;
    uniform = r.uniform;
  }

  abbrev Survived : S → Bytes → List Arrival → World S × Status → Type ℓ
  Survived store out rest r = (r.1 ≡ going) × IsUp store out rest r.0

  react-Survived :
      (store : S) (out : Bytes) (rest : List Arrival) (w : World S) (e : IoError)
      → IsSurvived e
      → IsUp store out rest w
      → Survived store (out ++ said e) rest (react api (failed (io e)) w)
  unfolding react
  react-Survived store out rest w eof v r = absurd v
  react-Survived store out rest w (net_error true temporary) v r = absurd cc
  react-Survived store out rest w (net_error false true) v r =
      (refl, subst (λ x. IsUp store x rest w) (sym (append-nil out)) r)
  react-Survived store out rest w (net_error false false) v r = (refl, responded store out rest w r)
  react-Survived store out rest w other v r = (refl, responded store out rest w r)

  after_read-Survived :
      (store : S) (out : Bytes) (e : IoError) (rest : List Arrival) (w : World S)
      (o : Option (Read × List Arrival))
      → IsSurvived e
      → o ≡ some (failed (io e), rest)
      → IsUp store out rest (record w { conn = record w.conn { incoming = rest } })
      → Survived store (out ++ said e) rest (after_read api o w)
  unfolding after_read
  after_read-Survived store out e rest w o v q r =
      subst (λ x. Survived store (out ++ said e) rest (after_read api x w)) (sym q)
        (react-Survived store out rest (record w { conn = record w.conn { incoming = rest } }) e v
          r)

  turn-Survived :
      (store : S) (out : Bytes) (e : IoError) (rest : List Arrival) (w : World S)
      → IsSurvived e
      → IsUp store out (error e ∷ rest) w
      → Survived store (out ++ said e) rest (turn api w)
  unfolding turn read_round
  turn-Survived store out e rest w v r =
      let ch = first true w.conn.choices in
      let fresh = read_message-fresh ch w.pool w.conn.incoming r.uniform in
      let fails =
        ap (λ (x : List Arrival). (read_message ch w.pool x).0) r.incoming_is
        ∙ read_message-failing ch w.pool e rest r.uniform in
      let w' : World S = record w {
        conn = record w.conn {
          deadlines = others w.conn.deadlines;
          choices = others w.conn.choices;
        };
        pool = (read_message ch w.pool w.conn.incoming).1;
      } in
      subst
        (λ b. Survived store (out ++ said e) rest (
          if b
          then read_round api
              (record w { conn = record w.conn { deadlines = others w.conn.deadlines } })
          else (record w { conn = record w.conn { deadlines = others w.conn.deadlines } }, closed)))
        (sym (ap (first true) r.deadlines_is))
        (after_read-Survived store out e rest w' _ v fails (record {
          incoming_is = refl;
          deadlines_is = ap others r.deadlines_is;
          writes_is = r.writes_is;
          output_is = r.output_is;
          store_is = r.store_is;
          uniform = fresh.1;
        }))

  -- However many reads fail, as long as none is the end of the stream or a timeout, `serve` goes on, one
  -- round for each: it says ERROR for each failure that is not temporary, and leaves the index alone.
  pub serve-failures :
      (es : List IoError) (fuel : ℕ) (store : S) (out : Bytes) (rest : List Arrival) (w : World S)
      → All IsSurvived es
      → IsUp store out (failures es rest) w
      → (w' : World S) × (serve api (length es + fuel) w ≡ serve api fuel w')
        × IsUp store (out ++ told es) rest w'
  unfolding failures told
  serve-failures [] fuel store out rest w v r = (
    w,
    ap (λ n. serve api n w) (omega arith),
    subst (λ x. IsUp store x rest w) (sym (append-nil out)) r,
  )
  serve-failures (e ∷ es) fuel store out rest w v r =
      let (go, next) = turn-Survived store out e (failures es rest) w v.0 r in
      let (w', run, up) =
        serve-failures es fuel store (out ++ said e) rest (turn api w).0 v.1 next in
      (
        w',
        ap (λ n. serve api n w) (omega arith) ∙ serve_going api (length es + fuel) w go ∙ run,
        subst (λ x. IsUp store x rest w') (append_assoc out (said e) (told es)) up,
      )
