-- ===== src/Server/Serve.antt =====
-- `serve` and `respond` of go/src/package-index/server/server.go: the loop over one connection.
--
-- Logging and the lengths of sleeps and deadlines leave no trace in the state. What the network and
-- the pool decide comes from the lists of a `Conn`, each of which is used up from its front.
pub mod Ends
pub mod Failing
pub mod Session
use package_index.Base.{
  ℕ, zero, suc, Bool, true, false, Option, none, some, List, [], ◌∷◌, ◌++◌, Bytes, ◌==◌, bytes_eq,
  take, if◌then◌else◌,
}
use package_index.Base.Text.{codes}
use package_index.Index.Api.{IndexApi}
use package_index.Server.WireFormat.{Message}
use package_index.Server.Bufio.{ReadError, io, eof, net_error, Arrival, BufioReaderPool}
use package_index.Server.ReadMessage.{Read, got, failed, crashed, read_message}

abbrev pub error_response : Bytes
error_response = codes "ERROR\n"

abbrev pub ok_response : Bytes
ok_response = codes "OK\n"

abbrev pub fail_response : Bytes
fail_response = codes "FAIL\n"

-- What happens to a response: it is sent, no deadline can be set, or the write fails behind some
-- of its bytes.
pub data WriteResult : Type 0 where
  sent : WriteResult
  no_deadline : WriteResult
  cut_off : ℕ → WriteResult

pub record Conn : Type 0 where
  -- What has yet to arrive.
  pub incoming : List Arrival
  -- Whether `SetReadDeadline` succeeds; it does when the list is used up.
  pub deadlines : List Bool
  -- What happens to the responses; they are sent when the list is used up.
  pub writes : List WriteResult
  -- Whether `sync.Pool` gives a pooled reader.
  pub choices : List Bool
  -- The bytes sent so far.
  pub output : Bytes

abbrev pub first {ℓ} : {A : Type ℓ} → A → List A → A
first d [] = d
first d (x ∷ xs) = x

abbrev pub others {ℓ} : {A : Type ℓ} → List A → List A
others [] = []
others (x ∷ xs) = xs

abbrev pub written : WriteResult → Bytes → Bytes
written sent resp = resp
written no_deadline resp = []
written (cut_off n) resp = take n resp

unfoldable pub respond : Bytes → Conn → Conn
respond resp c = record c {
  writes = others c.writes;
  output = c.output ++ written (first sent c.writes) resp;
}

-- The connection goes on, is closed by the `defer`, or takes the process down by a panic.
pub data Status : Type 0 where
  going closed panicked : Status

-- What a goroutine shares with the others, the index and the pool, and its own connection.
pub record World {ℓ} (S : Type ℓ) : Type ℓ where
  pub conn : Conn
  pub store : S
  pub pool : BufioReaderPool

abbrev answer {ℓ} : {S : Type ℓ} → S × Bool → S × Bytes
answer (s, ok) = (s, if ok then ok_response else fail_response)

module _ {ℓ} {S : Type ℓ} (api : IndexApi S) where
  -- The switch on the command: the index afterwards, and the response to be sent.
  unfoldable pub handle : Message → S → S × Bytes
  handle m s =
      if m.command == codes "INDEX"
      then answer (api.index m.pkg m.dependencies s)
      else if m.command == codes "REMOVE"
      then answer (api.remove m.pkg s)
      else if m.command == codes "QUERY"
      then answer (s, api.query m.pkg s)
      else (s, error_response)

  -- What follows `readMessage`. Sleeping before the next round changes nothing.
  unfoldable pub react : Read → World S → World S × Status
  react (got m) w =
      let (s, resp) = handle m w.store in
      (record w { conn = respond resp w.conn; store = s }, going)
  react (failed (io eof)) w = (w, closed)
  react (failed (io (net_error timeout temporary))) w =
      if timeout
      then (w, closed)
      else if temporary
      then (w, going)
      else (record w { conn = respond error_response w.conn }, going)
  react (failed e) w = (record w { conn = respond error_response w.conn }, going)
  react crashed w = (w, panicked)

  -- The result of `readMessage`; the connection keeps what it left.
  unfoldable pub after_read : Option (Read × List Arrival) → World S → World S × Status
  after_read none w = (w, panicked)
  after_read (some (r, rest)) w = react r (record w { conn = record w.conn { incoming = rest } })

  unfoldable pub read_round : World S → World S × Status
  read_round w =
      let (o, p) = read_message (first true w.conn.choices) w.pool w.conn.incoming in
      after_read o (record w { conn = record w.conn { choices = others w.conn.choices }; pool = p })

  -- One round of the loop. Without a deadline the connection is closed.
  unfoldable pub turn : World S → World S × Status
  turn w =
      let w' = record w { conn = record w.conn { deadlines = others w.conn.deadlines } } in
      if first true w.conn.deadlines then read_round w' else (w', closed)

  -- The loop on fuel, until the connection is closed; `none` means that the fuel ran out.
  unfoldable pub serve : ℕ → World S → Option (World S × Status)
  serve zero w = none
  serve (suc fuel) w =
      let (w', s) = turn w in
      let rest = serve fuel w' in
      elim s [ going ↦ rest | closed ↦ some (w', closed) | panicked ↦ some (w', panicked) ]
