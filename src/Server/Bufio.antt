-- ===== src/Server/Bufio.antt =====
-- What the server uses of Go's net.Conn and bufio.Reader, and
-- go/src/package-index/server/bufio_reader_pool.go.
use package_index.Base.{
  ℕ, ◌-◌, Bool, Option, none, some, List, [], ◌∷◌, ◌++◌, Bytes, ◌==◌, nat_eq, leb, length, take,
  drop, max, if◌then◌else◌,
}
use package_index.Server.WireFormat.{ParseError}

-- The errors of a connection's `Read` that `serve` tells apart: `io.EOF`, a `net.Error` with what
-- its `Timeout()` and `Temporary()` say, any other error.
pub data IoError : Type 0 where
  eof : IoError
  net_error : Bool → Bool → IoError
  other : IoError

-- The errors of `readMessage`: those, `bufio.ErrBufferFull`, and those of the parser.
pub data ReadError : Type 0 where
  io : IoError → ReadError
  buffer_full : ReadError
  malformed : ParseError → ReadError

-- What the network does next for a connection: some bytes arrive, at least one, or a `Read` fails.
pub data Arrival : Type 0 where
  bytes : ℕ → Bytes → Arrival
  error : IoError → Arrival

-- Bytes that a `Read` had no room for are there for the next one.
abbrev pub unread : Bytes → List Arrival → List Arrival
unread [] incoming = incoming
unread (c ∷ cs) incoming = bytes c cs ∷ incoming

-- A `bufio.Reader`: the length of its buffer, and `buf[r:w]`.
pub record Reader : Type 0 where
  pub size : ℕ
  pub buffered : Bytes

-- `bufio.NewReaderSize`: 16 bytes at least.
unfoldable pub new_reader_size : ℕ → Reader
new_reader_size n = record { size = max 16 n; buffered = [] }

-- `b.Reset(r)` drops what is buffered.
unfoldable pub reset : Reader → Reader
reset b = record b { buffered = [] }

-- What `ReadSlice` returns, with what is buffered and what has not arrived afterwards.
pub record Slice : Type 0 where
  pub line : Bytes
  pub err : Option ReadError
  pub buffered : Bytes
  pub incoming : List Arrival

-- The bytes up to the first newline, and those behind it.
unfoldable pub split_line : Bytes → Option (Bytes × Bytes)
split_line [] = none
split_line (c ∷ b) =
    if c == b'\n'
    then some (c ∷ [], b)
    else elim (split_line b) [ none ↦ none | some (l, r) ↦ some (c ∷ l, r) ]

-- What the loop of `ReadSlice` sees in its buffer before it asks the connection for more.
pub data Look : Type 0 where
  found : Bytes → Bytes → Look
  full : Look
  short : Look

unfoldable pub look : ℕ → Bytes → Look
look size buf = elim (split_line buf) [
  | some (l, r) ↦ found l r
  | none ↦ if leb size (length buf) then full else short
]

-- A return from the loop, or `next` if the buffer has room and no newline.
abbrev pub answer : Look → Bytes → List Arrival → Slice → Slice
answer (found l r) buf incoming next = record {
  line = l;
  err = none;
  buffered = r;
  incoming = incoming;
}
answer full buf incoming next = record {
  line = buf;
  err = some buffer_full;
  buffered = [];
  incoming = incoming;
}
answer short buf incoming next = next

abbrev pub stop : ReadError → Bytes → List Arrival → Slice
stop e buf incoming = record { line = buf; err = some e; buffered = []; incoming = incoming }

-- `b.ReadSlice('\n')`. A closed connection reads as `io.EOF` for ever. A `Read` with too little room
-- fills the buffer.
unfoldable pub read_slice : ℕ → Bytes → List Arrival → Slice
read_slice size buf [] = answer (look size buf) buf [] (stop (io eof) buf [])
read_slice size buf (error e ∷ incoming) =
    answer (look size buf) buf (error e ∷ incoming) (stop (io e) buf incoming)
read_slice size buf (bytes c cs ∷ incoming) =
    let room = size - length buf in
    let fits = read_slice size (buf ++ c ∷ cs) incoming in
    let buf' = buf ++ take room (c ∷ cs) in
    let rest = unread (drop room (c ∷ cs)) incoming in
    answer (look size buf) buf (bytes c cs ∷ incoming) (
      if leb (length (c ∷ cs)) room
      then fits
      else answer (look size buf') buf' rest (stop buffer_full buf' rest))

-- `bufioReaderPool`.
pub record BufioReaderPool : Type 0 where
  pub buf_size : ℕ
  pub pool : List Reader

-- `sync.Pool` gives back some reader that was put, or nil: `chosen` says whether it gives one.
unfoldable pub get : Bool → BufioReaderPool → Reader × BufioReaderPool
get chosen p = elim p.pool [
  | [] ↦ (new_reader_size p.buf_size, p)
  | b ∷ bs ↦ if chosen then (reset b, record p { pool = bs }) else (new_reader_size p.buf_size, p)
]

unfoldable pub put : Reader → BufioReaderPool → BufioReaderPool
put b p = record p { pool = reset b ∷ p.pool }
