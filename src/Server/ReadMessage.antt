-- ===== src/Server/ReadMessage.antt =====
-- `readMessage` of go/src/package-index/server/server.go.
pub mod Total
pub mod Bounds
pub mod Framing
use package_index.Base.{
  ℕ, zero, suc, ◌+◌, Bool, true, false, Option, none, some, List, [], ◌∷◌, length, if◌then◌else◌,
}
use package_index.Server.WireFormat.{Message, Parsed, returns, panics, parse_message}
use package_index.Server.Bufio.{
  ReadError, io, buffer_full, malformed, Arrival, bytes, error, Reader, Slice, read_slice,
  BufioReaderPool, get, put,
}

pub data Read : Type 0 where
  got : Message → Read
  failed : ReadError → Read
  crashed : Read

abbrev pub is_full : Option ReadError → Bool
is_full (some buffer_full) = true
is_full _ = false

-- The loop that drops the rest of a message that is too large, up to the first read that does
-- anything else than fill the buffer. `none` means that the fuel ran out.
unfoldable pub discard : ℕ → ℕ → Slice → Option Slice
discard zero size s = none
discard (suc fuel) size s =
    let rest = discard fuel size (read_slice size s.buffered s.incoming) in
    if is_full s.err then rest else some s

-- How many bytes have yet to arrive. Each round of `discard` takes some of them.
unfoldable pub volume : List Arrival → ℕ
volume [] = 0
volume (bytes c cs ∷ incoming) = suc (length cs) + volume incoming
volume (error e ∷ incoming) = volume incoming

abbrev pub parsed : Parsed → Read
parsed (returns m none) = got m
parsed (returns m (some e)) = failed (malformed e)
parsed panics = crashed

-- What `readMessage` returns behind the loop.
abbrev pub drained : Option Slice → Option (Read × List Arrival)
drained none = none
drained (some t) = elim t.err [
  | none ↦ some (failed buffer_full, t.incoming)
  | some e ↦ some (failed e, t.incoming)
]

-- What follows the first `ReadSlice`.
unfoldable pub after_slice : ℕ → Slice → Option (Read × List Arrival)
after_slice size s = elim s.err [
  | none ↦ some (parsed (parse_message s.line), s.incoming)
  | some (io e) ↦ some (failed (io e), s.incoming)
  | some (malformed e) ↦ some (failed (malformed e), s.incoming)
  | some buffer_full ↦ drained (discard (suc (suc (volume s.incoming))) size s)
]

-- The reader goes back to the pool whatever happens, and what it still buffers is dropped.
unfoldable pub read_message :
    Bool → BufioReaderPool → List Arrival → Option (Read × List Arrival) × BufioReaderPool
read_message chosen p incoming =
    let (buf, p') = get chosen p in
    (after_slice buf.size (read_slice buf.size buf.buffered incoming), put buf p')
