-- ===== src/Server/ReadMessage/Total.antt =====
-- `readMessage` returns: its loop over a large message ends, and its parser does not panic.
use package_index.Base.{
  ℕ, zero, suc, ◌+◌, ◌-◌, ◌≤◌, ◌<◌, Bool, true, false, Option, none, some, List, [], ◌∷◌, ◌++◌, ◌≡◌,
  ◌≢◌, refl, ap, ◌∙◌, inl, inr, length, take, drop, arith, Bytes, if◌then◌else◌, leb, length-append,
  length-drop, Bool-cases, max,
}
use package_index.Server.WireFormat.{Parsed, returns, panics, parse_message}
use package_index.Server.WireFormat.Total.{parse_message-ne-panics}
use package_index.Server.Bufio.{
  ReadError, io, buffer_full, malformed, Arrival, bytes, error, unread, Reader, Slice, Look, found,
  full, short, look, answer, stop, read_slice, BufioReaderPool, get, put, new_reader_size, reset,
}
use package_index.Server.Pool.{IsUniform, get-new, put-IsUniform}
use package_index.Server.ReadMessage.{
  Read, failed, crashed, is_full, discard, volume, parsed, after_slice, read_message,
}

leb→lt : (a b : ℕ) → leb a b ≡ false → b < a
leb→lt a b h = ground arith

look-full : (size : ℕ) (buf : Bytes) → look size buf ≡ full → size ≤ length buf
unfolding look
look-full size buf h = ground arith

pub look-short : (size : ℕ) (buf : Bytes) → look size buf ≡ short → length buf < size
unfolding look
look-short size buf h = ground arith

volume-unread :
    (cs : Bytes) (incoming : List Arrival)
    → volume (unread cs incoming) ≡ length cs + volume incoming
unfolding volume
volume-unread [] incoming = omega arith
volume-unread (c ∷ cs) incoming = refl

-- A slice that filled the buffer took a bufferful of bytes, and leaves the buffer empty.
abbrev TookAll : ℕ → ℕ → Slice → Type 0
TookAll size before s =
    is_full s.err ≡ true → (size + volume s.incoming ≤ before) × (s.buffered ≡ [])

answer-TookAll :
    (size before : ℕ) (k : Look) (buf : Bytes) (incoming : List Arrival) (next : Slice)
    → (k ≡ full → size + volume incoming ≤ before)
    → (k ≡ short → TookAll size before next)
    → TookAll size before (answer k buf incoming next)
answer-TookAll size before (found l r) buf incoming next f s h = cc
answer-TookAll size before full buf incoming next f s h = (f refl, refl)
answer-TookAll size before short buf incoming next f s h = s refl h

module _ (size c : ℕ) (cs buf : Bytes) (incoming : List Arrival) (lt : length buf < size) where
  abbrev room : ℕ
  room = size - length buf

  abbrev filled : Bytes
  filled = buf ++ take room (c ∷ cs)

  abbrev left : List Arrival
  left = unread (drop room (c ∷ cs)) incoming

  left-volume :
      leb (length (c ∷ cs)) room ≡ false
      → size + volume left ≤ length buf + volume (bytes c cs ∷ incoming)
  unfolding volume
  left-volume big = omega (
    arith,
    volume-unread (drop room (c ∷ cs)) incoming,
    length-drop room (c ∷ cs),
    leb→lt (length (c ∷ cs)) room big,
  )

  arrival-TookAll :
      TookAll size
        (length (buf ++ c ∷ cs) + volume incoming)
        (read_slice size (buf ++ c ∷ cs) incoming)
      → TookAll size (length buf + volume (bytes c cs ∷ incoming)) (
          if leb (length (c ∷ cs)) room
          then read_slice size (buf ++ c ∷ cs) incoming
          else answer (look size filled) filled left (stop buffer_full filled left))
  unfolding volume
  arrival-TookAll ih = elim (Bool-cases (leb (length (c ∷ cs)) room)) [
    | inl fits ↦ rw fits (λ h. (omega (arith, (ih h).0, length-append buf (c ∷ cs)), (ih h).1))
    | inr big ↦ rw big (
        answer-TookAll size _ (look size filled) filled left _ (λ h. left-volume big)
          (λ h q. (left-volume big, refl)))
  ]

read_slice-TookAll :
    (size : ℕ) (incoming : List Arrival) (buf : Bytes)
    → TookAll size (length buf + volume incoming) (read_slice size buf incoming)
unfolding read_slice volume
read_slice-TookAll size [] buf =
    answer-TookAll size _ (look size buf) buf [] _ (λ h. omega (arith, look-full size buf h))
      (λ h q. cc)
read_slice-TookAll size (error e ∷ incoming) buf =
    answer-TookAll size _ (look size buf) buf (error e ∷ incoming) _
      (λ h. omega (arith, look-full size buf h)) (λ h q. cc)
read_slice-TookAll size (bytes c cs ∷ incoming) buf =
    answer-TookAll size _ (look size buf) buf (bytes c cs ∷ incoming) _
      (λ h. omega (arith, look-full size buf h))
      (λ h.
        arrival-TookAll size c cs buf incoming (look-short size buf h)
          (read_slice-TookAll size incoming (buf ++ c ∷ cs)))

-- The loop of `discard` ends, at a read that does not fill the buffer.
pub discard-ends :
    (fuel size : ℕ) (s : Slice)
    → 0 < size
    → 0 < fuel
    → (is_full s.err ≡ true → suc (length s.buffered + volume s.incoming) < fuel)
    → (t : Slice) × (discard fuel size s ≡ some t) × (is_full t.err ≡ false)
unfolding discard
discard-ends zero size s pos ne enough = absurd (omega arith)
discard-ends (suc fuel) size s pos ne enough = elim (Bool-cases (is_full s.err)) [
  | inl filled ↦
      let took = read_slice-TookAll size s.incoming s.buffered in
      rw filled (
        discard-ends fuel size (read_slice size s.buffered s.incoming) pos
          (omega (arith, enough filled))
          (λ h. omega (arith, enough filled, (took h).0, ap (λ (b : Bytes). length b) (took h).1)))
  | inr done ↦ (s, rw done, done)
]

parsed-ne-crashed : (r : Parsed) → r ≢ panics → parsed r ≢ crashed
parsed-ne-crashed (returns m none) h = cc
parsed-ne-crashed (returns m (some e)) h = cc
parsed-ne-crashed panics h = absurd (h refl)

-- A result is there, and it is no panic.
abbrev pub Settles : Option (Read × List Arrival) → Type 0
Settles o = (r : Read) × (rest : List Arrival) × (o ≡ some (r, rest)) × (r ≢ crashed)

after_slice-Settles :
    (size : ℕ) (s : Slice) (e : Option ReadError)
    → 0 < size
    → s.err ≡ e
    → (is_full s.err ≡ true → s.buffered ≡ [])
    → Settles (after_slice size s)
unfolding after_slice
after_slice-Settles size s none pos h b = (
  parsed (parse_message s.line),
  s.incoming,
  rw (h, after_slice),
  parsed-ne-crashed _ (parse_message-ne-panics s.line),
)
after_slice-Settles size s (some (io e)) pos h b =
    (failed (io e), s.incoming, rw (h, after_slice), cc)
after_slice-Settles size s (some (malformed e)) pos h b =
    (failed (malformed e), s.incoming, rw (h, after_slice), cc)
after_slice-Settles size s (some buffer_full) pos h b =
    let empty = b (rw h refl) in
    let (t, ends, calm) =
      discard-ends (suc (suc (volume s.incoming))) size s pos (omega arith)
        (λ _. rw empty (omega arith)) in
    drained t ends t.err refl
  where
    drained :
        (t : Slice)
        → discard (suc (suc (volume s.incoming))) size s ≡ some t
        → (e : Option ReadError) → t.err ≡ e
        → Settles (after_slice size s)
    drained t ends none k = (failed buffer_full, t.incoming, rw (h, after_slice, ends, k), cc)
    drained t ends (some e) k = (failed e, t.incoming, rw (h, after_slice, ends, k), cc)

buffered-nil :
    (size : ℕ) (buf : Bytes) (incoming : List Arrival)
    → is_full (read_slice size buf incoming).err ≡ true
    → (read_slice size buf incoming).buffered ≡ []
buffered-nil size buf incoming h = (read_slice-TookAll size incoming buf h).1

-- Whatever reader a uniform pool gives, a message is read as by a new reader of the pool's size;
-- the pool stays uniform and keeps its size.
pub read_message-fresh :
    (chosen : Bool) (p : BufioReaderPool) (incoming : List Arrival)
    → IsUniform p
    → let size = max 16 p.buf_size in
      ((read_message chosen p incoming).0 ≡ after_slice size (read_slice size [] incoming))
      × IsUniform (read_message chosen p incoming).1
      × ((read_message chosen p incoming).1.buf_size ≡ p.buf_size)
unfolding read_message new_reader_size put reset
read_message-fresh chosen p incoming u =
    let (new, uniform, same) = get-new chosen p u in
    let is_size : (get chosen p).0.size ≡ max 16 p.buf_size = ap (λ (b : Reader). b.size) new in
    (
      ap (λ (b : Reader). after_slice b.size (read_slice b.size b.buffered incoming)) new,
      put-IsUniform (get chosen p).0 (get chosen p).1 (is_size ∙ rw same) uniform,
      same,
    )

-- `readMessage` returns a message or an error, whatever arrives and whatever reader it gets from a
-- uniform pool: it neither loops for ever nor panics. It leaves the pool uniform.
pub read_message-Settles :
    (chosen : Bool) (p : BufioReaderPool) (incoming : List Arrival)
    → IsUniform p
    → Settles (read_message chosen p incoming).0 × IsUniform (read_message chosen p incoming).1
read_message-Settles chosen p incoming u =
    let fresh = read_message-fresh chosen p incoming u in
    let size = max 16 p.buf_size in
    (
      rw fresh.0 (
          after_slice-Settles size (read_slice size [] incoming) _ (omega arith) refl
            (buffered-nil size [] incoming)),
      fresh.1,
    )
