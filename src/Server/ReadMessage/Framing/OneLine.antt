-- ===== src/Server/ReadMessage/Framing/OneLine.antt =====
-- `readMessage` on a line from a client that waits for the answer, and from one that does not.
use package_index.Base.{
  ℕ, zero, suc, ◌+◌, ◌≤◌, ◌<◌, Bool, none, some, List, [], ◌∷◌, ◌++◌, ◌≡◌, ◌∙◌, refl, ap, Bytes,
  arith, All, length, max, length-append, leb, leb_of_le, leb_of_lt, if◌then◌else◌, Option,
}
use native.Mathlib.Decide.{dec_le}
use package_index.Server.WireFormat.{parse_message}
use package_index.Server.Bufio.{
  Arrival, bytes, error, Slice, read_slice, buffer_full, BufioReaderPool,
}
use package_index.Server.Pool.{IsUniform}
use package_index.Server.ReadMessage.{failed, parsed, discard, volume, after_slice, read_message}
use package_index.Server.ReadMessage.Total.{read_message-fresh}
use package_index.Server.ReadMessage.Framing.Line.{
  NotNewline, Delivers, last, more, read_slice-found, read_slice-fits,
}
use package_index.Server.ReadMessage.Framing.Whole.{read_slice-whole}
use package_index.Server.ReadMessage.Framing.Large.{Remains, read_slice-large}

volume-append-le : (xs ys : List Arrival) → volume xs ≤ volume (xs ++ ys)
unfolding volume
volume-append-le [] ys = omega arith
volume-append-le (bytes c cs ∷ xs) ys = omega (arith, volume-append-le xs ys)
volume-append-le (error e ∷ xs) ys = volume-append-le xs ys

volume-Delivers :
    {body : Bytes} {pieces : List Arrival}
    → Delivers body pieces
    → suc (length body) ≤ volume pieces
unfolding volume
volume-Delivers {body} (last c cs e) =
    omega (arith, ap (λ (x : Bytes). length x) e, length-append body (b'\n' ∷ []))
volume-Delivers (more c cs body' e d) =
    omega (arith, ap (λ (x : Bytes). length x) e, length-append (c ∷ cs) body', volume-Delivers d)

-- The slice that `discard` ends with.
abbrev Resynced : List Arrival → Option Slice → Type 0
Resynced later o = (t : Slice) × (o ≡ some t) × (t.err ≡ none) × (t.incoming ≡ later)

discard_done : (fuel size : ℕ) (s : Slice) → 0 < fuel → s.err ≡ none → discard fuel size s ≡ some s
unfolding discard
discard_done zero size s h e = elim h [ ]
discard_done (suc fuel) size s h e = ground (arith, e)

discard_full :
    (fuel size : ℕ) (s : Slice)
    → s.err ≡ some buffer_full
    → discard (suc fuel) size s ≡ discard fuel size (read_slice size s.buffered s.incoming)
unfolding discard
discard_full fuel size s e = ground (arith, e)

discard-line :
    (fuel size total : ℕ) (later : List Arrival) (s : Slice)
    → 0 < size
    → (r : Remains size total later s) → length r.body + 2 ≤ fuel
    → Resynced later (discard fuel size s)
unfolding discard
discard-line zero size total later s pos r enough = absurd (omega arith)
discard-line (suc fuel) size total later s pos r enough =
    let step : discard (suc fuel) size s
        ≡ discard fuel size (read_slice size [] (r.pieces ++ later)) =
      discard_full fuel size s r.err_is
      ∙ (λ i. discard fuel size (read_slice size (r.buffered_is i) (r.incoming_is i))) in
    elim (dec_le (suc (length r.body)) size) [
      | yes fits ↦
          let w = read_slice-whole size [] later r.delivers tt r.no_newline (omega arith) in
          (
            _,
            step ∙ ap (discard fuel size) w ∙ discard_done fuel size _ (omega arith) refl,
            refl,
            refl,
          )
      | no big ↦
          let r' =
            read_slice-large size [] later r.delivers tt r.no_newline (omega arith) (omega arith) in
          let (t, ends, calm, rest) =
            discard-line fuel size _ later _ pos r' (omega (arith, r'.shorter)) in
          (t, step ∙ ends, calm, rest)
    ]

after_slice_large :
    (size : ℕ) (s t : Slice)
    → s.err ≡ some buffer_full
    → discard (suc (suc (volume s.incoming))) size s ≡ some t
    → t.err ≡ none
    → after_slice size s ≡ some (failed buffer_full, t.incoming)
unfolding after_slice
after_slice_large size s t h ends k = rw (h, after_slice, ends, k)

-- However the network cuts a line, it is read as one message if it fits the buffer; if it does not,
-- it is reported as too large and skipped to its end. What arrives later is left alone.
pub after_slice-line :
    {body : Bytes} {pieces : List Arrival} (size : ℕ) (later : List Arrival)
    → 0 < size
    → Delivers body pieces
    → All NotNewline body
    → after_slice size (read_slice size [] (pieces ++ later))
      ≡ some (
        (if leb (suc (length body)) size
            then parsed (parse_message (body ++ b'\n' ∷ []))
            else failed buffer_full),
        later,
      )
unfolding after_slice
after_slice-line {body} {pieces} size later pos d k = elim (dec_le (suc (length body)) size) [
  | yes fits ↦
      rw (leb_of_le (suc (length body)) size fits)
        (ap (after_slice size) (read_slice-whole size [] later d tt k (omega arith)))
  | no big ↦
      let r = read_slice-large size [] later d tt k (omega arith) (omega arith) in
      let (t, ends, calm, rest) =
        discard-line (suc (suc (volume (read_slice size [] (pieces ++ later)).incoming))) size _
          later _ pos r
          (omega (
            arith,
            ap (λ (x : List Arrival). volume x) r.incoming_is,
            volume-append-le r.pieces later,
            volume-Delivers r.delivers,
          )) in
      rw (leb_of_lt (suc (length body)) size (omega arith)) (
        after_slice_large size _ t r.err_is ends calm ∙ ap (λ x. some (failed buffer_full, x)) rest)
]

-- With whatever reader a uniform pool gives, `read_message` on a line that arrives in any pieces
-- returns what the parser says of the line and its newline, if these fit the buffer, and otherwise
-- that the buffer is full; what arrives later is left.
pub read_message-line :
    {body : Bytes} {pieces : List Arrival} (chosen : Bool) (p : BufioReaderPool)
    (later : List Arrival)
    → IsUniform p
    → Delivers body pieces
    → All NotNewline body
    → (read_message chosen p (pieces ++ later)).0
      ≡ some (
        (if leb (suc (length body)) (max 16 p.buf_size)
            then parsed (parse_message (body ++ b'\n' ∷ []))
            else failed buffer_full),
        later,
      )
read_message-line {body} {pieces} chosen p later u d k =
    (read_message-fresh chosen p (pieces ++ later) u).0
    ∙ after_slice-line (max 16 p.buf_size) later (omega arith) d k

-- With a uniform pool, bytes that arrive in one piece with a line and behind it, and fit the
-- buffer with it, are never read: the line's message is returned, and what is left is what arrives
-- later.
pub read_message-drops :
    (chosen : Bool) (p : BufioReaderPool) (c : ℕ) (cs body extra : Bytes) (later : List Arrival)
    → IsUniform p
    → All NotNewline body
    → c ∷ cs ≡ body ++ (b'\n' ∷ extra)
    → length (c ∷ cs) ≤ max 16 p.buf_size
    → (read_message chosen p (bytes c cs ∷ later)).0
      ≡ some (parsed (parse_message (body ++ b'\n' ∷ [])), later)
unfolding after_slice
read_message-drops chosen p c cs body extra later u k e fits =
    let size = max 16 p.buf_size in
    (read_message-fresh chosen p (bytes c cs ∷ later) u).0
    ∙ ap (after_slice size) (
        read_slice-fits size c cs [] later tt (omega arith)
        ∙ ap (λ (x : Bytes). read_slice size x later) e
        ∙ read_slice-found size body extra later k)
