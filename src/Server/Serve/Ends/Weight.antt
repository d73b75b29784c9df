-- ===== src/Server/Serve/Ends/Weight.antt =====
-- Each read takes some of what has yet to arrive.
use package_index.Base.{
  ℕ, zero, suc, ◌+◌, ◌-◌, ◌≤◌, ◌<◌, Bool, Option, none, some, List, [], ◌∷◌, ◌++◌, ◌≡◌, ◌≢◌, ◌∙◌,
  refl, sym, inl, inr, length, take, drop, arith, Bytes, if◌then◌else◌, leb, Bool-cases, max,
  length-drop,
}
use Prim.Native.Nat.{suc-le-suc}
use package_index.Server.Bufio.{
  ReadError, io, buffer_full, malformed, Arrival, bytes, error, unread, Slice, Look, found, full,
  short, look, answer, stop, read_slice, BufioReaderPool,
}
use package_index.Server.Pool.{IsUniform}
use package_index.Server.ReadMessage.{Read, discard, volume, drained, after_slice, read_message}
use package_index.Server.ReadMessage.Framing.{look_short}
use package_index.Server.ReadMessage.Total.{look-short, read_message-fresh}

-- What has yet to arrive, each piece and each failure weighing one more than its bytes.
unfoldable pub weight : List Arrival → ℕ
weight [] = 0
weight (bytes c cs ∷ incoming) = suc (suc (length cs) + weight incoming)
weight (error e ∷ incoming) = suc (weight incoming)

weight-unread :
    (cs : Bytes) (incoming : List Arrival)
    → weight (unread cs incoming) ≤ suc (length cs) + weight incoming
unfolding weight
weight-unread [] incoming = omega arith
weight-unread (c ∷ cs) incoming = omega arith

answer-weight :
    (n : ℕ) (k : Look) (buf : Bytes) (incoming : List Arrival) (next : Slice)
    → (k ≢ short → weight incoming ≤ n)
    → (k ≡ short → weight next.incoming ≤ n)
    → weight (answer k buf incoming next).incoming ≤ n
answer-weight n (found l r) buf incoming next h k = h (λ e. cc)
answer-weight n full buf incoming next h k = h (λ e. cc)
answer-weight n short buf incoming next h k = k refl

abbrev taken : ℕ → Bytes → ℕ → Bytes → List Arrival → Slice
taken size buf c cs incoming =
    let room = size - length buf in
    let buf' = buf ++ take room (c ∷ cs) in
    let rest = unread (drop room (c ∷ cs)) incoming in
    if leb (length (c ∷ cs)) room
    then read_slice size (buf ++ c ∷ cs) incoming
    else answer (look size buf') buf' rest (stop buffer_full buf' rest)

taken-weight :
    (size : ℕ) (buf : Bytes) (c : ℕ) (cs : Bytes) (incoming : List Arrival)
    → length buf < size
    → weight (read_slice size (buf ++ c ∷ cs) incoming).incoming ≤ weight incoming
    → weight (taken size buf c cs incoming).incoming < weight (bytes c cs ∷ incoming)
unfolding weight
taken-weight size buf c cs incoming lt ih = elim (Bool-cases (leb (length (c ∷ cs)) room)) [
  | inl fits ↦ rw fits (omega (arith, ih))
  | inr big ↦
      rw big (suc-le-suc (answer-weight _ (look size buf') buf' rest _ (λ h. enough) (λ h. enough)))
]
  where
    room : ℕ
    room = size - length buf

    buf' : Bytes
    buf' = buf ++ take room (c ∷ cs)

    rest : List Arrival
    rest = unread (drop room (c ∷ cs)) incoming

    enough : weight rest ≤ suc (length cs) + weight incoming
    enough = omega (arith, weight-unread (drop room (c ∷ cs)) incoming, length-drop room (c ∷ cs))

read_slice-weight-le :
    (size : ℕ) (incoming : List Arrival) (buf : Bytes)
    → weight (read_slice size buf incoming).incoming ≤ weight incoming
unfolding read_slice weight
read_slice-weight-le size [] buf =
    answer-weight 0 (look size buf) buf [] _ (λ h. omega arith) (λ h. omega arith)
read_slice-weight-le size (error e ∷ incoming) buf =
    answer-weight _ (look size buf) buf (error e ∷ incoming) _ (λ h. omega arith) (λ h. omega arith)
read_slice-weight-le size (bytes c cs ∷ incoming) buf =
    answer-weight _ (look size buf) buf (bytes c cs ∷ incoming) (taken size buf c cs incoming)
      (λ h. omega arith)
      (λ h. omega (
        arith,
        taken-weight size buf c cs incoming (look-short size buf h)
            (read_slice-weight-le size incoming (buf ++ c ∷ cs)),
      ))

-- From an empty buffer something is read whenever something arrives.
read_slice-weight-lt :
    (size : ℕ) (a : Arrival) (incoming : List Arrival)
    → 0 < size
    → weight (read_slice size [] (a ∷ incoming)).incoming < weight (a ∷ incoming)
unfolding read_slice weight
read_slice-weight-lt size (error e) incoming pos = rw (look_short size [] tt pos) (omega arith)
read_slice-weight-lt size (bytes c cs) incoming pos =
    rw (look_short size [] tt pos)
      (taken-weight size [] c cs incoming pos (read_slice-weight-le size incoming (c ∷ cs)))

discard-weight :
    (fuel size : ℕ) (s t : Slice)
    → discard fuel size s ≡ some t
    → weight t.incoming ≤ weight s.incoming
unfolding discard
discard-weight zero size s t e = cc
discard-weight (suc fuel) size s t e = ground (
  arith,
  e,
  discard-weight fuel size (read_slice size s.buffered s.incoming) t,
  read_slice-weight-le size s.incoming s.buffered,
)

drained-weight :
    (s : Slice) (o : Option Slice) (r : Read) (rest : List Arrival)
    → ((t : Slice) → o ≡ some t → weight t.incoming ≤ weight s.incoming)
    → drained o ≡ some (r, rest)
    → weight rest ≤ weight s.incoming
drained-weight s none r rest h e = cc
drained-weight s (some t) r rest h e = ground (arith, e, h t)

after_slice-weight :
    (size : ℕ) (s : Slice) (r : Read) (rest : List Arrival) (o : Option ReadError)
    → s.err ≡ o
    → after_slice size s ≡ some (r, rest)
    → weight rest ≤ weight s.incoming
unfolding after_slice
after_slice-weight size s r rest none h e = ground (arith, h, e)
after_slice-weight size s r rest (some (io x)) h e = ground (arith, h, e)
after_slice-weight size s r rest (some (malformed x)) h e = ground (arith, h, e)
after_slice-weight size s r rest (some buffer_full) h e =
    drained-weight s (discard (suc (suc (volume s.incoming))) size s) r rest
      (λ t q. discard-weight (suc (suc (volume s.incoming))) size s t q) (rw (h, after_slice) at e)

pub read_message-weight :
    (chosen : Bool) (p : BufioReaderPool) (a : Arrival) (incoming : List Arrival) (r : Read)
    (rest : List Arrival)
    → IsUniform p
    → (read_message chosen p (a ∷ incoming)).0 ≡ some (r, rest)
    → weight rest < weight (a ∷ incoming)
read_message-weight chosen p a incoming r rest u e =
    let size = max 16 p.buf_size in
    let s = read_slice size [] (a ∷ incoming) in
    omega (
      arith,
      after_slice-weight size s r rest s.err refl
          (sym (read_message-fresh chosen p (a ∷ incoming) u).0 ∙ e),
      read_slice-weight-lt size a incoming (omega arith),
    )
