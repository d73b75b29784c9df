-- ===== src/Server/ReadMessage/Framing/Line.antt =====
-- A line on its way, in pieces, and what the reader sees of it in its buffer.
use package_index.Base.{
  ℕ, ◌+◌, ◌-◌, All-append, append-nil, length-take, ◌≤◌, ◌<◌, false, none, some, List, [], ◌∷◌,
  ◌++◌, ◌≡◌, refl, Bytes, arith, All, length, take, drop, ◌==◌, nat_eq, leb_of_le, leb_of_lt,
  length-append,
}
use native.Mathlib.Decide.{dec_lt}
use package_index.Server.Bufio.{
  buffer_full, Arrival, bytes, error, unread, Slice, split_line, found, full, short, look,
  read_slice,
}

abbrev pub NotNewline : ℕ → Type 0
NotNewline c = (c == b'\n') ≡ false

-- The pieces carry the bytes of `body`, then a newline, and nothing behind it.
pub data Delivers : Bytes → List Arrival → Type 0 where
  last :
      {body : Bytes} (c : ℕ) (cs : Bytes)
      → c ∷ cs ≡ body ++ b'\n' ∷ []
      → Delivers body (bytes c cs ∷ [])
  more :
      {body : Bytes} (c : ℕ) (cs body' : Bytes) {pieces : List Arrival}
      → body ≡ (c ∷ cs) ++ body'
      → Delivers body' pieces
      → Delivers body (bytes c cs ∷ pieces)

split_line-none : (b : Bytes) → All NotNewline b → split_line b ≡ none
unfolding split_line
split_line-none [] h = refl
split_line-none (c ∷ b) h = rw (h.0, split_line-none b h.1)

split_line-append :
    (b r : Bytes) → All NotNewline b → split_line (b ++ b'\n' ∷ r) ≡ some (b ++ b'\n' ∷ [], r)
unfolding split_line
split_line-append [] r h = refl
split_line-append (c ∷ b) r h = rw (h.0, split_line-append b r h.1)

pub look_short : (size : ℕ) (b : Bytes) → All NotNewline b → length b < size → look size b ≡ short
unfolding look
look_short size b h lt = rw (split_line-none b h, look) (ground arith)

pub look_full : (size : ℕ) (b : Bytes) → All NotNewline b → size ≤ length b → look size b ≡ full
unfolding look
look_full size b h le = rw (split_line-none b h, look) (ground arith)

pub look_found :
    (size : ℕ) (b r : Bytes)
    → All NotNewline b
    → look size (b ++ b'\n' ∷ r) ≡ found (b ++ b'\n' ∷ []) r
unfolding look
look_found size b r h = rw (split_line-append b r h, look)

-- A newline in the buffer ends the line at once, whatever has yet to arrive.
pub read_slice-found :
    (size : ℕ) (b r : Bytes) (incoming : List Arrival)
    → All NotNewline b
    → read_slice size (b ++ b'\n' ∷ r) incoming
      ≡ record { line = b ++ b'\n' ∷ []; err = none; buffered = r; incoming = incoming }
unfolding read_slice
read_slice-found size b r [] h = rw (look_found size b r h)
read_slice-found size b r (error e ∷ incoming) h = rw (look_found size b r h)
read_slice-found size b r (bytes c cs ∷ incoming) h = rw (look_found size b r h)

-- A piece that the buffer has room for is taken whole.
pub read_slice-fits :
    (size c : ℕ) (cs b : Bytes) (incoming : List Arrival)
    → All NotNewline b
    → length b + length (c ∷ cs) ≤ size
    → read_slice size b (bytes c cs ∷ incoming) ≡ read_slice size (b ++ c ∷ cs) incoming
unfolding read_slice
read_slice-fits size c cs b incoming h fits =
    rw (
      look_short size b h (omega arith),
      leb_of_le (length (c ∷ cs)) (size - length b) (omega arith),
    )

module _ (size c : ℕ) (cs b : Bytes) (incoming : List Arrival) (h : All NotNewline b)
    (big : size < length b + length (c ∷ cs)) where
  abbrev room : ℕ
  room = size - length b

  abbrev overflow : Slice
  overflow = record {
    line = b ++ take room (c ∷ cs);
    err = some buffer_full;
    buffered = [];
    incoming = unread (drop room (c ∷ cs)) incoming;
  }

  overflows_now : length b ≡ size → read_slice size b (bytes c cs ∷ incoming) ≡ overflow
  unfolding read_slice
  overflows_now e =
      let no_room : size - length b ≡ 0 = omega arith in
      rw (look_full size b h (omega arith), no_room, append-nil)

  overflows_later :
      length b < size
      → All NotNewline (take room (c ∷ cs))
      → read_slice size b (bytes c cs ∷ incoming) ≡ overflow
  unfolding read_slice
  overflows_later lt k =
      let long : size ≤ length (b ++ take room (c ∷ cs)) =
        omega (arith, length-append b (take room (c ∷ cs)), length-take room (c ∷ cs)) in
      rw (
        look_short size b h lt,
        leb_of_lt (length (c ∷ cs)) (size - length b) (omega arith),
        look_full size (b ++ take room (c ∷ cs)) (All-append NotNewline b _ h k) long,
      )

  -- A piece that the buffer has no room for fills it, and the rest of the piece stays behind.
  pub read_slice-overflows :
      length b ≤ size
      → All NotNewline (take room (c ∷ cs))
      → read_slice size b (bytes c cs ∷ incoming) ≡ overflow
  read_slice-overflows le k = elim (dec_lt (length b) size) [
    | yes lt ↦ overflows_later lt k
    | no ge ↦ overflows_now (omega arith)
  ]
