-- ===== src/Server/ReadMessage/Bounds.antt =====
-- A message takes no more memory than the reader's buffer.
use package_index.Base.{
  ℕ, suc, ◌+◌, ◌-◌, ◌≤◌, Bool, Option, none, some, List, [], ◌∷◌, ◌++◌, ◌≡◌, ◌∙◌, refl, ap, subst,
  sym, length, take, length-append, length-take, max, arith, Bytes, Name, leb, ◌==◌, nat_eq,
  bytes_eq, if◌then◌else◌, Bool-cases, inl, inr,
}
use package_index.Base.Text.{join}
use package_index.Base.Sets.{add}
use package_index.Index.{range}
use package_index.Server.WireFormat.{Message, returns, panics, parse_message}
use package_index.Server.WireFormat.Grammar.{add_all, deps_of, IsMessage, parse_message-IsMessage}
use package_index.Server.Bufio.{
  ReadError, io, buffer_full, malformed, Arrival, bytes, error, Slice, split_line, Look, found,
  full, short, look, answer, read_slice, BufioReaderPool,
}
use package_index.Server.Pool.{IsUniform}
use package_index.Server.ReadMessage.{
  Read, got, failed, parsed, drained, after_slice, read_message, discard, volume,
}
use package_index.Server.ReadMessage.Total.{read_message-fresh}

-- A line that is found in a buffer fits it.
abbrev Fits : ℕ → Option (Bytes × Bytes) → Type 0
Fits n none = Unit
Fits n (some (l, r)) = length l ≤ n

split_line-Fits : (b : Bytes) → Fits (length b) (split_line b)
unfolding split_line
split_line-Fits [] = tt
split_line-Fits (c ∷ b) = elim (Bool-cases (c == b'\n')) [
  | inl newline ↦ rw newline (omega arith)
  | inr letter ↦ rw letter (
      (elim (split_line b)
          as (λ o.
            Fits (length b) o
            → Fits (suc (length b)) (elim o [ none ↦ none | some (l, r) ↦ some (c ∷ l, r) ])) [
              | none ↦ λ h. tt
              | some (l, r) ↦ λ h. omega (arith, h)
            ])
        (split_line-Fits b))
]

abbrev LookFits : ℕ → Look → Type 0
LookFits n (found l r) = length l ≤ n
LookFits n full = Unit
LookFits n short = Unit

look-LookFits : (size : ℕ) (buf : Bytes) → LookFits (length buf) (look size buf)
unfolding look
look-LookFits size buf =
    (elim (split_line buf)
        as (λ o.
          Fits (length buf) o
          → LookFits (length buf) (elim o [
            | some (l, r) ↦ found l r
            | none ↦ if leb size (length buf) then full else short
          ])) [
            | none ↦
                λ h. elim (Bool-cases (leb size (length buf))) [ inl e ↦ rw e tt | inr e ↦ rw e tt ]
            | some (l, r) ↦ λ h. h
          ])
      (split_line-Fits buf)

answer-le :
    (size : ℕ) (k : Look) (buf : Bytes) (incoming : List Arrival) (next : Slice)
    → length buf ≤ size
    → LookFits (length buf) k
    → length next.line ≤ size
    → length (answer k buf incoming next).line ≤ size
answer-le size (found l r) buf incoming next h f k = omega (arith, h, f)
answer-le size full buf incoming next h f k = h
answer-le size short buf incoming next h f k = k

-- What `ReadSlice` returns fits the buffer.
read_slice-le :
    (size : ℕ) (incoming : List Arrival) (buf : Bytes)
    → length buf ≤ size
    → length (read_slice size buf incoming).line ≤ size
unfolding read_slice
read_slice-le size [] buf h = answer-le size (look size buf) buf [] _ h (look-LookFits size buf) h
read_slice-le size (error e ∷ incoming) buf h =
    answer-le size (look size buf) buf _ _ h (look-LookFits size buf) h
read_slice-le size (bytes c cs ∷ incoming) buf h =
    let room = size - length buf in
    answer-le size (look size buf) buf _ _ h (look-LookFits size buf)
      (elim (Bool-cases (leb (length (c ∷ cs)) room)) [
        | inl fits ↦ rw fits (
            read_slice-le size incoming (buf ++ c ∷ cs)
              (ground (arith, length-append buf (c ∷ cs), fits)))
        | inr long ↦ rw long (
            let h' : length (buf ++ take room (c ∷ cs)) ≤ size =
              omega (arith, length-append buf (take room (c ∷ cs)), length-take room (c ∷ cs), h) in
            answer-le size (look size _) _ _ _ h' (look-LookFits size _) h')
      ])

-- The bytes of some names, and one for each that parts it from the next.
unfoldable pub names_volume : List Name → ℕ
names_volume [] = 0
names_volume (d ∷ ds) = suc (length d) + names_volume ds

names_volume-append : (s t : List Name) → names_volume (s ++ t) ≡ names_volume s + names_volume t
unfolding names_volume
names_volume-append [] t = omega arith
names_volume-append (d ∷ s) t = omega (arith, names_volume-append s t)

names_volume-add :
    (s : List Name) (d : Name) → names_volume (add s d) ≤ names_volume s + suc (length d)
unfolding names_volume add
names_volume-add s d = ground (arith, names_volume-append s (d ∷ []))

names_volume-add_all :
    (ds s : List Name) → names_volume (add_all s ds) ≤ names_volume s + names_volume ds
unfolding names_volume
names_volume-add_all [] s = omega arith
names_volume-add_all (d ∷ ds) s =
    omega (arith, names_volume-add_all ds (add s d), names_volume-add s d)

names_volume-deps_of : (ds : List Name) → names_volume (range (deps_of ds)) ≤ names_volume ds
unfolding names_volume
names_volume-deps_of [] = omega arith
names_volume-deps_of (d ∷ ds) = omega (arith, names_volume-add_all (d ∷ ds) [])

names_volume-join : (ds : List Name) → names_volume ds ≤ suc (length (join ds))
unfolding names_volume join
names_volume-join [] = omega arith
names_volume-join (d ∷ []) = omega arith
names_volume-join (d ∷ e ∷ ds) =
    omega (arith, names_volume-join (e ∷ ds), length-append d (b',' ∷ join (e ∷ ds)))

-- A message is no larger than the bytes that say it.
IsMessage-le :
    (b : Bytes) (m : Message)
    → IsMessage b m
    → length m.command + length m.pkg + names_volume (range m.dependencies) + 2 ≤ length b
IsMessage-le b m g =
    let third = join g.deps ++ b'\n' ∷ g.rest in
    omega (
      arith,
      ap length g.line,
      ap (λ ds. names_volume (range ds)) g.says,
      length-append m.command (b'|' ∷ (m.pkg ++ b'|' ∷ third)),
      length-append m.pkg (b'|' ∷ third),
      length-append (join g.deps) (b'\n' ∷ g.rest),
      names_volume-join g.deps,
      names_volume-deps_of g.deps,
    )

-- Where a result says that a message was read, the parser has read it in the line.
abbrev Parses : Bytes → Option (Read × List Arrival) → Type 0
Parses line (some (got m, rest)) = parse_message line ≡ returns m none
Parses line _ = Unit

parsed-Parses :
    (line : Bytes) (rest : List Arrival) → Parses line (some (parsed (parse_message line), rest))
parsed-Parses line rest =
    (elim (parse_message line)
        as (λ r. parse_message line ≡ r → Parses line (some (parsed r, rest))) [
          | returns m none ↦ λ h. h
          | returns m (some e) ↦ λ h. tt
          | panics ↦ λ h. tt
        ])
      refl

drained-Parses : (line : Bytes) (o : Option Slice) → Parses line (drained o)
drained-Parses line none = tt
drained-Parses line (some t) =
    elim t.err
      as (λ e. Parses line (elim e [
        | none ↦ some (failed buffer_full, t.incoming)
        | some e ↦ some (failed e, t.incoming)
      ])) [ none ↦ tt | some e ↦ tt ]

after_slice-Parses : (size : ℕ) (s : Slice) → Parses s.line (after_slice size s)
unfolding after_slice
after_slice-Parses size s = in_case s.err refl
  where
    in_case : (e : Option ReadError) → s.err ≡ e → Parses s.line (after_slice size s)
    in_case none h = rw (after_slice, h) (parsed-Parses s.line s.incoming)
    in_case (some (io e)) h = rw (after_slice, h) tt
    in_case (some (malformed e)) h = rw (after_slice, h) tt
    in_case (some buffer_full) h =
        rw (after_slice, h) (drained-Parses s.line (discard (suc (suc (volume s.incoming))) size s))

-- A message that `readMessage` returns is no larger than the buffer: its command, its name, its set
-- of dependencies with a byte for each, and a pipe and a newline at least.
pub read_message-bounded :
    (chosen : Bool) (p : BufioReaderPool) (incoming rest : List Arrival) (m : Message)
    → IsUniform p
    → (read_message chosen p incoming).0 ≡ some (got m, rest)
    → length m.command + length m.pkg + names_volume (range m.dependencies) + 2 ≤ max 16 p.buf_size
read_message-bounded chosen p incoming rest m u h =
    let size = max 16 p.buf_size in
    let s = read_slice size [] incoming in
    let parse =
      subst (Parses s.line) (sym (read_message-fresh chosen p incoming u).0 ∙ h)
        (after_slice-Parses size s) in
    omega (
      arith,
      IsMessage-le s.line m ((parse_message-IsMessage s.line m).0 parse).1,
      read_slice-le size incoming [] (omega arith),
    )
