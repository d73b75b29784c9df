-- ===== src/Server/ReadMessage/Framing/Whole.antt =====
-- A line that the buffer has room for is read whole.
use package_index.Base.{
  ℕ, suc, ◌+◌, ◌≤◌, none, List, [], ◌∷◌, ◌++◌, ◌≡◌, ◌∙◌, sym, ap, subst, Bytes, arith, All, length,
  append_assoc, length-append, All-append, All-left, All-right,
}
use package_index.Server.Bufio.{Arrival, Slice, read_slice}
use package_index.Server.ReadMessage.Framing.Line.{
  NotNewline, Delivers, last, more, read_slice-found, read_slice-fits,
}

abbrev whole : Bytes → List Arrival → Slice
whole b later = record { line = b ++ b'\n' ∷ []; err = none; buffered = []; incoming = later }

pub read_slice-whole :
    {body : Bytes} {pieces : List Arrival} (size : ℕ) (b : Bytes) (later : List Arrival)
    → Delivers body pieces
    → All NotNewline b
    → All NotNewline body
    → length b + suc (length body) ≤ size
    → read_slice size b (pieces ++ later) ≡ whole (b ++ body) later
read_slice-whole {body} size b later (last c cs e) h k fits =
    let len : length (c ∷ cs) ≡ suc (length body) =
      ap (λ (x : Bytes). length x) e ∙ length-append body (b'\n' ∷ []) ∙ omega arith in
    read_slice-fits size c cs b later h (omega arith)
    ∙ ap (λ (x : Bytes). read_slice size x later) (ap (◌++◌ b) e ∙ sym (append_assoc b body _))
    ∙ read_slice-found size (b ++ body) [] later (All-append NotNewline b body h k)
read_slice-whole {body} size b later (more c cs body' {pieces = ps} e d) h k fits =
    let len : length body ≡ length (c ∷ cs) + length body' =
      ap (λ (x : Bytes). length x) e ∙ length-append (c ∷ cs) body' in
    let k' : All NotNewline ((c ∷ cs) ++ body') = subst (All NotNewline) e k in
    read_slice-fits size c cs b (ps ++ later) h (omega arith)
    ∙ read_slice-whole size (b ++ c ∷ cs) later d
        (All-append NotNewline b (c ∷ cs) h (All-left NotNewline (c ∷ cs) body' k'))
        (All-right NotNewline (c ∷ cs) body' k') (omega (arith, length-append b (c ∷ cs)))
    ∙ ap (λ (x : Bytes). whole x later) (append_assoc b (c ∷ cs) body' ∙ ap (◌++◌ b) (sym e))
