-- ===== src/Server/ReadMessage/Framing/Large.antt =====
-- A line that is too large fills the buffer, and what is left of it is a shorter line.
use package_index.Base.{
  ℕ, suc, ◌+◌, ◌-◌, ◌≤◌, ◌<◌, some, List, [], ◌∷◌, ◌++◌, ◌≡◌, ◌∙◌, refl, sym, ap, subst, Bytes,
  arith, All, length, length-append, All-append, All-left, All-right, All-take, All-drop, take,
  drop, drop-append, take-append, length-drop,
}
use native.Mathlib.Decide.{dec_le}
use package_index.Server.Bufio.{Arrival, bytes, Slice, read_slice, buffer_full, unread}
use package_index.Server.ReadMessage.Framing.Line.{
  NotNewline, Delivers, last, more, read_slice-fits, read_slice-overflows,
}

-- What the read leaves of a line of `total` bytes without its newline.
pub record Remains (size total : ℕ) (later : List Arrival) (s : Slice) : Type 0 where
  pub body : Bytes
  pub pieces : List Arrival
  pub err_is : s.err ≡ some buffer_full
  pub buffered_is : s.buffered ≡ []
  pub incoming_is : s.incoming ≡ pieces ++ later
  pub delivers : Delivers body pieces
  pub no_newline : All NotNewline body
  pub shorter : size + length body ≡ total

unread-append : (x : Bytes) (xs ys : List Arrival) → unread x (xs ++ ys) ≡ unread x xs ++ ys
unread-append [] xs ys = refl
unread-append (c ∷ cs) xs ys = refl

-- The end of a piece that was cut carries the end of the line.
unread-Delivers : (y : Bytes) (body : Bytes) → y ≡ body ++ b'\n' ∷ [] → Delivers body (unread y [])
unread-Delivers [] [] e = cc
unread-Delivers [] (z ∷ body) e = cc
unread-Delivers (c ∷ cs) body e = last c cs e

unread-Delivers_more :
    (y body' : Bytes) {pieces : List Arrival}
    → Delivers body' pieces
    → Delivers (y ++ body') (unread y pieces)
unread-Delivers_more [] body' d = d
unread-Delivers_more (c ∷ cs) body' d = more c cs body' refl d

module _ (size : ℕ) (b : Bytes) (c : ℕ) (cs : Bytes) (h : All NotNewline b) (le : length b ≤ size)
    (later : List Arrival) where
  abbrev room : ℕ
  room = size - length b

  -- The last piece of the line is cut.
  cut_last :
      (body : Bytes)
      → c ∷ cs ≡ body ++ b'\n' ∷ []
      → All NotNewline body
      → size < length b + suc (length body)
      → Remains size (length b + length body) later (read_slice size b (bytes c cs ∷ later))
  cut_last body e k big =
      let len : length (c ∷ cs) ≡ suc (length body) =
        ap (λ (x : Bytes). length x) e ∙ length-append body (b'\n' ∷ []) ∙ omega arith in
      let cut : take room (c ∷ cs) ≡ take room body =
        ap (take room) e ∙ take-append room body (b'\n' ∷ []) (omega arith) in
      let left : drop room (c ∷ cs) ≡ drop room body ++ b'\n' ∷ [] =
        ap (drop room) e ∙ drop-append room body (b'\n' ∷ []) (omega arith) in
      let read =
        read_slice-overflows size c cs b later h (omega arith) le
          (subst (All NotNewline) (sym cut) (All-take NotNewline room body k)) in
      subst (Remains size (length b + length body) later) (sym read) (record {
        body = drop room body;
        pieces = unread (drop room (c ∷ cs)) [];
        err_is = refl;
        buffered_is = refl;
        incoming_is = unread-append (drop room (c ∷ cs)) [] later;
        delivers = unread-Delivers (drop room (c ∷ cs)) (drop room body) left;
        no_newline = All-drop NotNewline room body k;
        shorter = omega (arith, length-drop room body);
      })

  -- An earlier piece of the line is cut.
  cut_early :
      (body' : Bytes) {pieces : List Arrival}
      → Delivers body' pieces
      → All NotNewline (c ∷ cs)
      → All NotNewline body'
      → size < length b + length (c ∷ cs)
      → Remains size
          (length b + (length (c ∷ cs) + length body'))
          later
          (read_slice size b (bytes c cs ∷ (pieces ++ later)))
  cut_early body' {pieces = ps} d k k' big =
      let read =
        read_slice-overflows size c cs b (ps ++ later) h big le
          (All-take NotNewline room (c ∷ cs) k) in
      subst (Remains size _ later) (sym read) (record {
        body = drop room (c ∷ cs) ++ body';
        pieces = unread (drop room (c ∷ cs)) ps;
        err_is = refl;
        buffered_is = refl;
        incoming_is = unread-append (drop room (c ∷ cs)) ps later;
        delivers = unread-Delivers_more (drop room (c ∷ cs)) body' d;
        no_newline = All-append NotNewline _ body' (All-drop NotNewline room (c ∷ cs) k) k';
        shorter =
            omega (arith, length-append (drop room (c ∷ cs)) body', length-drop room (c ∷ cs));
      })

pub read_slice-large :
    {body : Bytes} {pieces : List Arrival} (size : ℕ) (b : Bytes) (later : List Arrival)
    → Delivers body pieces
    → All NotNewline b
    → All NotNewline body
    → length b ≤ size
    → size < length b + suc (length body)
    → Remains size (length b + length body) later (read_slice size b (pieces ++ later))
read_slice-large {body} size b later (last c cs e) h k le big =
    cut_last size b c cs h le later body e k big
read_slice-large {body} size b later (more c cs body' {pieces = ps} e d) h k le big =
    let len : length body ≡ length (c ∷ cs) + length body' =
      ap (λ (x : Bytes). length x) e ∙ length-append (c ∷ cs) body' in
    let k' : All NotNewline ((c ∷ cs) ++ body') = subst (All NotNewline) e k in
    let kc = All-left NotNewline (c ∷ cs) body' k' in
    let kb = All-right NotNewline (c ∷ cs) body' k' in
    rw len (elim (dec_le (length b + length (c ∷ cs)) size) [
      | yes fits ↦
          let total : length (b ++ c ∷ cs) + length body'
              ≡ length b + (length (c ∷ cs) + length body') =
            omega (arith, length-append b (c ∷ cs)) in
          rw (read_slice-fits size c cs b (ps ++ later) h fits, ← total)
            (read_slice-large size (b ++ c ∷ cs) later d (All-append NotNewline b (c ∷ cs) h kc) kb
              (omega (arith, length-append b (c ∷ cs))) (omega (arith, length-append b (c ∷ cs))))
      | no over ↦ cut_early size b c cs h le later body' d kc kb (omega arith)
    ])
