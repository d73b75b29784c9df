-- ===== src/Server/WireFormat/Reference/Agrees.antt =====
-- The server's parser gives what the parser by parts gives.
use package_index.Base.{
  ℕ, suc, Bool, true, false, some, [], ◌∷◌, ◌++◌, ◌≡◌, ◌∙◌, refl, ap, All, Bytes, arith, ◌==◌,
  nat_eq, bytes_eq, if◌then◌else◌, append_assoc, append-nil, Bool-cases, inl, inr,
}
use package_index.Base.Sets.{contains}
use package_index.Base.Text.{split}
use package_index.Server.WireFormat.{
  Message, Parsed, empty_package, pipe_in_package, returns, Scan, commas, pipe, collect,
  count_commas, after_scan, scan_dependencies, scan_package, scan_command, no_message, depend,
  ends_in_newline, parse_message,
}
use package_index.Server.WireFormat.Reference.{
  cut, add_names, after_second_pipe, after_package, ends_package, after_command, parse_line,
  parse_by_parts,
}

abbrev IsInLine : ℕ → Type 0
IsInLine c = (c == b'\n') ≡ false

-- A line `body` as the parser meets it, with its newline and what may follow.
abbrev ended : Bytes → Bytes → Bytes
ended body tail = body ++ (b'\n' ∷ tail)

collect-add_names :
    (m : Message) (seen body tail : Bytes)
    → All IsInLine body
    → collect m seen (ended body tail) ≡ add_names m (split b',' seen body)
unfolding collect add_names split
collect-add_names m seen [] tail h = refl
collect-add_names m seen (c ∷ body) tail h = elim (Bool-cases (c == b',')) [
  | inl comma ↦
      rw (h.0, comma)
        (ap (λ (x : Parsed). if seen == [] then returns m (some empty_package) else x)
          (collect-add_names (depend m seen) [] body tail h.1))
  | inr letter ↦ rw (h.0, letter) (collect-add_names m (seen ++ c ∷ []) body tail h.1)
]

abbrev IsCount : Bool → Scan → Type 0
IsCount true s = s ≡ pipe
IsCount false s = (n : ℕ) × (s ≡ commas n)

count_commas-IsCount :
    (body tail : Bytes) (n : ℕ)
    → All IsInLine body
    → IsCount (contains body b'|') (count_commas n (ended body tail))
unfolding count_commas contains
count_commas-IsCount [] tail n h = (n, refl)
count_commas-IsCount (c ∷ body) tail n h = elim (Bool-cases (c == b'|')) [
  | inl p ↦ rw p refl
  | inr other ↦
      rw (other, h.0) (count_commas-IsCount body tail (if c == b',' then suc n else n) h.1)
]

after_scan-IsCount :
    (m : Message) (b : Bytes) (s : Scan) (has_pipe : Bool)
    → IsCount has_pipe s
    → after_scan m b s ≡ (
        if has_pipe
        then returns m (some pipe_in_package)
        else collect (record m { dependencies = some [] }) [] b)
unfolding after_scan
after_scan-IsCount m b s true e = rw e refl
after_scan-IsCount m b s false (n, e) = rw e refl

scan_dependencies-cut :
    (m : Message) (body tail : Bytes)
    → All IsInLine body
    → scan_dependencies m (ended body tail) ≡ after_second_pipe m body
unfolding scan_dependencies after_second_pipe
scan_dependencies-cut m [] tail h = refl
scan_dependencies-cut m (c ∷ body) tail h = rw h.0 (
    after_scan-IsCount m _ _ (contains (c ∷ body) b'|') (count_commas-IsCount (c ∷ body) tail 0 h)
    ∙ ap (λ (x : Parsed). if contains (c ∷ body) b'|' then returns m (some pipe_in_package) else x)
        (collect-add_names (record m { dependencies = some [] }) [] (c ∷ body) tail h))

-- The loop has seen the part of the name that it would cut off.
scan_package-cut :
    (m : Message) (seen body tail : Bytes)
    → All IsInLine body
    → scan_package m seen (ended body tail)
      ≡ after_package m (seen ++ (cut ends_package body).0, (cut ends_package body).1)
unfolding scan_package after_package cut
scan_package-cut m seen [] tail h = refl
scan_package-cut m seen (c ∷ body) tail h = elim (Bool-cases (c == b',')) [
  | inl comma ↦ rw (h.0, comma, after_package) (rw comma refl)
  | inr part ↦
      rw (h.0, part)
        (elim (Bool-cases (c == b'|')) [
          | inl bar ↦
              rw (bar, part, append-nil)
                (ap (λ (x : Parsed). if seen == [] then returns m (some empty_package) else x)
                  (scan_dependencies-cut (record m { pkg = seen }) body tail h.1))
          | inr letter ↦ rw letter (
              scan_package-cut m (seen ++ c ∷ []) body tail h.1
              ∙ ap (λ (x : Bytes). after_package m (x, (cut ends_package body).1))
                  (append_assoc seen (c ∷ []) (cut ends_package body).0))
        ])
]

scan_command-cut :
    (seen body tail : Bytes)
    → All IsInLine body
    → scan_command seen (ended body tail)
      ≡ after_command (seen ++ (cut (λ c. c == b'|') body).0, (cut (λ c. c == b'|') body).1)
unfolding scan_command after_command cut
scan_command-cut seen [] tail h = refl
scan_command-cut seen (c ∷ body) tail h = elim (Bool-cases (c == b'|')) [
  | inl bar ↦
      rw (h.0, bar, append-nil)
        (scan_package-cut (record no_message { command = seen }) [] body tail h.1)
  | inr letter ↦
      rw (h.0, letter)
        (scan_command-cut (seen ++ c ∷ []) body tail h.1
          ∙ ap (λ (x : Bytes). after_command (x, (cut (λ c. c == b'|') body).1))
              (append_assoc seen (c ∷ []) (cut (λ c. c == b'|') body).0))
]

cut-IsInLine : (b : Bytes) → All IsInLine (cut (λ c. c == b'\n') b).0
unfolding cut
cut-IsInLine [] = tt
cut-IsInLine (c ∷ b) = elim (Bool-cases (c == b'\n')) [
  | inl newline ↦ rw newline tt
  | inr letter ↦ rw letter (letter, cut-IsInLine b)
]

-- What ends in a newline is its first line with the newline, and some rest.
ended-cut :
    (b : Bytes)
    → ends_in_newline b ≡ true
    → (tail : Bytes) × (b ≡ ended (cut (λ c. c == b'\n') b).0 tail)
unfolding cut ends_in_newline
ended-cut [] h = cc
ended-cut (c ∷ []) h = ([], rw h (ground arith))
ended-cut (c ∷ d ∷ b) h = elim (Bool-cases (c == b'\n')) [
  | inl newline ↦ rw newline (d ∷ b, ground arith)
  | inr letter ↦ let (tail, e) = ended-cut (d ∷ b) h in rw letter (tail, ap (◌∷◌ c) e)
]

-- On every sequence of bytes `parseMessage` gives what the parser by parts gives: the same message, or
-- the same error with the same message filled in beside it.
pub parse_message-parse_by_parts : (b : Bytes) → parse_message b ≡ parse_by_parts b
unfolding parse_message parse_by_parts parse_line
parse_message-parse_by_parts b = elim (Bool-cases (ends_in_newline b)) [
  | inl ends ↦
      let (tail, e) = ended-cut b ends in
      rw ends (
        ap (scan_command []) e
        ∙ scan_command-cut [] (cut (λ c. c == b'\n') b).0 tail (cut-IsInLine b))
  | inr no_end ↦ rw no_end refl
]
