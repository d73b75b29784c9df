-- ===== src/Server/WireFormat/Grammar/Sound.antt =====
-- What each loop of the parser has read when the parser ends without an error.
use package_index.Base.{
  ℕ, suc, true, false, none, some, List, [], ◌∷◌, ◌++◌, ◌≡◌, ◌↔◌, ◌∙◌, refl, sym, ap, subst, Bytes,
  Name, arith, ◌==◌, nat_eq, bytes_eq, All, bytes_beq_iff, append_assoc, Bool-cases, inl, inr,
}
use package_index.Base.Sets.{add}
use package_index.Base.Text.{join}
use package_index.Server.WireFormat.{
  Message, returns, collect, Scan, commas, pipe, out_of_range, count_commas, after_scan, depend,
  no_message, scan_dependencies, scan_package, scan_command, ends_in_newline, parse_message,
}
use package_index.Server.WireFormat.Grammar.Pieces.{
  InCommand, InName, IsName, add_all, deps_of, IsMessage,
}
use package_index.Server.WireFormat.Grammar.Accepts.{parse_message-line}

InName-concat : (xs : Bytes) (c : ℕ) → All InName xs → InName c → All InName (xs ++ c ∷ [])
InName-concat [] c h p = (p, tt)
InName-concat (x ∷ xs) c h p = (h.0, InName-concat xs c h.1 p)

InCommand-concat :
    (xs : Bytes) (c : ℕ) → All InCommand xs → InCommand c → All InCommand (xs ++ c ∷ [])
InCommand-concat [] c h p = (p, tt)
InCommand-concat (x ∷ xs) c h p = (h.0, InCommand-concat xs c h.1 p)

-- The names that `collect` ends with when it has `seen` of the first and goes on at `b`.
record Collected (m : Message) (s : List Name) (seen b : Bytes) (out : Message) : Type 0 where
  name : Name
  others : List Name
  rest : Bytes
  names : All IsName (name ∷ others)
  line : seen ++ b ≡ join (name ∷ others) ++ (b'\n' ∷ rest)
  out_is : out ≡ record m { dependencies = some (add_all s (name ∷ others)) }

module _ (m out : Message) (s : List Name) (seen b : Bytes) (e : m.dependencies ≡ some s)
    (h : All InName seen) where
  Collected-newline :
      (seen == []) ≡ false
      → returns (depend m seen) none ≡ returns out none
      → Collected m s seen (b'\n' ∷ b) out
  unfolding join
  Collected-newline ne r = record {
    name = seen;
    others = [];
    rest = b;
    names = ((λ q. cc ((bytes_beq_iff seen []).1 q, ne), h), tt);
    line = refl;
    out_is = ground (arith, r, e);
  }

  Collected-comma :
      (seen == []) ≡ false
      → Collected (depend m seen) (add s seen) [] b out
      → Collected m s seen (b',' ∷ b) out
  unfolding join
  Collected-comma ne ih = record {
    name = seen;
    others = ih.name ∷ ih.others;
    rest = ih.rest;
    names = ((λ q. cc ((bytes_beq_iff seen []).1 q, ne), h), ih.names);
    line = rw ih.line (sym (append_assoc seen (b',' ∷ join (ih.name ∷ ih.others)) _));
    out_is = ih.out_is;
  }

  Collected-more : (x : ℕ) → Collected m s (seen ++ x ∷ []) b out → Collected m s seen (x ∷ b) out
  Collected-more x ih = record {
    name = ih.name;
    others = ih.others;
    rest = ih.rest;
    names = ih.names;
    line = sym (append_assoc seen (x ∷ []) b) ∙ ih.line;
    out_is = ih.out_is;
  }

collect-Collected :
    (m out : Message) (s : List Name) (seen b : Bytes) (n k : ℕ)
    → m.dependencies ≡ some s
    → All InName seen
    → count_commas n b ≡ commas k
    → collect m seen b ≡ returns out none
    → Collected m s seen b out
unfolding collect count_commas
collect-Collected m out s seen [] n k e h c r = cc
collect-Collected m out s seen (x ∷ b) n k e h c r = ground (
  arith,
  Collected-newline m out s seen b e h,
  Collected-comma m out s seen b e h,
  Collected-more m out s seen b e h x,
  collect-Collected (depend m seen) out (add s seen) [] b (suc n) k,
  collect-Collected m out s (seen ++ x ∷ []) b n k,
  InName-concat seen x h,
  e,
)

scan_package-reads :
    (m out : Message) (seen b : Bytes)
    → All InName seen
    → scan_package m seen b ≡ returns out none
    → (p : Name) × (rest : Bytes) × (seen ++ b ≡ p ++ (b'|' ∷ rest))
      × IsName p
      × (scan_dependencies (record m { pkg = p }) rest ≡ returns out none)
unfolding scan_package
scan_package-reads m out seen [] h r = cc
scan_package-reads m out seen (x ∷ b) h r = elim (Bool-cases (x == b'|')) [
  | inl bar ↦ (
    seen,
    b,
    ground (arith, bar),
    ((λ q. ground (arith, (bytes_beq_iff seen []).1 q, r, bar)), h),
    ground (arith, r, bar),
  )
  | inr inside ↦
      let (p, rest, line, name, next) =
        scan_package-reads m out (seen ++ x ∷ []) b
          (InName-concat seen x h (ground (arith, r, inside))) (ground (arith, r, inside)) in
      (p, rest, sym (append_assoc seen (x ∷ []) b) ∙ line, name, next)
]

scan_command-reads :
    (out : Message) (seen b : Bytes)
    → All InCommand seen
    → scan_command seen b ≡ returns out none
    → (c : Bytes) × (rest : Bytes) × (seen ++ b ≡ c ++ (b'|' ∷ rest))
      × All InCommand c
      × (scan_package (record no_message { command = c }) [] rest ≡ returns out none)
unfolding scan_command
scan_command-reads out seen [] h r = cc
scan_command-reads out seen (x ∷ b) h r = elim (Bool-cases (x == b'|')) [
  | inl bar ↦ (seen, b, ground (arith, bar), h, ground (arith, r, bar))
  | inr inside ↦
      let (c, rest, line, name, next) =
        scan_command-reads out (seen ++ x ∷ []) b
          (InCommand-concat seen x h (ground (arith, r, inside))) (ground (arith, r, inside)) in
      (c, rest, sym (append_assoc seen (x ∷ []) b) ∙ line, name, next)
]

abbrev ReadsDeps : Message → Bytes → Message → Type 0
ReadsDeps m b out =
    (deps : List Name) × (rest : Bytes) × All IsName deps
    × (b ≡ join deps ++ (b'\n' ∷ rest))
    × (out ≡ record m { dependencies = deps_of deps })

after_scan-reads :
    (m out : Message) (b : Bytes) (s : Scan)
    → count_commas 0 b ≡ s
    → after_scan m b s ≡ returns out none
    → ReadsDeps m b out
unfolding after_scan
after_scan-reads m out b (commas k) c r =
    let got = collect-Collected (record m { dependencies = some [] }) out [] [] b 0 k refl tt c r in
    (got.name ∷ got.others, got.rest, got.names, got.line, got.out_is)
after_scan-reads m out b pipe c r = cc
after_scan-reads m out b out_of_range c r = cc

scan_dependencies-reads :
    (m out : Message) (b : Bytes)
    → m.dependencies ≡ none
    → scan_dependencies m b ≡ returns out none
    → ReadsDeps m b out
unfolding scan_dependencies join
scan_dependencies-reads m out [] e r = cc
scan_dependencies-reads m out (x ∷ b) e r = elim (Bool-cases (x == b'\n')) [
  | inl newline ↦ ([], b, tt, ground (arith, newline), ground (arith, r, newline, e))
  | inr more ↦ after_scan-reads m out (x ∷ b) _ refl (rw more at r)
]

scan_command-IsMessage :
    (b : Bytes) (m : Message) → scan_command [] b ≡ returns m none → IsMessage b m
scan_command-IsMessage b m r =
    let (c, after_c, line_c, in_c, r_c) = scan_command-reads m [] b tt r in
    let (p, after_p, line_p, name_p, r_p) = scan_package-reads _ m [] after_c tt r_c in
    let (ds, rest, names, line_ds, out) = scan_dependencies-reads _ m after_p refl r_p in
    subst (IsMessage b) (sym out) (record {
      deps = ds;
      rest = rest;
      in_command = in_c;
      pkg_name = name_p;
      dep_names = names;
      line =
          line_c
          ∙ ap (λ (t : Bytes). c ++ (b'|' ∷ t))
              (line_p ∙ ap (λ (t : Bytes). p ++ (b'|' ∷ t)) line_ds);
      says = refl;
    })

-- The parser accepts exactly the byte strings that end in a newline and begin with a line of the
-- grammar, and gives the message that the line says.
pub parse_message-IsMessage :
    (b : Bytes) (m : Message)
    → (parse_message b ≡ returns m none) ↔ ((ends_in_newline b ≡ true) × IsMessage b m)
unfolding parse_message
parse_message-IsMessage b m = (
  λ r. elim (Bool-cases (ends_in_newline b)) [
    | inl ends ↦ (ends, scan_command-IsMessage b m (rw ends at r))
    | inr no_end ↦ ground (arith, r, no_end)
  ],
  λ h. unfold parse_message in parse_message-line b m h.0 h.1,
)
