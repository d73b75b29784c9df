-- ===== src/Server/WireFormat/Grammar/Accepts.antt =====
-- Each lemma runs one loop of the parser over the piece of a line that it is for.
use package_index.Base.{
  ℕ, suc, true, false, none, some, List, [], ◌∷◌, ◌++◌, ◌≡◌, ◌≢◌, ◌∙◌, refl, ap, Bytes, Name, arith,
  ◌==◌, nat_eq, bytes_eq, ◌||◌, All, bytes_beq_iff, append_assoc, append-nil, if◌then◌else◌,
}
use package_index.Base.Sets.{add}
use package_index.Base.Text.{join}
use package_index.Server.WireFormat.{
  Message, returns, collect, commas, count_commas, after_scan, depend, no_message,
  scan_dependencies, scan_package, scan_command, ends_in_newline, parse_message,
}
use package_index.Server.WireFormat.Grammar.Pieces.{
  InCommand, InName, IsName, add_all, deps_of, IsMessage,
}

nonempty : (n : Bytes) → n ≢ [] → (n == []) ≡ false
nonempty n h = ground (arith, bytes_beq_iff n [])

scan_command-append :
    (c seen rest : Bytes)
    → All InCommand c
    → scan_command seen (c ++ (b'|' ∷ rest))
      ≡ scan_package (record no_message { command = seen ++ c }) [] rest
unfolding scan_command
scan_command-append [] seen rest h = rw append-nil
scan_command-append (x ∷ c) seen rest h =
    ground (arith, scan_command-append c (seen ++ x ∷ []) rest h.1, append_assoc seen (x ∷ []) c)

scan_package-append :
    (m : Message) (p seen rest : Bytes)
    → All InName p
    → seen ++ p ≢ []
    → scan_package m seen (p ++ (b'|' ∷ rest))
      ≡ scan_dependencies (record m { pkg = seen ++ p }) rest
unfolding scan_package
scan_package-append m [] seen rest h ne =
    rw (append-nil, nonempty seen (λ e. ne (append-nil seen ∙ e)))
scan_package-append m (x ∷ p) seen rest h ne = ground (
  arith,
  scan_package-append m p (seen ++ x ∷ []) rest h.1 (rw append_assoc ne),
  append_assoc seen (x ∷ []) p,
)

collect-append :
    (m : Message) (d seen rest : Bytes) (c : ℕ)
    → All InName d
    → collect m seen (d ++ (c ∷ rest)) ≡ collect m (seen ++ d) (c ∷ rest)
unfolding collect
collect-append m [] seen rest c h = rw append-nil
collect-append m (x ∷ d) seen rest c h =
    ground (arith, collect-append m d (seen ++ x ∷ []) rest c h.1, append_assoc seen (x ∷ []) d)

collect_newline :
    (m : Message) (seen rest : Bytes)
    → seen ≢ []
    → collect m seen (b'\n' ∷ rest) ≡ returns (depend m seen) none
unfolding collect
collect_newline m seen rest ne = rw (nonempty seen ne)

collect_comma :
    (m : Message) (seen rest : Bytes)
    → seen ≢ []
    → collect m seen (b',' ∷ rest) ≡ collect (depend m seen) [] rest
unfolding collect
collect_comma m seen rest ne = rw (nonempty seen ne)

collect-join :
    (m : Message) (s : List Name) (d : Name) (ds : List Name) (rest : Bytes)
    → m.dependencies ≡ some s
    → All IsName (d ∷ ds)
    → collect m [] (join (d ∷ ds) ++ (b'\n' ∷ rest))
      ≡ returns (record m { dependencies = some (add_all s (d ∷ ds)) }) none
unfolding join
collect-join m s d [] rest e h =
    collect-append m d [] rest b'\n' h.0.1 ∙ collect_newline m d rest h.0.0 ∙ rw e
collect-join m s d (f ∷ ds) rest e h = rw append_assoc (
    collect-append m d [] _ b',' h.0.1
    ∙ collect_comma m d _ h.0.0
    ∙ collect-join (depend m d) (add s d) f ds rest (rw e) h.1)

abbrev InSet : ℕ → Type 0
InSet c = (c == b'\n' || c == b'|') ≡ false

All-append : (xs ys : Bytes) → All InSet xs → All InSet ys → All InSet (xs ++ ys)
All-append [] ys h k = k
All-append (x ∷ xs) ys h k = (h.0, All-append xs ys h.1 k)

InSet-of_InName : (d : Bytes) → All InName d → All InSet d
InSet-of_InName [] h = tt
InSet-of_InName (x ∷ d) h = (ground arith, InSet-of_InName d h.1)

join-InSet : (ds : List Name) → All IsName ds → All InSet (join ds)
unfolding join
join-InSet [] h = tt
join-InSet (d ∷ []) h = InSet-of_InName d h.0.1
join-InSet (d ∷ f ∷ ds) h = All-append d _ (InSet-of_InName d h.0.1) (refl, join-InSet (f ∷ ds) h.1)

count_commas-append :
    (n : ℕ) (b rest : Bytes)
    → All InSet b
    → (k : ℕ) × (count_commas n (b ++ (b'\n' ∷ rest)) ≡ commas k)
unfolding count_commas
count_commas-append n [] rest h = (n, refl)
count_commas-append n (x ∷ b) rest h =
    let (k, e) = count_commas-append (if x == b',' then suc n else n) b rest h.1 in
    (k, ground (arith, e))

scan_dependencies_set :
    (m : Message) (b t : Bytes) (x : ℕ)
    → b ≡ x ∷ t
    → (x == b'\n') ≡ false
    → scan_dependencies m b ≡ after_scan m b (count_commas 0 b)
unfolding scan_dependencies
scan_dependencies_set m b t x e h = rw (e, h)

join-cons : (x : ℕ) (d : Name) (ds : List Name) → (t : Bytes) × (join ((x ∷ d) ∷ ds) ≡ x ∷ t)
unfolding join
join-cons x d [] = (d, refl)
join-cons x d (f ∷ ds) = (d ++ b',' ∷ join (f ∷ ds), refl)

scan_dependencies-join :
    (m : Message) (ds : List Name) (rest : Bytes)
    → m.dependencies ≡ none
    → All IsName ds
    → scan_dependencies m (join ds ++ (b'\n' ∷ rest))
      ≡ returns (record m { dependencies = deps_of ds }) none
unfolding scan_dependencies join after_scan
scan_dependencies-join m [] rest e h = λ i. returns (record m { dependencies = e i }) none
scan_dependencies-join m ([] ∷ ds) rest e h = absurd (h.0.0 refl)
scan_dependencies-join m ((x ∷ d) ∷ ds) rest e h =
    let (t, head) = join-cons x d ds in
    let (k, count) =
      count_commas-append 0 (join ((x ∷ d) ∷ ds)) rest (join-InSet ((x ∷ d) ∷ ds) h) in
    scan_dependencies_set m _ (t ++ (b'\n' ∷ rest)) x (ap (λ (b : Bytes). b ++ (b'\n' ∷ rest)) head)
      (ground arith)
    ∙ rw count (collect-join (record m { dependencies = some [] }) [] (x ∷ d) ds rest refl h)

-- A line of the grammar is read as the message that it says, whatever follows its newline.
pub parse_message-line :
    (b : Bytes) (m : Message)
    → ends_in_newline b ≡ true
    → IsMessage b m
    → parse_message b ≡ returns m none
unfolding parse_message
parse_message-line b m e g = rw e (
    ap (scan_command []) g.line
    ∙ scan_command-append m.command [] _ g.in_command
    ∙ scan_package-append _ m.pkg [] _ g.pkg_name.1 g.pkg_name.0
    ∙ scan_dependencies-join _ g.deps g.rest refl g.dep_names
    ∙ rw (← g.says))
