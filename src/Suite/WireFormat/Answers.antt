-- ===== src/Suite/WireFormat/Answers.antt =====
-- What a server answers to the messages of the test suite.
use package_index.Base.{
  ℕ, zero, suc, ◌<◌, ◌%◌, true, none, some, List, [], ◌∷◌, ◌++◌, ◌≡◌, refl, ap, ◌∙◌, All, length,
  arith, Bytes, Name, ◌==◌, bytes_eq, nat_eq, append_assoc, Bool-cases, inl, inr, bytes_beq,
}
use package_index.Base.Text.{codes, join}
use package_index.Base.Sets.{contains, add}
use package_index.Index.Graph.{Graph}
use package_index.Server.WireFormat.{returns, parse_message, ends_in_newline}
use package_index.Server.WireFormat.Grammar.{InCommand, IsName, deps_of, parse_message-line}
use package_index.Server.Serve.{error_response}
use package_index.Server.Serve.Session.{reply_to, spec_handle}
use package_index.Server.WireFormat.{
  scan_command, scan_package, scan_dependencies, after_scan, count_commas, collect,
}
use package_index.Suite.Packages.{Package, AllPackages}
use package_index.Suite.Packages.Registry.{Within}
use package_index.Suite.WireFormat.{
  choices, get_elem?, names_at, index_line, make_index_message, make_remove_message,
  make_query_message, make_broken_message, possible_invalid_commands, possible_invalid_chars,
}

ends_in_newline_last : (xs : Bytes) → ends_in_newline (xs ++ b'\n' ∷ []) ≡ true
unfolding ends_in_newline
ends_in_newline_last [] = refl
ends_in_newline_last (x ∷ []) = refl
ends_in_newline_last (x ∷ y ∷ xs) = ends_in_newline_last (y ∷ xs)

-- The parser reads back a message from its three parts.
line_message :
    (c : Bytes) (n : Name) (ds : List Name)
    → All InCommand c
    → IsName n
    → All IsName ds
    → parse_message ((c ++ (b'|' ∷ (n ++ (b'|' ∷ join ds)))) ++ b'\n' ∷ [])
      ≡ returns (record { command = c; pkg = n; dependencies = deps_of ds }) none
line_message c n ds hc hn hds = parse_message-line _ _ (ends_in_newline_last _) (record {
  deps = ds;
  rest = [];
  in_command = hc;
  pkg_name = hn;
  dep_names = hds;
  line = append_assoc c _ _ ∙ ap (λ t. c ++ b'|' ∷ t) (append_assoc n _ _);
  says = refl;
})

pub get_elem?-All {ℓ κ} :
    {A : Type ℓ} (P : A → Type κ) (xs : List A) (i : ℕ)
    → i < length xs
    → All P xs
    → (x : A) × (get_elem? xs i ≡ some x) × P x
unfolding get_elem?
get_elem?-All P [] i h k = elim h [ ]
get_elem?-All P (x ∷ xs) zero h k = (x, refl, k.0)
get_elem?-All P (x ∷ xs) (suc i) h k = get_elem?-All P xs i (omega arith) k.1

-- The package's name can stand in a message.
abbrev pub IsNamed : Package → Type 0
IsNamed p = IsName p.name

-- The dependencies of a package whose pointers stay in the registry have names there.
pub names_at-within :
    (all : AllPackages) (ds : List ℕ)
    → All IsNamed all
    → All (λ d. d < length all) ds
    → (ns : List Name) × (names_at all ds ≡ some ns) × All IsName ns
unfolding names_at
names_at-within all [] h k = ([], refl, tt)
names_at-within all (d ∷ ds) h k =
    let (p, at, is_name) = get_elem?-All IsNamed all d k.0 h in
    let (ns, later, good) = names_at-within all ds h k.1 in
    (p.name ∷ ns, rw (at, later) refl, (is_name, good))

-- For a package whose pointers stay in a registry, and names that the format can carry, the message
-- is made, and the server parses it, with its newline, as an INDEX of that package with the names
-- behind the pointers as dependencies.
pub make_index_message-parse :
    (all : AllPackages) (pkg : Package)
    → All IsNamed all
    → IsNamed pkg
    → Within (length all) pkg
    → (ns : List Name) × (msg : Bytes) × (names_at all pkg.dependencies ≡ some ns)
      × (make_index_message all pkg ≡ some msg)
      × (parse_message (msg ++ b'\n' ∷ [])
          ≡ returns
              (record { command = codes "INDEX"; pkg = pkg.name; dependencies = deps_of ns })
              none)
unfolding make_index_message
make_index_message-parse all pkg h is_name within =
    let (ns, at, good) = names_at-within all pkg.dependencies h within in
    (
      ns,
      index_line pkg.name ns,
      at,
      rw at refl,
      line_message (codes "INDEX") pkg.name ns (refl, (refl, (refl, (refl, (refl, tt))))) is_name
          good,
    )

-- For a name that the format can carry, the server parses the messages that remove and query a
-- package, each with its newline, as that command for that package with no dependencies.
pub make_remove_message-parse :
    (pkg : Package)
    → IsNamed pkg
    → (parse_message (make_remove_message pkg ++ b'\n' ∷ [])
        ≡ returns (record { command = codes "REMOVE"; pkg = pkg.name; dependencies = none }) none)
      × (parse_message (make_query_message pkg ++ b'\n' ∷ [])
          ≡ returns (record { command = codes "QUERY"; pkg = pkg.name; dependencies = none }) none)
unfolding make_remove_message make_query_message join
make_remove_message-parse pkg is_name = (
  line_message (codes "REMOVE") pkg.name [] (refl, (refl, (refl, (refl, (refl, (refl, tt))))))
      is_name tt,
  line_message (codes "QUERY") pkg.name [] (refl, (refl, (refl, (refl, (refl, tt))))) is_name tt,
)

-- Sent with its newline, a message gets ERROR and changes nothing.
abbrev pub IsRejected : Bytes → Type 0
IsRejected msg = (g : Graph) → reply_to (parse_message (msg ++ b'\n' ∷ [])) g ≡ (g, error_response)

broken_commands : All (λ c. IsRejected (c ++ codes "|a|b")) possible_invalid_commands
unfolding spec_handle parse_message ends_in_newline scan_command scan_package scan_dependencies
    after_scan count_commas collect add contains bytes_beq
broken_commands = ((λ g. refl), ((λ g. refl), ((λ g. refl), ((λ g. refl), ((λ g. refl), tt)))))

broken_chars :
    All (λ c. IsRejected (codes "INDEX|emacs" ++ (c ++ codes "elisp"))) possible_invalid_chars
unfolding parse_message ends_in_newline scan_command scan_package bytes_beq
broken_chars = ((λ g. refl), ((λ g. refl), ((λ g. refl), ((λ g. refl), tt))))

-- Whatever kind of broken message is chosen, and whichever of that kind, a message is made, and the
-- protocol's answer to it, sent with its newline, is ERROR and changes nothing.
pub make_broken_message-IsRejected :
    (kind choice : ℕ)
    → choice < choices kind
    → (msg : Bytes) × (make_broken_message kind choice ≡ some msg) × IsRejected msg
unfolding make_broken_message
make_broken_message-IsRejected kind choice = elim (Bool-cases (kind % 2 == 0)) [
  | inl even ↦ rw even (λ h.
      let (c, at, bad) =
        get_elem?-All (λ x. IsRejected (codes "INDEX|emacs" ++ (x ++ codes "elisp")))
          possible_invalid_chars choice h broken_chars in
      (codes "INDEX|emacs" ++ (c ++ codes "elisp"), rw at refl, bad))
  | inr odd ↦ rw odd (λ h.
      let (c, at, bad) =
        get_elem?-All (λ x. IsRejected (x ++ codes "|a|b")) possible_invalid_commands choice h
          broken_commands in
      (c ++ codes "|a|b", rw at refl, bad))
]
