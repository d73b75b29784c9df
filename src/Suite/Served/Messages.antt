-- ===== src/Suite/Served/Messages.antt =====
-- The messages of the test client are lines that the server's buffer has room for.
use package_index.Base.{
  ℕ, some, List, [], ◌∷◌, ◌++◌, refl, sym, subst, All, length, Bytes, Name, bytes_eq, arith,
  All-weaken, All-append,
}
use package_index.Base.Text.{codes}
use package_index.Server.ReadMessage.Framing.{NotNewline}
use package_index.Suite.Packages.{Package, AllPackages}
use package_index.Suite.WireFormat.{make_remove_message, make_query_message}
use package_index.Suite.WireFormat.Answers.{IsNamed}
use package_index.Server.WireFormat.Grammar.{InName}
use package_index.Suite.Served.{Sendable, IsServable}
use package_index.Base.{Option, none, some, ◌==◌, zero, suc, ◌≤◌, Bool-cases, inl, inr, ◌%◌, nat_eq}
use package_index.Base.Text.{join}
use package_index.Server.WireFormat.Grammar.{IsName}
use package_index.Suite.WireFormat.{
  get_elem?, index_line, index_line_of, syntax_error, command_error, make_index_message,
  make_broken_message, possible_invalid_chars, possible_invalid_commands,
}
use package_index.Suite.WireFormat.Answers.{names_at-within}
use package_index.Suite.Packages.Registry.{Within}
use package_index.Suite.Run.Simulation.Indexing.{IfMade}

name-NotNewline : (n : Name) → All InName n → All NotNewline n
name-NotNewline n h = All-weaken InName NotNewline n (λ c k. ground (arith, k)) h

line-NotNewline :
    (c : Bytes) (n : Name)
    → All NotNewline c
    → All InName n
    → All NotNewline (c ++ (b'|' ∷ (n ++ (b'|' ∷ []))))
line-NotNewline c n h k =
    All-append NotNewline c _ h (refl, All-append NotNewline n _ (name-NotNewline n k) (refl, tt))

pub remove_message-Sendable :
    (size : ℕ) (p : Package) → IsServable size p → Sendable size (make_remove_message p)
unfolding make_remove_message
remove_message-Sendable size p h =
    (line-NotNewline (codes "REMOVE") p.name (ground arith) h.0.1, h.1)

pub query_message-Sendable :
    (size : ℕ) (p : Package) → IsServable size p → Sendable size (make_query_message p)
unfolding make_query_message make_remove_message
query_message-Sendable size p h =
    (line-NotNewline (codes "QUERY") p.name (ground arith) h.0.1, omega (arith, h.1))

join-NotNewline : (ns : List Name) → All IsName ns → All NotNewline (join ns)
unfolding join
join-NotNewline [] h = tt
join-NotNewline (n ∷ []) h = name-NotNewline n h.0.1
join-NotNewline (n ∷ m ∷ ns) h =
    All-append NotNewline n _ (name-NotNewline n h.0.1) (refl, join-NotNewline (m ∷ ns) h.1)

index_line-NotNewline :
    (n : Name) (ns : List Name) → IsName n → All IsName ns → All NotNewline (index_line n ns)
index_line-NotNewline n ns h k =
    All-append NotNewline (codes "INDEX") (b'|' ∷ (n ++ b'|' ∷ join ns)) (ground arith)
      (refl, All-append NotNewline n _ (name-NotNewline n h.1) (refl, join-NotNewline ns k))

-- The message that indexes the package fits.
abbrev pub IsShort : ℕ → AllPackages → Package → Type 0
IsShort size all p = IfMade (λ msg. suc (length msg) ≤ size) (make_index_message all p)

pub index_message-Sendable :
    (size : ℕ) (all : AllPackages) (p : Package)
    → All IsNamed all
    → IsNamed p
    → Within (length all) p
    → IsShort size all p
    → IfMade (Sendable size) (make_index_message all p)
unfolding make_index_message
index_message-Sendable size all p h n w short =
    let (ns, at, good) = names_at-within all p.dependencies h w in
    subst
      (λ o.
        IfMade (λ msg. suc (length msg) ≤ size) (index_line_of p.name o)
        → IfMade (Sendable size) (index_line_of p.name o))
      (sym at) (λ k. (index_line-NotNewline p.name ns n good, k)) short

-- What holds of each choice holds of the one that is made.
get_elem?-IfMade :
    (Q : Bytes → Type 0) (xs : List Bytes) (i : ℕ) → All Q xs → IfMade Q (get_elem? xs i)
unfolding get_elem?
get_elem?-IfMade Q [] i h = tt
get_elem?-IfMade Q (x ∷ xs) zero h = h.0
get_elem?-IfMade Q (x ∷ xs) (suc i) h = get_elem?-IfMade Q xs i h.1

syntax_error-IfMade :
    (Q : Bytes → Type 0) (o : Option Bytes)
    → IfMade (λ c. Q (codes "INDEX|emacs" ++ (c ++ codes "elisp"))) o
    → IfMade Q (syntax_error o)
syntax_error-IfMade Q none h = tt
syntax_error-IfMade Q (some c) h = h

command_error-IfMade :
    (Q : Bytes → Type 0) (o : Option Bytes)
    → IfMade (λ c. Q (c ++ codes "|a|b")) o
    → IfMade Q (command_error o)
command_error-IfMade Q none h = tt
command_error-IfMade Q (some c) h = h

syntax_errors-Sendable :
    (size : ℕ)
    → 32 ≤ size
    → All (λ c. Sendable size (codes "INDEX|emacs" ++ (c ++ codes "elisp"))) possible_invalid_chars
syntax_errors-Sendable size h = (
  (ground arith, omega (arith, h)),
  (
    (ground arith, omega (arith, h)),
    ((ground arith, omega (arith, h)), ((ground arith, omega (arith, h)), tt)),
  ),
)

command_errors-Sendable :
    (size : ℕ) → 32 ≤ size → All (λ c. Sendable size (c ++ codes "|a|b")) possible_invalid_commands
command_errors-Sendable size h = (
  (ground arith, omega (arith, h)),
  (
    (ground arith, omega (arith, h)),
    (
      (ground arith, omega (arith, h)),
      ((ground arith, omega (arith, h)), ((ground arith, omega (arith, h)), tt)),
    ),
  ),
)

-- No broken message is longer than 31 bytes.
pub broken_message-Sendable :
    (size kind choice : ℕ) → 32 ≤ size → IfMade (Sendable size) (make_broken_message kind choice)
unfolding make_broken_message
broken_message-Sendable size kind choice h = elim (Bool-cases (kind % 2 == 0)) [
  | inl even ↦ rw even (
      syntax_error-IfMade (Sendable size) (get_elem? possible_invalid_chars choice)
        (get_elem?-IfMade _ possible_invalid_chars choice (syntax_errors-Sendable size h)))
  | inr odd ↦ rw odd (
      command_error-IfMade (Sendable size) (get_elem? possible_invalid_commands choice)
        (get_elem?-IfMade _ possible_invalid_commands choice (command_errors-Sendable size h)))
]
