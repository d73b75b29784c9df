-- ===== src/Suite/WireFormat.antt =====
-- go/src/test-suite/wire_format.go: the messages that the test suite sends, without the newline that
-- the client's `Send` puts behind them. What `rand.Intn` chooses are arguments.
pub mod Answers
use package_index.Base.{
  ℕ, zero, suc, ◌%◌, Bool, Option, none, some, List, [], ◌∷◌, ◌++◌, map, Bytes, Name, length, ltb,
  ◌==◌, nat_eq, if◌then◌else◌,
}
use package_index.Base.Text.{codes, join}
use package_index.Suite.Packages.{Package, AllPackages}

-- `xs[i]`, which panics out of range.
unfoldable pub get_elem? {ℓ} : {A : Type ℓ} → List A → ℕ → Option A
get_elem? [] i = none
get_elem? (x ∷ xs) zero = some x
get_elem? (x ∷ xs) (suc i) = get_elem? xs i

abbrev cons_name : Option Package → Option (List Name) → Option (List Name)
cons_name (some p) (some ns) = some (p.name ∷ ns)
cons_name _ _ = none

-- The names behind the pointers; none if a pointer leads out of the registry.
unfoldable pub names_at : AllPackages → List ℕ → Option (List Name)
names_at all [] = some []
names_at all (d ∷ ds) = cons_name (get_elem? all d) (names_at all ds)

abbrev pub index_line : Name → List Name → Bytes
index_line n ds = codes "INDEX" ++ (b'|' ∷ (n ++ (b'|' ∷ join ds)))

abbrev pub index_line_of : Name → Option (List Name) → Option Bytes
index_line_of n none = none
index_line_of n (some ds) = some (index_line n ds)

unfoldable pub make_index_message : AllPackages → Package → Option Bytes
make_index_message all pkg = index_line_of pkg.name (names_at all pkg.dependencies)

unfoldable pub make_remove_message : Package → Bytes
make_remove_message pkg = codes "REMOVE" ++ (b'|' ∷ (pkg.name ++ (b'|' ∷ [])))

unfoldable pub make_query_message : Package → Bytes
make_query_message pkg = codes "QUERY" ++ (b'|' ∷ (pkg.name ++ (b'|' ∷ [])))

abbrev pub possible_invalid_commands : List Bytes
possible_invalid_commands =
    codes "BLINDEX" ∷ codes "REMOVES" ∷ codes "QUER" ∷ codes "LIZARD" ∷ codes "I" ∷ []

-- The snowman is three bytes.
abbrev pub possible_invalid_chars : List Bytes
possible_invalid_chars = codes "=" ∷ codes "+" ∷ (226 ∷ 152 ∷ 131 ∷ []) ∷ codes " " ∷ []

abbrev pub syntax_error : Option Bytes → Option Bytes
syntax_error none = none
syntax_error (some c) = some (codes "INDEX|emacs" ++ (c ++ codes "elisp"))

abbrev pub command_error : Option Bytes → Option Bytes
command_error none = none
command_error (some c) = some (c ++ codes "|a|b")

-- The length of the list that a message of this kind chooses from.
abbrev pub choices : ℕ → ℕ
choices kind =
    if kind % 2 == 0 then length possible_invalid_chars else length possible_invalid_commands

-- `kind` is `rand.Intn(10)` and `choice` the index into the list.
unfoldable pub make_broken_message : ℕ → ℕ → Option Bytes
make_broken_message kind choice =
    if kind % 2 == 0
    then syntax_error (get_elem? possible_invalid_chars choice)
    else command_error (get_elem? possible_invalid_commands choice)
