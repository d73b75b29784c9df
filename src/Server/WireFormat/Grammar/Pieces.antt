-- ===== src/Server/WireFormat/Grammar/Pieces.antt =====
-- What a message line is made of, said with no reference to the parser.
use package_index.Base.{
  ℕ, false, none, some, List, [], ◌∷◌, ◌++◌, ◌≡◌, ◌≢◌, Bytes, Name, ◌==◌, nat_eq, bytes_eq, ◌||◌,
  All,
}
use package_index.Base.Sets.{add}
use package_index.Base.Text.{join}
use package_index.Index.{Deps}
use package_index.Server.WireFormat.{Message}

abbrev pub InCommand : ℕ → Type 0
InCommand c = (c == b'\n' || c == b'|') ≡ false

abbrev pub InName : ℕ → Type 0
InName c = (c == b'\n' || c == b',' || c == b'|') ≡ false

-- A package name that the format can carry.
abbrev pub IsName : Name → Type 0
IsName n = (n ≢ []) × All InName n

abbrev pub add_all : List Name → List Name → List Name
add_all s [] = s
add_all s (d ∷ ds) = add_all (add s d) ds

-- The set that a list of dependencies names; no list is the nil map.
abbrev pub deps_of : List Name → Deps
deps_of [] = none
deps_of (d ∷ ds) = some (add_all [] (d ∷ ds))

-- `b` begins with a line `command|package|dependencies` that says `m`, and ends in a newline.
pub record IsMessage (b : Bytes) (m : Message) : Type 0 where
  pub deps : List Name
  pub rest : Bytes
  pub in_command : All InCommand m.command
  pub pkg_name : IsName m.pkg
  pub dep_names : All IsName deps
  pub line : b ≡ m.command ++ (b'|' ∷ (m.pkg ++ (b'|' ∷ (join deps ++ (b'\n' ∷ rest)))))
  pub says : m.dependencies ≡ deps_of deps
