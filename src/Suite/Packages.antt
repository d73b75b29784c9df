-- ===== src/Suite/Packages.antt =====
-- go/src/test-suite/packages.go: the registry of all packages and the parser of the data file.
--
-- A `*Package` is its position in `AllPackages.Packages`: only `Named` makes packages, it appends them
-- to that slice, and nothing takes one out. The regular expression of a valid line is a parameter, the
-- test `matches`.
pub mod Lookup
pub mod Registry
use package_index.Base.Text.{codes, split}
use package_index.Base.{
  ℕ, zero, suc, Bool, true, false, Option, none, some, List, [], ◌∷◌, ◌++◌, map, length, Bytes,
  Name, ◌==◌, nat_eq, bytes_eq, ◌&&◌, if◌then◌else◌,
}

pub record Package : Type 0 where
  pub name : Name
  pub dependencies : List ℕ

abbrev pub AllPackages : Type 0
AllPackages = List Package

abbrev pub make_unprocessed_package : Name → Package
make_unprocessed_package n = record { name = n; dependencies = [] }

unfoldable pub names : AllPackages → List Name
names [] = []
names (p ∷ ps) = p.name ∷ names ps

-- The loop of `Named`, from position `i`: the last package of that name.
unfoldable pub last_named : Name → ℕ → AllPackages → Option ℕ → Option ℕ
last_named n i [] found = found
last_named n i (p ∷ ps) found = last_named n (suc i) ps (if p.name == n then some i else found)

unfoldable pub found_or_new : AllPackages → Name → Option ℕ → AllPackages × ℕ
found_or_new all n (some i) = (all, i)
found_or_new all n none = (all ++ make_unprocessed_package n ∷ [], length all)

unfoldable pub named : AllPackages → Name → AllPackages × ℕ
named all n = found_or_new all n (last_named n 0 all none)

-- `pkg.AddDependency(to)` through the pointer `pkg`.
unfoldable pub add_dependency : AllPackages → ℕ → ℕ → AllPackages
add_dependency [] pkg to = []
add_dependency (p ∷ ps) zero to = record p { dependencies = p.dependencies ++ to ∷ [] } ∷ ps
add_dependency (p ∷ ps) (suc i) to = p ∷ add_dependency ps i to

-- The loop of `TokensToPackage`.
unfoldable pub add_dependencies : AllPackages → ℕ → List Name → AllPackages
add_dependencies all pkg [] = all
add_dependencies all pkg (d ∷ ds) =
    let (all', to) = named all d in add_dependencies (add_dependency all' pkg to) pkg ds

-- The registry as it is left, and the package, or none beside an error.
unfoldable pub tokens_to_package : AllPackages → List Name → AllPackages × Option ℕ
tokens_to_package all [] = (all, none)
tokens_to_package all (t ∷ ds) =
    let (all', pkg) = named all t in (add_dependencies all' pkg ds, some pkg)

-- `strings.Trim` and `strings.TrimRight` with one byte.
unfoldable pub trim_left : ℕ → Bytes → Bytes
trim_left c [] = []
trim_left c (x ∷ xs) = let rest = trim_left c xs in if x == c then rest else x ∷ xs

unfoldable pub keep_unless : ℕ → ℕ → Bytes → Bytes
keep_unless c x [] = if x == c then [] else x ∷ []
keep_unless c x (y ∷ ys) = x ∷ y ∷ ys

unfoldable pub trim_right : ℕ → Bytes → Bytes
trim_right c [] = []
trim_right c (x ∷ xs) = keep_unless c x (trim_right c xs)

-- `strings.Replace(s, "  ", " ", -1)`, which goes from left to right over pairs that do not overlap.
unfoldable pub halve_spaces : Bytes → Bytes
halve_spaces [] = []
halve_spaces (x ∷ []) = x ∷ []
halve_spaces (x ∷ y ∷ rest) =
    let pair = b' ' ∷ halve_spaces rest in
    let single = x ∷ halve_spaces (y ∷ rest) in if (x == b' ') && (y == b' ') then pair else single

abbrev trimmed_first : Name × List Name → List Name
trimmed_first (t, ts) = trim_right b':' t ∷ ts

-- No tokens is an error.
unfoldable pub tokenise_line : (Bytes → Bool) → Bytes → Option (List Name)
tokenise_line matches line =
    if matches line
    then some (trimmed_first (split b' ' [] (halve_spaces (trim_right b' ' (trim_left b' ' line)))))
    else none

abbrev is_found : Option ℕ → Bool
is_found none = false
is_found (some i) = true

-- Whether the loop over the lines goes on; none are the tokens of an invalid line.
unfoldable pub with_tokens : AllPackages → Option (List Name) → AllPackages × Bool
with_tokens all none = (all, false)
with_tokens all (some tokens) =
    let (all', pkg) = tokens_to_package all tokens in (all', is_found pkg)

module _ (matches : Bytes → Bool) where
  -- The loop of `TextToPackages`: the registry as it is left, and whether there is no error.
  unfoldable pub add_lines : AllPackages → List Bytes → AllPackages × Bool
  add_lines all [] = (all, true)
  add_lines all (l ∷ ls) =
      let skipped = add_lines all ls in
      let (all', fine) = with_tokens all (tokenise_line matches l) in
      let more = add_lines all' ls in
      if l == [] then skipped else if fine then more else (all', false)

  unfoldable pub text_to_packages : AllPackages → Bytes → AllPackages × Bool
  text_to_packages all text = let (l, ls) = split b'\n' [] text in add_lines all (l ∷ ls)

  -- What the generated table has of the data file, if it has it.
  abbrev pub with_asset : AllPackages → Option Bytes → AllPackages × Bool
  with_asset all none = (all, false)
  with_asset all (some text) = text_to_packages all text

  unfoldable pub brew_to_packages : (Bytes → Option Bytes) → AllPackages → AllPackages × Bool
  brew_to_packages asset all = with_asset all (asset (codes "data/brew-dependencies.txt"))
