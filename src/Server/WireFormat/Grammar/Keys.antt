-- ===== src/Server/WireFormat/Grammar/Keys.antt =====
-- The keys of a message's set of dependencies.
use package_index.Base.{none, List, [], ◌∷◌, ◌≡◌, sym, subst, Bytes, Name, bytes_eq}
use package_index.Base.Sets.{Distinct, add, add-Distinct}
use package_index.Index.{Deps, range}
use package_index.Server.WireFormat.{Message, returns, parse_message}
use package_index.Server.WireFormat.Grammar.Pieces.{add_all, deps_of}
use package_index.Server.WireFormat.Grammar.Sound.{parse_message-IsMessage}

add_all-Distinct : (s ds : List Name) → Distinct s → Distinct (add_all s ds)
add_all-Distinct s [] h = h
add_all-Distinct s (d ∷ ds) h = add_all-Distinct (add s d) ds (add-Distinct s d h)

pub deps_of-Distinct : (ds : List Name) → Distinct (range (deps_of ds))
deps_of-Distinct [] = tt
deps_of-Distinct (d ∷ ds) = add_all-Distinct [] (d ∷ ds) tt

-- The set of a message that the parser returns without an error has no key twice.
pub parse_message-Distinct :
    (b : Bytes) (m : Message) → parse_message b ≡ returns m none → Distinct (range m.dependencies)
parse_message-Distinct b m e =
    let g = ((parse_message-IsMessage b m).0 e).1 in
    subst (λ (d : Deps). Distinct (range d)) (sym g.says) (deps_of-Distinct g.deps)
