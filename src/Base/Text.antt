-- ===== src/Base/Text.antt =====
-- The functions of Go's package strings that the program calls, on bytes.
use Prim.Native.Char.{code}
use Prim.Native.String.{String}
use Prim.Native.Nat.{ℕ}
use mathlib.Core.List.{List, [], ◌∷◌, ◌++◌}
use package_index.Base.Lists.{Bytes}
use package_index.Base.Tests.{◌==◌, nat_eq, if◌then◌else◌}

-- The bytes of an ASCII text.
abbrev pub codes : String → Bytes
codes String.[] = []
codes (String.◌∷◌ c s) = code c ∷ codes s

-- `strings.Join` with a separator of one byte.
unfoldable pub join : List Bytes → Bytes
join [] = []
join (x ∷ []) = x
join (x ∷ y ∷ xs) = x ++ b',' ∷ join (y ∷ xs)

-- `strings.Split` at one byte: the first part and the later ones, with `seen` in front.
unfoldable pub split : ℕ → Bytes → Bytes → Bytes × List Bytes
split c seen [] = (seen, [])
split c seen (x ∷ xs) =
    let (part, parts) = split c [] xs in
    let longer = split c (seen ++ x ∷ []) xs in if x == c then (seen, part ∷ parts) else longer
