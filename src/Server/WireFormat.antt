-- ===== src/Server/WireFormat.antt =====
-- go/src/package-index/server/wire_format.go: the message and its parser.
--
-- A position `i` of the parser's loops is the pair of `seen`, the bytes since the last mark
-- (`b[:i]`, `b[firstPipe+1:i]` or `b[depStart:i]`), and the bytes `b[i:]`. Reading `b[i]` where
-- `b[i:]` is empty is an index out of range, which panics.
pub mod Total
pub mod Grammar
pub mod Reference
use package_index.Base.{
  ℕ, suc, Bool, true, false, Option, none, some, List, [], ◌∷◌, ◌++◌, Bytes, Name, ◌==◌, nat_eq,
  bytes_eq, if◌then◌else◌,
}
use package_index.Base.Sets.{add}
use package_index.Index.{Deps, range}

pub record Message : Type 0 where
  pub command : Bytes
  pub pkg : Name
  pub dependencies : Deps

pub data ParseError : Type 0 where
  must_end_in_newline too_few_pipes comma_in_package pipe_in_package empty_package : ParseError

-- The two results of `parseMessage`, the message filled in so far also beside an error, or a panic.
pub data Parsed : Type 0 where
  returns : Message → Option ParseError → Parsed
  panics : Parsed

abbrev pub no_message : Message
no_message = record { command = []; pkg = []; dependencies = none }

abbrev fails : Message → ParseError → Parsed
fails m e = returns m (some e)

-- `m.Dependencies[dep] = struct{}{}`
abbrev pub depend : Message → Name → Message
depend m dep = record m { dependencies = some (add (range m.dependencies) dep) }

-- The last loop. At a newline or a comma `b[depStart:i]` is a dependency, which may not be empty.
unfoldable pub collect : Message → Bytes → Bytes → Parsed
collect m seen [] = panics
collect m seen (c ∷ rest) =
    let next = collect (depend m seen) [] rest in
    let more = collect m (seen ++ c ∷ []) rest in
    if c == b'\n'
    then (if seen == [] then fails m empty_package else returns (depend m seen) none)
    else if c == b','
    then (if seen == [] then fails m empty_package else next)
    else more

-- What the loop that counts the commas finds up to the newline.
pub data Scan : Type 0 where
  commas : ℕ → Scan
  pipe : Scan
  out_of_range : Scan

unfoldable pub count_commas : ℕ → Bytes → Scan
count_commas n [] = out_of_range
count_commas n (c ∷ rest) =
    if c == b'|'
    then pipe
    else if c == b'\n'
    then commas n
    else count_commas (if c == b',' then suc n else n) rest

-- The count is only the capacity of the new map.
unfoldable pub after_scan : Message → Bytes → Scan → Parsed
after_scan m rest (commas n) = collect (record m { dependencies = some [] }) [] rest
after_scan m rest pipe = fails m pipe_in_package
after_scan m rest out_of_range = panics

-- From the byte behind the second pipe.
unfoldable pub scan_dependencies : Message → Bytes → Parsed
scan_dependencies m [] = panics
scan_dependencies m (c ∷ rest) =
    if c == b'\n' then returns m none else after_scan m (c ∷ rest) (count_commas 0 (c ∷ rest))

unfoldable pub scan_package : Message → Bytes → Bytes → Parsed
scan_package m seen [] = panics
scan_package m seen (c ∷ rest) =
    if c == b'\n'
    then fails m too_few_pipes
    else if c == b','
    then fails m comma_in_package
    else if c == b'|'
    then (if seen == []
        then fails m empty_package
        else scan_dependencies (record m { pkg = seen }) rest)
    else scan_package m (seen ++ c ∷ []) rest

unfoldable pub scan_command : Bytes → Bytes → Parsed
scan_command seen [] = panics
scan_command seen (c ∷ rest) =
    if c == b'\n'
    then fails no_message too_few_pipes
    else if c == b'|'
    then scan_package (record no_message { command = seen }) [] rest
    else scan_command (seen ++ c ∷ []) rest

-- `b[len(b)-1] == '\n'`
unfoldable pub ends_in_newline : Bytes → Bool
ends_in_newline [] = false
ends_in_newline (c ∷ []) = c == b'\n'
ends_in_newline (c ∷ d ∷ rest) = ends_in_newline (d ∷ rest)

unfoldable pub parse_message : Bytes → Parsed
parse_message b =
    if ends_in_newline b then scan_command [] b else fails no_message must_end_in_newline
