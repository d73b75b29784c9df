-- ===== src/Server/WireFormat/Reference.antt =====
-- A parser that cuts a line at its separators, part by part, where the server's makes one pass with
-- positions. It says what each malformed line is told.
pub mod Agrees
use package_index.Base.{
  ℕ, Bool, true, false, ◌||◌, none, some, List, [], ◌∷◌, Bytes, Name, ◌==◌, nat_eq, bytes_eq,
  if◌then◌else◌,
}
use package_index.Base.Sets.{contains}
use package_index.Base.Text.{split}
use package_index.Server.WireFormat.{
  Message, Parsed, returns, must_end_in_newline, too_few_pipes, comma_in_package, pipe_in_package,
  empty_package, no_message, depend, ends_in_newline, parse_message,
}

-- What stands before the first byte that passes the test, and the rest from that byte on.
unfoldable pub cut : (ℕ → Bool) → Bytes → Bytes × Bytes
cut stops [] = ([], [])
cut stops (c ∷ b) =
    let (before, rest) = cut stops b in if stops c then ([], c ∷ b) else (c ∷ before, rest)

-- The names up to the first that is empty are in the set also beside the error.
unfoldable pub add_names : Message → Name × List Name → Parsed
add_names m (d, []) = if d == [] then returns m (some empty_package) else returns (depend m d) none
add_names m (d, e ∷ ds) =
    let next = add_names (depend m d) (e, ds) in
    if d == [] then returns m (some empty_package) else next

unfoldable pub after_second_pipe : Message → Bytes → Parsed
after_second_pipe m [] = returns m none
after_second_pipe m (c ∷ b) =
    if contains (c ∷ b) b'|'
    then returns m (some pipe_in_package)
    else add_names (record m { dependencies = some [] }) (split b',' [] (c ∷ b))

-- A package's name, and the line from the byte behind it.
unfoldable pub after_package : Message → Name × Bytes → Parsed
after_package m (pkg, []) = returns m (some too_few_pipes)
after_package m (pkg, c ∷ b) =
    if c == b','
    then returns m (some comma_in_package)
    else if pkg == []
    then returns m (some empty_package)
    else after_second_pipe (record m { pkg = pkg }) b

abbrev pub ends_package : ℕ → Bool
ends_package c = c == b',' || c == b'|'

unfoldable pub after_command : Bytes × Bytes → Parsed
after_command (command, []) = returns no_message (some too_few_pipes)
after_command (command, c ∷ b) =
    after_package (record no_message { command = command }) (cut ends_package b)

unfoldable pub parse_line : Bytes → Parsed
parse_line line = after_command (cut (λ c. c == b'|') line)

-- Only the first line counts.
unfoldable pub parse_by_parts : Bytes → Parsed
parse_by_parts b =
    if ends_in_newline b
    then parse_line (cut (λ c. c == b'\n') b).0
    else returns no_message (some must_end_in_newline)
