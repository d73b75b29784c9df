-- ===== src/Tests/Parsing.antt =====
-- go/src/package-index/server/wire_format_test.go, and the theorems on the parser at a line.
use Prim.Native.String.{String}
use package_index.Base.{true, none, some, [], ◌∷◌, ◌≡◌, ◌≢◌, ◌↔◌, refl, Name, bytes_eq, bytes_beq}
use package_index.Base.Text.{codes, split}
use package_index.Base.Sets.{contains, add}
use package_index.Index.{Deps}
use package_index.Server.WireFormat.Total.{parse_message-ne-panics}
use package_index.Server.WireFormat.Grammar.{IsMessage, parse_message-IsMessage}
use package_index.Server.WireFormat.Reference.{
  cut, add_names, after_second_pipe, after_package, after_command, parse_line, parse_by_parts,
}
use package_index.Server.WireFormat.Reference.Agrees.{parse_message-parse_by_parts}
use package_index.Server.WireFormat.{
  Message, must_end_in_newline, too_few_pipes, comma_in_package, pipe_in_package, empty_package,
  returns, panics, no_message, collect, count_commas, after_scan, scan_dependencies, scan_package,
  scan_command, ends_in_newline, parse_message,
}

abbrev message : String → String → Deps → Message
message c p ds = record { command = codes c; pkg = codes p; dependencies = ds }

abbrev a : Name
a = codes "C"

-- The errors, with what is filled in beside them.
test_errors :
    (parse_message [] ≡ returns no_message (some must_end_in_newline))
    × (parse_message (codes "|\n") ≡ returns no_message (some too_few_pipes))
    × (parse_message (codes "|||\n") ≡ returns no_message (some empty_package))
    × (parse_message (codes "A||\n") ≡ returns (message "A" "" none) (some empty_package))
    × (parse_message (codes "A|B|,\n") ≡ returns (message "A" "B" (some [])) (some empty_package))
    × (parse_message (codes "A|B,|\n") ≡ returns (message "A" "" none) (some comma_in_package))
    × (parse_message (codes "A|B|C,\n")
        ≡ returns (message "A" "B" (some (a ∷ []))) (some empty_package))
    × (parse_message (codes "A|B|C|\n") ≡ returns (message "A" "B" none) (some pipe_in_package))
unfolding parse_message ends_in_newline scan_command scan_package scan_dependencies after_scan
    count_commas collect add contains bytes_beq
test_errors = (refl, refl, refl, refl, refl, refl, refl, refl)

test_messages :
    (parse_message (codes "|A|\n") ≡ returns (message "" "A" none) none)
    × (parse_message (codes "A|B|C,C\n") ≡ returns (message "A" "B" (some (a ∷ []))) none)
    × (parse_message (codes "A,B|C|D,E\n")
        ≡ returns (message "A,B" "C" (some (codes "D" ∷ codes "E" ∷ []))) none)
unfolding parse_message ends_in_newline scan_command scan_package scan_dependencies after_scan
    count_commas collect add contains bytes_beq
test_messages = (refl, refl, refl)

parse_message-ne-panics_example : parse_message (codes "INDEX|a") ≢ panics
parse_message-ne-panics_example = parse_message-ne-panics (codes "INDEX|a")

parse_message-IsMessage_example :
    (parse_message (codes "A|B|C,C\n") ≡ returns (message "A" "B" (some (a ∷ []))) none) ↔ (
      (ends_in_newline (codes "A|B|C,C\n") ≡ true)
      × IsMessage (codes "A|B|C,C\n") (message "A" "B" (some (a ∷ []))))
parse_message-IsMessage_example =
    parse_message-IsMessage (codes "A|B|C,C\n") (message "A" "B" (some (a ∷ [])))

parse_message-parse_by_parts_example :
    parse_message (codes "A|B|C,,D\n") ≡ parse_by_parts (codes "A|B|C,,D\n")
parse_message-parse_by_parts_example = parse_message-parse_by_parts (codes "A|B|C,,D\n")

-- The parser by parts, at a message and at an error with what is filled in beside it.
test_by_parts :
    (parse_by_parts (codes "A|B|C,C\n") ≡ returns (message "A" "B" (some (a ∷ []))) none)
    × (parse_by_parts (codes "A|B|C,\n")
        ≡ returns (message "A" "B" (some (a ∷ []))) (some empty_package))
unfolding parse_by_parts ends_in_newline parse_line after_command after_package after_second_pipe
    add_names cut split add contains bytes_beq
test_by_parts = (refl, refl)
