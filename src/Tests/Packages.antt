-- ===== src/Tests/Packages.antt =====
-- go/src/test-suite/packages_test.go and wire_format_test.go, and the theorems on packages and their
-- messages at an input.
use package_index.Base.{
  ℕ, ◌<◌, ◌-◌, ◌^◌, Bool, true, false, none, some, List, [], ◌∷◌, ◌++◌, ◌≡◌, ◌↔◌, refl, arith,
  Bytes, ◌==◌, bytes_eq, bytes_beq, nat_eq, if◌then◌else◌, Name,
}
use package_index.Base.Text.{codes, join, split}
use package_index.Base.Int64.{is_pos}
use package_index.Server.WireFormat.{returns, parse_message}
use package_index.Server.WireFormat.Grammar.{deps_of}
use package_index.Suite.Segments.{
  slice, last_segment, segments, int_div, with_size, segment_list_packages, IsPartition,
  segment_list_packages-IsPartition, segment_list_packages-panics,
}
use package_index.Suite.Packages.{
  Package, AllPackages, names, last_named, found_or_new, named, add_dependency, add_dependencies,
  tokens_to_package, trim_left, keep_unless, trim_right, halve_spaces, tokenise_line, with_tokens,
  add_lines, text_to_packages, brew_to_packages,
}
use package_index.Suite.Packages.Registry.{IsRegistry, text_to_packages-IsRegistry}
use package_index.Suite.WireFormat.{
  get_elem?, names_at, make_index_message, make_remove_message, make_query_message,
  make_broken_message,
}
use package_index.Suite.WireFormat.Answers.{
  make_index_message-parse, make_remove_message-parse, make_broken_message-IsRejected, IsRejected,
}

-- A test for a colon in the line stands for the regular expression.
abbrev has_colon : Bytes → Bool
has_colon [] = false
has_colon (c ∷ cs) = if c == b':' then true else has_colon cs

test_named : (named (named [] (codes "pkg-a")).0 (codes "pkg-a")).1 ≡ (named [] (codes "pkg-a")).1
unfolding named found_or_new last_named bytes_beq
test_named = refl

test_tokenise_line :
    (tokenise_line has_colon (codes "a:") ≡ some (codes "a" ∷ []))
    × (tokenise_line has_colon (codes "abcde:  autoconf  automake  cd-discid ")
        ≡ some (codes "abcde" ∷ codes "autoconf" ∷ codes "automake" ∷ codes "cd-discid" ∷ []))
    × (tokenise_line has_colon (codes "missing tokens") ≡ none)
unfolding tokenise_line trim_left trim_right keep_unless halve_spaces split
test_tokenise_line = (refl, refl, refl)

abbrev text : Bytes
text = codes "a: b c\nb: c d e\nc: d\nd:\ne: a\n"

abbrev five : AllPackages
five =
    record { name = codes "a"; dependencies = 1 ∷ 2 ∷ [] }
    ∷ record { name = codes "b"; dependencies = 2 ∷ 3 ∷ 4 ∷ [] }
    ∷ record { name = codes "c"; dependencies = 3 ∷ [] }
    ∷ record { name = codes "d"; dependencies = [] }
    ∷ record { name = codes "e"; dependencies = 0 ∷ [] }
    ∷ []

test_text_to_packages : text_to_packages has_colon [] text ≡ (five, true)
unfolding text_to_packages add_lines with_tokens tokens_to_package add_dependencies add_dependency
    named found_or_new last_named tokenise_line trim_left trim_right keep_unless halve_spaces split
    bytes_beq
test_text_to_packages = refl

-- A table with one line in its file, and one that lacks it.
test_brew_to_packages :
    (brew_to_packages has_colon (λ file. some (codes "a:")) []
      ≡ (record { name = codes "a"; dependencies = [] } ∷ [], true))
    × (brew_to_packages has_colon (λ file. none) [] ≡ ([], false))
unfolding brew_to_packages text_to_packages add_lines with_tokens tokens_to_package add_dependencies
    add_dependency named found_or_new last_named tokenise_line trim_left trim_right keep_unless
    halve_spaces split bytes_beq
test_brew_to_packages = (refl, refl)

test_broken_text : (text_to_packages has_colon [] (codes "a: b\nc d\ne: f")).1 ≡ false
unfolding text_to_packages add_lines with_tokens tokens_to_package add_dependencies add_dependency
    named found_or_new last_named tokenise_line trim_left trim_right keep_unless halve_spaces split
    bytes_beq
test_broken_text = refl

-- At most 3 and at most 10 segments of five packages; for 0 and -1 all of them in one.
test_segments :
    (segment_list_packages {A = ℕ} (1 ∷ 2 ∷ 3 ∷ 4 ∷ 5 ∷ []) 3
      ≡ some ((1 ∷ []) ∷ (2 ∷ []) ∷ (3 ∷ 4 ∷ 5 ∷ []) ∷ []))
    × (segment_list_packages {A = ℕ} (1 ∷ 2 ∷ []) 10 ≡ some ((1 ∷ []) ∷ (2 ∷ []) ∷ []))
    × (segment_list_packages {A = ℕ} (1 ∷ 2 ∷ []) 0 ≡ some ((1 ∷ 2 ∷ []) ∷ []))
    × (segment_list_packages {A = ℕ} (1 ∷ 2 ∷ []) (2 ^ 64 - 1) ≡ some ((1 ∷ 2 ∷ []) ∷ []))
unfolding segment_list_packages with_size int_div segments last_segment slice is_pos
test_segments = (refl, refl, refl, refl)

test_messages :
    (make_index_message five (record { name = codes "b"; dependencies = 2 ∷ 3 ∷ 4 ∷ [] })
      ≡ some (codes "INDEX|b|c,d,e"))
    × (make_broken_message 4 0 ≡ some (codes "INDEX|emacs=elisp"))
unfolding make_index_message make_broken_message names_at get_elem? join
test_messages = (refl, refl)

segment_list_packages-IsPartition_example :
    (ss : List (List ℕ)) × (segment_list_packages (1 ∷ 2 ∷ 3 ∷ []) 2 ≡ some ss)
    × IsPartition (1 ∷ 2 ∷ 3 ∷ []) 2 1 ss
    × (0 < 1)
segment_list_packages-IsPartition_example =
    segment_list_packages-IsPartition (1 ∷ 2 ∷ 3 ∷ []) 2 (omega arith) (omega arith) (omega arith)

segment_list_packages-panics_example :
    (segment_list_packages {A = ℕ} [] 10 ≡ none) ↔ ((is_pos 10 ≡ true) × (◌≡◌ {A = List ℕ} [] []))
segment_list_packages-panics_example = segment_list_packages-panics [] 10

text_to_packages-IsRegistry_example : IsRegistry (text_to_packages has_colon [] text).0
unfolding names
text_to_packages-IsRegistry_example = text_to_packages-IsRegistry has_colon [] text (tt, tt)

abbrev one_letter : ℕ → Package
one_letter c = record { name = c ∷ []; dependencies = [] }

make_index_message-parse_example :
    (ns : List Name) × (msg : Bytes) × (names_at (one_letter b'a' ∷ []) (0 ∷ []) ≡ some ns)
    × (make_index_message
          (one_letter b'a' ∷ [])
          (record { name = codes "b"; dependencies = 0 ∷ [] })
        ≡ some msg)
    × (parse_message (msg ++ b'\n' ∷ [])
        ≡ returns
            (record { command = codes "INDEX"; pkg = codes "b"; dependencies = deps_of ns })
            none)
make_index_message-parse_example =
    make_index_message-parse (one_letter b'a' ∷ [])
      (record { name = codes "b"; dependencies = 0 ∷ [] })
      ((λ e. ground (arith, e), (refl, tt)), tt) (λ e. ground (arith, e), (refl, tt))
      (omega arith, tt)

make_remove_message-parse_example :
    (parse_message (make_remove_message (one_letter b'a') ++ b'\n' ∷ [])
      ≡ returns (record { command = codes "REMOVE"; pkg = codes "a"; dependencies = none }) none)
    × (parse_message (make_query_message (one_letter b'a') ++ b'\n' ∷ [])
        ≡ returns (record { command = codes "QUERY"; pkg = codes "a"; dependencies = none }) none)
make_remove_message-parse_example =
    make_remove_message-parse (one_letter b'a') (λ e. ground (arith, e), (refl, tt))

make_broken_message-IsRejected_example :
    (msg : Bytes) × (make_broken_message 4 2 ≡ some msg) × IsRejected msg
make_broken_message-IsRejected_example = make_broken_message-IsRejected 4 2 (omega arith)
