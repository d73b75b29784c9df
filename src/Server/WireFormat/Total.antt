-- ===== src/Server/WireFormat/Total.antt =====
-- The parser reads no byte out of range, whatever bytes it is given.
use package_index.Base.{
  ℕ, true, false, [], ◌∷◌, ◌++◌, ◌≡◌, ◌≢◌, refl, Bytes, arith, ◌==◌, nat_eq, bytes_eq,
  if◌then◌else◌, suc,
}
use package_index.Server.WireFormat.{
  Message, panics, collect, Scan, commas, pipe, out_of_range, count_commas, after_scan,
  scan_dependencies, scan_package, scan_command, ends_in_newline, parse_message, depend, no_message,
}

ends-tail :
    (c : ℕ) (rest : Bytes)
    → ends_in_newline (c ∷ rest) ≡ true
    → (c == b'\n') ≡ false
    → ends_in_newline rest ≡ true
unfolding ends_in_newline
ends-tail c [] e n = cc
ends-tail c (d ∷ rest) e n = e

collect-ne-panics :
    (m : Message) (seen b : Bytes) → ends_in_newline b ≡ true → collect m seen b ≢ panics
unfolding collect ends_in_newline
collect-ne-panics m seen [] e = cc
collect-ne-panics m seen (c ∷ rest) e =
    let tail = ends-tail c rest e in
    ground (
      arith,
      tail,
      collect-ne-panics m (seen ++ c ∷ []) rest,
      collect-ne-panics (depend m seen) [] rest,
    )

count_commas-in_range :
    (n : ℕ) (b : Bytes) → ends_in_newline b ≡ true → count_commas n b ≢ out_of_range
unfolding count_commas ends_in_newline
count_commas-in_range n [] e = cc
count_commas-in_range n (c ∷ rest) e =
    ground (arith, ends-tail c rest e, count_commas-in_range (if c == b',' then suc n else n) rest)

after_scan-ne-panics :
    (m : Message) (b : Bytes) (s : Scan)
    → ends_in_newline b ≡ true
    → s ≢ out_of_range
    → after_scan m b s ≢ panics
unfolding after_scan
after_scan-ne-panics m b (commas n) e h = collect-ne-panics _ [] b e
after_scan-ne-panics m b pipe e h = cc
after_scan-ne-panics m b out_of_range e h = absurd (h refl)

scan_dependencies-ne-panics :
    (m : Message) (b : Bytes) → ends_in_newline b ≡ true → scan_dependencies m b ≢ panics
unfolding scan_dependencies ends_in_newline
scan_dependencies-ne-panics m [] e = cc
scan_dependencies-ne-panics m (c ∷ rest) e = ground (
  arith,
  after_scan-ne-panics m (c ∷ rest) (count_commas 0 (c ∷ rest)) e
      (count_commas-in_range 0 (c ∷ rest) e),
)

scan_package-ne-panics :
    (m : Message) (seen b : Bytes) → ends_in_newline b ≡ true → scan_package m seen b ≢ panics
unfolding scan_package ends_in_newline
scan_package-ne-panics m seen [] e = cc
scan_package-ne-panics m seen (c ∷ rest) e = ground (
  arith,
  ends-tail c rest e,
  scan_dependencies-ne-panics (record m { pkg = seen }) rest,
  scan_package-ne-panics m (seen ++ c ∷ []) rest,
)

scan_command-ne-panics : (seen b : Bytes) → ends_in_newline b ≡ true → scan_command seen b ≢ panics
unfolding scan_command ends_in_newline
scan_command-ne-panics seen [] e = cc
scan_command-ne-panics seen (c ∷ rest) e = ground (
  arith,
  ends-tail c rest e,
  scan_package-ne-panics (record no_message { command = seen }) [] rest,
  scan_command-ne-panics (seen ++ c ∷ []) rest,
)

-- `parseMessage` returns on every sequence of bytes: no read is out of range.
pub parse_message-ne-panics : (b : Bytes) → parse_message b ≢ panics
unfolding parse_message
parse_message-ne-panics b = ground (arith, scan_command-ne-panics [] b)
