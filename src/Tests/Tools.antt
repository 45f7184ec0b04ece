-- ===== src/Tests/Tools.antt =====
-- Versions as the tools print them.
use rust_playground.Base.{codes, ◌≡◌, refl, List, [], ◌∷◌, ◌++◌, Text, arith}
use rust_playground.Versions.{parse_rustc_version_verbose, parse_tool_version, no_version, trim}
use rust_playground.Versions.Printed.{
  IsPrintable, print_fields, version_of, parse_rustc_version_verbose-print,
}

abbrev release_field : Text × Text
release_field = (codes "release", codes "1.91.0")

abbrev hash_field : Text × Text
hash_field = (codes "commit-hash", codes "f8297e351")

abbrev printed_fields : List (Text × Text)
printed_fields = hash_field ∷ release_field ∷ []

release_field-IsPrintable : IsPrintable release_field
unfolding trim
release_field-IsPrintable = record {
  key_line = omega arith;
  key_cr = omega arith;
  key_colon = omega arith;
  key_trimmed = refl;
  value_line = omega arith;
  value_cr = omega arith;
  value_trimmed = refl;
}

hash_field-IsPrintable : IsPrintable hash_field
unfolding trim
hash_field-IsPrintable = record {
  key_line = omega arith;
  key_cr = omega arith;
  key_colon = omega arith;
  key_trimmed = refl;
  value_line = omega arith;
  value_cr = omega arith;
  value_trimmed = refl;
}

parse_rustc_version_verbose-print_example :
    parse_rustc_version_verbose (codes "rustc 1.91.0" ++ b'\n' ∷ print_fields printed_fields)
    ≡ version_of no_version printed_fields
parse_rustc_version_verbose-print_example =
    parse_rustc_version_verbose-print (codes "rustc 1.91.0") printed_fields (omega arith)
      (hash_field-IsPrintable, (release_field-IsPrintable, tt))

reads_tool : parse_tool_version (codes "clippy 0.1.91 (f8297e351a 2025-10-28)") ≡ record {
  release = codes "0.1.91";
  commit_hash = codes "f8297e351a";
  commit_date = codes "2025-10-28";
}
unfolding parse_tool_version
reads_tool = refl
