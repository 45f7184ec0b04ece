-- ===== src/Tests/Assembling.antt =====
-- The cleanup of a small block of assembly.
use rust_playground.Base.{
  ◌≡◌, refl, String, false, Option, none, some, List, [], ◌∷◌, str_eq, if◌then◌else◌,
}
use rust_playground.Assembly.{
  Patterns, scan, scan_line, line_type, nothing_found, Search, used_labels, is_kept, filter_asm,
  push_lines, directly_used, data_labels,
}
use rust_playground.Assembly.Filtered.{Filtered}

abbrev lines : List String
lines = "f:" ∷ " call f" ∷ " .quad g" ∷ "g:" ∷ "h:" ∷ []

abbrev declared : String → Option String
declared line =
    if str_eq line "f:"
    then some "f"
    else if str_eq line "g:"
    then some "g"
    else if str_eq line "h:"
    then some "h"
    else none

abbrev patterns : Patterns
patterns = record {
  opcode_regex = λ line. str_eq line " call f";
  label_decl_regex = declared;
  label_ref_regex = λ line. if str_eq line " call f" then "call" ∷ "f" ∷ [] else "quad" ∷ "g" ∷ [];
  data_regex = λ line. str_eq line " .quad g";
  function_regex = λ line. none;
  directive_regex = λ line. false;
  blank_regex = λ line. false;
}

abbrev one_edge : List (String × String)
one_edge = ("f", "g") ∷ []

abbrev dfs : Search
dfs es a = if str_eq a "f" then "f" ∷ "g" ∷ [] else a ∷ []

filters : filter_asm patterns dfs lines ≡ "\nf:\n call f\n .quad g\n\ng:\n"
unfolding filter_asm scan scan_line line_type nothing_found used_labels push_lines is_kept
    directly_used data_labels
filters = refl
