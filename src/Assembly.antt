-- ===== src/Assembly.antt =====
-- The removal of unused labels and directives from assembly (`filter_asm` of
-- compiler/base/asm-cleanup/src/lib.rs). A block stands as its lines. The regular expressions are a
-- parameter, by what they match, and so is petgraph's depth-first search: from a graph, as its
-- edges, and a label, the labels that `Dfs` visits. The two hash sets are lists.
pub mod Used
pub mod Filtered
use Prim.Native.String.{◌++◌ as str_append}
use rust_playground.Base.{
  String, Bool, true, false, not, Option, none, some, List, [], ◌∷◌, ◌++◌, map, any, keep, str_eq,
  ◌&&◌, ◌||◌, if◌then◌else◌,
}

pub record Patterns : Type 0 where
  pub opcode_regex : String → Bool
  pub label_decl_regex : String → Option String
  pub label_ref_regex : String → List String
  pub data_regex : String → Bool
  pub function_regex : String → Option String
  pub directive_regex : String → Bool
  pub blank_regex : String → Bool

-- `FunctionDecl` has its name as well, which the source adds to the operands at once.
pub data LineType : Type 0 where
  opcode : LineType
  label_decl : String → LineType
  data_of : String → LineType
  function_decl : String → LineType
  directive blank misc : LineType

abbrev pub has : String → List String → Bool
has l ls = any (λ k. str_eq k l) ls

-- What the first loop has found.
pub record Scan : Type 0 where
  pub current_label : String
  pub line_info : List LineType
  pub labels : List String
  pub opcode_operands : List String
  pub label_graph : List (String × String)

-- `captures_iter(line).skip(1)`
abbrev pub skip_one : List String → List String
skip_one [] = []
skip_one (r ∷ rs) = rs

abbrev other_line : Patterns → String → Option String → LineType
other_line p line (some f) = function_decl f
other_line p line none =
    if p.directive_regex line then directive else if p.blank_regex line then blank else misc

abbrev labelled_line : Patterns → String → String → Option String → LineType
labelled_line p current line (some l) = label_decl l
labelled_line p current line none =
    if p.data_regex line && not (str_eq current "")
    then data_of current
    else other_line p line (p.function_regex line)

unfoldable pub line_type : Patterns → String → String → LineType
line_type p current line =
    if p.opcode_regex line then opcode else labelled_line p current line (p.label_decl_regex line)

abbrev pub note_line : Patterns → String → Scan → LineType → Scan
note_line p line s opcode = record s {
  opcode_operands = s.opcode_operands ++ skip_one (p.label_ref_regex line);
}
note_line p line s (label_decl l) = record s { labels = s.labels ++ (l ∷ []); current_label = l }
note_line p line s (data_of l) = record s {
  label_graph = s.label_graph ++ map (λ r. (l, r)) (skip_one (p.label_ref_regex line));
}
note_line p line s (function_decl f) = record s { opcode_operands = s.opcode_operands ++ (f ∷ []) }
note_line p line s _ = s

unfoldable pub scan_line : Patterns → Scan → String → Scan
unfolding line_type
scan_line p s line =
    let t = line_type p s.current_label line in
    let n = note_line p line s t in record n { line_info = s.line_info ++ (t ∷ []) }

unfoldable pub scan : Patterns → Scan → List String → Scan
unfolding scan_line
scan p s [] = s
scan p s (line ∷ lines) = scan p (scan_line p s line) lines

unfoldable pub nothing_found : Scan
nothing_found = record {
  current_label = "";
  line_info = [];
  labels = [];
  opcode_operands = [];
  label_graph = [];
}

abbrev pub Search : Type 0
Search = List (String × String) → String → List String

-- `labels.intersection(&opcode_operands)`
unfoldable pub directly_used : Scan → List String
directly_used s = keep (λ l. has l s.opcode_operands) s.labels

abbrev pub contains_node : List (String × String) → String → Bool
contains_node es l = any (λ e. str_eq e.0 l || str_eq e.1 l) es

unfoldable pub data_labels : Search → List (String × String) → List String → List String
data_labels dfs es [] = []
data_labels dfs es (l ∷ ls) = (if contains_node es l then dfs es l else []) ++ data_labels dfs es ls

unfoldable pub used_labels : Search → Scan → List String
unfolding directly_used data_labels
used_labels dfs s = directly_used s ++ data_labels dfs s.label_graph (directly_used s)

-- The guards of the second loop.
unfoldable pub is_kept : List String → LineType → Bool
is_kept used opcode = true
is_kept used misc = true
is_kept used (data_of l) = has l used
is_kept used (label_decl l) = has l used
is_kept used _ = false

abbrev pub before_line : LineType → String
before_line (label_decl l) = "\n"
before_line _ = ""

unfoldable pub push_lines : List String → List String → List LineType → String
unfolding is_kept
push_lines used [] ts = ""
push_lines used (line ∷ lines) [] = ""
push_lines used (line ∷ lines) (t ∷ ts) =
    let rest = push_lines used lines ts in
    if is_kept used t
    then str_append (before_line t) (str_append line (str_append "\n" rest))
    else rest

unfoldable pub filter_asm : Patterns → Search → List String → String
unfolding scan nothing_found used_labels push_lines
filter_asm p dfs lines =
    let s = scan p nothing_found lines in push_lines (used_labels dfs s) lines s.line_info
