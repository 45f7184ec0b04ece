-- ===== src/Versions.antt =====
-- The versions of the tools: `Version` of compiler/base/orchestrator/src/coordinator.rs, on texts
-- as lists of characters, with the functions of `str` that it uses.
pub mod Printed
use rust_playground.Base.{
  Text, codes, text_eq, ℕ, ◌==◌, leb, Bool, true, false, ◌&&◌, ◌||◌, Option, none, some, List, [],
  ◌∷◌, ◌++◌, if◌then◌else◌, drop, get_or, any,
}

pub record Version : Type 0 where
  pub release : Text
  pub commit_hash : Text
  pub commit_date : Text

-- `char::is_whitespace`
abbrev pub is_whitespace : ℕ → Bool
is_whitespace c =
    (leb 9 c && leb c 13)
    || (leb 8192 c && leb c 8202)
    || any (λ d. c == d) (32 ∷ 133 ∷ 160 ∷ 5760 ∷ 8232 ∷ 8233 ∷ 8239 ∷ 8287 ∷ 12288 ∷ [])

unfoldable pub trim_start : Text → Text
trim_start [] = []
trim_start (c ∷ s) = let rest = trim_start s in if is_whitespace c then rest else c ∷ s

abbrev trimmed_from : Bool → ℕ → Text → Text
trimmed_from true c [] = []
trimmed_from true c (d ∷ s) = c ∷ d ∷ s
trimmed_from false c s = c ∷ s

unfoldable pub trim_end : Text → Text
trim_end [] = []
trim_end (c ∷ s) = trimmed_from (is_whitespace c) c (trim_end s)

unfoldable pub trim : Text → Text
unfolding trim_start trim_end
trim s = trim_end (trim_start s)

-- A line without the carriage return at its end.
unfoldable pub strip_cr : Text → Text
strip_cr [] = []
strip_cr (c ∷ []) = if c == 13 then [] else c ∷ []
strip_cr (c ∷ d ∷ s) = c ∷ strip_cr (d ∷ s)

-- The last line counts if it has characters.
abbrev last_line : Text → List Text
last_line [] = []
last_line (c ∷ s) = (c ∷ s) ∷ []

-- `str::lines`, with what was read of the present line.
unfoldable pub lines_from : Text → Text → List Text
unfolding strip_cr
lines_from line [] = last_line line
lines_from line (c ∷ s) =
    let next = lines_from [] s in
    let more = lines_from (line ++ c ∷ []) s in if c == b'\n' then strip_cr line ∷ next else more

unfoldable pub lines : Text → List Text
unfolding lines_from
lines s = lines_from [] s

-- `splitn(2, ':')`, when there are two pieces.
abbrev with_first : ℕ → Option (Text × Text) → Option (Text × Text)
with_first c none = none
with_first c (some (a, b)) = some (c ∷ a, b)

unfoldable pub split_colon : Text → Option (Text × Text)
split_colon [] = none
split_colon (c ∷ s) =
    let rest = with_first c (split_colon s) in if c == b':' then some ([], s) else rest

abbrev pub trim_pair : Option (Text × Text) → Option (Text × Text)
trim_pair none = none
trim_pair (some (key, value)) = some (trim key, trim value)

-- The `filter_map` to a key and a value.
unfoldable pub field : Text → Option (Text × Text)
unfolding split_colon trim
field line = trim_pair (split_colon line)

abbrev pub no_version : Version
no_version = record { release = []; commit_hash = []; commit_date = [] }

-- The `match` on the key.
unfoldable pub set_field : Version → Text → Text → Version
set_field v key value =
    if text_eq key (codes "release")
    then record v { release = value }
    else if text_eq key (codes "commit-hash")
    then record v { commit_hash = value }
    else if text_eq key (codes "commit-date")
    then record v { commit_date = value }
    else v

abbrev pub set_found : Version → Option (Text × Text) → Version
set_found v none = v
set_found v (some (key, value)) = set_field v key value

-- `for (k, v) in fields`
unfoldable pub set_fields : Version → List Text → Version
unfolding field
set_fields v [] = v
set_fields v (line ∷ rest) = set_fields (set_found v (field line)) rest

unfoldable pub parse_rustc_version_verbose : Text → Version
unfolding lines set_fields
parse_rustc_version_verbose rustc_version = set_fields no_version (drop 1 (lines rustc_version))

-- `split_whitespace`, with what was read of the present word.
abbrev word : Text → List Text → List Text
word [] rest = rest
word (c ∷ s) rest = (c ∷ s) ∷ rest

unfoldable pub words_from : Text → Text → List Text
words_from w [] = word w []
words_from w (c ∷ s) =
    let next = word w (words_from [] s) in
    let more = words_from (w ++ c ∷ []) s in if is_whitespace c then next else more

unfoldable pub trim_start_matches : ℕ → Text → Text
trim_start_matches d [] = []
trim_start_matches d (c ∷ s) = let rest = trim_start_matches d s in if c == d then rest else c ∷ s

abbrev matched_from : Bool → ℕ → Text → Text
matched_from true c [] = []
matched_from true c (d ∷ s) = c ∷ d ∷ s
matched_from false c s = c ∷ s

unfoldable pub trim_end_matches : ℕ → Text → Text
trim_end_matches d [] = []
trim_end_matches d (c ∷ s) = matched_from (c == d) c (trim_end_matches d s)

-- `parts.next().unwrap_or("")`, at a position.
unfoldable pub parse_tool_version : Text → Version
unfolding words_from trim_start_matches trim_end_matches
parse_tool_version tool_version =
    let parts = drop 1 (words_from [] tool_version) in
    record {
      release = get_or parts 0 [];
      commit_hash = trim_start_matches b'(' (get_or parts 1 []);
      commit_date = trim_end_matches b')' (get_or parts 2 []);
    }
