-- ===== src/Assembly/Filtered.antt =====
-- What `filter_asm` makes of a block of assembly.
use Prim.Native.String.{◌++◌ as str_append}
use rust_playground.Base.{◌≡◌, String, Bool, true, false, List, [], ◌∷◌, ◌++◌, map}
use rust_playground.Assembly.{
  Patterns, LineType, opcode, label_decl, data_of, function_decl, skip_one, line_type, note_line,
  Scan,
}

abbrev gather {ℓ κ} : {A : Type ℓ} {B : Type κ} → (A → List B) → List A → List B
gather f [] = []
gather f (x ∷ xs) = f x ++ gather f xs

-- A line with what it is, given the label that was declared last.
abbrev pub Line : Type 0
Line = String × LineType

abbrev label_after : String → LineType → String
label_after current (label_decl l) = l
label_after current _ = current

abbrev pub typed : Patterns → String → List String → List Line
typed p current [] = []
typed p current (line ∷ lines) =
    let t = line_type p current line in (line, t) ∷ typed p (label_after current t) lines

-- What the lines declare, what they name, and what the data of a label refers to.
abbrev pub declared : Line → List String
declared (line, label_decl l) = l ∷ []
declared (line, _) = []

abbrev pub named : Patterns → Line → List String
named p (line, opcode) = skip_one (p.label_ref_regex line)
named p (line, function_decl f) = f ∷ []
named p (line, _) = []

abbrev pub refers : Patterns → Line → List (String × String)
refers p (line, data_of l) = map (λ r. (l, r)) (skip_one (p.label_ref_regex line))
refers p (line, _) = []

abbrev last_label : String → List Line → String
last_label current [] = current
last_label current ((line, t) ∷ ls) = last_label (label_after current t) ls

-- All of it, after what was found before.
abbrev pub found_after : Patterns → Scan → List Line → Scan
found_after p s ls = record {
  current_label = last_label s.current_label ls;
  line_info = s.line_info ++ map (λ (l : Line). l.1) ls;
  labels = s.labels ++ gather declared ls;
  opcode_operands = s.opcode_operands ++ gather (named p) ls;
  label_graph = s.label_graph ++ gather (refers p) ls;
}

abbrev pub found : Patterns → List Line → Scan
found p ls =
    found_after p
      (record {
        current_label = "";
        line_info = [];
        labels = [];
        opcode_operands = [];
        label_graph = [];
      })
      ls

abbrev noted : Patterns → Scan → String → LineType → Scan
noted p s line t = let n = note_line p line s t in record n { line_info = s.line_info ++ (t ∷ []) }

abbrev is_label : LineType → Bool
is_label (label_decl l) = true
is_label _ = false

-- A text that has just the lines of a kind, in their order, each with its end, and a blank line
-- before each declaration of a label.
pub data Filtered (P : LineType → Type 0) : List Line → String → Type 0 where
  nothing : Filtered P [] ""
  label :
      {ls : List Line} {out : String} (line l : String)
      → P (label_decl l)
      → Filtered P ls out
      → Filtered P
          ((line, label_decl l) ∷ ls)
          (str_append "\n" (str_append line (str_append "\n" out)))
  kept :
      {ls : List Line} {out : String} (line : String) (t : LineType)
      → is_label t ≡ false
      → P t
      → Filtered P ls out
      → Filtered P ((line, t) ∷ ls) (str_append line (str_append "\n" out))
  dropped :
      {ls : List Line} {out : String} (line : String) (t : LineType)
      → ¬ (P t)
      → Filtered P ls out
      → Filtered P ((line, t) ∷ ls) out
