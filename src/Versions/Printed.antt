-- ===== src/Versions/Printed.antt =====
-- What `rustc --version --verbose` prints is read again.
use rust_playground.Base.{
  ≢→==, Text, codes, text_eq, text_eq→eq, ℕ, ◌≡◌, ◌≢◌, refl, ap, ap₂, ◌∙◌, some, List, [], ◌∷◌,
  ◌++◌, append_assoc, append-nil, if◌then◌else◌, drop, All, Bool-cases, inl, inr, arith,
}
use rust_playground.Versions.{
  Version, trim_start, trim, strip_cr, lines_from, lines, split_colon, field, no_version, set_field,
  set_fields, parse_rustc_version_verbose, trim_pair, set_found,
}

abbrev pub Without : ℕ → Text → Type 0
Without d s = All (λ c. c ≢ d) s

Without-append : (d : ℕ) (s t : Text) → Without d s → Without d t → Without d (s ++ t)
Without-append d [] t h k = k
Without-append d (c ∷ s) t h k = (h.0, Without-append d s t h.1 k)

strip_cr-Without : (s : Text) → Without 13 s → strip_cr s ≡ s
unfolding strip_cr
strip_cr-Without [] h = refl
strip_cr-Without (c ∷ []) h = rw (≢→== c 13 h.0) refl
strip_cr-Without (c ∷ d ∷ s) h = ap (λ x. c ∷ x) (strip_cr-Without (d ∷ s) h.1)

lines_from-append :
    (line s rest : Text)
    → Without b'\n' s
    → lines_from line (s ++ b'\n' ∷ rest) ≡ strip_cr (line ++ s) ∷ lines_from [] rest
unfolding lines_from
lines_from-append line [] rest h = rw (append-nil line) refl
lines_from-append line (c ∷ s) rest h = rw (≢→== c b'\n' h.0) (
    lines_from-append (line ++ c ∷ []) s rest h.1
    ∙ ap (λ x. strip_cr x ∷ lines_from [] rest) (append_assoc line (c ∷ []) s))

split_colon-append : (k v : Text) → Without b':' k → split_colon (k ++ b':' ∷ v) ≡ some (k, v)
unfolding split_colon
split_colon-append [] v h = refl
split_colon-append (c ∷ k) v h = rw (≢→== c b':' h.0, split_colon-append k v h.1) refl

-- A key and a value as they can be printed: on one line, without white space around them, and the
-- key without a colon.
pub record IsPrintable (f : Text × Text) : Type 0 where
  pub key_line : Without b'\n' f.0
  pub key_cr : Without 13 f.0
  pub key_colon : Without b':' f.0
  pub key_trimmed : trim f.0 ≡ f.0
  pub value_line : Without b'\n' f.1
  pub value_cr : Without 13 f.1
  pub value_trimmed : trim f.1 ≡ f.1

abbrev pub print_field : Text × Text → Text
print_field (key, value) = key ++ b':' ∷ 32 ∷ value

abbrev pub print_fields : List (Text × Text) → Text
print_fields [] = []
print_fields (f ∷ fs) = print_field f ++ b'\n' ∷ print_fields fs

-- The last value of a name.
abbrev pub last_value : Text → Text → List (Text × Text) → Text
last_value name old [] = old
last_value name old ((key, value) ∷ fs) =
    last_value name (if text_eq key name then value else old) fs

abbrev pub version_of : Version → List (Text × Text) → Version
version_of v fs = record {
  release = last_value (codes "release") v.release fs;
  commit_hash = last_value (codes "commit-hash") v.commit_hash fs;
  commit_date = last_value (codes "commit-date") v.commit_date fs;
}

field-print : (f : Text × Text) → IsPrintable f → field (print_field f) ≡ some f
unfolding field trim trim_start
field-print (key, value) p =
    ap trim_pair (split_colon-append key (32 ∷ value) p.key_colon)
    ∙ ap some (ap₂ (λ a b. (a, b)) p.key_trimmed p.value_trimmed)

set_field-version_of :
    (v : Version) (key value : Text) (fs : List (Text × Text))
    → version_of (set_field v key value) fs ≡ version_of v ((key, value) ∷ fs)
unfolding set_field
set_field-version_of v key value fs = elim (Bool-cases (text_eq key (codes "release"))) [
  | inl e ↦ rw (text_eq→eq key (codes "release") e) refl
  | inr e ↦ elim (Bool-cases (text_eq key (codes "commit-hash"))) [
    | inl f ↦ rw (text_eq→eq key (codes "commit-hash") f) refl
    | inr f ↦ elim (Bool-cases (text_eq key (codes "commit-date"))) [
      | inl g ↦ rw (text_eq→eq key (codes "commit-date") g) refl
      | inr g ↦ rw (e, f, g) refl
    ]
  ]
]

print_field-Without :
    (d : ℕ) (f : Text × Text)
    → b':' ≢ d
    → 32 ≢ d
    → Without d f.0
    → Without d f.1
    → Without d (print_field f)
print_field-Without d (key, value) a b h k = Without-append d key (b':' ∷ 32 ∷ value) h (a, (b, k))

set_fields-print :
    (v : Version) (fs : List (Text × Text))
    → All IsPrintable fs
    → set_fields v (lines_from [] (print_fields fs)) ≡ version_of v fs
unfolding set_fields
set_fields-print v [] h = unfold lines_from in refl
set_fields-print v (f ∷ fs) (p, h) =
    let line =
      lines_from-append [] (print_field f) (print_fields fs)
        (print_field-Without b'\n' f (omega arith) (omega arith) p.key_line p.value_line) in
    let plain =
      strip_cr-Without (print_field f)
        (print_field-Without 13 f (omega arith) (omega arith) p.key_cr p.value_cr) in
    ap (set_fields v) (line ∙ ap (λ x. x ∷ lines_from [] (print_fields fs)) plain)
    ∙ ap (λ x. set_fields (set_found v x) (lines_from [] (print_fields fs))) (field-print f p)
    ∙ set_fields-print (set_field v f.0 f.1) fs h
    ∙ set_field-version_of v f.0 f.1 fs

-- After a first line, fields that are printed one to a line are read again: of each of the three
-- names its last value, nothing if it is missing, whatever the order and whatever else is printed.
pub parse_rustc_version_verbose-print :
    (first : Text) (fs : List (Text × Text))
    → Without b'\n' first
    → All IsPrintable fs
    → parse_rustc_version_verbose (first ++ b'\n' ∷ print_fields fs) ≡ version_of no_version fs
unfolding parse_rustc_version_verbose lines
parse_rustc_version_verbose-print first fs h k =
    ap (λ x. set_fields no_version (drop 1 x)) (lines_from-append [] first (print_fields fs) h)
    ∙ set_fields-print no_version fs k
