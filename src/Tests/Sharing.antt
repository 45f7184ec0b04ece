-- ===== src/Tests/Sharing.antt =====
-- A gist of two files, on a GitHub that takes just these.
use mathlib.Core.List.{mem-cons, not-mem-nil, Nodup-cons, Nodup-nil, Perm}
use mathlib.Core.List.Perm
use mathlib.Core.Logic.Or
use rust_playground.Base.{
  Text, codes, text_eq, text_eq→eq, All, ◌==◌, if◌then◌else◌, str_eq, eq_iff, Bool, true, false,
  Bool-cases, inl, inr, ◌&&◌, ◌≡◌, ◌≢◌, refl, ap, ap₂, List, [], ◌∷◌, map, String, ok, err,
  ok-injective, subst, ℕ, zero, suc, arith, sym, length, ◌++◌,
}
use rust_playground.Gist
use rust_playground.Gist.{
  PercentEncoding, Toml, GitHub, RemoteGist, Code, CodeFile, meta_filename, serialized_v1,
  SerializedMeta,
}
use rust_playground.Gist.Codec.{IsPercentEncoding, IsShareable, sent_file}
use rust_playground.Gist.Loaded.{Reads, Keeps, IsReturnedWhole, LoadedAs, load_future-create_future}

-- A slash is written as an escape, and an escape is read as a slash.
escape : Text → Text
escape [] = []
escape (c ∷ s) =
    let rest = escape s in if c == b'/' then b'%' ∷ (b'2' ∷ (b'F' ∷ rest)) else c ∷ rest

unescape : ℕ → Text → Text
unescape k [] = []
unescape (suc k) (c ∷ s) = unescape k s
unescape zero (c ∷ s) =
    let plain = c ∷ unescape 0 s in if c == b'%' then b'/' ∷ unescape 2 s else plain

unescape-escape : (s : Text) → All (λ c. c ≢ b'%') s → unescape 0 (escape s) ≡ s
unfolding escape unescape
unescape-escape [] h = refl
unescape-escape (c ∷ s) h = let ih = unescape-escape s h.1 in let n = h.0 in ground arith

unescape_plain : (s : Text) → All (λ c. c ≢ b'%') s → unescape 0 s ≡ s
unfolding unescape
unescape_plain [] h = refl
unescape_plain (c ∷ s) h = let ih = unescape_plain s h.1 in let n = h.0 in ground arith

abbrev percent : PercentEncoding
percent = record { utf8_percent_encode = escape; percent_decode = unescape 0 }

percent-IsPercentEncoding : IsPercentEncoding percent
percent-IsPercentEncoding = record {
  decode-encode = unescape-escape;
  decode-plain = unescape_plain;
}

abbrev toml : Toml
toml = record { to_string_pretty = λ m. ok "version = 1"; from_str = λ s. ok serialized_v1 }

toml-Reads : Reads toml
toml-Reads serialized_v1 s h = refl

abbrev shared : Code
shared = Gist.multiple (
    record { name = codes "src/main.rs"; content = "fn main() {}" }
    ∷ record { name = codes "src/lib.rs"; content = "" }
    ∷ [])

abbrev sent : List (Text × String)
sent =
    (codes "src%2Fmain.rs", "fn main() {}")
    ∷ (codes "src%2Flib.rs", "")
    ∷ (meta_filename, "version = 1")
    ∷ []

abbrev stored : RemoteGist
stored = record { id = "1"; html_url = "https://gist/1"; files = map sent_file sent }

same_files : List (Text × String) → List (Text × String) → Bool
same_files [] [] = true
same_files [] ((b, d) ∷ gs) = false
same_files ((a, c) ∷ fs) [] = false
same_files ((a, c) ∷ fs) ((b, d) ∷ gs) = text_eq a b && (str_eq c d && same_files fs gs)

same_files→eq : (fs gs : List (Text × String)) → same_files fs gs ≡ true → fs ≡ gs
unfolding same_files
same_files→eq [] [] h = refl
same_files→eq [] (g ∷ gs) h = absurd (cc)
same_files→eq (f ∷ fs) [] h = absurd (cc)
same_files→eq ((a, c) ∷ fs) ((b, d) ∷ gs) h = elim (Bool-cases (text_eq a b)) [
  | inr n ↦ absurd (let x = rw n at h in cc)
  | inl p ↦ elim (Bool-cases (str_eq c d)) [
    | inr n ↦ absurd (let x = rw (p, n) at h in cc)
    | inl q ↦
        ap₂ (λ x y. x ∷ y) (ap₂ (λ x y. (x, y)) (text_eq→eq a b p) ((eq_iff c d).0 q))
          (same_files→eq fs gs (rw (p, q) at h))
  ]
]

abbrev hub : GitHub
hub = record {
  build = λ token. ok token;
  send = λ token d p fs. if same_files fs sent then ok stored else err "refused";
  get = λ token id. ok stored;
}

hub-Keeps : Keeps hub
hub-Keeps token client d p fs g b h n w = elim (Bool-cases (same_files fs sent)) [
  | inl e ↦
      let q : stored ≡ g = ok-injective (rw e at h) in
      (
        stored,
        refl,
        ap (λ (x : RemoteGist). x.id) q,
        subst (λ x. Perm (map sent_file sent) (map sent_file x)) (sym (same_files→eq fs sent e))
            (Perm.refl _),
      )
  | inr e ↦ absurd (let x = rw e at h in cc)
]

distinct_names : IsShareable shared
distinct_names = (
  Nodup-cons.1 (
    λ m.
        Or.elim (λ a. absurd a) (mem-cons.0 m) (λ e. let x = ap length e in absurd (omega arith))
          (λ r. not-mem-nil r),
    Nodup-cons.1 (λ m. not-mem-nil m, Nodup-nil),
  ),
  (
    (omega arith, λ e. let x = ap length e in absurd (omega arith)),
    ((omega arith, λ e. let x = ap length e in absurd (omega arith)), tt),
  ),
)

small_enough :
    (s : String)
    → "version = 1" ≡ s
    → IsReturnedWhole (Gist.code_files percent shared ++ (meta_filename, s) ∷ [])
unfolding Gist.code_files Gist.encode_filename escape
small_enough s h =
    subst (λ s. IsReturnedWhole (Gist.code_files percent shared ++ (meta_filename, s) ∷ [])) h
      (omega arith, (omega arith, (omega arith, (omega arith, tt))))

load_future-create_future_example :
    (h : Gist.Gist) × (Gist.load_future percent toml hub "t" "1" ≡ ok h)
    × (h.id ≡ "1")
    × LoadedAs shared h.code
unfolding Gist.from_remote
load_future-create_future_example =
    load_future-create_future percent-IsPercentEncoding toml-Reads hub hub-Keeps "t" shared
      (Gist.from_remote percent toml stored) distinct_names (λ s h. small_enough s (ok-injective h))
      (unfold Gist.create_future Gist.from_remote escape unescape same_files in refl)
