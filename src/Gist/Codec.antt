-- ===== src/Gist/Codec.antt =====
-- The files that are sent and what is read of them again.
use mathlib.Core.List.{Nodup, mem-cons, not-mem-nil}
use mathlib.Core.Logic.Or
use mathlib.Core.List.{Mem, Nodup-append, Nodup-cons, Nodup-nil}
use mathlib.Core.List.Pairwise
use rust_playground.Base.{
  Text, text_eq, text_eq→eq, ◌≡◌, ◌≢◌, refl, ap, not, All, sym, subst, length, true, Bool-cases,
  inl, inr, some, List, [], ◌∷◌, String, map, ◌++◌, arith, ◌∙◌,
}
use rust_playground.Gist.{
  filename, RemoteFile, PercentEncoding, Code, CodeFile, single, multiple, meta_filename,
  code_files, code_file, decode_filename, unwrap_or_default, encode_filename, decode_v1, meta_v1,
  v1,
}
use rust_playground.Gist.Files.{Others}

-- `percent_encoding` undoes itself on what has no percent sign, and leaves it as it is when it
-- decodes it.
pub record IsPercentEncoding (percent : PercentEncoding) : Type 0 where
  pub decode-encode :
      (name : Text)
      → All (λ c. c ≢ b'%') name
      → percent.percent_decode (percent.utf8_percent_encode name) ≡ name
  pub decode-plain : (name : Text) → All (λ c. c ≢ b'%') name → percent.percent_decode name ≡ name

-- What a function tells apart is distinct.
distinct : (f : Text → Text) (xs : List Text) → Nodup (map f xs) → Nodup xs
distinct f xs h = Pairwise.of_map f (λ a b k e. k (ap f e)) h

abbrev pub sent_file : Text × String → Text × RemoteFile
sent_file (name, content) = (name, record { content = some content })

abbrev pub IsSendable : CodeFile → Type 0
IsSendable f = All (λ c. c ≢ b'%') f.name × (f.name ≢ meta_filename)

-- The files have distinct names, none with a percent sign or spelled as the meta's file.
abbrev pub IsShareable : Code → Type 0
IsShareable (single code) = Unit
IsShareable (multiple fs) = Nodup (map (λ (f : CodeFile). f.name) fs) × All IsSendable fs

module _ {percent : PercentEncoding} (codec : IsPercentEncoding percent) where
  -- No other name is sent as the meta's.
  encode_filename-other :
      (name : Text)
      → All (λ c. c ≢ b'%') name
      → name ≢ meta_filename
      → not (text_eq (percent.utf8_percent_encode name) meta_filename) ≡ true
  encode_filename-other name plain other =
      elim (Bool-cases (text_eq (percent.utf8_percent_encode name) meta_filename)) [
        | inl e ↦ absurd (
            other (
              sym (codec.decode-encode name plain)
              ∙ ap percent.percent_decode (text_eq→eq _ _ e)
              ∙ codec.decode-plain meta_filename (omega arith)))
        | inr e ↦ rw e refl
      ]

  names-Others :
      (fs : List CodeFile)
      → All IsSendable fs
      → Others meta_filename (map sent_file (code_files percent (multiple fs)))
  unfolding code_files encode_filename
  names-Others [] k = tt
  names-Others (f ∷ fs) k = (encode_filename-other f.name k.0.0 k.0.1, names-Others fs k.1)

  pub code_files-Others :
      (code : Code)
      → IsShareable code
      → Others meta_filename (map sent_file (code_files percent code))
  code_files-Others (single c) h =
      unfold code_files encode_filename in
      (encode_filename-other filename (omega arith) (λ e. let x = ap length e in omega arith), tt)
  code_files-Others (multiple fs) h = names-Others fs h.1

  -- The files as they are read again.
  pub read_back :
      (fs : List CodeFile)
      → All IsSendable fs
      → map (code_file percent (meta_v1 v1)) (map sent_file (code_files percent (multiple fs))) ≡ fs
  unfolding code_files encode_filename code_file decode_filename decode_v1 unwrap_or_default
  read_back [] k = refl
  read_back (f ∷ fs) k = rw (codec.decode-encode f.name k.0.0, read_back fs k.1)

  decoded_names :
      (s : String) (fs : List CodeFile)
      → All IsSendable fs
      → map percent.percent_decode
          (map (λ f. f.0) (code_files percent (multiple fs) ++ (meta_filename, s) ∷ []))
        ≡ map (λ (f : CodeFile). f.name) fs ++ meta_filename ∷ []
  unfolding code_files encode_filename
  decoded_names s [] k = rw (codec.decode-plain meta_filename (omega arith))
  decoded_names s (f ∷ fs) k = rw (codec.decode-encode f.name k.0.0, decoded_names s fs k.1)

  decoded_one :
      (c s : String)
      → map percent.percent_decode
          (map (λ f. f.0) (code_files percent (single c) ++ (meta_filename, s) ∷ []))
        ≡ filename ∷ meta_filename ∷ []
  unfolding code_files encode_filename
  decoded_one c s =
      rw
        (codec.decode-encode filename (omega arith), codec.decode-plain meta_filename (omega arith))

  filename-ne-meta : filename ≢ meta_filename
  filename-ne-meta e = let x = ap length e in omega arith

  meta-not-mem :
      (fs : List CodeFile)
      → All IsSendable fs
      → ¬ Mem meta_filename (map (λ (f : CodeFile). f.name) fs)
  meta-not-mem [] k m = not-mem-nil m
  meta-not-mem (f ∷ fs) k m =
      Or.elim (λ a. absurd a) (mem-cons.0 m) (λ q. k.0.1 (sym q)) (meta-not-mem fs k.1)

  -- A gist of distinct names is sent under distinct names.
  pub sent-Nodup :
      (code : Code) (s : String)
      → IsShareable code
      → Nodup (map (λ f. f.0) (code_files percent code ++ (meta_filename, s) ∷ []))
  sent-Nodup (single c) s share = distinct percent.percent_decode _ (
      subst Nodup (sym (decoded_one c s)) (
        Nodup-cons.1 (
          λ m. Or.elim (λ a. absurd a) (mem-cons.0 m) filename-ne-meta (λ r. not-mem-nil r),
          Nodup-cons.1 (λ m. not-mem-nil m, Nodup-nil),
        )))
  sent-Nodup (multiple fs) s share = distinct percent.percent_decode _ (
      subst Nodup (sym (decoded_names s fs share.1)) (
        Nodup-append.1 (
          share.0,
          Nodup-cons.1 (λ m. not-mem-nil m, Nodup-nil),
          λ a m n.
              Or.elim (λ a. absurd a) (mem-cons.0 n)
                (λ q.
                  meta-not-mem fs share.1
                    (subst (λ x. Mem x (map (λ (f : CodeFile). f.name) fs)) q m))
                (λ r. not-mem-nil r),
        )))
