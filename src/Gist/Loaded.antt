-- ===== src/Gist/Loaded.antt =====
-- What is loaded is what was shared.
use mathlib.Core.List.{Nodup, Perm, perm_middle, mem-cons, not-mem-nil, append-nil, map-append}
use text.Mathlib.TextEquality.{IsScalar-prop}
use mathlib.Core.Logic.Or
use mathlib.Core.List.Perm
use rust_playground.Base.{
  Text, codes, length, All, ◌≤◌, ◌*◌, ◌≡◌, refl, ap, sym, subst, Bool, false, some, List, [], ◌∷◌,
  String, ok, map, ◌++◌, split-ok, map_err-ok, ok-injective, ◌∙◌,
}
use rust_playground.Gist.{
  filename, RemoteFiles, RemoteGist, find_file, without_file, PercentEncoding, Toml, GitHub, Gist,
  Code, CodeFile, single, multiple, meta_filename, create_future, load_future, code_of, from_remote,
  current_meta, from_v1, code_files, meta_of, code_file, decode_filename, unwrap_or_default,
  encode_filename, decode_v1, meta_v1, v1, Meta, SerializedMeta, version_of, octocrab, serialize,
  description, serialized_v1,
}
use rust_playground.Gist.Codec.{
  IsPercentEncoding, IsShareable, sent_file, code_files-Others, read_back, sent-Nodup,
}
use rust_playground.Gist.Files.{find_file-perm, without_file-perm}

-- `toml` reads what it wrote.
abbrev pub Reads : Toml → Type 0
Reads toml =
    (m : SerializedMeta) (s : String) → toml.to_string_pretty m ≡ ok s → toml.from_str s ≡ ok m

-- What GitHub returns whole: at most 300 files, each of at most a megabyte (a code point has at
-- most four bytes).
abbrev pub IsReturnedWhole : List (Text × String) → Type 0
IsReturnedWhole fs = (length fs ≤ 300) × All (λ f. 4 * length (codes f.1) ≤ 1000000) fs

-- GitHub keeps a gist of such files, of distinct names, as it was created, in some order.
abbrev pub Keeps : GitHub → Type 0
Keeps hub =
    (token client d : String) (p : Bool) (fs : List (Text × String)) (g : RemoteGist)
    → hub.build token ≡ ok client
    → hub.send client d p fs ≡ ok g
    → Nodup (map (λ f. f.0) fs)
    → IsReturnedWhole fs
    → (h : RemoteGist) × (hub.get client g.id ≡ ok h)
      × (h.id ≡ g.id)
      × Perm h.files (map sent_file fs)

-- What is loaded of the shared code: several files come back in some order, and of one file just
-- what it holds.
abbrev pub LoadedAs : Code → Code → Type 0
LoadedAs (single c) loaded = loaded ≡ single c
LoadedAs (multiple []) loaded = loaded ≡ single ""
LoadedAs (multiple (f ∷ [])) loaded = loaded ≡ single f.content
LoadedAs (multiple (f ∷ g ∷ fs)) loaded =
    (files : List CodeFile) × (loaded ≡ multiple files) × Perm files (f ∷ g ∷ fs)

String-set : IsSet String
String-set = hlevel (IsScalar-prop)

Meta-set : IsSet Meta
Meta-set = hlevel

code_of-one : (xs : List CodeFile) (f : CodeFile) → Perm xs (f ∷ []) → code_of xs ≡ single f.content
unfolding code_of
code_of-one [] f h = absurd (let e = Perm.length-eq h in cc)
code_of-one (x ∷ []) f h =
    let e : x.content ≡ f.content =
      Or.elim (String-set _ _) (mem-cons.0 ((Perm.mem_iff h).0 (mem-cons.1 (Or.inl refl))))
        (λ q. ap (λ (c : CodeFile). c.content) q) (λ r. absurd (not-mem-nil r)) in
    ap single e
code_of-one (x ∷ y ∷ xs) f h = absurd (let e = Perm.length-eq h in cc)

code_of-LoadedAs : (fs xs : List CodeFile) → Perm xs fs → LoadedAs (multiple fs) (code_of xs)
code_of-LoadedAs [] xs h = unfold code_of in rw (Perm.eq-nil h) refl
code_of-LoadedAs (f ∷ []) xs h = code_of-one xs f h
code_of-LoadedAs (f ∷ g ∷ fs) [] h = absurd (let e = Perm.length-eq h in cc)
code_of-LoadedAs (f ∷ g ∷ fs) (x ∷ []) h = absurd (let e = Perm.length-eq h in cc)
code_of-LoadedAs (f ∷ g ∷ fs) (x ∷ y ∷ xs) h = (x ∷ y ∷ xs, unfold code_of in refl, h)

last_first {ℓ κ} :
    {A : Type ℓ} {B : Type κ} (f : A → B) (xs : List A) (y : A)
    → Perm (map f (xs ++ y ∷ [])) (f y ∷ map f xs)
last_first f xs y =
    let p = perm_middle {a = f y} (map f xs) [] in
    rw (map-append) (subst (λ r. Perm (map f xs ++ f y ∷ []) (f y ∷ r)) (append-nil (map f xs)) p)

module _ (percent : PercentEncoding) (toml : Toml) (hub : GitHub) (token : String) where
  -- What a gist that was created went through.
  create_future-ok :
      (code : Code) (g : Gist)
      → create_future percent toml hub token code ≡ ok g
      → (client s : String) × (answer : RemoteGist) × (hub.build token ≡ ok client)
        × (toml.to_string_pretty serialized_v1 ≡ ok s)
        × (hub.send client description false (code_files percent code ++ (meta_filename, s) ∷ [])
            ≡ ok answer)
        × (answer.id ≡ g.id)
  unfolding create_future from_v1 current_meta from_remote
  create_future-ok code g made =
      let (client, b, made2) = split-ok _ _ made in
      let (s, t, made3) = split-ok _ _ made2 in
      let (answer, u, made4) = split-ok _ _ made3 in
      (
        client,
        s,
        answer,
        map_err-ok octocrab _ b,
        map_err-ok serialize _ t,
        map_err-ok octocrab _ u,
        ap (λ (x : Gist). x.id) (ok-injective made4),
      )

  load_future-ok :
      (client id : String) (kept : RemoteGist)
      → hub.build token ≡ ok client
      → hub.get client id ≡ ok kept
      → load_future percent toml hub token id ≡ ok (from_remote percent toml kept)
  unfolding load_future
  load_future-ok client id kept b v = rw (b, v) refl

module _ {percent : PercentEncoding} (codec : IsPercentEncoding percent) where
  files-LoadedAs :
      (code : Code) (fs : RemoteFiles)
      → IsShareable code
      → Perm fs (map sent_file (code_files percent code))
      → LoadedAs code (code_of (map (code_file percent (meta_v1 v1)) fs))
  unfolding code_files encode_filename code_file decode_filename decode_v1 unwrap_or_default
  files-LoadedAs (single c) fs share h =
      let k = Perm.map (code_file percent (meta_v1 v1)) h in
      rw
        (code_of-one _
          (record {
            name = percent.percent_decode (percent.utf8_percent_encode filename);
            content = c;
          })
          k)
        refl
  files-LoadedAs (multiple gs) fs share h = code_of-LoadedAs gs _ (
      subst (λ x. Perm (map (code_file percent (meta_v1 v1)) fs) x) (read_back codec gs share.1)
        (Perm.map (code_file percent (meta_v1 v1)) h))

  module _ {toml : Toml} (reads : Reads toml) where
    -- The gist that holds the sent files has the code.
    from_remote-LoadedAs :
        (code : Code) (s : String) (g : RemoteGist)
        → toml.to_string_pretty serialized_v1 ≡ ok s
        → IsShareable code
        → Perm g.files (map sent_file (code_files percent code ++ (meta_filename, s) ∷ []))
        → LoadedAs code (from_remote percent toml g).code
    unfolding from_remote
    from_remote-LoadedAs code s g e share h =
        let sent = map sent_file (code_files percent code) in
        let k : Perm g.files ((meta_filename, record { content = some s }) ∷ sent) =
          Perm.trans h (last_first sent_file (code_files percent code) _) in
        let others = code_files-Others codec code share in
        let meta : meta_of toml (find_file meta_filename g.files) ≡ meta_v1 v1 =
          find_file-perm k others (Meta-set _ _)
            (λ q. unfold meta_of version_of in rw (q, reads _ s e)) in
        let left : Perm (without_file meta_filename g.files) sent = without_file-perm k others in
        rw meta (files-LoadedAs code _ share left)

    -- Code whose sharing succeeded can be loaded under the id that was given, if GitHub keeps a gist
    -- as it was created, `toml` reads what it wrote, the names are distinct, without percent sign
    -- and not that of the meta, and there are at most 300 files of at most a megabyte, the meta
    -- among them. Several files come back with their names and what they hold, in some order; of a
    -- single file just what it holds.
    pub load_future-create_future :
        (hub : GitHub)
        → Keeps hub
        → (token : String) (code : Code) (g : Gist) → IsShareable code
        → ((s : String)
            → toml.to_string_pretty serialized_v1 ≡ ok s
            → IsReturnedWhole (code_files percent code ++ (meta_filename, s) ∷ []))
        → create_future percent toml hub token code ≡ ok g
        → (h : Gist) × (load_future percent toml hub token g.id ≡ ok h)
          × (h.id ≡ g.id)
          × LoadedAs code h.code
    load_future-create_future hub keeps token code g share whole made =
        let (client, s, answer, b, t, u, known) =
          create_future-ok percent toml hub token code g made in
        let (kept, v, same, p) =
          keeps token client description false _ answer b u (sent-Nodup codec code s share)
            (whole s t) in
        (
          from_remote percent toml kept,
          load_future-ok percent toml hub token client g.id kept b (rw (sym known) v),
          unfold from_remote in same ∙ known,
          from_remote-LoadedAs code s kept t share p,
        )
