-- ===== src/CargoToml/Others.antt =====
-- What a change leaves as it was: the entries that the structs of modify-cargo-toml flatten.
use rust_playground.Base.{
  String, str_eq, ◌≡◌, refl, ap, ◌∙◌, sym, false, Bool-cases, inl, inr, Option, none, some, List,
  [], ◌∷◌, some-injective,
}
use rust_playground.CargoToml.{
  Value, boolean, table, Table, entry, get, without, default, read_table, read_texts, read_boolean,
  ◌>>=◌, text, scalar, array,
}
use rust_playground.CargoToml.Tables.{get-without}
use rust_playground.CargoToml.CrateType.{Lib, default_lib, lib_of, add_crate_type, crate_type_entry}
use rust_playground.CargoToml.Lto.{
  Profile, default_profile, profile_of, Profiles, default_profiles, profiles_of,
}
use rust_playground.CargoToml.Kept.{lib_table}
use rust_playground.CargoToml.Wanted.{sub}

bind-some :
    {A B : Type 0} (o : Option A) (f : A → Option B) {b : B}
    → (o >>= f) ≡ some b
    → (a : A) × (o ≡ some a) × (f a ≡ some b)
bind-some none f h = absurd cc
bind-some (some a) f h = (a, refl, h)

read_table-sub : (v : Value) {t : Table} → read_table v ≡ some t → sub (some v) ≡ t
read_table-sub (table t) h = some-injective h
read_table-sub (text s) h = cc
read_table-sub (scalar s) h = cc
read_table-sub (boolean b) h = cc
read_table-sub (array i) h = cc

lib_of-other :
    (v : Value) (l : Lib) (k : String)
    → lib_of v ≡ some l
    → str_eq "crate-type" k ≡ false
    → str_eq "proc-macro" k ≡ false
    → get k l.other ≡ get k (sub (some v))
unfolding lib_of
lib_of-other v l k h m n =
    let (t, e, h1) = bind-some (read_table v) _ h in
    let (c, x, h2) = bind-some (default [] read_texts (get "crate-type" t)) _ h1 in
    let (p, y, h3) = bind-some (default false read_boolean (get "proc-macro" t)) _ h2 in
    ap (λ (l : Lib). get k l.other) (sym (some-injective h3))
    ∙ get-without "proc-macro" k (without "crate-type" t) n
    ∙ get-without "crate-type" k t m
    ∙ ap (get k) (sym (read_table-sub v e))

pub lib-other :
    (o : Option Value) (l : Lib) (k : String)
    → default default_lib lib_of o ≡ some l
    → str_eq "crate-type" k ≡ false
    → str_eq "proc-macro" k ≡ false
    → get k l.other ≡ get k (sub o)
lib-other none l k h m n = ap (λ (l : Lib). get k l.other) (sym (some-injective h))
lib-other (some v) l k h m n = lib_of-other v l k h m n

entry-other :
    (cs : List String) (t : Table) (k : String)
    → str_eq "crate-type" k ≡ false
    → get k (crate_type_entry cs t) ≡ get k t
unfolding crate_type_entry
entry-other [] t k n = refl
entry-other (c ∷ cs) t k n = rw n refl

pub lib_table-other :
    (l : Lib) (k : String)
    → str_eq "crate-type" k ≡ false
    → str_eq "proc-macro" k ≡ false
    → get k (lib_table l) ≡ get k l.other
lib_table-other l k m n =
    entry-other l.crate_type (entry "proc-macro" (boolean l.proc_macro) l.other) k m ∙ rw n refl

pub add_crate_type-other : (l : Lib) (c : String) → (add_crate_type c l).other ≡ l.other
unfolding add_crate_type
add_crate_type-other l c = elim (Bool-cases (str_eq c "proc-macro")) [
  | inl e ↦ rw e refl
  | inr e ↦ rw e refl
]

profile_of-other :
    (v : Value) (p : Profile) (k : String)
    → profile_of v ≡ some p
    → str_eq "lto" k ≡ false
    → get k p.other ≡ get k (sub (some v))
unfolding profile_of
profile_of-other v p k h n =
    let (t, e, h1) = bind-some (read_table v) _ h in
    let (l, x, h2) = bind-some (default false read_boolean (get "lto" t)) _ h1 in
    ap (λ (p : Profile). get k p.other) (sym (some-injective h2))
    ∙ get-without "lto" k t n
    ∙ ap (get k) (sym (read_table-sub v e))

profile-other :
    (o : Option Value) (p : Profile) (k : String)
    → default default_profile profile_of o ≡ some p
    → str_eq "lto" k ≡ false
    → get k p.other ≡ get k (sub o)
profile-other none p k h n = ap (λ (p : Profile). get k p.other) (sym (some-injective h))
profile-other (some v) p k h n = profile_of-other v p k h n

-- The other profiles, and the other entries of the release.
pub profiles-other :
    (o : Option Value) (p : Profiles)
    → default default_profiles profiles_of o ≡ some p
    → ((k : String) → str_eq "release" k ≡ false → get k p.other ≡ get k (sub o))
      × ((k : String)
          → str_eq "lto" k ≡ false
          → get k p.release.other ≡ get k (sub (get "release" (sub o))))
unfolding profiles_of
profiles-other none p h = (
  λ k n. ap (λ (p : Profiles). get k p.other) (sym (some-injective h)),
  λ k n. ap (λ (p : Profiles). get k p.release.other) (sym (some-injective h)),
)
profiles-other (some v) p h =
    let (t, e, h1) = bind-some (read_table v) _ h in
    let (r, x, h2) = bind-some (default default_profile profile_of (get "release" t)) _ h1 in
    let same = read_table-sub v e in
    (
      λ k n.
          ap (λ (p : Profiles). get k p.other) (sym (some-injective h2))
          ∙ get-without "release" k t n
          ∙ ap (get k) (sym same),
      λ k n.
          ap (λ (p : Profiles). get k p.release.other) (sym (some-injective h2))
          ∙ profile-other (get "release" t) r k x n
          ∙ ap (λ t. get k (sub (get "release" t))) (sym same),
    )
