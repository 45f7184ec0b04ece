-- ===== src/CargoToml/Declared.antt =====
-- The type of a library, once it was set.
use rust_playground.Base.{
  String, str_eq, eq_refl, any, any-append, ◌≡◌, refl, true, Bool-cases, inl, inr, some, List, [],
  ◌∷◌,
}
use rust_playground.CargoToml.{boolean, array, Table, entry, items, get, ensure_string_in_vec}
use rust_playground.CargoToml.CrateType.{Lib, add_crate_type, crate_type_entry}
use rust_playground.CargoToml.Kept.{lib_table}
use rust_playground.CargoToml.Wanted.{Declares}

ensure-any :
    (cs : List String) (c : String) → any (λ d. str_eq d c) (ensure_string_in_vec cs c) ≡ true
unfolding ensure_string_in_vec
ensure-any cs c = elim (Bool-cases (any (λ d. str_eq d c) cs)) [
  | inl e ↦ rw e e
  | inr e ↦ rw (e, any-append (λ d. str_eq d c) cs (c ∷ []), e, eq_refl c) refl
]

entry-get :
    (cs : List String) (c : String) (t : Table)
    → any (λ d. str_eq d c) cs ≡ true
    → get "crate-type" (crate_type_entry cs t) ≡ some (array (items cs))
unfolding crate_type_entry
entry-get [] c t h = absurd (cc)
entry-get (d ∷ cs) c t h = refl

listed-Declares :
    (l : Lib) (c : String)
    → (cs : List String) × (get "crate-type"
          (lib_table (record l { crate_type = ensure_string_in_vec l.crate_type c }))
        ≡ some (array (items cs)))
      × (any (λ d. str_eq d c) cs ≡ true)
listed-Declares l c =
    let h = ensure-any l.crate_type c in (ensure_string_in_vec l.crate_type c, entry-get _ c _ h, h)

marked :
    (cs : List String) (t : Table)
    → get "proc-macro" (crate_type_entry cs (entry "proc-macro" (boolean true) t))
      ≡ some (boolean true)
unfolding crate_type_entry
marked [] t = refl
marked (c ∷ cs) t = refl

pub add_crate_type-Declares : (l : Lib) (c : String) → Declares c (lib_table (add_crate_type c l))
unfolding add_crate_type
add_crate_type-Declares l c = elim (Bool-cases (str_eq c "proc-macro")) [
  | inl e ↦ rw e (marked l.crate_type l.other)
  | inr e ↦ rw e (listed-Declares l c)
]
