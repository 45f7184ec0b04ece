-- ===== src/CargoToml/Wanted.antt =====
-- What a manifest is, and what a request wants of it.
use rust_playground.Base.{
  String, str_eq, any, ◌≡◌, true, false, Option, none, some, List, if◌then◌else◌,
}
use rust_playground.Request.{CompileTarget, wasm, hir, llvm_ir, mir, assembly}
use rust_playground.CargoToml.{
  Value, text, boolean, array, table, Table, end, items, get, default, read_text,
}
use rust_playground.CargoToml.CrateType.{Lib, default_lib, lib_of}
use rust_playground.CargoToml.Lto.{Profiles, default_profiles, profiles_of}

-- A manifest that can be read: it has a package and dependencies, and what it says of the edition,
-- the library and the profiles has the types that these want.
pub record IsManifest (t : Table) : Type 0 where
  pub pkg : Table
  pub has_package : get "package" t ≡ some (table pkg)
  pub edition : String
  pub has_edition : default "" read_text (get "edition" pkg) ≡ some edition
  pub dependencies : Table
  pub has_dependencies : get "dependencies" t ≡ some (table dependencies)
  pub lib : Lib
  pub has_lib : default default_lib lib_of (get "lib" t) ≡ some lib
  pub profiles : Profiles
  pub has_profiles : default default_profiles profiles_of (get "profile" t) ≡ some profiles

-- The edition is set, and the rest of the package is as it was.
abbrev pub HasEdition : String → Table → Table → Type 0
HasEdition e p t =
    (q : Table) × (get "package" t ≡ some (table q))
    × (get "edition" q ≡ some (text e))
    × ((k : String) → str_eq "edition" k ≡ false → get k q ≡ get k p)

-- The library is of the type, among others perhaps.
abbrev pub Declares : String → Table → Type 0
Declares c q =
    if str_eq c "proc-macro"
    then get "proc-macro" q ≡ some (boolean true)
    else ((cs : List String) × (get "crate-type" q ≡ some (array (items cs)))
        × (any (λ d. str_eq d c) cs ≡ true))

-- The table that stands there, which is empty where there is none.
abbrev pub sub : Option Value → Table
sub none = end
sub (some (table t)) = t
sub (some _) = end

-- A library of the type, with all else that was there.
abbrev pub HasLib : String → Option Value → Table → Type 0
HasLib c old t =
    (q : Table) × (get "lib" t ≡ some (table q))
    × Declares c q
    × ((k : String)
        → str_eq "crate-type" k ≡ false
        → str_eq "proc-macro" k ≡ false
        → get k q ≡ get k (sub old))

-- A release that is optimised when it is linked, with all else that was there, and so for the other
-- profiles.
abbrev pub HasProfile : Option Value → Table → Type 0
HasProfile old t =
    (p r : Table) × (get "profile" t ≡ some (table p))
    × (get "release" p ≡ some (table r))
    × (get "lto" r ≡ some (boolean true))
    × ((k : String) → str_eq "release" k ≡ false → get k p ≡ get k (sub old))
    × ((k : String) → str_eq "lto" k ≡ false → get k r ≡ get k (sub (get "release" (sub old))))

abbrev pub HasCrateType : Option String → Table → Table → Type 0
HasCrateType none t t' = get "lib" t' ≡ get "lib" t
HasCrateType (some c) t t' = HasLib c (get "lib" t) t'

-- For WebAssembly there are no dependencies and the release is optimised when it is linked.
abbrev pub HasTarget : CompileTarget → Table → Table → Type 0
HasTarget wasm t t' = (get "dependencies" t' ≡ some (table end)) × HasProfile (get "profile" t) t'
HasTarget hir t t' =
    (get "dependencies" t' ≡ get "dependencies" t) × (get "profile" t' ≡ get "profile" t)
HasTarget llvm_ir t t' =
    (get "dependencies" t' ≡ get "dependencies" t) × (get "profile" t' ≡ get "profile" t)
HasTarget mir t t' =
    (get "dependencies" t' ≡ get "dependencies" t) × (get "profile" t' ≡ get "profile" t)
HasTarget (assembly f d p) t t' =
    (get "dependencies" t' ≡ get "dependencies" t) × (get "profile" t' ≡ get "profile" t)
