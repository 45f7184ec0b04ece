-- ===== src/CargoToml/Kept.antt =====
-- What each change puts into the manifest.
use rust_playground.Base.{String, ◌≡◌, refl, Bool, some}
use rust_playground.CargoToml.{text, boolean, table, Table, end, entry, get, default, read_text}
use rust_playground.CargoToml.Tables.{put}
use rust_playground.CargoToml.Edition
use rust_playground.CargoToml.CrateType
use rust_playground.CargoToml.CrateType.{Lib, default_lib}
use rust_playground.CargoToml.Dependencies
use rust_playground.CargoToml.Lto
use rust_playground.CargoToml.Lto.{Profiles, default_profiles}

pub set_edition-put :
    (t p : Table) (old e : String)
    → get "package" t ≡ some (table p)
    → default "" read_text (get "edition" p) ≡ some old
    → Edition.set_edition (table t) e
      ≡ some (table (put "package" (table (put "edition" (text e) p)) t))
unfolding Edition.set_edition
set_edition-put t p old e h o = rw (h, o) refl

pub remove_dependencies-put :
    (t d : Table)
    → get "dependencies" t ≡ some (table d)
    → Dependencies.remove_dependencies (table t) ≡ some (table (put "dependencies" (table end) t))
unfolding Dependencies.remove_dependencies
remove_dependencies-put t d h = rw h refl

abbrev pub profiles_table : Profiles → Bool → Table
profiles_table p lto = entry "release" (table (entry "lto" (boolean lto) p.release.other)) p.other

pub set_release_lto-put :
    (t : Table) (p : Profiles) (lto : Bool)
    → default default_profiles Lto.profiles_of (get "profile" t) ≡ some p
    → Lto.set_release_lto (table t) lto
      ≡ some (table (put "profile" (table (profiles_table p lto)) t))
unfolding Lto.set_release_lto
set_release_lto-put t p lto h = rw h refl

-- The table of a library.
abbrev pub lib_table : Lib → Table
lib_table l =
    CrateType.crate_type_entry l.crate_type (entry "proc-macro" (boolean l.proc_macro) l.other)

pub set_crate_type-put :
    (t : Table) (l : Lib) (c : String)
    → default default_lib CrateType.lib_of (get "lib" t) ≡ some l
    → CrateType.set_crate_type (table t) c
      ≡ some (table (put "lib" (table (lib_table (CrateType.add_crate_type c l))) t))
unfolding CrateType.set_crate_type
set_crate_type-put t l c h = rw h refl
