-- ===== src/CargoToml/CrateType.antt =====
-- `set_crate_type`
use rust_playground.Base.{
  String, str_eq, Bool, true, false, Option, some, List, [], ◌∷◌, if◌then◌else◌,
}
use rust_playground.CargoToml.{
  ◌>>=◌, Value, boolean, array, table, Table, end, entry, items, get, without, default, read_table,
  read_texts, read_boolean, modify, ensure_string_in_vec,
}

pub record Lib : Type 0 where
  pub crate_type : List String
  pub proc_macro : Bool
  pub other : Table

pub record CargoToml : Type 0 where
  pub lib : Lib
  pub other : Table

abbrev pub default_lib : Lib
default_lib = record { crate_type = []; proc_macro = false; other = end }

unfoldable pub lib_of : Value → Option Lib
lib_of v = do
  t ← read_table v
  c ← default [] read_texts (get "crate-type" t)
  p ← default false read_boolean (get "proc-macro" t)
  some (record {
    crate_type = c;
    proc_macro = p;
    other = without "proc-macro" (without "crate-type" t);
  })

deserialize : Value → Option CargoToml
unfolding lib_of
deserialize v = do
  t ← read_table v
  l ← default default_lib lib_of (get "lib" t)
  some (record { lib = l; other = without "lib" t })

-- `skip_serializing_if = "Vec::is_empty"`
unfoldable pub crate_type_entry : List String → Table → Table
crate_type_entry [] t = t
crate_type_entry (c ∷ cs) t = entry "crate-type" (array (items (c ∷ cs))) t

serialize : CargoToml → Value
unfolding crate_type_entry
serialize c = table (
    entry "lib"
      (table (
        crate_type_entry c.lib.crate_type
          (entry "proc-macro" (boolean c.lib.proc_macro) c.lib.other)))
      c.other)

unfoldable pub add_crate_type : String → Lib → Lib
unfolding ensure_string_in_vec
add_crate_type crate_type l =
    if str_eq crate_type "proc-macro"
    then record l { proc_macro = true }
    else record l { crate_type = ensure_string_in_vec l.crate_type crate_type }

unfoldable pub set_crate_type : Value → String → Option Value
unfolding modify deserialize serialize add_crate_type
set_crate_type cargo_toml crate_type =
    modify deserialize serialize cargo_toml
      (λ c. record c { lib = add_crate_type crate_type c.lib })
