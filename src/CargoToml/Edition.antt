-- ===== src/CargoToml/Edition.antt =====
-- `set_edition`
use mathlib.Core.Option
use rust_playground.Base.{String, Option, some}
use rust_playground.CargoToml.{
  ◌>>=◌, Value, text, table, Table, entry, get, without, required, default, read_text, read_table,
  modify,
}

pub record Package : Type 0 where
  pub edition : String
  pub other : Table

pub record CargoToml : Type 0 where
  pub pkg : Package
  pub other : Table

package_of : Table → Option Package
package_of t =
    Option.map (λ e. record { edition = e; other = without "edition" t })
      (default "" read_text (get "edition" t))

deserialize : Value → Option CargoToml
unfolding package_of
deserialize v = do
  t ← read_table v
  p ← required read_table (get "package" t)
  pkg ← package_of p
  some (record { pkg = pkg; other = without "package" t })

serialize : CargoToml → Value
serialize c =
    table (entry "package" (table (entry "edition" (text c.pkg.edition) c.pkg.other)) c.other)

unfoldable pub set_edition : Value → String → Option Value
unfolding modify deserialize serialize
set_edition cargo_toml edition =
    modify deserialize serialize cargo_toml
      (λ c. record c { pkg = record c.pkg { edition = edition } })
