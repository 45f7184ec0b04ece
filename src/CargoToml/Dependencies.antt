-- ===== src/CargoToml/Dependencies.antt =====
-- `remove_dependencies`
use rust_playground.Base.{Option, some}
use rust_playground.CargoToml.{
  ◌>>=◌, Value, table, Table, end, entry, get, without, required, read_table, modify,
}

pub record CargoToml : Type 0 where
  pub dependencies : Table
  pub other : Table

deserialize : Value → Option CargoToml
deserialize v = do
  t ← read_table v
  d ← required read_table (get "dependencies" t)
  some (record { dependencies = d; other = without "dependencies" t })

serialize : CargoToml → Value
serialize c = table (entry "dependencies" (table c.dependencies) c.other)

unfoldable pub remove_dependencies : Value → Option Value
unfolding modify deserialize serialize
remove_dependencies cargo_toml =
    modify deserialize serialize cargo_toml (λ c. record c { dependencies = end })
