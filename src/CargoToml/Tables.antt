-- ===== src/CargoToml/Tables.antt =====
-- An entry put in the place of those of its name.
use rust_playground.Base.{String, str_eq, eq_iff, ◌≡◌, refl, false, Bool-cases, inl, inr}
use rust_playground.CargoToml.{Value, Table, end, entry, get, without}

abbrev pub put : String → Value → Table → Table
put j v t = entry j v (without j t)

pub get-without : (j k : String) (t : Table) → str_eq j k ≡ false → get k (without j t) ≡ get k t
get-without j k end h = refl
get-without j k (entry i v t) h = elim (Bool-cases (str_eq i j)) [
  | inl e ↦ let n : str_eq i k ≡ false = rw ((eq_iff i j).0 e) h in rw (e, n) (get-without j k t h)
  | inr e ↦ elim (Bool-cases (str_eq i k)) [
    | inl f ↦ rw (e, f) refl
    | inr f ↦ rw (e, f) (get-without j k t h)
  ]
]

-- The other names keep their entries.
pub get-put_other :
    (j k : String) (v : Value) (t : Table) → str_eq j k ≡ false → get k (put j v t) ≡ get k t
get-put_other j k v t h = rw h (get-without j k t h)
