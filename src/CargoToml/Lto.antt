-- ===== src/CargoToml/Lto.antt =====
-- `set_release_lto`
use rust_playground.Base.{Bool, false, Option, some}
use rust_playground.CargoToml.{
  ◌>>=◌, Value, boolean, table, Table, end, entry, get, without, default, read_table, read_boolean,
  modify,
}

pub record Profile : Type 0 where
  pub lto : Bool
  pub other : Table

pub record Profiles : Type 0 where
  pub release : Profile
  pub other : Table

pub record CargoToml : Type 0 where
  pub profile : Profiles
  pub other : Table

abbrev pub default_profile : Profile
default_profile = record { lto = false; other = end }

abbrev pub default_profiles : Profiles
default_profiles = record { release = default_profile; other = end }

unfoldable pub profile_of : Value → Option Profile
profile_of v = do
  t ← read_table v
  l ← default false read_boolean (get "lto" t)
  some (record { lto = l; other = without "lto" t })

unfoldable pub profiles_of : Value → Option Profiles
unfolding profile_of
profiles_of v = do
  t ← read_table v
  r ← default default_profile profile_of (get "release" t)
  some (record { release = r; other = without "release" t })

deserialize : Value → Option CargoToml
unfolding profiles_of
deserialize v = do
  t ← read_table v
  p ← default default_profiles profiles_of (get "profile" t)
  some (record { profile = p; other = without "profile" t })

serialize : CargoToml → Value
serialize c = table (
    entry "profile"
      (table (
        entry "release"
          (table (entry "lto" (boolean c.profile.release.lto) c.profile.release.other))
          c.profile.other))
      c.other)

unfoldable pub set_release_lto : Value → Bool → Option Value
unfolding modify deserialize serialize
set_release_lto cargo_toml lto = modify deserialize serialize cargo_toml (λ c. record c {
  profile = record c.profile { release = record c.profile.release { lto = lto } };
})
