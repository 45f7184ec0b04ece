-- ===== src/CargoToml.antt =====
-- Changes to `Cargo.toml`: `compiler/base/modify-cargo-toml/src/lib.rs`. The structs that its
-- functions declare are read and written as their serde attributes say.
pub mod Tables
pub mod Edition
pub mod Dependencies
pub mod CrateType
pub mod Lto
pub mod Requests
pub mod Kept
pub mod Wanted
pub mod Declared
pub mod Others
pub mod Compiled
use mathlib.Core.Option
use rust_playground.Base.{
  String, str_eq, Bool, true, false, Option, none, some, List, [], ◌∷◌, ◌++◌, if◌then◌else◌, any,
}

-- `?` and `unwrap`: what cannot be read ends the whole.
infixl 5 ◌>>=◌
abbrev pub ◌>>=◌ {ℓ κ} : {A : Type ℓ} {B : Type κ} → Option A → (A → Option B) → Option B
none >>= f = none
some a >>= f = f a

-- `toml::Value`; a number or a time is its text.
mutual
  pub data Value : Type 0 where
    text : String → Value
    scalar : String → Value
    boolean : Bool → Value
    array : Items → Value
    table : Table → Value

  pub data Items : Type 0 where
    nil : Items
    item : Value → Items → Items

  pub data Table : Type 0 where
    end : Table
    entry : String → Value → Table → Table

abbrev pub get : String → Table → Option Value
get k end = none
get k (entry j v t) = let rest = get k t in if str_eq j k then some v else rest

-- What `#[serde(flatten)]` collects: the entries of other names.
abbrev pub without : String → Table → Table
without k end = end
without k (entry j v t) = let rest = without k t in if str_eq j k then rest else entry j v rest

-- A field that must be there, and one with `#[serde(default)]`.
abbrev pub required {ℓ} : {A : Type ℓ} → (Value → Option A) → Option Value → Option A
required read none = none
required read (some v) = read v

abbrev pub default {ℓ} : {A : Type ℓ} → A → (Value → Option A) → Option Value → Option A
default d read none = some d
default d read (some v) = read v

abbrev pub read_text : Value → Option String
read_text (text s) = some s
read_text (scalar s) = none
read_text (boolean b) = none
read_text (array i) = none
read_text (table t) = none

abbrev pub read_boolean : Value → Option Bool
read_boolean (boolean b) = some b
read_boolean (text s) = none
read_boolean (scalar s) = none
read_boolean (array i) = none
read_boolean (table t) = none

abbrev pub read_table : Value → Option Table
read_table (table t) = some t
read_table (text s) = none
read_table (scalar s) = none
read_table (boolean b) = none
read_table (array i) = none

abbrev texts_of : Items → Option (List String)
texts_of nil = some []
texts_of (item v i) = let rest = texts_of i in do s ← read_text v; r ← rest; some (s ∷ r)

abbrev pub read_texts : Value → Option (List String)
read_texts (array i) = texts_of i
read_texts (text s) = none
read_texts (scalar s) = none
read_texts (boolean b) = none
read_texts (table t) = none

abbrev pub items : List String → Items
items [] = nil
items (s ∷ r) = item (text s) (items r)

-- `modify`: `none` is a panic of the `unwrap` on what was read.
unfoldable pub modify {ℓ} :
    {T : Type ℓ} → (Value → Option T) → (T → Value) → Value → (T → T) → Option Value
modify de ser cargo_toml f = Option.map (λ t. ser (f t)) (de cargo_toml)

unfoldable pub ensure_string_in_vec : List String → String → List String
ensure_string_in_vec values val =
    if any (λ f. str_eq f val) values then values else values ++ val ∷ []
