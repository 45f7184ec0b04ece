-- ===== src/Base/Maps.antt =====
-- Rust's maps from numbers, which the program reads and writes at one key at a time.
use Prim.Native.Nat.{ℕ}
use mathlib.Core.Bool.{Bool, true, false}
use mathlib.Core.Option.{Option, none, some}
use rust_playground.Base.Tests.{◌==◌, if◌then◌else◌}

abbrev pub Map {ℓ} : Type ℓ → Type ℓ
Map V = ℕ → Option V

module _ {ℓ} {V : Type ℓ} where
  abbrev pub insert : ℕ → V → Map V → Map V
  insert k v m j = if k == j then some v else m j

  abbrev pub remove : ℕ → Map V → Map V
  remove k m j = if k == j then none else m j

  abbrev keep_if : (V → Bool) → Option V → Option V
  keep_if p none = none
  keep_if p (some v) = if p v then some v else none

  -- `retain`, with a test on the values.
  abbrev pub retain : (V → Bool) → Map V → Map V
  retain p m j = keep_if p (m j)

abbrev pub empty_map {ℓ} : {V : Type ℓ} → Map V
empty_map k = none

abbrev pub is_some {ℓ} : {V : Type ℓ} → Option V → Bool
is_some none = false
is_some (some v) = true
