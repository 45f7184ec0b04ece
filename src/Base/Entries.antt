-- ===== src/Base/Entries.antt =====
-- What a map's operations do to an entry.
use Prim.Native.Nat.{ℕ}
use mathlib.Core.Path.{◌≡◌, ◌∙◌}
use mathlib.Core.Logic.{◌≢◌, inl, inr}
use mathlib.Core.Bool.{Bool, false}
use mathlib.Core.Option.{Option, none, some}
use native.Mathlib.Omega.{arith}
use rust_playground.Base.Tests.{◌==◌, Bool-cases, Option-cases}
use rust_playground.Base.Maps.{Map, insert, remove, retain}

pub some-injective {ℓ} : {A : Type ℓ} {a b : A} → ◌≡◌ {A = Option A} (some a) (some b) → a ≡ b
some-injective h = cc

pub none≢some {ℓ} : {A : Type ℓ} {a : A} → ◌≢◌ {A = Option A} none (some a)
none≢some h = cc

pub ≢→== : (a b : ℕ) → a ≢ b → (a == b) ≡ false
≢→== a b h = ground arith

pub insert_other : (k w j : ℕ) (m : Map ℕ) → k ≢ j → insert k w m j ≡ m j
insert_other k w j m h = ground arith

pub insert_own : (k w c i : ℕ) (m : Map ℕ) → w ≢ c → insert k w m i ≡ some c → m i ≡ some c
insert_own k w c i m h e = elim (Bool-cases (k == i)) [
  | inl f ↦ absurd (h (some-injective (rw f at e)))
  | inr f ↦ rw f at e
]

pub remove_own : (k c i : ℕ) (m : Map ℕ) → remove k m i ≡ some c → m i ≡ some c
remove_own k c i m e = elim (Bool-cases (k == i)) [
  | inl f ↦ absurd (none≢some (rw f at e))
  | inr f ↦ rw f at e
]

pub retain_own : (p : ℕ → Bool) (c i : ℕ) (m : Map ℕ) → retain p m i ≡ some c → m i ≡ some c
retain_own p c i m e = elim (Option-cases (m i)) [
  | inl f ↦ absurd (none≢some (rw f at e))
  | inr (v, f) ↦ elim (Bool-cases (p v)) [
    | inl g ↦ f ∙ (rw (f, g) at e)
    | inr g ↦ absurd (none≢some (rw (f, g) at e))
  ]
]

pub remove-none : (k j : ℕ) (m : Map ℕ) → m j ≡ none → remove k m j ≡ none
remove-none k j m h = ground arith
