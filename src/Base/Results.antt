-- ===== src/Base/Results.antt =====
-- Rust's `Result`, with `?` as bind.
use mathlib.Core.Path.{◌≡◌, refl}
use mathlib.Core.Bool.{Bool, true, false}

pub data Result {ℓ κ} (A : Type ℓ) (E : Type κ) : Type (ℓ ⊔ κ) where
  ok : A → Result A E
  err : E → Result A E

infixl 5 ◌>>=◌
abbrev pub ◌>>=◌ {ℓ κ μ} :
    {A : Type ℓ} {B : Type κ} {E : Type μ} → Result A E → (A → Result B E) → Result B E
ok a >>= f = f a
err e >>= f = err e

abbrev pub map_err {ℓ κ μ} :
    {A : Type ℓ} {E : Type κ} {F : Type μ} → (E → F) → Result A E → Result A F
map_err f (ok a) = ok a
map_err f (err e) = err (f e)

abbrev pub is_ok {ℓ κ} : {A : Type ℓ} {E : Type κ} → Result A E → Bool
is_ok (ok a) = true
is_ok (err e) = false

-- A chain went well only if its first step did, and so did the rest after it.
module _ {ℓ κ μ} {S : Type ℓ} {T : Type κ} {E : Type μ} where
  pub split-ok :
      (first : Result S E) (rest : S → Result T E) {last : T}
      → (first >>= rest) ≡ ok last
      → (s : S) × (first ≡ ok s) × (rest s ≡ ok last)
  split-ok (err e) rest went = absurd (cc)
  split-ok (ok s) rest went = (s, refl, went)

  pub map_err-ok : (change : S → T) (r : Result E S) {e : E} → map_err change r ≡ ok e → r ≡ ok e
  map_err-ok change (err s) went = absurd (cc)
  map_err-ok change (ok e) went = cc

module _ {ℓ μ} {S : Type ℓ} {E : Type μ} where
  pub ok-injective : {s t : S} → ◌≡◌ {A = Result S E} (ok s) (ok t) → s ≡ t
  ok-injective went = cc
