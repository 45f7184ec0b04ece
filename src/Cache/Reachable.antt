-- ===== src/Cache/Reachable.antt =====
-- The states that the cache's task comes to.
use rust_playground.Base.{
  ℕ, ◌≡◌, ◌≢◌, refl, subst, inl, inr, Bool, true, not, arith, Option, List, [], ◌∷◌, ◌++◌, Result,
  is_some, Bool-cases,
}
use rust_playground.Cache.{
  CacheError, CacheInfo, Task, Event, rx_closed, rx, expired, new, Handled, goes_on, panics,
  unwrap_or_empty, start, is_possible, handle,
}

module _ {T E : Type 0} (eq : T → T → Bool) where
  -- What a `new` event brings, the empty cache's error when the generator's task was lost.
  abbrev pub generated : Event T E → List (CacheInfo T E)
  generated rx_closed = []
  generated rx = []
  generated expired = []
  generated (new v now instant) = unwrap_or_empty now instant v ∷ []

  -- A task comes to another by events that are possible, with what was generated, newest first.
  pub data Steps (t : Task T E) : List (CacheInfo T E) → Task T E → Type 0 where
    here : Steps t [] t
    step :
        {is : List (CacheInfo T E)} {u v : Task T E} {answer : Option (Result T (CacheError E) × ℕ)}
        (e : Event T E)
        → Steps t is u
        → is_possible u e ≡ true
        → handle eq u e ≡ goes_on v answer
        → Steps t (generated e ++ is) v

  -- Either the timer runs or a value is being generated, and never both.
  abbrev pub IsTicking : Task T E → Type 0
  IsTicking t = t.new_value ≡ not (is_some t.cache_expired)

  pub goes_on-injective :
      {t u : Task T E} {a b : Option (Result T (CacheError E) × ℕ)}
      → ◌≡◌ {A = Handled T E} (goes_on t a) (goes_on u b)
      → t ≡ u
  goes_on-injective h = cc

  step-IsTicking :
      (t : Task T E) (e : Event T E) {u : Task T E} {a : Option (Result T (CacheError E) × ℕ)}
      → IsTicking t
      → handle eq t e ≡ goes_on u a
      → IsTicking u
  unfolding handle
  step-IsTicking t rx_closed h q = cc
  step-IsTicking t rx h q = subst IsTicking (goes_on-injective q) h
  step-IsTicking t expired h q = elim (Bool-cases t.new_value) [
    | inl e ↦ cc
    | inr e ↦ subst IsTicking (goes_on-injective (rw e at q)) refl
  ]
  step-IsTicking t (new v now instant) h q = elim (Bool-cases (is_some t.cache_expired)) [
    | inl e ↦ cc
    | inr e ↦ subst IsTicking (goes_on-injective (rw e at q)) refl
  ]

  not_panics :
      (t : Task T E) (e : Event T E) → IsTicking t → is_possible t e ≡ true → handle eq t e ≢ panics
  unfolding handle
  not_panics t rx_closed h p q = cc
  not_panics t rx h p q = cc
  not_panics t expired h p q = ground arith
  not_panics t (new v now instant) h p q = ground arith

  Steps-IsTicking :
      {t : Task T E} {is : List (CacheInfo T E)} {u : Task T E}
      → IsTicking t
      → Steps t is u
      → IsTicking u
  Steps-IsTicking h here = h
  Steps-IsTicking h (step {u} e s p q) = step-IsTicking u e (Steps-IsTicking h s) q

  -- Neither assertion of the task fails: after any events, an event that `select!` can give is
  -- handled without a panic.
  pub handle-not_panics :
      (now instant : ℕ) {is : List (CacheInfo T E)} {t : Task T E} (e : Event T E)
      → Steps (start now instant) is t
      → is_possible t e ≡ true
      → handle eq t e ≢ panics
  handle-not_panics now instant {t} e s p q =
      let first : IsTicking (start {T = T} {E = E} now instant) = unfold start in refl in
      not_panics t e (Steps-IsTicking first s) p q
