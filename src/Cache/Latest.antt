-- ===== src/Cache/Latest.antt =====
-- What the cache holds after any events.
use rust_playground.Base.{
  some-injective, ℕ, ◌≡◌, refl, sym, subst, ap, ◌∙◌, inl, inr, Bool, true, Option, none, some, List,
  [], ◌∷◌, Result, ok, err, ◌⊎◌, is_some, Bool-cases, Option-cases, ◌≢◌, All,
}
use rust_playground.Cache.{
  CacheError, empty, CacheInfo, Task, Event, rx_closed, rx, expired, new, goes_on, unwrap_or_empty,
  cache_ttl, start, handle, sandbox_cache_initial_delay, combine, try_combine_with_previous,
  stamped_value,
}
use rust_playground.Cache.Reachable.{generated, Steps, here, step, goes_on-injective}

some≢none : {T : Type 0} {a : T} → ◌≢◌ {A = Option T} (some a) none
some≢none h = cc

module _ {T E : Type 0} where
  abbrev pub or_value : Result T (CacheError E) → Option T → Option T
  or_value (ok a) o = some a
  or_value (err e) o = o

  -- The last value that was generated well, of what was generated, newest first.
  abbrev pub newest_ok : List (CacheInfo T E) → Option T
  newest_ok [] = none
  newest_ok (i ∷ is) = or_value i.value (newest_ok is)

  -- The last that was generated, the error of an empty cache when nothing was.
  abbrev pub newest : List (CacheInfo T E) → Result T (CacheError E)
  newest [] = err empty
  newest (i ∷ is) = i.value

  -- What a client should be given.
  abbrev pub best : List (CacheInfo T E) → Result T (CacheError E)
  best is = elim (newest_ok is) [ none ↦ newest is | some a ↦ ok a ]

  -- What was generated does not contradict a value: it is an error, or an equal value.
  abbrev pub Confirms : (T → T → Bool) → T → Result T (CacheError E) → Type 0
  Confirms eq a (ok b) = eq a b ≡ true
  Confirms eq a (err e) = Unit {0}

  err≢ok : {e : CacheError E} {a : T} → ◌≢◌ {A = Result T (CacheError E)} (err e) (ok a)
  err≢ok h = cc

  newest-not_ok : (is : List (CacheInfo T E)) {a : T} → newest_ok is ≡ none → newest is ≢ ok a
  newest-not_ok [] n h = err≢ok h
  newest-not_ok (i ∷ is) n h = some≢none (rw h at n)

  module _ (eq : T → T → Bool) (eq_sound : (a b : T) → eq a b ≡ true → a ≡ b) where
    combine-best :
        (i old : CacheInfo T E) (is : List (CacheInfo T E)) (v w : Result T (CacheError E))
        → old.value ≡ v
        → i.value ≡ w
        → v ≡ best is
        → (combine eq i old v w).value ≡ best (i ∷ is)
    combine-best i old is (err e) (ok b) p q h = rw q refl
    combine-best i old is (err e) (err f) p q h = elim (Option-cases (newest_ok is)) [
      | inl n ↦ rw (q, best, n) (sym q)
      | inr (a, n) ↦ absurd (err≢ok (rw (best, n) at h))
    ]
    combine-best i old is (ok a) (err f) p q h = elim (Option-cases (newest_ok is)) [
      | inl n ↦ absurd (newest-not_ok is n (sym (rw (best, n) at h)))
      | inr (b, n) ↦ rw (q, best, n) (p ∙ (rw (best, n) at h))
    ]
    combine-best i old is (ok a) (ok b) p q h = elim (Bool-cases (eq a b)) [
      | inl e ↦ rw (e, q) (p ∙ ap ok (eq_sound a b e))
      | inr e ↦ rw (e, q) refl
    ]

  combine-Confirms :
      (eq : T → T → Bool) (a : T) (i old : CacheInfo T E) (w : Result T (CacheError E))
      → Confirms eq a w
      → stamped_value (combine eq i old (ok a) w) ≡ stamped_value old
  combine-Confirms eq a i old (ok b) c = rw c refl
  combine-Confirms eq a i old (err f) c = refl

module _ {T E : Type 0} (eq : T → T → Bool) where
  -- An event changes what is cached only by what it brings.
  handle-cached :
      (t : Task T E) (e : Event T E) {u : Task T E} {a : Option (Result T (CacheError E) × ℕ)}
      → handle eq t e ≡ goes_on u a
      → ((generated eq e ≡ [])
          × (u.cached_value ≡ t.cached_value)
          × ((u.cache_expired ≡ t.cache_expired) ⊎ (u.cache_expired ≡ none)))
        ⊎ ((i : CacheInfo T E) × (generated eq e ≡ i ∷ [])
            × (u.cached_value ≡ combine eq i t.cached_value t.cached_value.value i.value)
            × (u.cache_expired ≡ some (cache_ttl u.cached_value)))
  unfolding handle try_combine_with_previous
  handle-cached t rx_closed h = cc
  handle-cached t rx h =
      (let same = sym (goes_on-injective eq h) in
        inl (
          refl,
          ap (λ (t : Task T E). t.cached_value) same,
          inl (ap (λ (t : Task T E). t.cache_expired) same),
        ))
  handle-cached t expired h = elim (Bool-cases t.new_value) [
    | inl e ↦ cc
    | inr e ↦
        (let same = sym (goes_on-injective eq (rw e at h)) in
          inl (
            refl,
            ap (λ (t : Task T E). t.cached_value) same,
            inr (ap (λ (t : Task T E). t.cache_expired) same),
          ))
  ]
  handle-cached t (new v now instant) h = elim (Bool-cases (is_some t.cache_expired)) [
    | inl e ↦ cc
    | inr e ↦
        let same = sym (goes_on-injective eq (rw e at h)) in
        inr (
          unwrap_or_empty now instant v,
          refl,
          ap (λ (t : Task T E). t.cached_value) same,
          subst (λ (t : Task T E). t.cache_expired ≡ some (cache_ttl t.cached_value)) (sym same)
              refl,
        )
  ]

  -- Provided that the equality test holds of equal values only: however events interleave, the
  -- cache holds the last value that was generated well, or when
  -- there was none the last error, or when nothing was generated the error of an empty cache.
  pub cached-best :
      ((a b : T) → eq a b ≡ true → a ≡ b)
      → (now instant : ℕ) {is : List (CacheInfo T E)} {t : Task T E}
      → Steps eq (start now instant) is t
      → t.cached_value.value ≡ best is
  cached-best eq_sound now instant here = unfold start in refl
  cached-best eq_sound now instant (step {is} {u} {v} e s p q) =
      let before = cached-best eq_sound now instant s in
      elim (handle-cached u e q) [
        | inl (none_new, same, timer) ↦ rw (none_new, same) before
        | inr (i, one_new, same, ttl) ↦
            rw (one_new, same)
              (combine-best eq eq_sound i u.cached_value is u.cached_value.value i.value refl refl
                before)
      ]

  -- While what is generated is errors or equal values, clients are given the same value with the
  -- same time stamp.
  stamped-steady :
      {t u : Task T E} {is : List (CacheInfo T E)} (a : T)
      → t.cached_value.value ≡ ok a
      → Steps eq t is u
      → All (λ (i : CacheInfo T E). Confirms eq a i.value) is
      → stamped_value u.cached_value ≡ stamped_value t.cached_value
  stamped-steady a good here c = refl
  stamped-steady {t} a good (step {is} {u} {v} e s p q) c = elim (handle-cached u e q) [
    | inl (none_new, same, timer) ↦ rw same (stamped-steady a good s (rw none_new at c))
    | inr (i, one_new, same, ttl) ↦
        let d = rw one_new at c in
        let before = stamped-steady a good s d.1 in
        let held : u.cached_value.value ≡ ok a = ap (λ p. p.0) before ∙ good in
        rw same (
          subst
            (λ w.
              stamped_value (combine eq i u.cached_value w i.value) ≡ stamped_value u.cached_value)
            (sym held) (combine-Confirms eq a i u.cached_value i.value d.0)
          ∙ before)
  ]

  -- The timer that runs is that of the value in the cache, ten minutes for a good value and ten
  -- seconds for an error, unless nothing was generated yet.
  pub cache_expired-ttl :
      (now instant : ℕ) {is : List (CacheInfo T E)} {t : Task T E} (d : ℕ)
      → Steps eq (start now instant) is t
      → t.cache_expired ≡ some d
      → (d ≡ cache_ttl t.cached_value) ⊎ ((is ≡ []) × (d ≡ sandbox_cache_initial_delay))
  unfolding start
  cache_expired-ttl now instant d here h = inr (refl, some-injective (sym h))
  cache_expired-ttl now instant d (step {is} {u} {v} e s p q) h = elim (handle-cached u e q) [
    | inl (none_new, same, inl kept) ↦
        rw (none_new, same) (cache_expired-ttl now instant d s (sym kept ∙ h))
    | inl (none_new, same, inr stopped) ↦ absurd (some≢none (sym h ∙ stopped))
    | inr (i, one_new, same, ttl) ↦ inl (some-injective (sym h ∙ ttl))
  ]
