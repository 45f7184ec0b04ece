-- ===== src/Coordinator/Current.antt =====
-- Which containers a coordinator holds on to.
use rust_playground.Base.{
  ℕ, suc, ◌<◌, ◌≡◌, refl, sym, ap, subst, ◌∙◌, Bool, true, false, Option, none, some, List, [], ◌∷◌,
  All, Result, ok, none≢some, some-injective, arith, any, ◌==◌, ==-refl,
}
use rust_playground.Request.{Channel, stable, beta, nightly}
use rust_playground.Coordinator.{
  Container, Coordinator, coordinator, cell, set_cell, started, get_or_try_init, select_channel,
  Shutdown, stops, fails_at_once, fails_later, poll_cell, renewed, idle,
}

abbrev pub starts_well : {E : Type 0} → Shutdown E → Bool
starts_well stops = true
starts_well (fails_later e) = true
starts_well (fails_at_once e) = false

-- The states of a coordinator whose shutdowns never fail at once.
pub data Reaches (E : Type 0) : Coordinator → Type 0 where
  new : Reaches E coordinator
  selects :
      {s : Coordinator} (e : Option E) (channel : Channel)
      → Reaches E s
      → Reaches E (select_channel e channel s).1
  idles :
      {s : Coordinator} (o : Channel → Shutdown E)
      → ((c : Channel) → starts_well (o c) ≡ true)
      → Reaches E s
      → Reaches E (idle o s).1

-- Every container that is held has the coordinator's own token, and that is not cancelled.
pub record IsCurrent (s : Coordinator) : Type 0 where
  pub own_token : (channel : Channel) (c : Container) → cell channel s ≡ some c → c.token ≡ s.token
  pub not_cancelled : All (λ t. t < s.token) s.cancelled

set_cell-same :
    (channel : Channel) (s : Coordinator) → cell channel s ≡ none → set_cell channel none s ≡ s
set_cell-same stable s h = ap (λ c. record s { stable_cell = c }) (sym h)
set_cell-same beta s h = ap (λ c. record s { beta_cell = c }) (sym h)
set_cell-same nightly s h = ap (λ c. record s { nightly_cell = c }) (sym h)

module _ {E : Type 0} where
  polled :
      (channel : Channel) (o : Shutdown E) (s : Coordinator) (c : Option Container)
      (rest : Coordinator → Result (Unit {0}) E × Coordinator)
      → cell channel s ≡ c
      → starts_well o ≡ true
      → (poll_cell channel o s c rest).1 ≡ (rest (set_cell channel none s)).1
  polled channel o s none rest h w = ap (λ t. (rest t).1) (sym (set_cell-same channel s h))
  polled channel stops s (some c) rest h w = refl
  polled channel (fails_later e) s (some c) rest h w = refl
  polled channel (fails_at_once e) s (some c) rest h w = absurd cc

  idle-empty :
      (s : Coordinator) (o : Channel → Shutdown E)
      → ((c : Channel) → starts_well (o c) ≡ true)
      → (idle o s).1 ≡ record s {
        stable_cell = none;
        beta_cell = none;
        nightly_cell = none;
        token = suc s.token;
        cancelled = s.token ∷ s.cancelled;
      }
  unfolding idle
  idle-empty s o h =
      polled stable (o stable) (renewed s) s.stable_cell _ refl (h stable)
      ∙ polled beta (o beta) (record (renewed s) { stable_cell = none }) s.beta_cell _ refl (h beta)
      ∙ polled nightly (o nightly) (record (renewed s) { stable_cell = none; beta_cell = none })
          s.nightly_cell _ refl (h nightly)

All-later : (n : ℕ) (ts : List ℕ) → All (λ t. t < n) ts → All (λ t. t < suc n) ts
All-later n [] h = tt
All-later n (t ∷ ts) (a, h) = (omega arith, All-later n ts h)

-- A container in a cell that was just set, or in another cell, has the token.
set_cell-own :
    (channel : Channel) (s : Coordinator) (x : Container)
    → x.token ≡ s.token
    → ((k : Channel) (c : Container) → cell k s ≡ some c → c.token ≡ s.token)
    → (k : Channel) (c : Container) → cell k (set_cell channel (some x) s) ≡ some c
    → c.token ≡ s.token
set_cell-own stable s x p h stable c q = subst (λ c. c.token ≡ s.token) (some-injective q) p
set_cell-own stable s x p h beta c q = h beta c q
set_cell-own stable s x p h nightly c q = h nightly c q
set_cell-own beta s x p h stable c q = h stable c q
set_cell-own beta s x p h beta c q = subst (λ c. c.token ≡ s.token) (some-injective q) p
set_cell-own beta s x p h nightly c q = h nightly c q
set_cell-own nightly s x p h stable c q = h stable c q
set_cell-own nightly s x p h beta c q = h beta c q
set_cell-own nightly s x p h nightly c q = subst (λ c. c.token ≡ s.token) (some-injective q) p

set_cell-IsCurrent :
    (channel : Channel) (s : Coordinator) (x : Container)
    → x.token ≡ s.token
    → IsCurrent s
    → IsCurrent (set_cell channel (some x) s)
set_cell-IsCurrent stable s x p h = record {
  own_token = set_cell-own stable s x p h.own_token;
  not_cancelled = h.not_cancelled;
}
set_cell-IsCurrent beta s x p h = record {
  own_token = set_cell-own beta s x p h.own_token;
  not_cancelled = h.not_cancelled;
}
set_cell-IsCurrent nightly s x p h = record {
  own_token = set_cell-own nightly s x p h.own_token;
  not_cancelled = h.not_cancelled;
}

counted-own :
    (s : Coordinator)
    → ((k : Channel) (c : Container) → cell k s ≡ some c → c.token ≡ s.token)
    → (k : Channel) (c : Container) → cell k (record s { containers = suc s.containers }) ≡ some c
    → c.token ≡ s.token
counted-own s h stable c q = h stable c q
counted-own s h beta c q = h beta c q
counted-own s h nightly c q = h nightly c q

-- Where the cells are empty.
none-own :
    (s : Coordinator)
    → s.stable_cell ≡ none
    → s.beta_cell ≡ none
    → s.nightly_cell ≡ none
    → (k : Channel) (c : Container) → cell k s ≡ some c
    → c.token ≡ s.token
none-own s a b d stable c q = absurd (none≢some (sym a ∙ q))
none-own s a b d beta c q = absurd (none≢some (sym b ∙ q))
none-own s a b d nightly c q = absurd (none≢some (sym d ∙ q))

get_or_try_init-IsCurrent :
    {E : Type 0} (e : Option E) (channel : Channel) (s : Coordinator) (c : Option Container)
    → IsCurrent s
    → IsCurrent (get_or_try_init e channel s c).1
unfolding get_or_try_init
get_or_try_init-IsCurrent e channel s (some c) h = h
get_or_try_init-IsCurrent none channel s none h =
    set_cell-IsCurrent channel (record s { containers = suc s.containers }) (started s) refl
      (record { own_token = counted-own s h.own_token; not_cancelled = h.not_cancelled })
get_or_try_init-IsCurrent (some e) channel s none h = h

-- As long as no shutdown fails when it is first polled: whatever channels are asked for and
-- whenever the coordinator idles, every container that it holds was given its present token, and
-- that token has not been cancelled, also where containers fail to start or to shut down.
pub Reaches-IsCurrent : {E : Type 0} {s : Coordinator} → Reaches E s → IsCurrent s
unfolding coordinator select_channel
Reaches-IsCurrent new = record { own_token = none-own _ refl refl refl; not_cancelled = tt }
Reaches-IsCurrent (selects {s} e channel r) =
    get_or_try_init-IsCurrent e channel s (cell channel s) (Reaches-IsCurrent r)
Reaches-IsCurrent (idles {s} o w r) = subst IsCurrent (sym (idle-empty s o w)) (record {
  own_token = none-own _ refl refl refl;
  not_cancelled = (omega arith, All-later s.token s.cancelled (Reaches-IsCurrent r).not_cancelled);
})

idle-left :
    {E : Type 0} (e : E) (o : Channel → Shutdown E) (s : Coordinator) (c : Container)
    → o stable ≡ fails_at_once e
    → s.stable_cell ≡ some c
    → (idle o s).1 ≡ record (renewed s) { stable_cell = none }
unfolding idle
idle-left e o s c p h = rw (h, p) refl

-- When the shutdown of the stable container fails at its first poll, idling leaves the beta
-- container where it was: the next request for that channel is given it again, although its token
-- has been cancelled.
pub idle-stale :
    {E : Type 0} (e : E) (o : Channel → Shutdown E) {s : Coordinator} (c d : Container)
    → Reaches E s
    → o stable ≡ fails_at_once e
    → s.stable_cell ≡ some c
    → s.beta_cell ≡ some d
    → (select_channel {E = E} none beta (idle o s).1 ≡ (ok d, (idle o s).1))
      × (any (λ t. t == d.token) (idle o s).1.cancelled ≡ true)
unfolding select_channel get_or_try_init
idle-stale e o {s} c d r p h b =
    let q = idle-left e o s c p h in
    let own = (Reaches-IsCurrent r).own_token beta d b in
    (rw (q, b) refl, rw (q, own, ==-refl) refl)
