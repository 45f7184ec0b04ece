-- ===== src/Limits/Balance.antt =====
-- The permits and the gauges agree with what is waited for and held.
use rust_playground.Base.{
  some-injective, ℕ, zero, suc, ◌+◌, ◌≡◌, refl, subst, inl, inr, Option, none, some, arith,
  Option-cases,
}
use rust_playground.Limits.{
  Resource, Global, with_lifecycle, less_one, on_start, on_acquired, on_release, obtain, ask,
  abandon, give_back, Event, next_container, container_obtained, container_abandoned,
  container_dropped, container_requested, next_process, process_obtained, process_abandoned,
  process_dropped, begin_container, step, set_container, set_process, with_permits,
}

-- One kind of resource: permits that are free and held are the limit, the queue's gauge is the
-- number of waiting requests, and the gauge of the active ones the number that is held.
pub record IsBalanced (limit : ℕ) (r : Resource) : Type 0 where
  pub permitted : r.permits + r.held ≡ limit
  pub queued : r.gauges.queue.ups ≡ r.gauges.queue.downs + r.waiting
  pub running : r.gauges.active.ups ≡ r.gauges.active.downs + r.held

-- The states that the limits come to, by any events.
pub data Reachable (container_limit process_limit : ℕ) : Global → Type 0 where
  started : Reachable container_limit process_limit (with_lifecycle container_limit process_limit)
  later :
      {g h : Global} (e : Event)
      → Reachable container_limit process_limit g
      → step g e ≡ some h
      → Reachable container_limit process_limit h

less_one-some : (n m : ℕ) → less_one n ≡ some m → n ≡ suc m
less_one-some zero m h = cc
less_one-some (suc n) m h = cc

module _ (limit : ℕ) where
  ask-IsBalanced : (r : Resource) → IsBalanced limit r → IsBalanced limit (ask r)
  unfolding ask on_start
  ask-IsBalanced r b = record {
    permitted = b.permitted;
    queued = omega (arith, b.queued);
    running = b.running;
  }

  obtain-IsBalanced : (r s : Resource) → IsBalanced limit r → obtain r ≡ some s → IsBalanced limit s
  unfolding obtain on_acquired
  obtain-IsBalanced r s b h = elim (Option-cases (less_one r.permits)) [
    | inl e ↦ absurd (cc)
    | inr (p, e) ↦ elim (Option-cases (less_one r.waiting)) [
      | inl f ↦ absurd (cc)
      | inr (w, f) ↦ subst (IsBalanced limit) (some-injective (rw (obtain, e, f) at h)) (record {
        permitted = omega (arith, b.permitted, less_one-some r.permits p e);
        queued = omega (arith, b.queued, less_one-some r.waiting w f);
        running = omega (arith, b.running);
      })
    ]
  ]

  abandon-IsBalanced :
      (r s : Resource) → IsBalanced limit r → abandon r ≡ some s → IsBalanced limit s
  unfolding abandon on_acquired
  abandon-IsBalanced r s b h = elim (Option-cases (less_one r.waiting)) [
    | inl e ↦ absurd (cc)
    | inr (w, e) ↦ subst (IsBalanced limit) (some-injective (rw (abandon, e) at h)) (record {
      permitted = b.permitted;
      queued = omega (arith, b.queued, less_one-some r.waiting w e);
      running = b.running;
    })
  ]

  give_back-IsBalanced :
      (r s : Resource) → IsBalanced limit r → give_back r ≡ some s → IsBalanced limit s
  unfolding give_back on_release
  give_back-IsBalanced r s b h = elim (Option-cases (less_one r.held)) [
    | inl e ↦ absurd (cc)
    | inr (k, e) ↦ subst (IsBalanced limit) (some-injective (rw (give_back, e) at h)) (record {
      permitted = omega (arith, b.permitted, less_one-some r.held k e);
      queued = b.queued;
      running = omega (arith, b.running, less_one-some r.held k e);
    })
  ]

module _ (container_limit process_limit : ℕ) where
  -- Containers and processes are both balanced.
  abbrev pub Balanced : Global → Type 0
  Balanced g = IsBalanced container_limit g.container × IsBalanced process_limit g.process

  set_container-Balanced :
      (g h : Global) (o : Option Resource)
      → Balanced g
      → ((r : Resource) → o ≡ some r → IsBalanced container_limit r)
      → set_container g o ≡ some h
      → Balanced h
  set_container-Balanced g h none b f e = cc
  set_container-Balanced g h (some r) b f e = subst Balanced (some-injective e) (f r refl, b.1)

  set_process-Balanced :
      (g h : Global) (o : Option Resource)
      → Balanced g
      → ((r : Resource) → o ≡ some r → IsBalanced process_limit r)
      → set_process g o ≡ some h
      → Balanced h
  set_process-Balanced g h none b f e = cc
  set_process-Balanced g h (some r) b f e = subst Balanced (some-injective e) (b.0, f r refl)

  begin_container-Balanced : (g : Global) → Balanced g → Balanced (begin_container g)
  unfolding begin_container
  begin_container-Balanced g b =
      let asked = ask-IsBalanced container_limit g.container b.0 in
      elim (Option-cases (obtain (ask g.container))) [
        | inl e ↦ rw (begin_container, e) (asked, b.1)
        | inr (r, e) ↦
            rw (begin_container, e)
              (obtain-IsBalanced container_limit (ask g.container) r asked e, b.1)
      ]

  step-Balanced : (g h : Global) (e : Event) → Balanced g → step g e ≡ some h → Balanced h
  unfolding step
  step-Balanced g h next_container b q =
      subst Balanced (some-injective q) (begin_container-Balanced g b)
  step-Balanced g h container_obtained b q =
      set_container-Balanced g h (obtain g.container) b
        (λ r. obtain-IsBalanced container_limit g.container r b.0) q
  step-Balanced g h container_abandoned b q =
      set_container-Balanced g h (abandon g.container) b
        (λ r. abandon-IsBalanced container_limit g.container r b.0) q
  step-Balanced g h container_dropped b q =
      set_container-Balanced g h (give_back g.container) b
        (λ r. give_back-IsBalanced container_limit g.container r b.0) q
  step-Balanced g h container_requested b q = elim (Option-cases (less_one g.container_requests)) [
    | inl e ↦ absurd (cc)
    | inr (n, e) ↦ subst Balanced (some-injective (rw (step, e) at q)) b
  ]
  step-Balanced g h next_process b q =
      subst Balanced (some-injective q) (b.0, ask-IsBalanced process_limit g.process b.1)
  step-Balanced g h process_obtained b q =
      set_process-Balanced g h (obtain g.process) b
        (λ r. obtain-IsBalanced process_limit g.process r b.1) q
  step-Balanced g h process_abandoned b q =
      set_process-Balanced g h (abandon g.process) b
        (λ r. abandon-IsBalanced process_limit g.process r b.1) q
  step-Balanced g h process_dropped b q =
      set_process-Balanced g h (give_back g.process) b
        (λ r. give_back-IsBalanced process_limit g.process r b.1) q

  start-IsBalanced : (n : ℕ) → IsBalanced n (with_permits n)
  start-IsBalanced n = record { permitted = omega arith; queued = refl; running = refl }

  -- Whatever is asked for, waited for, given up and returned, in whatever order: no more containers
  -- and processes are held than the limits allow, no permit is lost, and the gauges of the web
  -- server show just how many requests wait and how many permits are held.
  pub Reachable-Balanced : {g : Global} → Reachable container_limit process_limit g → Balanced g
  Reachable-Balanced started =
      unfold with_lifecycle in (start-IsBalanced container_limit, start-IsBalanced process_limit)
  Reachable-Balanced (later {g} {h} e r q) = step-Balanced g h e (Reachable-Balanced r) q
