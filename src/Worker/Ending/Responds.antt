-- ===== src/Worker/Ending/Responds.antt =====
-- When a process ends with a response.
use rust_playground.Base.{
  ℕ, zero, suc, ◌≤◌, String, ◌≡◌, refl, sym, ap, subst, ◌∙◌, ◌↔◌, inl, inr, Bool, true, false,
  Option, none, some, List, [], ◌∷◌, Result, ok, err, length, take, All, arith, some-injective,
  none≢some, ok-injective, Option-cases,
}
use rust_playground.Message.{ExecuteCommandResponse}
use rust_playground.Worker.Ending.{
  ProcessError, ExitStatus, Joined, finished, failed, panicked, Event, cancelled, exited, joined,
  check_stdio, wait, join_rest, response, after_rest, after_wait, process_end,
}

-- The process exits with a status, after cancellations that could kill it and tasks that finished;
-- so many tasks are left.
pub data Exits : ℕ → List Event → ExitStatus → ℕ → Type 0 where
  now : (n : ℕ) (s : ExitStatus) (es : List Event) → Exits n (exited (ok s) ∷ es) s n
  killed :
      {n m : ℕ} {s : ExitStatus} {es : List Event}
      → Exits n es s m
      → Exits n (cancelled (ok tt) ∷ es) s m
  one_finished :
      {n m : ℕ} {s : ExitStatus} {es : List Event}
      → Exits n es s m
      → Exits (suc n) (joined finished ∷ es) s m

wait-Exits :
    (n : ℕ) (es : List Event) (s : ExitStatus) (m : ℕ)
    → wait n es ≡ some (ok (ok s, m))
    → Exits n es s m
unfolding wait check_stdio
wait-Exits n [] s m h = absurd (cc)
wait-Exits n (exited (ok t) ∷ es) s m h =
    let e = ok-injective (some-injective h) in
    let p = ok-injective (ap (λ (x : Result ExitStatus String × ℕ). x.0) e) in
    let q = ap (λ (x : Result ExitStatus String × ℕ). x.1) e in
    subst (λ x. Exits n (exited (ok t) ∷ es) x m) p
      (subst (λ k. Exits n (exited (ok t) ∷ es) t k) q (now n t es))
wait-Exits n (exited (err e) ∷ es) s m h = absurd (cc)
wait-Exits n (cancelled (ok u) ∷ es) s m h = killed (wait-Exits n es s m h)
wait-Exits n (cancelled (err e) ∷ es) s m h = absurd (cc)
wait-Exits zero (joined t ∷ es) s m h = absurd (cc)
wait-Exits (suc n) (joined finished ∷ es) s m h = one_finished (wait-Exits n es s m h)
wait-Exits (suc n) (joined (failed e) ∷ es) s m h = absurd (cc)
wait-Exits (suc n) (joined (panicked e) ∷ es) s m h = absurd (cc)

Exits-wait :
    {n : ℕ} {es : List Event} {s : ExitStatus} {m : ℕ}
    → Exits n es s m
    → wait n es ≡ some (ok (ok s, m))
unfolding wait check_stdio
Exits-wait (now n s es) = refl
Exits-wait (killed x) = Exits-wait x
Exits-wait (one_finished x) = Exits-wait x

-- So many tasks are there, and all finished.
abbrev pub AllFinish : ℕ → List Joined → Type 0
AllFinish n ts = (n ≤ length ts) × All (λ t. t ≡ finished) (take n ts)

join_rest-AllFinish :
    (n : ℕ) (ts : List Joined) (u : Unit {0}) → (join_rest n ts ≡ some (ok u)) ↔ AllFinish n ts
unfolding join_rest check_stdio
join_rest-AllFinish zero ts u = (λ h. (omega arith, tt), λ h. refl)
join_rest-AllFinish (suc n) [] u = (λ h. absurd (cc), λ h. absurd (omega arith))
join_rest-AllFinish (suc n) (finished ∷ ts) u =
    let ih = join_rest-AllFinish n ts u in
    (λ h. let (a, b) = ih.0 h in (omega arith, (refl, b)), λ (a, b). ih.1 (omega arith, b.1))
join_rest-AllFinish (suc n) (failed e ∷ ts) u =
    (λ h. absurd (cc), λ (a, b). absurd (let x = b.0 in cc))
join_rest-AllFinish (suc n) (panicked e ∷ ts) u =
    (λ h. absurd (cc), λ (a, b). absurd (let x = b.0 in cc))

module _ (decimal : ℕ → String) where
  -- The exit that a response is about.
  abbrev pub Ends : ExitStatus → ℕ → Bool → List Joined → Joined → ExecuteCommandResponse → Type 0
  Ends s m takes rest statistics v =
      (takes ≡ true) × AllFinish m rest × (statistics ≡ finished) × (response decimal s ≡ v)

  after_rest-ok :
      (s : ExitStatus) (t : Joined) (j : Option (Result (Unit {0}) ProcessError))
      (v : ExecuteCommandResponse)
      → (after_rest decimal s t j ≡ some (ok v))
        ↔ ((j ≡ some (ok tt)) × (t ≡ finished) × (response decimal s ≡ v))
  unfolding after_rest
  after_rest-ok s t none v = (λ h. absurd (none≢some h), λ (a, b, c). absurd (none≢some a))
  after_rest-ok s t (some (err e)) v = (λ h. absurd (cc), λ (a, b, c). absurd (cc))
  after_rest-ok s (failed e) (some (ok u)) v = (λ h. absurd (cc), λ (a, b, c). absurd (cc))
  after_rest-ok s (panicked e) (some (ok u)) v = (λ h. absurd (cc), λ (a, b, c). absurd (cc))
  after_rest-ok s finished (some (ok u)) v =
      (λ h. (refl, refl, ok-injective (some-injective h)), λ (a, b, c). ap (λ x. some (ok x)) c)

  after_wait-Ends :
      (w : Result (Result ExitStatus String × ℕ) ProcessError) (takes : Bool) (rest : List Joined)
      (t : Joined) (v : ExecuteCommandResponse)
      → (after_wait decimal w takes rest t ≡ some (ok v))
        ↔ ((s : ExitStatus) × (m : ℕ) × (w ≡ ok (ok s, m)) × Ends s m takes rest t v)
  unfolding after_wait
  after_wait-Ends (err e) takes rest t v = (λ h. absurd (cc), λ (s, m, a, r). absurd (cc))
  after_wait-Ends (ok (err e, m)) takes rest t v = (λ h. absurd (cc), λ (s, k, a, r). absurd (cc))
  after_wait-Ends (ok (ok s, m)) false rest t v =
      (λ h. absurd (cc), λ (s', k, a, (b, c, d, e)). absurd (cc))
  after_wait-Ends (ok (ok s, m)) true rest t v = (
    λ h.
        let (a, b, c) = (after_rest-ok s t (join_rest m rest) v).0 h in
        (s, m, refl, (refl, (join_rest-AllFinish m rest tt).0 a, b, c)),
    λ (s', k, a, (b, c, d, e)).
        let x = ok-injective a in
        let p = ok-injective (ap (λ (y : Result ExitStatus String × ℕ). y.0) x) in
        let q = ap (λ (y : Result ExitStatus String × ℕ). y.1) x in
        (after_rest-ok s t (join_rest m rest) v).1 (
          (join_rest-AllFinish m rest tt).1 (subst (λ i. AllFinish i rest) (sym q) c),
          d,
          ap (response decimal) p ∙ e,
        ),
  )

  -- A process ends with a response exactly when it exits with the status that the response is
  -- about, no task that was joined before or after failed or panicked, the shutdown of its standard
  -- input could be sent, and the task for the statistics finished.
  pub process_end-ok_iff :
      (n : ℕ) (es : List Event) (takes : Bool) (rest : List Joined) (t : Joined)
      (v : ExecuteCommandResponse)
      → (process_end decimal n es takes rest t ≡ some (ok v))
        ↔ ((s : ExitStatus) × (m : ℕ) × Exits n es s m × Ends s m takes rest t v)
  unfolding process_end
  process_end-ok_iff n es takes rest t v = elim (Option-cases (wait n es)) [
    | inl e ↦
        rw (process_end, e)
          (λ h. absurd (none≢some h), λ (s, m, x, r). absurd (none≢some (sym e ∙ Exits-wait x)))
    | inr (w, e) ↦
        rw (process_end, e)
          (
            λ h.
                let (s, m, a, r) = (after_wait-Ends w takes rest t v).0 h in
                (s, m, wait-Exits n es s m (e ∙ ap some a), r),
            λ (s, m, x, r).
                (after_wait-Ends w takes rest t v).1
                  (s, m, some-injective (sym e ∙ Exits-wait x), r),
          )
  ]
