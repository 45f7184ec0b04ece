-- ===== src/WebSocket/Session/Exclusive.antt =====
-- One execution at a time.
use rust_playground.Base.{
  ℕ, suc, ◌<◌, ◌≡◌, refl, ◌∙◌, subst, sym, Bool, true, false, not, Option, none, some, List, [],
  ◌∷◌, ◌++◌, any, any-append, keep, ltb, ◌==◌, ◌||◌, String, Bool-cases, inl, inr, arith,
}
use rust_playground.WebSocket.Manager.{Manager, ManagerError, manager, abort, spawn, join_next}
use rust_playground.WebSocket.Session.{Session, ActiveExecution, start}
use rust_playground.WebSocket.Session.Changes.{
  Reaches, started, later, Change, keeps, joins, drops, starts, handle-Changes,
}

abbrev pub has : ℕ → List ℕ → Bool
has j js = any (λ i. i == j) js

abbrev pub spawned_before : Option ℕ → ℕ
spawned_before none = 0
spawned_before (some j) = suc j

-- Just the tasks before the newest were aborted, and the newest can be.
pub record IsExclusive (m : Manager) : Type 0 where
  pub newest : spawned_before m.abort_handle ≡ m.spawned
  pub aborts : (j : ℕ) → has j m.aborted ≡ ltb (suc j) m.spawned
  pub known : (j : ℕ) → has j m.tasks ≡ true → j < m.spawned

spawn_aborts :
    (h : Option ℕ) (js : List ℕ) (n : ℕ)
    → spawned_before h ≡ n
    → ((j : ℕ) → has j js ≡ ltb (suc j) n)
    → (j : ℕ) → has j (abort h js) ≡ ltb (suc j) (suc n)
spawn_aborts none js n p f j = let q = f j in ground arith
spawn_aborts (some i) js n p f j = let q = f j in ground arith

spawn_known :
    (js : List ℕ) (n : ℕ)
    → ((j : ℕ) → has j js ≡ true → j < n)
    → (j : ℕ) → has j (js ++ (n ∷ [])) ≡ true
    → j < suc n
spawn_known js n f j h =
    let q : (has j js || ((n == j) || false)) ≡ true =
      sym (any-append (λ i. i == j) js (n ∷ [])) ∙ h in
    elim (Bool-cases (has j js)) [
      | inl a ↦ let l = f j a in omega arith
      | inr a ↦ let r = rw a at q in ground arith
    ]

spawn-IsExclusive : (m : Manager) → IsExclusive m → IsExclusive (spawn m)
unfolding spawn
spawn-IsExclusive m x = record {
  newest = refl;
  aborts = spawn_aborts m.abort_handle m.aborted m.spawned x.newest x.aborts;
  known = spawn_known m.tasks m.spawned x.known;
}

has-keep : (p : ℕ → Bool) (j : ℕ) (js : List ℕ) → has j (keep p js) ≡ true → has j js ≡ true
has-keep p j [] h = h
has-keep p j (i ∷ js) h = elim (Bool-cases (i == j)) [
  | inl e ↦ rw e refl
  | inr e ↦ elim (Bool-cases (p i)) [
    | inl q ↦ rw e (has-keep p j js (rw (q, e) at h))
    | inr q ↦ rw e (has-keep p j js (rw q at h))
  ]
]

join_next-IsExclusive : (i : ℕ) (m : Manager) → IsExclusive m → IsExclusive (join_next i m)
unfolding join_next
join_next-IsExclusive i m x = record {
  newest = x.newest;
  aborts = x.aborts;
  known = λ j h. x.known j (has-keep (λ k. not (k == i)) j m.tasks h);
}

Change-IsExclusive :
    {m n : Manager} {xs ys : List ActiveExecution} {js ks : List ℕ}
    → Change m xs js n ys ks
    → IsExclusive m
    → IsExclusive n
Change-IsExclusive (keeps p q r) x = subst IsExclusive (sym p) x
Change-IsExclusive {m} (joins j p q r) x = subst IsExclusive (sym p) (join_next-IsExclusive j m x)
Change-IsExclusive (drops k p q r) x = subst IsExclusive (sym p) x
Change-IsExclusive {m} (starts k p q r) x = subst IsExclusive (sym p) (spawn-IsExclusive m x)

nothing_before : (j : ℕ) → false ≡ ltb (suc j) 0
nothing_before j = ground arith

-- Of the executions of a session, however its events interleave, exactly those before the newest
-- have been aborted; a task that still runs is one of those that were spawned. So at most one
-- execution, the newest, runs on without having been aborted.
pub Reaches-IsExclusive :
    {describe : ManagerError → List String} {s : Session}
    → Reaches describe s
    → IsExclusive s.manager
unfolding start manager
Reaches-IsExclusive (started flags) = record {
  newest = refl;
  aborts = nothing_before;
  known = λ j h. cc;
}
Reaches-IsExclusive {describe} (later {s} {t} e r p h) =
    Change-IsExclusive (handle-Changes describe e s h) (Reaches-IsExclusive r)
