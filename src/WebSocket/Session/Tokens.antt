-- ===== src/WebSocket/Session/Tokens.antt =====
-- The tokens of the executions.
use rust_playground.Base.{
  count, count-append, ℕ, suc, ◌+◌, ◌≡◌, refl, Bool, not, List, [], ◌∷◌, keep, ltb, ◌==◌, String,
  Bool-cases, inl, inr, arith, if◌then◌else◌,
}
use rust_playground.WebSocket.Manager.{Manager, ManagerError, manager, spawn, join_next}
use rust_playground.WebSocket.Session.{Session, ActiveExecution, start}
use rust_playground.WebSocket.Session.Changes.{
  Reaches, started, later, Change, keeps, joins, drops, starts, handle-Changes, jobs,
}

count-keep :
    (j : ℕ) (p : ActiveExecution → Bool) (xs : List ActiveExecution)
    → count j (jobs (keep p xs)) + count j (jobs (keep (λ a. not (p a)) xs)) ≡ count j (jobs xs)
count-keep j p [] = refl
count-keep j p (x ∷ xs) =
    let rest = count-keep j p xs in
    elim (Bool-cases (p x)) [ inl h ↦ rw h (omega arith) | inr h ↦ rw h (omega arith) ]

-- Every execution that was spawned is either active, once, or cancelled, once.
pub IsAccounted : Session → Type 0
IsAccounted s =
    (j : ℕ)
    → count j (jobs s.active) + count j s.cancelled ≡ (if ltb j s.manager.spawned then 1 else 0)

one_more :
    (a b c e n j : ℕ)
    → a + b ≡ c
    → c + e ≡ (if ltb j n then 1 else 0)
    → ((if n == j then 1 else 0) + a) + (b + e) ≡ (if ltb j (suc n) then 1 else 0)
one_more a b c e n j p q = ground arith

none_before : (j : ℕ) → ◌≡◌ {A = ℕ} 0 (if ltb j 0 then 1 else 0)
none_before j = ground arith

Change-IsAccounted :
    {m n : Manager} {xs ys : List ActiveExecution} {js ks : List ℕ} (j : ℕ)
    → Change m xs js n ys ks
    → count j (jobs xs) + count j js ≡ (if ltb j m.spawned then 1 else 0)
    → count j (jobs ys) + count j ks ≡ (if ltb j n.spawned then 1 else 0)
unfolding spawn join_next
Change-IsAccounted j (keeps p q r) x = rw (p, q, r) x
Change-IsAccounted j (joins i p q r) x = rw (p, q, r) x
Change-IsAccounted {xs} {js} j (drops k p q r) x =
    rw (p, q, r, count-append) (let c = count-keep j k xs in omega arith)
Change-IsAccounted {m} {xs} {js} j (starts k p q r) x =
    rw (p, q, r, count-append) (one_more _ _ _ _ m.spawned j (count-keep j k xs) x)

-- In every session, however its events interleave, each execution that was spawned is either among
-- the active ones, just once, or its token was cancelled, just once; and there are no others. So a
-- token is cancelled exactly when its execution leaves the active ones.
pub Reaches-IsAccounted :
    {describe : ManagerError → List String} {s : Session} → Reaches describe s → IsAccounted s
unfolding start manager IsAccounted
Reaches-IsAccounted (started flags) = none_before
Reaches-IsAccounted {describe} (later {s} {t} e r p h) =
    λ j. Change-IsAccounted j (handle-Changes describe e s h) (Reaches-IsAccounted r j)
