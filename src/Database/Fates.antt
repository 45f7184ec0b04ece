-- ===== src/Database/Fates.antt =====
-- What becomes of a request in the record.
use rust_playground.Base.{
  ℕ, ◌≡◌, refl, sym, ap, ◌∙◌, subst, Bool, true, false, Option, none, some, Map, insert, remove,
  String, Bool-cases, Option-cases, ==→eq, ◌==◌, none≢some, some-injective, inl, inr, if◌then◌else◌,
  ◌&&◌,
}
use rust_playground.Database.{
  How, abandoned_how, Row, EndGuardInner, State, Link, Event, starts, completes, drops, ends, step,
  update, drop_inner, handle_start, handle_end, start_request, end_request, start_with_guard,
  let_go, run_ending,
}
use rust_playground.Database.Accounts.{
  FateStep, stays, begins, finishes, fates, held, to_end, ended, IsAccounted, unused-ending,
  Held-of, Ends-of,
}

-- A step that keeps the accounts and is a step of the fates.
pub record Refines (s t : State) : Type 0 where
  pub accounts : IsAccounted t
  pub abstract_step : FateStep (fates s) (fates t)

starts-Refines :
    (s : State) (id : ℕ) (r : Row) (g : EndGuardInner)
    → IsAccounted s
    → s.rows id ≡ none
    → r.how ≡ none
    → g.id ≡ id
    → g.has_handle ≡ true
    → g.how ≡ abandoned_how
    → Refines s (record s { rows = insert id r s.rows; guards = insert id g s.guards })
starts-Refines s id r g x h p q b d =
    let e = unused-ending (x id) h in
    record {
      accounts = λ k. elim (Bool-cases (id == k)) [
        | inl c ↦ let i = ==→eq id k c in rw (c, ap s.ending (sym i) ∙ e) (held p (q ∙ i) b d)
        | inr c ↦ rw c (x k)
      ];
      abstract_step = begins id (rw h refl) λ k. elim (Bool-cases (id == k)) [
        | inl c ↦ rw (c, ap s.ending (sym (==→eq id k c)) ∙ e, p) refl
        | inr c ↦ rw c refl
      ];
    }

-- The guard of `id` is dropped, and its task is spawned.
finishes-Refines :
    (s : State) (id : ℕ) (how : How) {g : EndGuardInner}
    → IsAccounted s
    → s.guards id ≡ some g
    → Refines s (record s { guards = remove id s.guards; ending = insert id how s.ending })
finishes-Refines s id how x h =
    let w = Held-of (x id) h in
    record {
      accounts = λ k. elim (Bool-cases (id == k)) [
        | inl c ↦ rw (c, ap s.rows (sym (==→eq id k c)) ∙ w.has_row) (to_end w.is_open)
        | inr c ↦ rw c (x k)
      ];
      abstract_step = finishes id how (rw (w.has_row, w.not_ending, w.is_open) refl) λ k.
          elim (Bool-cases (id == k)) [
            | inl c ↦ rw (c, ap s.rows (sym (==→eq id k c)) ∙ w.has_row) refl
            | inr c ↦ rw c refl
          ];
    }

-- The task of `id` has run.
ends-Refines :
    (s : State) (id : ℕ) (how : How)
    → IsAccounted s
    → s.ending id ≡ some how
    → Refines s (record s { rows = update id how s.rows; ending = remove id s.ending })
ends-Refines s id how x h =
    let w = Ends-of (x id) h in
    record {
      accounts = λ k. elim (Bool-cases (id == k)) [
        | inl c ↦
            let i = sym (==→eq id k c) in
            rw (c, ap s.rows i ∙ w.has_row, ap s.guards i ∙ w.no_guard) (ended refl)
        | inr c ↦ rw c (x k)
      ];
      abstract_step = stays λ k. elim (Bool-cases (id == k)) [
        | inl c ↦
            let i = sym (==→eq id k c) in rw (c, ap s.rows i ∙ w.has_row, ap s.ending i ∙ h) refl
        | inr c ↦ rw c refl
      ];
    }

-- Nothing goes wrong with SQLite, the task and the runtime.
abbrev pub link_works : Link → Bool
link_works l = l.sent && (l.executed && l.received)

abbrev pub works : Event → Bool
works (starts l category payload id) = link_works l
works (completes id is_err runtime) = runtime
works (drops id runtime) = runtime
works (ends id l) = link_works l

pub drop_inner-insert :
    (g : EndGuardInner) (id : ℕ) (m : Map How)
    → g.has_handle ≡ true
    → g.id ≡ id
    → drop_inner true g m ≡ insert id g.how m
unfolding drop_inner
drop_inner-insert g id m h e =
    ap (λ b. if b then insert g.id g.how m else m) h ∙ ap (λ i. insert i g.how m) e

let_go-Refines :
    (f : EndGuardInner → EndGuardInner) (s : State) (id : ℕ) (g : Option EndGuardInner) {t : State}
    → ((g : EndGuardInner) → (f g).id ≡ g.id)
    → ((g : EndGuardInner) → (f g).has_handle ≡ g.has_handle)
    → IsAccounted s
    → s.guards id ≡ g
    → let_go f true id s g ≡ some t
    → Refines s t
unfolding let_go drop_inner
let_go-Refines f s id none p q x h e = absurd (none≢some e)
let_go-Refines f s id (some g) p q x h e =
    let w = Held-of (x id) h in
    subst (Refines s) (some-injective e) (
      subst (λ e. Refines s (record s { guards = remove id s.guards; ending = e }))
        (sym (drop_inner-insert (f g) id s.ending (q g ∙ w.handle) (p g ∙ w.own)))
        (finishes-Refines s id (f g).how x h))

abbrev pub working : Link
working = record { sent = true; executed = true; received = true }

all_true :
    (a b c : Bool)
    → (a && (b && c)) ≡ true
    → ◌≡◌ {A = Link} (record { sent = a; executed = b; received = c }) working
all_true true true true h = refl
all_true true true false h = absurd cc
all_true true false c h = absurd cc
all_true false b c h = absurd cc

link_works-working : (l : Link) → link_works l ≡ true → l ≡ working
link_works-working l h = all_true l.sent l.executed l.received h

start_with_guard-Refines :
    (l : Link) (s : State) (category payload : String) (id : ℕ)
    → IsAccounted s
    → link_works l ≡ true
    → s.rows id ≡ none
    → Refines s (start_with_guard l category payload id s)
unfolding start_with_guard handle_start start_request
start_with_guard-Refines l s category payload id x h e =
    subst (λ l. Refines s (start_with_guard l category payload id s)) (sym (link_works-working l h))
      (starts-Refines s id (record { category = category; payload = payload; how = none })
        (record { id = id; how = abandoned_how; has_handle = true }) x e refl refl refl refl)

run_ending-Refines :
    (l : Link) (s : State) (id : ℕ) (how : Option How) {t : State}
    → IsAccounted s
    → link_works l ≡ true
    → s.ending id ≡ how
    → run_ending l id s how ≡ some t
    → Refines s t
unfolding run_ending handle_end end_request
run_ending-Refines l s id none x h e q = absurd (none≢some q)
run_ending-Refines l s id (some how) {t} x h e q =
    let q = subst (λ l. run_ending l id s (some how) ≡ some t) (link_works-working l h) q in
    subst (Refines s) (some-injective q) (ends-Refines s id how x e)

-- As long as SQLite, the database's task and the runtime work, every step of a record whose rows,
-- guards and tasks are in order keeps them in order, and in the abstract view it is no change, the
-- beginning of a request that was not there, or the end, in one way, of a request that runs. So a
-- request that is over stays so, in that way.
pub step-Refines :
    (s : State) (e : Event) {t : State}
    → IsAccounted s
    → works e ≡ true
    → step s e ≡ some t
    → Refines s t
unfolding step
step-Refines s (starts l category payload id) x w h = elim (Option-cases (s.rows id)) [
  | inl r ↦
      subst (Refines s) (some-injective (rw r at h))
        (start_with_guard-Refines l s category payload id x w r)
  | inr (r, e) ↦ absurd (none≢some (rw e at h))
]
step-Refines s (completes id is_err runtime) x w h =
    let_go-Refines _ s id (s.guards id) (λ g. refl) (λ g. refl) x refl (rw w at h)
step-Refines s (drops id runtime) x w h =
    let_go-Refines (λ g. g) s id (s.guards id) (λ g. refl) (λ g. refl) x refl (rw w at h)
step-Refines s (ends id l) x w h = run_ending-Refines l s id (s.ending id) x w refl h
