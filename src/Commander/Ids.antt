-- ===== src/Commander/Ids.antt =====
-- The ids that `next_id` gives out keep two listeners from meeting.
use mathlib.Core.Logic.Or
use mathlib.Core.List.{
  Mem, mem-cons, not-mem-nil, mem-cons_of_mem, mem-cons_self, Nodup, Nodup-nil, Nodup-cons,
  Nodup-append, Perm,
}
use mathlib.Core.List.Perm
use rust_playground.Base.{
  insert_other, remove-none, ℕ, zero, suc, ◌+◌, ◌%◌, ◌≤◌, ◌<◌, ◌≡◌, refl, sym, subst, ap, ◌∙◌, inl,
  inr, none, List, [], ◌∷◌, ◌++◌, arith, ok, Option-cases, insert, remove,
}
use rust_playground.Commander.{
  job_ids, next_id, listen, listen_once, Event, command, from_worker, gc, Demultiplexer, handle,
  demultiplex, start,
}

-- The ids that the next calls of `next_id` give out.
unfoldable pub issue : ℕ → ℕ → List ℕ
unfolding next_id
issue zero id = []
issue (suc n) id = (next_id id).0 ∷ issue n (next_id id).1

no_wrap : (i n : ℕ) → i + suc (suc n) ≤ job_ids → (i + 1) % job_ids ≡ i + 1
no_wrap i n h = omega arith

issue-step :
    (n i : ℕ) → i + suc (suc n) ≤ job_ids → issue (suc (suc n)) i ≡ i ∷ issue (suc n) (i + 1)
unfolding issue next_id
issue-step n i h = ap (λ k. i ∷ issue (suc n) k) (no_wrap i n h)

⊥-IsProp : IsProp ⊥
⊥-IsProp = hlevel

issue-ge : (n i m : ℕ) → i + n ≤ job_ids → Mem m (issue n i) → m < i → ⊥
issue-ge zero i m h p q =
    let e : issue zero i ≡ [] = unfold issue in refl in absurd (not-mem-nil (subst (Mem m) e p))
issue-ge (suc zero) i m h p q =
    let e : issue 1 i ≡ i ∷ [] = unfold issue next_id in refl in
    Or.elim (⊥-IsProp) (mem-cons.0 (subst (Mem m) e p)) (λ e. omega arith)
      (λ r. absurd (not-mem-nil r))
issue-ge (suc (suc n)) i m h p q =
    Or.elim (⊥-IsProp) (mem-cons.0 (subst (Mem m) (issue-step n i h) p)) (λ e. omega arith)
      (λ r. issue-ge (suc n) (i + 1) m (omega arith) r (omega arith))

issue-Nodup : (n i : ℕ) → i + n ≤ job_ids → Nodup (issue n i)
issue-Nodup zero i h = unfold issue in Nodup-nil
issue-Nodup (suc zero) i h = unfold issue next_id in Nodup-cons.1 (λ m. not-mem-nil m, Nodup-nil)
issue-Nodup (suc (suc n)) i h = subst Nodup (sym (issue-step n i h)) (
    Nodup-cons.1 (
      λ m. issue-ge (suc n) (i + 1) i (omega arith) m (omega arith),
      issue-Nodup (suc n) (i + 1) (omega arith),
    ))

module _ {Msg : Type 0} where
  -- The jobs that callers want to listen to.
  abbrev pub job_of : Event Msg → List ℕ
  job_of (command a (listen j w)) = j ∷ []
  job_of (command a (listen_once j w)) = j ∷ []
  job_of (from_worker j m) = []
  job_of (gc f) = []

  abbrev pub jobs : List (Event Msg) → List ℕ
  jobs [] = []
  jobs (e ∷ es) = job_of e ++ jobs es

  -- None of some jobs has a listener yet.
  abbrev IsFresh : List ℕ → Demultiplexer Msg → Type 0
  IsFresh js d = (j : ℕ) → Mem j js → (d.waiting j ≡ none) × (d.waiting_once j ≡ none)

  handle-IsFresh :
      (d : Demultiplexer Msg) (e : Event Msg) (js : List ℕ)
      → Nodup (job_of e ++ js)
      → IsFresh (job_of e ++ js) d
      → (d' : Demultiplexer Msg) × (handle d e ≡ ok d') × IsFresh js d'
  unfolding handle
  handle-IsFresh d (command a (listen j w)) js n f =
      let (here_once, here) = f j (mem-cons_self) in
      let k = (Nodup-cons.0 n).0 in
      (
        record d { waiting = insert j w d.waiting; acks = d.acks ++ (a ∷ []) },
        rw here_once refl,
        λ i m. (
          insert_other j w i d.waiting (λ e. k (subst (λ x. Mem x js) (sym e) m))
              ∙ (f i (mem-cons_of_mem j m)).0,
          (f i (mem-cons_of_mem j m)).1,
        ),
      )
  handle-IsFresh d (command a (listen_once j w)) js n f =
      let (here, here_once) = f j (mem-cons_self) in
      let k = (Nodup-cons.0 n).0 in
      (
        record d { waiting_once = insert j w d.waiting_once; acks = d.acks ++ (a ∷ []) },
        rw here_once refl,
        λ i m. (
          (f i (mem-cons_of_mem j m)).0,
          insert_other j w i d.waiting_once (λ e. k (subst (λ x. Mem x js) (sym e) m))
              ∙ (f i (mem-cons_of_mem j m)).1,
        ),
      )
  handle-IsFresh d (from_worker j m) js n f = elim (Option-cases (d.waiting_once j)) [
    | inl e ↦ elim (Option-cases (d.waiting j)) [
      | inl g ↦ (d, rw (e, g) refl, f)
      | inr (w, g) ↦ (record d { sent = d.sent ++ ((w, m) ∷ []) }, rw (e, g) refl, f)
    ]
    | inr (w, e) ↦ (
      record d { waiting_once = remove j d.waiting_once; sent = d.sent ++ ((w, m) ∷ []) },
      rw e refl,
      λ i q. ((f i q).0, remove-none j i d.waiting_once (f i q).1),
    )
  ]
  handle-IsFresh d (gc is_closed) js n f =
      (_, refl, λ j m. let (a, b) = f j m in (rw a refl, rw b refl))

  demultiplex-IsFresh :
      (d : Demultiplexer Msg) (es : List (Event Msg))
      → Nodup (jobs es)
      → IsFresh (jobs es) d
      → (d' : Demultiplexer Msg) × (demultiplex d es ≡ ok d')
  unfolding demultiplex
  demultiplex-IsFresh d [] n f = (d, refl)
  demultiplex-IsFresh d (e ∷ es) n f =
      let (b, q, g) = handle-IsFresh d e (jobs es) n f in
      let (d', r) =
        demultiplex-IsFresh b es ((Nodup-append {l₁ = job_of e} {l₂ = jobs es}).0 n).1 g in
      (d', rw q r)

  -- Callers that listen under ids from `next_id`, each under its own and in any order, some of them
  -- perhaps not yet, are never refused for listening to a job twice, as long as no more ids than
  -- there are were given out.
  pub demultiplex-total :
      (es : List (Event Msg)) (n : ℕ) (unused : List ℕ)
      → n ≤ job_ids
      → Perm (jobs es ++ unused) (issue n 0)
      → (d : Demultiplexer Msg) × (demultiplex start es ≡ ok d)
  demultiplex-total es n unused h p =
      demultiplex-IsFresh start es
        (Nodup-append.0 ((Perm.Nodup-iff p).1 (issue-Nodup n 0 (omega arith)))).0
        (λ j m. (unfold start in refl, unfold start in refl))
