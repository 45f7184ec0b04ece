-- ===== src/Commander/Once.antt =====
-- What a caller that waits for one message is sent.
use rust_playground.Base.{
  ℕ, ◌≡◌, ◌≢◌, refl, sym, ap, ◌∙◌, subst, inl, inr, not, none, some, List, [], ◌∷◌, ◌++◌, ok, Map,
  remove, ◌==◌, ==→eq, Option-cases, Bool-cases, arith, All, append-nil, take, none≢some,
  insert_other, insert_own, remove_own, retain_own,
}
use rust_playground.Commander.{
  listen, listen_once, Event, command, from_worker, gc, Demultiplexer, handle, demultiplex,
}
use rust_playground.Commander.Listeners.{
  received, messages_for, message_for, Leaves, ok-injective, received_other, received_own,
}
use rust_playground.Commander.Routes.{messages_for_cons, bind_ok}
use rust_playground.Commander.Unused.{IsUnused, listened, listened_once, demultiplex-IsUnused}

remove_at : (k i : ℕ) (m : Map ℕ) → k ≡ i → remove k m i ≡ none
remove_at k i m h = ground arith

remove_other : (k j : ℕ) (m : Map ℕ) → k ≢ j → remove k m j ≡ m j
remove_other k j m h = ground arith

module _ {Msg : Type 0} where
  -- One caller has it, and waits for one message of this job.
  pub record IsWaiting (j c : ℕ) (d : Demultiplexer Msg) : Type 0 where
    pub registered : d.waiting_once j ≡ some c
    pub own : (k : ℕ) → d.waiting k ≢ some c
    pub own_once : (k : ℕ) → d.waiting_once k ≡ some c → k ≡ j

  -- What one event does for a caller that waits: nothing, or it is sent its message and is gone.
  data Awaits (j c : ℕ) (d d' : Demultiplexer Msg) : List Msg → Type 0 where
    waits : IsWaiting j c d' → received c d'.sent ≡ received c d.sent → Awaits j c d d' []
    answered :
        (m : Msg)
        → IsUnused c d'
        → received c d'.sent ≡ received c d.sent ++ (m ∷ [])
        → Awaits j c d d' (m ∷ [])

  from_other-Awaits :
      (j c k : ℕ) (m : Msg) (d d' : Demultiplexer Msg)
      → IsWaiting j c d
      → k ≢ j
      → handle d (from_worker k m) ≡ ok d'
      → Awaits j c d d' []
  unfolding handle
  from_other-Awaits j c k m d d' u kj q = elim (Option-cases (d.waiting_once k)) [
    | inr (w, e) ↦
        subst (λ (b : Demultiplexer Msg). Awaits j c d b []) (ok-injective (rw e at q))
          (waits
            (record {
              registered = remove_other k j d.waiting_once kj ∙ u.registered;
              own = u.own;
              own_once = λ i g. u.own_once i (remove_own k c i d.waiting_once g);
            })
            (received_other c w m d.sent (λ s. kj (u.own_once k (e ∙ ap some s)))))
    | inl e ↦ elim (Option-cases (d.waiting k)) [
      | inl f ↦
          subst (λ (b : Demultiplexer Msg). Awaits j c d b []) (ok-injective (rw (e, f) at q))
            (waits u refl)
      | inr (w, f) ↦
          subst (λ (b : Demultiplexer Msg). Awaits j c d b []) (ok-injective (rw (e, f) at q))
            (waits (record { registered = u.registered; own = u.own; own_once = u.own_once })
              (received_other c w m d.sent (λ s. u.own k (f ∙ ap some s))))
    ]
  ]

  from_worker-Awaits :
      (j c k : ℕ) (m : Msg) (d d' : Demultiplexer Msg)
      → IsWaiting j c d
      → handle d (from_worker k m) ≡ ok d'
      → Awaits j c d d' (message_for j (from_worker k m))
  unfolding handle
  from_worker-Awaits j c k m d d' u q = elim (Bool-cases (k == j)) [
    | inl same ↦
        let kj = ==→eq k j same in
        rw same (
          subst (λ (b : Demultiplexer Msg). Awaits j c d b (m ∷ []))
            (ok-injective (rw (ap d.waiting_once kj ∙ u.registered) at q))
            ((answered m
              (record {
                unused = u.own;
                unused_once = λ i g.
                    let ij = u.own_once i (remove_own k c i d.waiting_once g) in
                    none≢some (sym (remove_at k i d.waiting_once (kj ∙ sym ij)) ∙ g);
              })
              (received_own c m d.sent))))
    | inr other ↦
        let kj : k ≢ j = ground (arith, other) in rw other (from_other-Awaits j c k m d d' u kj q)
  ]

  handle-Awaits :
      (j c : ℕ) (e : Event Msg) (d d' : Demultiplexer Msg)
      → IsWaiting j c d
      → Leaves j c e
      → handle d e ≡ ok d'
      → Awaits j c d d' (message_for j e)
  unfolding handle
  handle-Awaits j c (command a (listen k w)) d d' u l q =
      subst (λ (b : Demultiplexer Msg). Awaits j c d b []) (listened a k w d d' q)
        (waits
          (record {
            registered = u.registered;
            own = λ i e. u.own i (insert_own k w c i d.waiting l.1 e);
            own_once = u.own_once;
          })
          refl)
  handle-Awaits j c (command a (listen_once k w)) d d' u l q =
      subst (λ (b : Demultiplexer Msg). Awaits j c d b []) (listened_once a k w d d' q)
        (waits
          (record {
            registered = insert_other k w j d.waiting_once l.0 ∙ u.registered;
            own = u.own;
            own_once = λ i e. u.own_once i (insert_own k w c i d.waiting_once l.1 e);
          })
          refl)
  handle-Awaits j c (gc f) d d' u l q =
      let p = λ (tx : ℕ). not (f tx) in
      subst (λ (b : Demultiplexer Msg). Awaits j c d b []) (ok-injective q)
        (waits
          (record {
            registered = rw (u.registered, l) refl;
            own = λ i e. u.own i (retain_own p c i d.waiting e);
            own_once = λ i e. u.own_once i (retain_own p c i d.waiting_once e);
          })
          refl)
  handle-Awaits j c (from_worker k m) d d' u l q = from_worker-Awaits j c k m d d' u q

  once_step :
      (j c : ℕ) (es : List (Event Msg)) (d b d' : Demultiplexer Msg) (ms : List Msg)
      → Awaits j c d b ms
      → (IsUnused c b → received c d'.sent ≡ received c b.sent)
      → (IsWaiting j c b → received c d'.sent ≡ received c b.sent ++ take 1 (messages_for j es))
      → received c d'.sent ≡ received c d.sent ++ take 1 (ms ++ messages_for j es)
  once_step j c es d b d' ms (waits w same) gone later =
      later w ∙ ap (λ xs. xs ++ take 1 (messages_for j es)) same
  once_step j c es d b d' ms (answered m u sent) gone later = gone u ∙ sent

  -- A caller that waits for one message is sent the first message of its job and nothing else,
  -- provided that the job and the channel are used for no other listener and the caller has not
  -- dropped its receiver.
  pub demultiplex-once :
      (j c : ℕ) (es : List (Event Msg)) (d d' : Demultiplexer Msg)
      → IsWaiting j c d
      → All (Leaves j c) es
      → demultiplex d es ≡ ok d'
      → received c d'.sent ≡ received c d.sent ++ take 1 (messages_for j es)
  unfolding demultiplex
  demultiplex-once j c [] d d' u l q =
      ap (λ (e : Demultiplexer Msg). received c e.sent) (sym (ok-injective q))
      ∙ sym (append-nil (received c d.sent))
  demultiplex-once j c (e ∷ es) d d' u l q =
      let (b, q1, q2) = bind_ok (handle d e) (λ b. demultiplex b es) q in
      rw (messages_for_cons j e es) (
        once_step j c es d b d' (message_for j e) (handle-Awaits j c e d b u l.0 q1)
          (λ v. demultiplex-IsUnused j c es b d' v l.1 q2)
          (λ w. demultiplex-once j c es b d' w l.1 q2))
