-- ===== src/Commander/Unused.antt =====
-- A channel that no caller has is sent nothing.
use rust_playground.Base.{
  ℕ, ◌≡◌, ◌≢◌, refl, sym, ap, ◌∙◌, subst, inl, inr, not, some, List, [], ◌∷◌, ◌++◌, ok, insert,
  Option-cases, Bool-cases, is_some, All, insert_own, remove_own, retain_own,
}
use rust_playground.Commander.{
  listen, listen_once, Event, command, from_worker, gc, Demultiplexer, handle, demultiplex,
}
use rust_playground.Commander.Listeners.{received, Leaves, ok-injective, received_other}
use rust_playground.Commander.Routes.{bind_ok}

module _ {Msg : Type 0} where
  -- No caller has this channel.
  pub record IsUnused (c : ℕ) (d : Demultiplexer Msg) : Type 0 where
    pub unused : (k : ℕ) → d.waiting k ≢ some c
    pub unused_once : (k : ℕ) → d.waiting_once k ≢ some c

  pub listened :
      (a k w : ℕ) (d d' : Demultiplexer Msg)
      → handle d (command a (listen k w)) ≡ ok d'
      → record d { waiting = insert k w d.waiting; acks = d.acks ++ (a ∷ []) } ≡ d'
  unfolding handle
  listened a k w d d' q = elim (Bool-cases (is_some (d.waiting k))) [
    | inl e ↦ cc
    | inr e ↦ ok-injective (rw e at q)
  ]

  pub listened_once :
      (a k w : ℕ) (d d' : Demultiplexer Msg)
      → handle d (command a (listen_once k w)) ≡ ok d'
      → record d { waiting_once = insert k w d.waiting_once; acks = d.acks ++ (a ∷ []) } ≡ d'
  unfolding handle
  listened_once a k w d d' q = elim (Bool-cases (is_some (d.waiting_once k))) [
    | inl e ↦ cc
    | inr e ↦ ok-injective (rw e at q)
  ]

  -- What a channel without a caller is sent by one event: nothing.
  pub record StaysUnused (c : ℕ) (d d' : Demultiplexer Msg) : Type 0 where
    pub still : IsUnused c d'
    pub nothing : received c d'.sent ≡ received c d.sent

  pub handle-IsUnused :
      (j c : ℕ) (e : Event Msg) (d d' : Demultiplexer Msg)
      → IsUnused c d
      → Leaves j c e
      → handle d e ≡ ok d'
      → StaysUnused c d d'
  unfolding handle
  handle-IsUnused j c (command a (listen k w)) d d' u l q =
      subst (StaysUnused c d) (listened a k w d d' q) (record {
        still = record {
          unused = λ i e. u.unused i (insert_own k w c i d.waiting l.1 e);
          unused_once = u.unused_once;
        };
        nothing = refl;
      })
  handle-IsUnused j c (command a (listen_once k w)) d d' u l q =
      subst (StaysUnused c d) (listened_once a k w d d' q) (record {
        still = record {
          unused = u.unused;
          unused_once = λ i e. u.unused_once i (insert_own k w c i d.waiting_once l.1 e);
        };
        nothing = refl;
      })
  handle-IsUnused j c (gc f) d d' u l q =
      let p = λ (tx : ℕ). not (f tx) in
      subst (StaysUnused c d) (ok-injective q) (record {
        still = record {
          unused = λ i e. u.unused i (retain_own p c i d.waiting e);
          unused_once = λ i e. u.unused_once i (retain_own p c i d.waiting_once e);
        };
        nothing = refl;
      })
  handle-IsUnused j c (from_worker k m) d d' u l q = elim (Option-cases (d.waiting_once k)) [
    | inr (w, e) ↦ subst (StaysUnused c d) (ok-injective (rw e at q)) (record {
      still = record {
        unused = u.unused;
        unused_once = λ i g. u.unused_once i (remove_own k c i d.waiting_once g);
      };
      nothing = received_other c w m d.sent (λ s. u.unused_once k (e ∙ ap some s));
    })
    | inl e ↦ elim (Option-cases (d.waiting k)) [
      | inl f ↦
          subst (StaysUnused c d) (ok-injective (rw (e, f) at q))
            (record { still = u; nothing = refl })
      | inr (w, f) ↦ subst (StaysUnused c d) (ok-injective (rw (e, f) at q)) (record {
        still = record { unused = u.unused; unused_once = u.unused_once };
        nothing = received_other c w m d.sent (λ s. u.unused k (f ∙ ap some s));
      })
    ]
  ]

  pub demultiplex-IsUnused :
      (j c : ℕ) (es : List (Event Msg)) (d d' : Demultiplexer Msg)
      → IsUnused c d
      → All (Leaves j c) es
      → demultiplex d es ≡ ok d'
      → received c d'.sent ≡ received c d.sent
  unfolding demultiplex
  demultiplex-IsUnused j c [] d d' u l q =
      ap (λ (e : Demultiplexer Msg). received c e.sent) (sym (ok-injective q))
  demultiplex-IsUnused j c (e ∷ es) d d' u l q =
      let (b, q1, q2) = bind_ok (handle d e) (λ b. demultiplex b es) q in
      let s = handle-IsUnused j c e d b u l.0 q1 in
      demultiplex-IsUnused j c es b d' s.still l.1 q2 ∙ s.nothing
