-- ===== src/Commander/Listeners.antt =====
-- What one event does for a listener whose job and channel no other listener uses.
use rust_playground.Base.{
  some-injective, none≢some, ≢→==, insert_other, insert_own, remove_own, retain_own, ℕ, ◌≡◌, ◌≢◌,
  refl, sym, subst, ap, ◌∙◌, inl, inr, Bool, false, not, none, some, List, [], ◌∷◌, ◌++◌, arith,
  Result, ok, Bool-cases, Option-cases, if◌then◌else◌, is_some, ◌==◌, ==→eq, ==-refl, append-nil,
}
use rust_playground.Commander.{
  CommanderError, listen, listen_once, Event, command, from_worker, gc, Demultiplexer, handle,
}

module _ {Msg : Type 0} where
  pub ok-injective :
      {d e : Demultiplexer Msg}
      → ◌≡◌ {A = Result (Demultiplexer Msg) CommanderError} (ok d) (ok e)
      → d ≡ e
  ok-injective h = cc

  -- What was sent into a channel, in order.
  abbrev pub received : ℕ → List (ℕ × Msg) → List Msg
  received c [] = []
  received c ((w, m) ∷ sent) = let rest = received c sent in if w == c then m ∷ rest else rest

  -- The messages that the worker sends for a job, in order.
  abbrev pub messages_for : ℕ → List (Event Msg) → List Msg
  messages_for j [] = []
  messages_for j (command a c ∷ es) = messages_for j es
  messages_for j (from_worker k m ∷ es) =
      let rest = messages_for j es in if k == j then m ∷ rest else rest
  messages_for j (gc f ∷ es) = messages_for j es

  -- An event that does not touch a listener for job `j` on channel `c`: the job and the channel
  -- are used for no other listener, and the channel's receiver is not dropped.
  abbrev pub Leaves : ℕ → ℕ → Event Msg → Type 0
  Leaves j c (command a (listen k w)) = (k ≢ j) × (w ≢ c)
  Leaves j c (command a (listen_once k w)) = (k ≢ j) × (w ≢ c)
  Leaves j c (from_worker k m) = Unit
  Leaves j c (gc is_closed) = is_closed c ≡ false

  -- The job has one listener, on a channel that no other job has.
  pub record IsListening (j c : ℕ) (d : Demultiplexer Msg) : Type 0 where
    pub registered : d.waiting j ≡ some c
    pub not_once : d.waiting_once j ≡ none
    pub own : (k : ℕ) → d.waiting k ≡ some c → k ≡ j
    pub own_once : (k : ℕ) → d.waiting_once k ≢ some c

  pub received-append :
      (c : ℕ) (xs ys : List (ℕ × Msg)) → received c (xs ++ ys) ≡ received c xs ++ received c ys
  received-append c [] ys = refl
  received-append c ((w, m) ∷ xs) ys = elim (Bool-cases (w == c)) [
    | inl e ↦ rw (e, received-append c xs ys) refl
    | inr e ↦ rw (e, received-append c xs ys) refl
  ]

  -- The messages of an event for a job.
  abbrev pub message_for : ℕ → Event Msg → List Msg
  message_for j e = messages_for j (e ∷ [])

  -- What one event does for a listener that stays.
  pub record Keeps (j c : ℕ) (d : Demultiplexer Msg) (e : Event Msg) (d' : Demultiplexer Msg)
      : Type 0 where
    pub listening : IsListening j c d'
    pub arrives : received c d'.sent ≡ received c d.sent ++ message_for j e

  -- One message more, for another channel or for this one.
  pub received_other :
      (c w : ℕ) (m : Msg) (sent : List (ℕ × Msg))
      → w ≢ c
      → received c (sent ++ ((w, m) ∷ [])) ≡ received c sent
  received_other c w m sent h =
      received-append c sent ((w, m) ∷ []) ∙ rw (≢→== w c h) (append-nil (received c sent))

  pub received_own :
      (c : ℕ) (m : Msg) (sent : List (ℕ × Msg))
      → received c (sent ++ ((c, m) ∷ [])) ≡ received c sent ++ (m ∷ [])
  received_own c m sent = received-append c sent ((c, m) ∷ []) ∙ rw (==-refl c) refl

  pub message_for_other : (j k : ℕ) (m : Msg) → k ≢ j → message_for j (from_worker k m) ≡ []
  message_for_other j k m h = rw (≢→== k j h) refl

  pub command-Keeps :
      (j c a k w : ℕ) (d d' : Demultiplexer Msg)
      → IsListening j c d
      → k ≢ j
      → w ≢ c
      → handle d (command a (listen k w)) ≡ ok d'
      → Keeps j c d (command a (listen k w)) d'
  unfolding handle
  command-Keeps j c a k w d d' h kj wc q = elim (Bool-cases (is_some (d.waiting k))) [
    | inl e ↦ cc
    | inr e ↦ subst (Keeps j c d (command a (listen k w))) (ok-injective (rw e at q)) (record {
      listening = record {
        registered = insert_other k w j d.waiting kj ∙ h.registered;
        not_once = h.not_once;
        own = λ i f. h.own i (insert_own k w c i d.waiting wc f);
        own_once = h.own_once;
      };
      arrives = sym (append-nil (received c d.sent));
    })
  ]

  pub once-Keeps :
      (j c a k w : ℕ) (d d' : Demultiplexer Msg)
      → IsListening j c d
      → k ≢ j
      → w ≢ c
      → handle d (command a (listen_once k w)) ≡ ok d'
      → Keeps j c d (command a (listen_once k w)) d'
  unfolding handle
  once-Keeps j c a k w d d' h kj wc q = elim (Bool-cases (is_some (d.waiting_once k))) [
    | inl e ↦ cc
    | inr e ↦ subst (Keeps j c d (command a (listen_once k w))) (ok-injective (rw e at q)) (record {
      listening = record {
        registered = h.registered;
        not_once = insert_other k w j d.waiting_once kj ∙ h.not_once;
        own = h.own;
        own_once = λ i f. h.own_once i (insert_own k w c i d.waiting_once wc f);
      };
      arrives = sym (append-nil (received c d.sent));
    })
  ]

  pub gc-Keeps :
      (j c : ℕ) (is_closed : ℕ → Bool) (d d' : Demultiplexer Msg)
      → IsListening j c d
      → is_closed c ≡ false
      → handle d (gc is_closed) ≡ ok d'
      → Keeps j c d (gc is_closed) d'
  unfolding handle
  gc-Keeps j c is_closed d d' h open_c q =
      let p = λ (tx : ℕ). not (is_closed tx) in
      subst (Keeps j c d (gc is_closed)) (ok-injective q) (record {
        listening = record {
          registered = rw (h.registered, open_c) refl;
          not_once = rw h.not_once refl;
          own = λ i f. h.own i (retain_own p c i d.waiting f);
          own_once = λ i f. h.own_once i (retain_own p c i d.waiting_once f);
        };
        arrives = sym (append-nil (received c d.sent));
      })

  pub from_worker-Keeps :
      (j c k : ℕ) (m : Msg) (d d' : Demultiplexer Msg)
      → IsListening j c d
      → handle d (from_worker k m) ≡ ok d'
      → Keeps j c d (from_worker k m) d'
  unfolding handle
  from_worker-Keeps j c k m d d' h q = elim (Option-cases (d.waiting_once k)) [
    | inr (w, e) ↦
        let kj : k ≢ j = λ s. none≢some (sym h.not_once ∙ ap d.waiting_once (sym s) ∙ e) in
        let wc : w ≢ c = λ s. h.own_once k (e ∙ ap some s) in
        subst (Keeps j c d (from_worker k m)) (ok-injective (rw e at q)) (record {
          listening = record {
            registered = h.registered;
            not_once = ground (arith, h.not_once);
            own = h.own;
            own_once = λ i f. h.own_once i (remove_own k c i d.waiting_once f);
          };
          arrives =
              received_other c w m d.sent wc
              ∙ sym (rw (message_for_other j k m kj) (append-nil (received c d.sent)));
        })
    | inl e ↦ elim (Option-cases (d.waiting k)) [
      | inl f ↦ subst (Keeps j c d (from_worker k m)) (ok-injective (rw (e, f) at q)) (record {
        listening = h;
        arrives = sym (
            rw (message_for_other j k m (λ s. none≢some (sym f ∙ ap d.waiting s ∙ h.registered)))
              (append-nil (received c d.sent)));
      })
      | inr (w, f) ↦ subst (Keeps j c d (from_worker k m)) (ok-injective (rw (e, f) at q)) (record {
        listening = record {
          registered = h.registered;
          not_once = h.not_once;
          own = h.own;
          own_once = h.own_once;
        };
        arrives = elim (Bool-cases (w == c)) [
          | inl g ↦
              let wc = ==→eq w c g in
              rw (wc, h.own k (f ∙ ap some wc)) (received_own c m d.sent ∙ rw (==-refl j) refl)
          | inr g ↦
              let wc : w ≢ c = ground (arith, g) in
              received_other c w m d.sent wc
              ∙ sym (
                  rw
                    (message_for_other j k m
                      (λ s. wc (some-injective (sym f ∙ ap d.waiting s ∙ h.registered))))
                    (append-nil (received c d.sent)))
        ];
      })
    ]
  ]
