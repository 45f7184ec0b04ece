-- ===== src/Commander/Routes.antt =====
-- Which messages reach which caller.
use rust_playground.Base.{
  ℕ, ◌≡◌, refl, sym, subst, ap, ◌∙◌, inl, inr, List, [], ◌∷◌, ◌++◌, Result, ok, err, ◌>>=◌,
  Bool-cases, All, ◌==◌, append-nil, append_assoc,
}
use rust_playground.Commander.{
  CommanderError, listen, listen_once, Event, command, from_worker, gc, Demultiplexer, handle,
  demultiplex,
}
use rust_playground.Commander.Listeners.{
  received, messages_for, message_for, Leaves, IsListening, Keeps, command-Keeps, once-Keeps,
  gc-Keeps, from_worker-Keeps, ok-injective,
}

module _ {Msg : Type 0} where
  event-Keeps :
      (j c : ℕ) (e : Event Msg) (d d' : Demultiplexer Msg)
      → IsListening j c d
      → Leaves j c e
      → handle d e ≡ ok d'
      → Keeps j c d e d'
  event-Keeps j c (command a (listen k w)) d d' h l q = command-Keeps j c a k w d d' h l.0 l.1 q
  event-Keeps j c (command a (listen_once k w)) d d' h l q = once-Keeps j c a k w d d' h l.0 l.1 q
  event-Keeps j c (from_worker k m) d d' h l q = from_worker-Keeps j c k m d d' h q
  event-Keeps j c (gc is_closed) d d' h l q = gc-Keeps j c is_closed d d' h l q

  pub messages_for_cons :
      (j : ℕ) (e : Event Msg) (es : List (Event Msg))
      → messages_for j (e ∷ es) ≡ message_for j e ++ messages_for j es
  messages_for_cons j (command a c) es = refl
  messages_for_cons j (gc f) es = refl
  messages_for_cons j (from_worker k m) es = elim (Bool-cases (k == j)) [
    | inl e ↦ rw e refl
    | inr e ↦ rw e refl
  ]

  pub bind_ok :
      {d' : Demultiplexer Msg} (r : Result (Demultiplexer Msg) CommanderError)
      (f : Demultiplexer Msg → Result (Demultiplexer Msg) CommanderError)
      → (r >>= f) ≡ ok d'
      → (d : Demultiplexer Msg) × (r ≡ ok d) × (f d ≡ ok d')
  bind_ok (ok d) f h = (d, refl, h)
  bind_ok (err e) f h = cc

  -- While the worker goes on and callers come and go, a job's listener is sent just the messages of
  -- its job, all of them and in order, provided that the job and the channel are used for no other
  -- listener and the listener has not dropped its receiver.
  pub demultiplex-routes :
      (j c : ℕ) (es : List (Event Msg)) (d d' : Demultiplexer Msg)
      → IsListening j c d
      → All (Leaves j c) es
      → demultiplex d es ≡ ok d'
      → received c d'.sent ≡ received c d.sent ++ messages_for j es
  unfolding demultiplex
  demultiplex-routes j c [] d d' h l q =
      subst (λ (e : Demultiplexer Msg). received c e.sent ≡ received c d.sent ++ [])
        (ok-injective q) (sym (append-nil (received c d.sent)))
  demultiplex-routes j c (e ∷ es) d d' h l q =
      let (b, q1, q2) = bind_ok (handle d e) (λ b. demultiplex b es) q in
      let k = event-Keeps j c e d b h l.0 q1 in
      demultiplex-routes j c es b d' k.listening l.1 q2
      ∙ ap (λ xs. xs ++ messages_for j es) k.arrives
      ∙ append_assoc (received c d.sent) (message_for j e) (messages_for j es)
      ∙ ap (λ xs. received c d.sent ++ xs) (sym (messages_for_cons j e es))
