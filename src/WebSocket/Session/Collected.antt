-- ===== src/WebSocket/Session/Collected.antt =====
-- The executions that the garbage collection of a session ends.
use rust_playground.Base.{
  ℕ, ◌≡◌, refl, ◌∙◌, subst, suc, subst, suc, Bool, true, false, not, List, [], ◌∷◌, ◌&&◌,
  any-append, keep, ◌==◌, String, Bool-cases, inl, inr, if◌then◌else◌, ok,
}
use rust_playground.WebSocket.{Meta}
use rust_playground.WebSocket.Manager.{ManagerError}
use rust_playground.WebSocket.Session.{
  execute_stdin_close, ActiveExecution, Session, goes_on, retain_active, is_numbered, without_stdin,
}
use rust_playground.WebSocket.Session.Loop.{
  Event, Delivery, message, request, garbage_collection, handle_msg, handle,
}
use rust_playground.WebSocket.Session.Changes.{jobs, goes_on-injective}
use rust_playground.WebSocket.Session.Exclusive.{has}
use rust_playground.WebSocket.Session.Silenced.{
  silent, IsSilenced, or-split, or_left, or_right, handle-IsSilenced,
}

-- What the collection keeps.
abbrev stays : (ℕ → Bool) → ActiveExecution → Bool
stays f a = if a.has_stdin then not (f a.job) else false

-- What the loop comes to by some events.
pub data Goes (describe : ManagerError → List String)
    : Session → List Event → Session → Type 0 where
  here : {s : Session} → Goes describe s [] s
  step :
      {s t u : Session} {es : List Event} (e : Event)
      → handle describe e s ≡ goes_on t
      → Goes describe t es u
      → Goes describe s (e ∷ es) u

without_stdin-silences :
    (k : Meta) (j : ℕ) (xs : List ActiveExecution)
    → has j (jobs (keep (is_numbered k) xs)) ≡ true
    → silent j (without_stdin k xs) ≡ true
without_stdin-silences k j [] h = h
without_stdin-silences k j (x ∷ xs) h = elim (Bool-cases (is_numbered k x)) [
  | inl q ↦ elim (Bool-cases (x.job == j)) [
    | inl e ↦ rw (q, e) refl
    | inr e ↦ rw (q, e) (without_stdin-silences k j xs (rw (q, e) at h))
  ]
  | inr q ↦ elim (Bool-cases ((x.job == j) && not x.has_stdin)) [
    | inl e ↦ rw (q, e) refl
    | inr e ↦ rw (q, e) (without_stdin-silences k j xs (rw q at h))
  ]
]

silent-dropped :
    (f : ℕ → Bool) (j : ℕ) (xs : List ActiveExecution)
    → silent j xs ≡ true
    → has j (jobs (keep (λ a. not (stays f a)) xs)) ≡ true
silent-dropped f j [] h = cc
silent-dropped f j (x ∷ xs) h = elim (Bool-cases x.has_stdin) [
  | inr q ↦ elim (Bool-cases (x.job == j)) [
    | inl e ↦ rw (q, e) refl
    | inr e ↦ rw (q, e) (silent-dropped f j xs (rw (q, e) at h))
  ]
  | inl q ↦ elim (Bool-cases (x.job == j)) [
    | inl e ↦
        let rest = silent-dropped f j xs (rw (q, e) at h) in
        elim (Bool-cases (f x.job)) [ inl r ↦ rw (q, r, e) refl | inr r ↦ rw (q, r) rest ]
    | inr e ↦
        let rest = silent-dropped f j xs (rw (q, e) at h) in
        elim (Bool-cases (f x.job)) [ inl r ↦ rw (q, r, e) rest | inr r ↦ rw (q, r) rest ]
  ]
]

Goes-IsSilenced :
    (j : ℕ) {describe : ManagerError → List String} {s t : Session} {es : List Event}
    → Goes describe s es t
    → IsSilenced j s
    → IsSilenced j t
Goes-IsSilenced j here c = c
Goes-IsSilenced j {describe} {s} (step e h g) c =
    Goes-IsSilenced j g (handle-IsSilenced j describe e s c h)

collects :
    (describe : ManagerError → List String) (s : Session) (f : ℕ → Bool) (j : ℕ) {t : Session}
    → IsSilenced j s
    → handle describe (garbage_collection f) s ≡ goes_on t
    → has j t.cancelled ≡ true
unfolding handle retain_active
collects describe s f j c h =
    let dropped = jobs (keep (λ a. not (stays f a)) s.active) in
    let all = any-append (λ i. i == j) dropped s.cancelled in
    subst (λ v. has j v.cancelled ≡ true) (goes_on-injective h)
      (or-split (silent j s.active) (has j s.cancelled) c
        (λ a. all ∙ or_left (has j dropped) (has j s.cancelled) (silent-dropped f j s.active a))
        (λ b. all ∙ or_right (has j dropped) b))

closes :
    (describe : ManagerError → List String) (s : Session) (k : Meta) (e : Delivery) (j : ℕ)
    {t : Session}
    → handle describe (request (message (ok (execute_stdin_close k))) e) s ≡ goes_on t
    → has j (jobs (keep (is_numbered k) s.active)) ≡ true
    → IsSilenced j t
unfolding handle handle_msg
closes describe s k e j p h =
    let closed = record s { incoming = suc s.incoming; active = without_stdin k s.active } in
    subst (IsSilenced j) (goes_on-injective p) (
      or_left (silent j closed.active) (has j closed.cancelled)
        (without_stdin-silences k j s.active h))

-- An execution whose standard input the browser has closed does not outlive the next garbage
-- collection, however many other events come in between and whatever they are, while the session
-- goes on: its token is cancelled by then, whether or not it still runs and its channel is still
-- there.
pub handle-closed :
    (describe : ManagerError → List String) (s : Session) (k : Meta) (f : ℕ → Bool) (e : Delivery)
    {t u v : Session} {between : List Event}
    → handle describe (request (message (ok (execute_stdin_close k))) e) s ≡ goes_on t
    → Goes describe t between u
    → handle describe (garbage_collection f) u ≡ goes_on v
    → (j : ℕ) → has j (jobs (keep (is_numbered k) s.active)) ≡ true
    → has j v.cancelled ≡ true
handle-closed describe s k f e {u = u} p g q j h =
    collects describe u f j (Goes-IsSilenced j g (closes describe s k e j p h)) q
