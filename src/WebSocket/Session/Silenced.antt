-- ===== src/WebSocket/Session/Silenced.antt =====
-- What becomes of an execution whose standard input was closed.
use rust_playground.Base.{
  ℕ, ◌≡◌, refl, sym, ◌∙◌, subst, Bool, true, false, not, Option, none, some, List, [], ◌∷◌, ◌++◌,
  any, any-append, keep, ◌==◌, ◌&&◌, ◌||◌, String, Bool-cases, inl, inr, Result, ok, err,
}
use rust_playground.WebSocket.{Meta, MessageResponse}
use rust_playground.WebSocket.Manager.{ManagerError, idle}
use rust_playground.WebSocket.Session.{
  WsMessageRequest, execute_request, execute_stdin, execute_stdin_close, execute_kill, TaggedError,
  ActiveExecution, Session, goes_on, send, retain_active, insert_active, is_numbered, get,
  without_stdin,
}
use rust_playground.WebSocket.Session.Loop.{
  disconnected, message, unknown, failed, finished, task_cancelled, task_failed, task_panicked,
  Event, request, response, task, garbage_collection, idle_timeout, idle_request, session_timeout,
  sends, Delivery, taken, never_taken, refused, TaskEnd, pass_stdin, handle_msg, respond,
  task_ended, joined_task, idled, go_idle, handle,
}
use rust_playground.WebSocket.Session.Changes.{jobs, goes_on-injective, send-same}
use rust_playground.WebSocket.Session.Exclusive.{has}

-- The job is active without the way to its standard input.
abbrev pub silent : ℕ → List ActiveExecution → Bool
silent j xs = any (λ a. (a.job == j) && not a.has_stdin) xs

-- It is so, or its token was cancelled.
abbrev pub IsSilenced : ℕ → Session → Type 0
IsSilenced j s = (silent j s.active || has j s.cancelled) ≡ true

pub or_right : (a : Bool) {b : Bool} → b ≡ true → (a || b) ≡ true
or_right true h = refl
or_right false h = h

pub or_left : (a b : Bool) → a ≡ true → (a || b) ≡ true
or_left a b h = rw h refl

keep-silent :
    (j : ℕ) (p : ActiveExecution → Bool) (xs : List ActiveExecution)
    → silent j xs ≡ true
    → (silent j (keep p xs) || has j (jobs (keep (λ a. not (p a)) xs))) ≡ true
keep-silent j p [] h = cc
keep-silent j p (x ∷ xs) h = elim (Bool-cases (p x)) [
  | inl e ↦ elim (Bool-cases ((x.job == j) && not x.has_stdin)) [
    | inl q ↦ rw (e, q) refl
    | inr q ↦ rw (e, q) (keep-silent j p xs (rw q at h))
  ]
  | inr e ↦ elim (Bool-cases (x.job == j)) [
    | inl q ↦ rw (e, q) (or_right (silent j (keep p xs)) refl)
    | inr q ↦ rw (e, q) (keep-silent j p xs (rw q at h))
  ]
]

pub or-split : (a b : Bool) {P : Type 0} → (a || b) ≡ true → (a ≡ true → P) → (b ≡ true → P) → P
or-split true b h f g = f refl
or-split false b h f g = g h

retain_active-IsSilenced :
    (j : ℕ) (p : ActiveExecution → Bool) (s : Session)
    → IsSilenced j s
    → IsSilenced j (retain_active p s)
unfolding retain_active
retain_active-IsSilenced j p s h =
    let dropped = jobs (keep (λ a. not (p a)) s.active) in
    let left = silent j (keep p s.active) in
    let both : has j (dropped ++ s.cancelled) ≡ (has j dropped || has j s.cancelled) =
      any-append (λ i. i == j) dropped s.cancelled in
    or-split (silent j s.active) (has j s.cancelled) h
      (λ a.
        or-split left (has j dropped) (keep-silent j p s.active a)
          (λ b. or_left left (has j (dropped ++ s.cancelled)) b)
          (λ b. or_right left (both ∙ or_left (has j dropped) (has j s.cancelled) b)))
      (λ b. or_right left (both ∙ or_right (has j dropped) b))

insert_active-IsSilenced :
    (j : ℕ) (a : ActiveExecution) (s : Session) → IsSilenced j s → IsSilenced j (insert_active a s)
unfolding insert_active
insert_active-IsSilenced j a s h =
    let t = retain_active (λ b. not (is_numbered a.sequence_number b)) s in
    let k = retain_active-IsSilenced j (λ b. not (is_numbered a.sequence_number b)) s h in
    or-split (silent j t.active) (has j t.cancelled) k
      (λ x.
        or_left (silent j (a ∷ t.active)) (has j t.cancelled)
          (or_right ((a.job == j) && not a.has_stdin) x))
      (λ x. or_right (silent j (a ∷ t.active)) x)

without_stdin-silent :
    (j : ℕ) (k : Meta) (xs : List ActiveExecution)
    → silent j xs ≡ true
    → silent j (without_stdin k xs) ≡ true
without_stdin-silent j k [] h = h
without_stdin-silent j k (x ∷ xs) h = elim (Bool-cases ((x.job == j) && not x.has_stdin)) [
  | inl q ↦ elim (Bool-cases (is_numbered k x)) [
    | inl e ↦ elim (Bool-cases (x.job == j)) [
      | inl r ↦ rw (e, r) refl
      | inr r ↦ absurd (let z = rw r at q in cc)
    ]
    | inr e ↦ rw (e, q) refl
  ]
  | inr q ↦
      let rest = without_stdin-silent j k xs (rw q at h) in
      elim (Bool-cases (is_numbered k x)) [
        | inl e ↦ rw e (or_right ((x.job == j) && true) rest)
        | inr e ↦ rw (e, q) rest
      ]
]

module _ (j : ℕ) where
  by : {t : Session} (u : Session) → IsSilenced j u → goes_on u ≡ goes_on t → IsSilenced j t
  by u c h = subst (IsSilenced j) (goes_on-injective h) c

  sent :
      (r : Result MessageResponse TaggedError) (u : Session) {t : Session}
      → IsSilenced j u
      → send r u ≡ goes_on t
      → IsSilenced j t
  sent r u c h = subst (IsSilenced j) (sym (send-same r u h)) c

  pass_stdin-IsSilenced :
      (e : Delivery) (payload : String) (k : Meta) (s : Session) (a : Option ActiveExecution)
      {t : Session}
      → IsSilenced j s
      → pass_stdin e payload k s a ≡ goes_on t
      → IsSilenced j t
  unfolding pass_stdin
  pass_stdin-IsSilenced e payload k s none c h = by s c h
  pass_stdin-IsSilenced taken payload k s (some a) c h = elim (Bool-cases a.has_stdin) [
    | inl q ↦ by _ c (rw q at h)
    | inr q ↦ by s c (rw q at h)
  ]
  pass_stdin-IsSilenced never_taken payload k s (some a) c h = elim (Bool-cases a.has_stdin) [
    | inl q ↦ absurd (let z = rw q at h in cc)
    | inr q ↦ by s c (rw q at h)
  ]
  pass_stdin-IsSilenced (refused texts) payload k s (some a) c h = elim (Bool-cases a.has_stdin) [
    | inl q ↦ sent (err (texts, some k)) s c (rw q at h)
    | inr q ↦ by s c (rw q at h)
  ]

  task_ended-IsSilenced :
      (e : TaskEnd) (u : Session) {t : Session}
      → IsSilenced j u
      → task_ended e u ≡ goes_on t
      → IsSilenced j t
  unfolding task_ended
  task_ended-IsSilenced finished u c h = by u c h
  task_ended-IsSilenced task_cancelled u c h = by u c h
  task_ended-IsSilenced (task_failed e) u c h = sent (err e) u c h
  task_ended-IsSilenced (task_panicked text) u c h = sent _ u c h

  handle_msg-IsSilenced :
      (e : Delivery) (m : Result WsMessageRequest (List String)) (u : Session) {t : Session}
      → IsSilenced j u
      → handle_msg e m u ≡ goes_on t
      → IsSilenced j t
  unfolding handle_msg
  handle_msg-IsSilenced e (ok (execute_request payload k)) u c h =
      let a : ActiveExecution = record {
        sequence_number = k;
        job = u.manager.spawned;
        has_stdin = true;
      } in
      by _ (insert_active-IsSilenced j a u c) h
  handle_msg-IsSilenced e (ok (execute_stdin payload k)) u c h =
      pass_stdin-IsSilenced e payload k u (get k u.active) c h
  handle_msg-IsSilenced e (ok (execute_stdin_close k)) u c h =
      let silenced : IsSilenced j (record u { active = without_stdin k u.active }) =
        or-split (silent j u.active) (has j u.cancelled) c
          (λ a.
            or_left (silent j (without_stdin k u.active)) (has j u.cancelled)
              (without_stdin-silent j k u.active a))
          (λ b. or_right (silent j (without_stdin k u.active)) b) in
      by _ silenced h
  handle_msg-IsSilenced e (ok (execute_kill k)) u c h =
      by _ (retain_active-IsSilenced j (λ a. not (is_numbered k a)) u c) h
  handle_msg-IsSilenced e (err texts) u c h = sent (err (texts, none)) u c h

  respond-IsSilenced :
      (b : Bool) (s : Session) (rs : List (Result MessageResponse TaggedError)) {t : Session}
      → IsSilenced j s
      → respond b s rs ≡ goes_on t
      → IsSilenced j t
  unfolding respond
  respond-IsSilenced b s [] c h = by s c h
  respond-IsSilenced true s (r ∷ rs) c h = by _ c h
  respond-IsSilenced false s (r ∷ rs) c h = cc

  module _ (describe : ManagerError → List String) where
    idled-IsSilenced :
        (u : Session) (r : Result (Unit {0}) ManagerError) {t : Session}
        → IsSilenced j u
        → idled describe u r ≡ goes_on t
        → IsSilenced j t
    unfolding idled
    idled-IsSilenced u (ok x) c h = by u c h
    idled-IsSilenced u (err e) c h = sent (err (describe e, none)) u c h

    go_idle-IsSilenced :
        (a : Option (Option (List String))) (u : Session) {t : Session}
        → IsSilenced j u
        → go_idle describe a u ≡ goes_on t
        → IsSilenced j t
    unfolding go_idle
    go_idle-IsSilenced none u c h = cc
    go_idle-IsSilenced (some e) u c h = idled-IsSilenced u (idle u.manager e) c h

    pub handle-IsSilenced :
        (e : Event) (s : Session) {t : Session}
        → IsSilenced j s
        → handle describe e s ≡ goes_on t
        → IsSilenced j t
    unfolding handle joined_task
    handle-IsSilenced (request disconnected e) s c h = cc
    handle-IsSilenced (request (message m) e) s c h = handle_msg-IsSilenced e m _ c h
    handle-IsSilenced (request unknown e) s c h = by _ c h
    handle-IsSilenced (request failed e) s c h = by _ c h
    handle-IsSilenced (response b) s c h = respond-IsSilenced b s s.waiting c h
    handle-IsSilenced (task i e) s c h = task_ended-IsSilenced e (joined_task i s) c h
    handle-IsSilenced (garbage_collection f) s c h = by _ (retain_active-IsSilenced j _ s c) h
    handle-IsSilenced (idle_timeout a) s c h =
        go_idle-IsSilenced a (record s { idle_timer = false }) c h
    handle-IsSilenced (idle_request a) s c h = go_idle-IsSilenced a s c h
    handle-IsSilenced session_timeout s c h = cc
    handle-IsSilenced (sends r) s c h = by _ c h
