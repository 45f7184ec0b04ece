-- ===== src/WebSocket/Session/Changes.antt =====
-- How an event changes the tasks, the active executions and the cancelled tokens of a session.
use rust_playground.Base.{
  ℕ, ◌≡◌, refl, sym, subst, Bool, true, false, not, Option, none, some, List, [], ◌∷◌, ◌++◌, map,
  Result, ok, err, keep, if◌then◌else◌, length, ltb, Bool-cases, inl, inr, String,
}
use rust_playground.WebSocket.{Meta, MessageResponse}
use rust_playground.WebSocket.Manager.{Manager, ManagerError, spawn, join_next, idle}
use rust_playground.WebSocket.Session.{
  WsMessageRequest, execute_request, execute_stdin, execute_stdin_close, execute_kill, TaggedError,
  ActiveExecution, Session, goes_on, start, send, retain_active, is_numbered, get, insert_active,
  without_stdin,
}
use rust_playground.WebSocket.Session.Loop.{
  disconnected, message, unknown, failed, finished, task_cancelled, task_failed, task_panicked,
  Event, request, response, task, garbage_collection, idle_timeout, idle_request, session_timeout,
  sends, Delivery, taken, never_taken, refused, TaskEnd, is_possible, pass_stdin, handle_msg,
  respond, task_ended, joined_task, idled, go_idle, handle,
}

-- The sessions that the loop comes to.
pub data Reaches (describe : ManagerError → List String) : Session → Type 0 where
  started : (flags : Option ℕ) → Reaches describe (start flags)
  later :
      {s t : Session} (e : Event)
      → Reaches describe s
      → is_possible s e ≡ true
      → handle describe e s ≡ goes_on t
      → Reaches describe t

abbrev pub jobs : List ActiveExecution → List ℕ
jobs xs = map (λ a. a.job) xs

-- From `m`, `xs` and `js`: nothing changes; a task is taken out; entries are dropped; or entries
-- are dropped and an execution starts.
pub data Change (m : Manager) (xs : List ActiveExecution) (js : List ℕ) (n : Manager)
    (ys : List ActiveExecution) (ks : List ℕ) : Type 0 where
  keeps : n ≡ m → jobs ys ≡ jobs xs → ks ≡ js → Change m xs js n ys ks
  joins : (j : ℕ) → n ≡ join_next j m → jobs ys ≡ jobs xs → ks ≡ js → Change m xs js n ys ks
  drops :
      (p : ActiveExecution → Bool)
      → n ≡ m
      → jobs ys ≡ jobs (keep p xs)
      → ks ≡ jobs (keep (λ a. not (p a)) xs) ++ js
      → Change m xs js n ys ks
  starts :
      (p : ActiveExecution → Bool)
      → n ≡ spawn m
      → jobs ys ≡ m.spawned ∷ jobs (keep p xs)
      → ks ≡ jobs (keep (λ a. not (p a)) xs) ++ js
      → Change m xs js n ys ks

abbrev pub Changes : Session → Session → Type 0
Changes s t = Change s.manager s.active s.cancelled t.manager t.active t.cancelled

pub goes_on-injective : {s t : Session} → goes_on s ≡ goes_on t → s ≡ t
goes_on-injective h = cc

by : (s : Session) {t u : Session} → Changes s t → goes_on t ≡ goes_on u → Changes s u
by s c h = subst (Changes s) (goes_on-injective h) c

pub send-same :
    (r : Result MessageResponse TaggedError) (s : Session) {t : Session}
    → send r s ≡ goes_on t
    → t ≡ record s { waiting = s.waiting ++ (r ∷ []) }
unfolding send
send-same r s h = elim (Bool-cases (ltb (length s.waiting) 3)) [
  | inl q ↦ sym (goes_on-injective (rw q at h))
  | inr q ↦ absurd (let h' = rw q at h in cc)
]

sent :
    (s : Session) (r : Result MessageResponse TaggedError) (u : Session) {t : Session}
    → Changes s u
    → send r u ≡ goes_on t
    → Changes s t
sent s r u c h = subst (Changes s) (sym (send-same r u h)) c

without_stdin-jobs : (k : Meta) (xs : List ActiveExecution) → jobs (without_stdin k xs) ≡ jobs xs
without_stdin-jobs k [] = refl
without_stdin-jobs k (a ∷ xs) = elim (Bool-cases (is_numbered k a)) [
  | inl q ↦ rw (q, without_stdin-jobs k xs) refl
  | inr q ↦ rw (q, without_stdin-jobs k xs) refl
]

pass_stdin-Changes :
    (e : Delivery) (payload : String) (k : Meta) (s : Session) (a : Option ActiveExecution)
    {t : Session}
    → pass_stdin e payload k s a ≡ goes_on t
    → Changes s t
unfolding pass_stdin
pass_stdin-Changes e payload k s none h = by s (keeps refl refl refl) h
pass_stdin-Changes taken payload k s (some a) h = elim (Bool-cases a.has_stdin) [
  | inl q ↦ by s (keeps refl refl refl) (rw q at h)
  | inr q ↦ by s (keeps refl refl refl) (rw q at h)
]
pass_stdin-Changes never_taken payload k s (some a) h = elim (Bool-cases a.has_stdin) [
  | inl q ↦ absurd (let z = rw q at h in cc)
  | inr q ↦ by s (keeps refl refl refl) (rw q at h)
]
pass_stdin-Changes (refused texts) payload k s (some a) h = elim (Bool-cases a.has_stdin) [
  | inl q ↦ sent s (err (texts, some k)) s (keeps refl refl refl) (rw q at h)
  | inr q ↦ by s (keeps refl refl refl) (rw q at h)
]

task_ended-Changes :
    (s : Session) (e : TaskEnd) (u : Session) {t : Session}
    → Changes s u
    → task_ended e u ≡ goes_on t
    → Changes s t
unfolding task_ended
task_ended-Changes s finished u c h = by s c h
task_ended-Changes s task_cancelled u c h = by s c h
task_ended-Changes s (task_failed e) u c h = sent s (err e) u c h
task_ended-Changes s (task_panicked text) u c h = sent s _ u c h

-- `u` is the session after the message was counted.
handle_msg-Changes :
    (e : Delivery) (m : Result WsMessageRequest (List String)) (u : Session) {t : Session}
    → handle_msg e m u ≡ goes_on t
    → Changes u t
unfolding handle_msg insert_active retain_active
handle_msg-Changes e (ok (execute_request payload k)) u h =
    by u (starts (λ b. not (is_numbered k b)) refl refl refl) h
handle_msg-Changes e (ok (execute_stdin payload k)) u h =
    pass_stdin-Changes e payload k u (get k u.active) h
handle_msg-Changes e (ok (execute_stdin_close k)) u h =
    by u (keeps refl (without_stdin-jobs k u.active) refl) h
handle_msg-Changes e (ok (execute_kill k)) u h =
    by u (drops (λ a. not (is_numbered k a)) refl refl refl) h
handle_msg-Changes e (err texts) u h = sent u (err (texts, none)) u (keeps refl refl refl) h

respond-Changes :
    (b : Bool) (s : Session) (rs : List (Result MessageResponse TaggedError)) {t : Session}
    → respond b s rs ≡ goes_on t
    → Changes s t
unfolding respond
respond-Changes b s [] h = by s (keeps refl refl refl) h
respond-Changes true s (r ∷ rs) h = by s (keeps refl refl refl) h
respond-Changes false s (r ∷ rs) h = cc

module _ (describe : ManagerError → List String) where
  idled-Changes :
      (s u : Session) (r : Result (Unit {0}) ManagerError) {t : Session}
      → Changes s u
      → idled describe u r ≡ goes_on t
      → Changes s t
  unfolding idled
  idled-Changes s u (ok x) c h = by s c h
  idled-Changes s u (err e) c h = sent s (err (describe e, none)) u c h

  go_idle-Changes :
      (s : Session) (a : Option (Option (List String))) (u : Session) {t : Session}
      → Changes s u
      → go_idle describe a u ≡ goes_on t
      → Changes s t
  unfolding go_idle
  go_idle-Changes s none u c h = cc
  go_idle-Changes s (some e) u c h = idled-Changes s u (idle u.manager e) c h

  pub handle-Changes :
      (e : Event) (s : Session) {t : Session} → handle describe e s ≡ goes_on t → Changes s t
  unfolding handle joined_task retain_active
  handle-Changes (request disconnected e) s h = cc
  handle-Changes (request (message m) e) s h = handle_msg-Changes e m _ h
  handle-Changes (request unknown e) s h = by s (keeps refl refl refl) h
  handle-Changes (request failed e) s h = by s (keeps refl refl refl) h
  handle-Changes (response b) s h = respond-Changes b s s.waiting h
  handle-Changes (task j e) s h =
      task_ended-Changes s e (joined_task j s) (joins j refl refl refl) h
  handle-Changes (garbage_collection f) s h =
      by s (drops (λ a. if a.has_stdin then not (f a.job) else false) refl refl refl) h
  handle-Changes (idle_timeout a) s h =
      go_idle-Changes s a (record s { idle_timer = false }) (keeps refl refl refl) h
  handle-Changes (idle_request a) s h = go_idle-Changes s a s (keeps refl refl refl) h
  handle-Changes session_timeout s h = cc
  handle-Changes (sends r) s h = by s (keeps refl refl refl) h
