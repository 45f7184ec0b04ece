-- ===== src/WebSocket/Session/Waiting.antt =====
-- When the loop of a session waits for ever.
use rust_playground.Base.{
  ◌≡◌, refl, ◌∙◌, Bool, true, false, not, Option, none, some, List, [], ◌∷◌, ◌++◌, length, ltb,
  String, Bool-cases, inl, inr, ok, err, is_ok, ◌&&◌, ◌||◌, Result,
}
use rust_playground.WebSocket.{Meta, MessageResponse}
use rust_playground.WebSocket.Manager.{ManagerError, idle}
use rust_playground.WebSocket.Session.{
  WsMessageRequest, execute_request, execute_stdin, execute_stdin_close, execute_kill, TaggedError,
  ActiveExecution, Session, Handled, goes_on, breaks, blocks, send, get,
}
use rust_playground.WebSocket.Session.Loop.{
  disconnected, message, unknown, failed, finished, task_cancelled, task_failed, task_panicked,
  TaskEnd, Event, request, response, task, garbage_collection, idle_timeout, idle_request,
  session_timeout, sends, is_possible, Delivery, taken, never_taken, refused, pass_stdin,
  handle_msg, respond, task_ended, joined_task, idled, go_idle, handle,
}
use rust_playground.WebSocket.Session.Changes.{Reaches, later}

abbrev pub has_room : Session → Bool
has_room s = ltb (length s.waiting) 3

abbrev pub is_blocked : Handled → Bool
is_blocked (blocks s) = true
is_blocked (goes_on s) = false
is_blocked (breaks s) = false

send-is_blocked :
    (r : Result MessageResponse TaggedError) (s : Session)
    → is_blocked (send r s) ≡ not (has_room s)
unfolding send
send-is_blocked r s = elim (Bool-cases (has_room s)) [ inl h ↦ rw h refl | inr h ↦ rw h refl ]

-- The errors that an event makes the loop itself report.
abbrev pub task_reports : TaskEnd → Bool
task_reports finished = false
task_reports task_cancelled = false
task_reports (task_failed e) = true
task_reports (task_panicked t) = true

-- Whether a message makes the loop report an error: it cannot be read, or an execution no longer
-- takes its input.
abbrev pub input_reports : Delivery → Option ActiveExecution → Bool
input_reports (refused e) (some a) = a.has_stdin
input_reports _ _ = false

-- Whether it is input that an execution with a channel never takes.
abbrev pub input_stays : Delivery → Option ActiveExecution → Bool
input_stays never_taken (some a) = a.has_stdin
input_stays _ _ = false

abbrev pub message_stays : Session → Delivery → Result WsMessageRequest (List String) → Bool
message_stays s e (ok (execute_stdin t k)) = input_stays e (get k s.active)
message_stays s e _ = false

abbrev pub message_reports : Session → Delivery → Result WsMessageRequest (List String) → Bool
message_reports s e (err texts) = true
message_reports s e (ok (execute_stdin t k)) = input_reports e (get k s.active)
message_reports s e (ok _) = false

abbrev pub idle_reports : Session → Option (Option (List String)) → Bool
idle_reports s none = false
idle_reports s (some e) = not (is_ok (idle s.manager e))

abbrev pub reports : Session → Event → Bool
reports s (request (message m) e) = message_reports s e m
reports s (request _ e) = false
reports s (task j e) = task_reports e
reports s (idle_timeout a) = idle_reports s a
reports s (idle_request a) = idle_reports s a
reports s _ = false

abbrev pub stays : Session → Event → Bool
stays s (request (message m) e) = message_stays s e m
stays s _ = false

pass_stdin-is_blocked :
    (e : Delivery) (payload : String) (k : Meta) (s : Session) (a : Option ActiveExecution)
    → is_blocked (pass_stdin e payload k s a)
      ≡ (input_stays e a || (input_reports e a && not (has_room s)))
unfolding pass_stdin
pass_stdin-is_blocked taken payload k s none = refl
pass_stdin-is_blocked never_taken payload k s none = refl
pass_stdin-is_blocked (refused t) payload k s none = refl
pass_stdin-is_blocked taken payload k s (some a) = elim (Bool-cases a.has_stdin) [
  | inl h ↦ rw h refl
  | inr h ↦ rw h refl
]
pass_stdin-is_blocked never_taken payload k s (some a) = elim (Bool-cases a.has_stdin) [
  | inl h ↦ rw h refl
  | inr h ↦ rw h refl
]
pass_stdin-is_blocked (refused t) payload k s (some a) = elim (Bool-cases a.has_stdin) [
  | inl h ↦ rw h (send-is_blocked (err (t, some k)) s)
  | inr h ↦ rw h refl
]

handle_msg-is_blocked :
    (e : Delivery) (m : Result WsMessageRequest (List String)) (s : Session)
    → is_blocked (handle_msg e m s)
      ≡ (message_stays s e m || (message_reports s e m && not (has_room s)))
unfolding handle_msg
handle_msg-is_blocked e (err texts) s = send-is_blocked (err (texts, none)) s
handle_msg-is_blocked e (ok (execute_stdin t k)) s = pass_stdin-is_blocked e t k s (get k s.active)
handle_msg-is_blocked e (ok (execute_request r k)) s = refl
handle_msg-is_blocked e (ok (execute_stdin_close k)) s = refl
handle_msg-is_blocked e (ok (execute_kill k)) s = refl

task_ended-is_blocked :
    (e : TaskEnd) (s : Session) → is_blocked (task_ended e s) ≡ (task_reports e && not (has_room s))
unfolding task_ended
task_ended-is_blocked finished s = refl
task_ended-is_blocked task_cancelled s = refl
task_ended-is_blocked (task_failed e) s = send-is_blocked (err e) s
task_ended-is_blocked (task_panicked t) s = send-is_blocked _ s

respond-is_blocked :
    (b : Bool) (s : Session) (rs : List (Result MessageResponse TaggedError))
    → is_blocked (respond b s rs) ≡ false
unfolding respond
respond-is_blocked b s [] = refl
respond-is_blocked true s (r ∷ rs) = refl
respond-is_blocked false s (r ∷ rs) = refl

module _ (describe : ManagerError → List String) where
  idled-is_blocked :
      (s : Session) (r : Result (Unit {0}) ManagerError)
      → is_blocked (idled describe s r) ≡ (not (is_ok r) && not (has_room s))
  unfolding idled
  idled-is_blocked s (ok u) = refl
  idled-is_blocked s (err e) = send-is_blocked (err (describe e, none)) s

  go_idle-is_blocked :
      (a : Option (Option (List String))) (s : Session)
      → is_blocked (go_idle describe a s) ≡ (idle_reports s a && not (has_room s))
  unfolding go_idle
  go_idle-is_blocked none s = refl
  go_idle-is_blocked (some e) s = idled-is_blocked s (idle s.manager e)

  pub handle-is_blocked :
      (e : Event) (s : Session)
      → is_blocked (handle describe e s) ≡ (stays s e || (reports s e && not (has_room s)))
  unfolding handle joined_task
  handle-is_blocked (request disconnected e) s = refl
  handle-is_blocked (request (message m) e) s = handle_msg-is_blocked e m _
  handle-is_blocked (request unknown e) s = refl
  handle-is_blocked (request failed e) s = refl
  handle-is_blocked (response b) s = respond-is_blocked b s s.waiting
  handle-is_blocked (task j e) s = task_ended-is_blocked e (joined_task j s)
  handle-is_blocked (garbage_collection f) s = refl
  handle-is_blocked (idle_timeout a) s = go_idle-is_blocked a _
  handle-is_blocked (idle_request a) s = go_idle-is_blocked a s
  handle-is_blocked session_timeout s = refl
  handle-is_blocked (sends r) s = refl

sends_more :
    {describe : ManagerError → List String} {s : Session} (r : MessageResponse)
    → Reaches describe s
    → has_room s ≡ true
    → Reaches describe (record s { waiting = s.waiting ++ (ok r ∷ []) })
unfolding handle is_possible
sends_more r p h = later (sends r) p h refl

-- From every session in which nothing waits, three responses of executions and then a message that
-- cannot be read lead to a session that waits for itself.
Reaches-is_blocked :
    {describe : ManagerError → List String} {s : Session} (a b c : MessageResponse)
    (texts : List String)
    → Reaches describe s
    → s.waiting ≡ []
    → (t : Session) × Reaches describe t
      × (is_blocked (handle describe (request (message (err texts)) taken) t) ≡ true)
Reaches-is_blocked {describe} {s} a b c texts p h =
    let first = sends_more a p (rw h refl) in
    let second = sends_more b first (rw h refl) in
    let third = sends_more c second (rw h refl) in
    (_, third, handle-is_blocked describe (request (message (err texts)) taken) _ ∙ rw h refl)
