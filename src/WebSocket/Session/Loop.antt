-- ===== src/WebSocket/Session/Loop.antt =====
-- The events of a session and what `handle_core` and `handle_msg` do on them. What the world
-- answers comes with the event: whether the socket sends, whether an execution takes its input,
-- which executions dropped their channel, and how the coordinator idles. `describe` gives the texts
-- of the manager's errors. The session's entry in the database, the
-- log and the count of the socket's errors are not part of this.
use Prim.Native.String.{◌++◌ as str_append}
use rust_playground.Base.{
  ℕ, suc, String, Bool, true, false, not, Option, none, some, List, [], ◌∷◌, ◌++◌, Result, ok, err,
  is_ok, length, ltb, any, ◌==◌, ◌&&◌, if◌then◌else◌,
}
use rust_playground.WebSocket.{Meta, MessageResponse}
use rust_playground.WebSocket.Manager.{ManagerError, is_empty, spawn, join_next, idle}
use rust_playground.WebSocket.Session.{
  WsMessageRequest, execute_request, execute_stdin, execute_stdin_close, execute_kill, TaggedError,
  to_response, ActiveExecution, Session, Handled, goes_on, breaks, blocks, send, retain_active,
  is_numbered, get, insert_active, without_stdin,
}

-- What `socket.recv()` gives; a text is what `serde_json` reads of it.
pub data Incoming : Type 0 where
  disconnected : Incoming
  message : Result WsMessageRequest (List String) → Incoming
  unknown failed : Incoming

pub data TaskEnd : Type 0 where
  finished task_cancelled : TaskEnd
  task_failed : TaggedError → TaskEnd
  task_panicked : String → TaskEnd

-- What becomes of input that is sent to an execution by way of its bounded channel: it is taken, if
-- only after a while, or the channel is closed, with its error, or neither ever happens.
pub data Delivery : Type 0 where
  taken never_taken : Delivery
  refused : List String → Delivery

-- What `select!` gives, and that an execution sends a response. `request` tells what
-- becomes of input to an execution, should it be that.
pub data Event : Type 0 where
  request : Incoming → Delivery → Event
  response : Bool → Event
  task : ℕ → TaskEnd → Event
  garbage_collection : (ℕ → Bool) → Event
  idle_timeout idle_request : Option (Option (List String)) → Event
  session_timeout : Event
  sends : MessageResponse → Event

abbrev pub no_tasks : Session → Bool
no_tasks s = is_empty s.manager.tasks

-- Whether `select!`, or an execution, can give an event.
unfoldable pub is_possible : Session → Event → Bool
is_possible s (request r e) = true
is_possible s (response b) = ltb 0 (length s.waiting)
is_possible s (task j e) = any (λ i. i == j) s.manager.tasks
is_possible s (garbage_collection f) = true
is_possible s (idle_timeout a) = s.idle_timer && no_tasks s
is_possible s (idle_request a) = no_tasks s
is_possible s session_timeout = true
is_possible s (sends r) = ltb (length s.waiting) 3

unfoldable pub pass_stdin : Delivery → String → Meta → Session → Option ActiveExecution → Handled
unfolding send
pass_stdin e payload meta s none = goes_on s
pass_stdin e payload meta s (some a) = if not a.has_stdin then goes_on s else elim e [
  | taken ↦ goes_on (record s { inputs = s.inputs ++ ((a.job, payload) ∷ []) })
  | refused texts ↦ send (err (texts, some meta)) s
  | never_taken ↦ blocks s
]

unfoldable pub handle_msg : Delivery → Result WsMessageRequest (List String) → Session → Handled
unfolding send insert_active retain_active pass_stdin spawn
handle_msg e (ok (execute_request payload meta)) s =
    let a : ActiveExecution = record {
      sequence_number = meta;
      job = s.manager.spawned;
      has_stdin = true;
    } in
    let t = insert_active a s in goes_on (record t { manager = spawn t.manager })
handle_msg e (ok (execute_stdin payload meta)) s = pass_stdin e payload meta s (get meta s.active)
handle_msg e (ok (execute_stdin_close meta)) s =
    goes_on (record s { active = without_stdin meta s.active })
handle_msg e (ok (execute_kill meta)) s = goes_on (retain_active (λ a. not (is_numbered meta a)) s)
handle_msg e (err texts) s = send (err (texts, none)) s

unfoldable pub respond : Bool → Session → List (Result MessageResponse TaggedError) → Handled
unfolding to_response
respond b s [] = goes_on s
respond b s (r ∷ rs) =
    let t = record s { waiting = rs } in
    if b
    then goes_on (record t {
      sent = s.sent ++ (to_response r ∷ []);
      outgoing = s.outgoing ++ (is_ok r ∷ []);
    })
    else breaks t

unfoldable pub task_ended : TaskEnd → Session → Handled
unfolding send
task_ended finished s = goes_on s
task_ended task_cancelled s = goes_on s
task_ended (task_failed e) s = send (err e) s
task_ended (task_panicked text) s =
    send (err (str_append "The WebSocket worker panicked: " text ∷ [], none)) s

-- After `manager.join_next()`.
unfoldable pub joined_task : ℕ → Session → Session
unfolding join_next
joined_task j s =
    let m = join_next j s.manager in
    record s { manager = m; idle_timer = if is_empty m.tasks then true else s.idle_timer }

module _ (describe : ManagerError → List String) where
  unfoldable pub idled : Session → Result (Unit {0}) ManagerError → Handled
  unfolding send
  idled s (ok u) = goes_on s
  idled s (err e) = send (err (describe e, none)) s

  unfoldable pub go_idle : Option (Option (List String)) → Session → Handled
  unfolding idle idled
  go_idle none s = breaks s
  go_idle (some e) s = idled s (idle s.manager e)

  unfoldable pub handle : Event → Session → Handled
  unfolding handle_msg respond task_ended joined_task go_idle retain_active
  handle (request disconnected e) s = breaks (record s { incoming = suc s.incoming })
  handle (request (message m) e) s = handle_msg e m (record s { incoming = suc s.incoming })
  handle (request unknown e) s = goes_on (record s { incoming = suc s.incoming })
  handle (request failed e) s = goes_on (record s { incoming = suc s.incoming })
  handle (response b) s = respond b s s.waiting
  handle (task j e) s = task_ended e (joined_task j s)
  handle (garbage_collection is_closed) s =
      goes_on (retain_active (λ a. if a.has_stdin then not (is_closed a.job) else false) s)
  handle (idle_timeout a) s = go_idle a (record s { idle_timer = false })
  handle (idle_request a) s = go_idle a s
  handle session_timeout s = breaks s
  handle (sends r) s = goes_on (record s { waiting = s.waiting ++ (ok r ∷ []) })
