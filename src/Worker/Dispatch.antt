-- ===== src/Worker/Dispatch.antt =====
-- `handle_coordinator_message` of compiler/base/orchestrator/src/worker.rs, which answers requests
-- for files with tasks of their own and hands commands on to the task that manages processes, and
-- what `Commander::one` of compiler/base/orchestrator/src/coordinator.rs makes of an answer. The
-- file system is what a task answers; an error is the texts that `snafu::CleanedErrorText` makes.
pub mod Conversation
pub mod Answered
use rust_playground.Base.{
  ℕ, String, Bool, Option, none, some, List, [], ◌∷◌, ◌++◌, Result, ok, err, map_err, if◌then◌else◌,
}
use rust_playground.Message.{
  JobId, Multiplexed, CoordinatorMessage, WorkerMessage, WriteFileRequest, DeleteFileRequest,
  ReadFileRequest, ExecuteCommandRequest, SerializedError2,
}
use rust_playground.Message.Convert.{Response, Payload, into, try_from}
use rust_playground.Message.Errors.{new}

pub data FileRequest : Type 0 where
  write : WriteFileRequest → FileRequest
  delete : DeleteFileRequest → FileRequest
  read : ReadFileRequest → FileRequest

-- The type that answers a request: `OneToOneResponse`.
abbrev pub response_type : FileRequest → Response
response_type (write r) = Response.write_file
response_type (delete r) = Response.delete_file
response_type (read r) = Response.read_file

abbrev pub Answer : FileRequest → Type 0
Answer r = Result (Payload (response_type r)) (List String)

-- `MultiplexingSender::send`, up to `send_raw`.
unfoldable pub message_for : (r : Response) → Result (Payload r) (List String) → WorkerMessage
unfolding into new
message_for r (ok v) = into r v
message_for r (err e) = WorkerMessage.error2 (new e)

pub data ForwardedCommand : Type 0 where
  start_command : ExecuteCommandRequest → ForwardedCommand
  stdin_data : String → ForwardedCommand
  close_input kill_command : ForwardedCommand

pub record FileTask : Type 0 where
  pub job : JobId
  pub request : FileRequest

-- The tasks that run, and what was sent to the task of processes and to the coordinator.
pub record Dispatcher : Type 0 where
  pub tasks : List FileTask
  pub forwarded : List (Multiplexed ForwardedCommand)
  pub sent : List (Multiplexed WorkerMessage)

pub data DispatchError : Type 0 where
  unable_to_send_response unable_to_forward task_panicked : DispatchError

-- What `select!` gives, with whether a channel takes what is sent: a message of the coordinator, or
-- that the task between `before` and `after` has its answer, or has panicked.
pub data Event : Type 0 where
  received : Option (Multiplexed CoordinatorMessage) → Bool → Event
  answered :
      (before : List FileTask) (t : FileTask) (after : List FileTask)
      → Answer t.request
      → Bool
      → Event
  panicked : Event

pub data Handled : Type 0 where
  goes_on : Dispatcher → Handled
  breaks : Handled
  fails : DispatchError → Handled

unfoldable pub start : Dispatcher
start = record { tasks = []; forwarded = []; sent = [] }

abbrev pub spawn_task : JobId → FileRequest → Dispatcher → Handled
spawn_task job r s =
    goes_on (record s { tasks = s.tasks ++ (record { job = job; request = r } ∷ []) })

abbrev pub forward : Bool → JobId → ForwardedCommand → Dispatcher → Handled
forward accepted job c s =
    if accepted
    then goes_on
        (record s { forwarded = s.forwarded ++ (record { job_id = job; message = c } ∷ []) })
    else fails unable_to_forward

-- `match coordinator_msg`
unfoldable pub dispatch : Bool → JobId → CoordinatorMessage → Dispatcher → Handled
dispatch accepted job (CoordinatorMessage.write_file r) s = spawn_task job (write r) s
dispatch accepted job (CoordinatorMessage.delete_file r) s = spawn_task job (delete r) s
dispatch accepted job (CoordinatorMessage.read_file r) s = spawn_task job (read r) s
dispatch accepted job (CoordinatorMessage.execute_command r) s =
    forward accepted job (start_command r) s
dispatch accepted job (CoordinatorMessage.stdin_packet d) s = forward accepted job (stdin_data d) s
dispatch accepted job CoordinatorMessage.stdin_close s = forward accepted job close_input s
dispatch accepted job CoordinatorMessage.kill s = forward accepted job kill_command s

unfoldable pub handle : Dispatcher → Event → Handled
unfolding dispatch message_for
handle s (received none accepted) = breaks
handle s (received (some m) accepted) = dispatch accepted m.job_id m.message s
handle s (answered before t after a accepted) =
    if accepted
    then goes_on (record s {
      tasks = before ++ after;
      sent =
          s.sent
          ++ (record { job_id = t.job; message = message_for (response_type t.request) a } ∷ []);
    })
    else fails unable_to_send_response
handle s panicked = fails task_panicked

-- The errors of `Commander::one` on the message that it waited for.
pub data OneError : Type 0 where
  unexpected_response_type : OneError
  worker_operation_failed : SerializedError2 → OneError

abbrev read_as :
    (r : Response)
    → Result (Result (Payload r) SerializedError2) WorkerMessage
    → Result (Payload r) OneError
read_as r (ok v) = map_err worker_operation_failed v
read_as r (err m) = err unexpected_response_type

-- The end of `Commander::one`.
unfoldable pub one_response : (r : Response) → WorkerMessage → Result (Payload r) OneError
unfolding try_from
one_response r m = read_as r (try_from r m)
