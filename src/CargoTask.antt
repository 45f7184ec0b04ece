-- ===== src/CargoTask.antt =====
-- The task that `spawn_cargo_task` of compiler/base/orchestrator/src/coordinator.rs starts for one
-- run of cargo: it stands between the worker and the channels of a caller. `accepted` tells whether
-- the channel to the worker takes what the task sends. A caller may drop its channels, which the
-- task does not mind: what it is sent is what the task sends.
pub mod Forwarding
pub mod Input
use rust_playground.Base.{
  String, Bool, true, false, Option, none, some, List, [], ◌∷◌, ◌++◌, Result, ok, err,
  if◌then◌else◌,
}
use rust_playground.Message.{
  CoordinatorMessage, WorkerMessage, CommandStatistics, ExecuteCommandResponse, SerializedError2,
}
use rust_playground.Message.Errors.{adapt}

-- The errors that the task itself returns. An unexpected message is given by its name.
pub data SpawnCargoError : Type 0 where
  worker : SerializedError2 → SpawnCargoError
  unexpected_message : String → SpawnCargoError
  stdin_error : SpawnCargoError
  kill_error : SpawnCargoError

-- What `select!` gives.
pub data Event : Type 0 where
  cancelled : Event
  stdin : Option String → Event
  from_worker : WorkerMessage → Event

-- Whether the cancellation has not resolved yet, whether standard input is open, and what was sent
-- to the worker and to the caller.
pub record Task : Type 0 where
  pub cancellable : Bool
  pub stdin_open : Bool
  pub to_worker : List CoordinatorMessage
  pub stdout : List String
  pub stderr : List String
  pub status : List CommandStatistics

pub data Handled : Type 0 where
  goes_on : Task → Handled
  returns : Result ExecuteCommandResponse SpawnCargoError → Handled

unfoldable pub start : Task
start = record {
  cancellable = true;
  stdin_open = true;
  to_worker = [];
  stdout = [];
  stderr = [];
  status = [];
}

-- Whether `select!` can give an event: a fused future that has resolved does not do so again.
abbrev pub is_possible : Task → Event → Bool
is_possible t cancelled = t.cancellable
is_possible t (stdin s) = t.stdin_open
is_possible t (from_worker m) = true

-- `to_worker_tx.send(msg).await.context(…)?`
abbrev send : Bool → SpawnCargoError → Task → CoordinatorMessage → Handled
send accepted e t msg =
    if accepted
    then goes_on (record t { to_worker = t.to_worker ++ (msg ∷ []) })
    else returns (err e)

-- The inner `match`, on the message of the worker.
abbrev receive : Task → WorkerMessage → Handled
receive t (WorkerMessage.execute_command resp) = returns (ok resp)
receive t (WorkerMessage.stdout_packet p) = goes_on (record t { stdout = t.stdout ++ (p ∷ []) })
receive t (WorkerMessage.stderr_packet p) = goes_on (record t { stderr = t.stderr ++ (p ∷ []) })
receive t (WorkerMessage.command_statistics stats) =
    goes_on (record t { status = t.status ++ (stats ∷ []) })
receive t (WorkerMessage.error e) = returns (err (worker (adapt e)))
receive t (WorkerMessage.error2 e) = returns (err (worker e))
receive t (WorkerMessage.write_file r) = returns (err (unexpected_message "WriteFile"))
receive t (WorkerMessage.delete_file r) = returns (err (unexpected_message "DeleteFile"))
receive t (WorkerMessage.read_file r) = returns (err (unexpected_message "ReadFile"))

unfoldable pub handle : Bool → Task → Event → Handled
unfolding adapt
handle accepted t cancelled =
    send accepted kill_error (record t { cancellable = false }) CoordinatorMessage.kill
handle accepted t (stdin (some s)) = send accepted stdin_error t (CoordinatorMessage.stdin_packet s)
handle accepted t (stdin none) =
    send accepted stdin_error (record t { stdin_open = false }) CoordinatorMessage.stdin_close
handle accepted t (from_worker m) = receive t m
