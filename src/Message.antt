-- ===== src/Message.antt =====
-- The messages between a coordinator and its worker (compiler/base/orchestrator/src/message.rs).
-- A byte is a number below 256, an `f64` stands as the number of its bits, and a `HashMap` of
-- environment variables as the list of its entries.
pub mod Errors
pub mod Convert
use rust_playground.Base.{ℕ, String, Bool, Option, none, List, []}

abbrev pub JobId : Type 0
JobId = ℕ

pub record Multiplexed (T : Type 0) : Type 0 where
  pub job_id : JobId
  pub message : T

pub record WriteFileRequest : Type 0 where
  pub path : String
  pub content : List ℕ

pub record DeleteFileRequest : Type 0 where
  pub path : String

pub record ReadFileRequest : Type 0 where
  pub path : String

pub record ExecuteCommandRequest : Type 0 where
  pub cmd : String
  pub args : List String
  pub envs : List (String × String)
  pub cwd : Option String

-- `ExecuteCommandRequest::simple`
unfoldable pub simple : String → List String → ExecuteCommandRequest
simple cmd args = record { cmd = cmd; args = args; envs = []; cwd = none }

pub data WriteFileResponse : Type 0 where
  written : WriteFileResponse

pub data DeleteFileResponse : Type 0 where
  deleted : DeleteFileResponse

pub record ReadFileResponse : Type 0 where
  pub content : List ℕ

pub record ExecuteCommandResponse : Type 0 where
  pub success : Bool
  pub exit_detail : String

pub record CommandStatistics : Type 0 where
  pub total_time_secs : ℕ  -- f64
  pub resident_set_size_bytes : ℕ  -- u64

pub record SerializedError : Type 0 where
  pub text : String

-- `SerializedError2 { message, source: None }` and `SerializedError2 { message, source: Some(_) }`
pub data SerializedError2 : Type 0 where
  bare : String → SerializedError2
  caused : String → SerializedError2 → SerializedError2

pub data CoordinatorMessage : Type 0 where
  write_file : WriteFileRequest → CoordinatorMessage
  delete_file : DeleteFileRequest → CoordinatorMessage
  read_file : ReadFileRequest → CoordinatorMessage
  execute_command : ExecuteCommandRequest → CoordinatorMessage
  stdin_packet : String → CoordinatorMessage
  stdin_close : CoordinatorMessage
  kill : CoordinatorMessage

pub data WorkerMessage : Type 0 where
  write_file : WriteFileResponse → WorkerMessage
  delete_file : DeleteFileResponse → WorkerMessage
  read_file : ReadFileResponse → WorkerMessage
  execute_command : ExecuteCommandResponse → WorkerMessage
  stdout_packet : String → WorkerMessage
  stderr_packet : String → WorkerMessage
  command_statistics : CommandStatistics → WorkerMessage
  error : SerializedError → WorkerMessage
  error2 : SerializedError2 → WorkerMessage
