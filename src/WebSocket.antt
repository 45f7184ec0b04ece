-- ===== src/WebSocket.antt =====
-- What the playground's server and a browser say to each other over a WebSocket
-- (ui/src/server_axum/websocket.rs). A `Meta` stands as its sequence number, an `i64` as the number
-- of its bits, and an `f64` likewise.
pub mod Execute
pub mod Manager
pub mod Session
use rust_playground.Base.{ℕ, ◌-◌, ◌^◌, String, Bool, Option, if◌then◌else◌}
use rust_playground.Message.{CommandStatistics, ExecuteCommandResponse}
use rust_playground.Metrics.{Outcome}

abbrev pub Meta : Type 0
Meta = ℕ

-- `create_server_meta`: the sequence number is -1.
abbrev pub server_meta : Meta
server_meta = 2 ^ 64 - 1

pub record ExecuteStatus : Type 0 where
  pub resident_set_size_bytes : ℕ  -- u64
  pub total_time_secs : ℕ  -- f64

-- `From<coordinator::ExecuteStatus> for ExecuteStatus`
abbrev pub to_status : CommandStatistics → ExecuteStatus
to_status s = record {
  resident_set_size_bytes = s.resident_set_size_bytes;
  total_time_secs = s.total_time_secs;
}

pub record ExecuteResponse : Type 0 where
  pub success : Bool
  pub exit_detail : String

pub data MessageResponse : Type 0 where
  error : String → Meta → MessageResponse
  feature_flags : Option ℕ → Meta → MessageResponse
  execute_begin : Meta → MessageResponse
  execute_stdout : String → Meta → MessageResponse
  execute_stderr : String → Meta → MessageResponse
  execute_status : ExecuteStatus → Meta → MessageResponse
  execute_end : ExecuteResponse → Meta → MessageResponse

abbrev pub to_response : ExecuteCommandResponse → ExecuteResponse
to_response r = record { success = r.success; exit_detail = r.exit_detail }

-- `Outcome::from_success`, of ui/src/server_axum.rs, on the response to an execution.
abbrev pub from_success : ExecuteCommandResponse → Outcome
from_success r = if r.success then Outcome.success else Outcome.error_user_code
