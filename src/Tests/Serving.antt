-- ===== src/Tests/Serving.antt =====
-- The worker's answers to concrete messages.
use rust_playground.Base.{◌≡◌, refl, true, [], ◌∷◌, ok, err, map_err}
use rust_playground.Message.{Multiplexed, CoordinatorMessage, WorkerMessage}
use rust_playground.Message.Convert.{Response, into}
use rust_playground.Message.Errors.{new}
use rust_playground.Worker.Dispatch.{
  read, close_input, FileTask, Dispatcher, start, handle, dispatch, message_for, one_response,
  worker_operation_failed,
}
use rust_playground.Worker.Dispatch.Conversation.{one_response-message_for}
use rust_playground.Worker.Dispatch.Answered.{Runs, idle, receives, answers, Serves, Runs-Serves}

one_response-message_for_example :
    one_response Response.read_file (message_for Response.read_file (err ("missing" ∷ [])))
    ≡ map_err (λ e. worker_operation_failed (new e)) (err ("missing" ∷ []))
one_response-message_for_example =
    one_response-message_for Response.read_file (err ("missing" ∷ []))

abbrev asks : Multiplexed CoordinatorMessage
asks = record {
  job_id = 7;
  message = CoordinatorMessage.read_file (record { path = "Cargo.toml" });
}

abbrev closes : Multiplexed CoordinatorMessage
closes = record { job_id = 8; message = CoordinatorMessage.stdin_close }

abbrev the_task : FileTask
the_task = record { job = 7; request = read (record { path = "Cargo.toml" }) }

abbrev served : Dispatcher
served = record {
  tasks = [];
  forwarded = record { job_id = 8; message = close_input } ∷ [];
  sent =
      record { job_id = 7; message = WorkerMessage.read_file (record { content = 1 ∷ [] }) } ∷ [];
}

serves : Runs (asks ∷ closes ∷ []) served
unfolding start handle dispatch message_for into
serves =
    answers [] the_task [] (ok (record { content = 1 ∷ [] })) true
      (receives closes true (receives asks true idle refl) refl) refl refl

Runs-Serves_example : Serves (asks ∷ closes ∷ []) served
Runs-Serves_example = Runs-Serves serves
