-- ===== src/Worker/Dispatch/Conversation.antt =====
-- What a caller of the commander is told of a request for a file.
use rust_playground.Base.{◌≡◌, refl, List, String, Result, ok, err, map_err}
use rust_playground.Message.Convert.{Response, Payload, into, try_from}
use rust_playground.Message.Errors.{new}
use rust_playground.Worker.Dispatch.{message_for, worker_operation_failed, one_response}

-- Whatever the worker answers to a request, the coordinator reads as just that: the response with
-- its content, or the worker's error, never an unexpected type of response.
pub one_response-message_for :
    (r : Response) (a : Result (Payload r) (List String))
    → one_response r (message_for r a) ≡ map_err (λ e. worker_operation_failed (new e)) a
unfolding one_response message_for try_from into
one_response-message_for Response.write_file (ok v) = refl
one_response-message_for Response.delete_file (ok v) = refl
one_response-message_for Response.read_file (ok v) = refl
one_response-message_for Response.execute_command (ok v) = refl
one_response-message_for Response.write_file (err e) = refl
one_response-message_for Response.delete_file (err e) = refl
one_response-message_for Response.read_file (err e) = refl
one_response-message_for Response.execute_command (err e) = refl
