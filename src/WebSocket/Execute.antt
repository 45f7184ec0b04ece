-- ===== src/WebSocket/Execute.antt =====
-- One execution over a WebSocket: `handle_execute` and `handle_execute_inner` of
-- ui/src/server_axum/websocket.rs. The channels are what they take: whether the browser's takes the
-- response after the first `n`, and whether the coordinator takes a chunk of standard input after
-- the first `n`. The warning on a request that took over 60 seconds is left out.
pub mod Stream
pub mod Metric
pub mod Whole
use rust_playground.Base.{
  ℕ, String, Bool, true, false, Option, none, some, List, [], ◌∷◌, ◌++◌, Result, ok, err, length,
  if◌then◌else◌,
}
use mathlib.Core.Option
use rust_playground.Message.{CommandStatistics, ExecuteCommandResponse}
use rust_playground.Request.{ExecuteRequest}
use rust_playground.Api.{ApiExecuteRequest, ParseError}
use rust_playground.Api.Convert.{ws_to_execute}
use rust_playground.Metrics.{Endpoint, Outcome, Labels, execute_labels, complete}
use rust_playground.WebSocket.{
  Meta, MessageResponse, execute_begin, execute_stdout, execute_stderr, execute_status, execute_end,
  to_status, to_response, from_success,
}

-- The errors of the coordinator are those of `E`.
pub data ExecuteError (E : Type 0) : Type 0 where
  bad_request : ParseError → ExecuteError E
  begin : E → ExecuteError E
  end : E → ExecuteError E
  stdin_error : ExecuteError E

pub record Channels : Type 0 where
  pub accepts : ℕ → Bool
  pub takes : ℕ → Bool

-- What `select!` gives while the execution runs.
pub data Event : Type 0 where
  stdin : Option String → Event
  stdout stderr : String → Event
  status : CommandStatistics → Event

-- Whether `stdin_tx` is there, and what was sent.
pub record Relay : Type 0 where
  pub stdin_open : Bool
  pub to_coordinator : List String
  pub responses : List MessageResponse

-- `panicked`: the `unwrap` of `stdin_tx`.
pub data Stop (E : Type 0) : Type 0 where
  abandoned : Stop E
  completed : Outcome → Stop E
  failed : ExecuteError E → Stop E
  panicked : Stop E

pub data Handled (E : Type 0) : Type 0 where
  goes_on : Relay → Handled E
  stops : Stop E → Relay → Handled E

-- What the world does: how the execution begins, the events while it runs, what is left in the
-- channels when it has ended, and how it ended.
pub record Run (E : Type 0) : Type 0 where
  pub begun : Option E
  pub events : List Event
  pub stdout_left : List String
  pub stderr_left : List String
  pub ended : Result ExecuteCommandResponse E

abbrev pub and_then : {E : Type 0} → Handled E → (Relay → Handled E) → Handled E
and_then (goes_on s) k = k s
and_then (stops e s) k = stops e s

-- `Begin` was not sent yet.
abbrev pub opened : Relay
opened = record { stdin_open = true; to_coordinator = []; responses = [] }

module _ {E : Type 0} (c : Channels) (meta : Meta) where
  -- `tx.send(Ok(response)).await` and `abandon_if_closed!`
  unfoldable pub respond : MessageResponse → Relay → Handled E
  respond r s =
      if c.accepts (length s.responses)
      then goes_on (record s { responses = s.responses ++ (r ∷ []) })
      else stops abandoned s

  abbrev give_input : String → Relay → Handled E
  give_input t s =
      if c.takes (length s.to_coordinator)
      then goes_on (record s { to_coordinator = s.to_coordinator ++ (t ∷ []) })
      else stops (failed stdin_error) s

  unfoldable pub handle : Event → Relay → Handled E
  unfolding respond
  handle (stdin (some t)) s = if s.stdin_open then give_input t s else stops panicked s
  handle (stdin none) s = goes_on (record s { stdin_open = false })
  handle (stdout t) s = respond (execute_stdout t meta) s
  handle (stderr t) s = respond (execute_stderr t meta) s
  handle (status st) s = respond (execute_status (to_status st) meta) s

  unfoldable pub relay : List Event → Relay → Handled E
  unfolding handle
  relay [] s = goes_on s
  relay (e ∷ es) s = and_then (handle e s) (relay es)

  -- One `while let Some(Some(…)) = ….recv().now_or_never()`.
  unfoldable pub drain : (String → Meta → MessageResponse) → List String → Relay → Handled E
  unfolding respond
  drain f [] s = goes_on s
  drain f (t ∷ ts) s = and_then (respond (f t meta) s) (drain f ts)

  unfoldable pub finish : Result ExecuteCommandResponse E → Relay → Handled E
  unfolding respond
  finish (err e) s = stops (failed (end e)) s
  finish (ok r) s =
      and_then (respond (execute_end (to_response r) meta) s) (stops (completed (from_success r)))

  -- From what `begin_execute` gave on.
  unfoldable pub stream : Option E → Run E → Handled E
  unfolding respond relay drain finish
  stream (some e) w = stops (failed (begin e)) opened
  stream none w = and_then (respond (execute_begin meta) opened) λ s.
      and_then (relay w.events s) λ s.
        and_then (drain execute_stdout w.stdout_left s)
          λ s. and_then (drain execute_stderr w.stderr_left s) λ s. finish w.ended s

  unfoldable pub execute_inner : Run E → Handled E
  unfolding stream
  execute_inner w = stream w.begun w

-- What is recorded of how an execution stopped: nothing when it panicked.
abbrev pub outcome_of : {E : Type 0} → Stop E → Option Outcome
outcome_of abandoned = some Outcome.abandoned
outcome_of (completed o) = some o
outcome_of (failed e) = some Outcome.error_server
outcome_of panicked = none

abbrev pub metric_of : {E : Type 0} → ExecuteRequest → Handled E → Option Labels
metric_of r (goes_on s) = none
metric_of r (stops e s) = Option.map (complete Endpoint.execute (execute_labels r)) (outcome_of e)

-- After the request was read.
unfoldable pub execute_read :
    {E : Type 0}
    → Channels
    → Meta
    → Run E
    → Result ExecuteRequest ParseError
    → Handled E × Option Labels
unfolding execute_inner execute_labels complete
execute_read c meta w (err e) = (stops (failed (bad_request e)) opened, none)
execute_read c meta w (ok req) = (execute_inner c meta w, metric_of req (execute_inner c meta w))

unfoldable pub handle_execute :
    {E : Type 0} → Channels → Meta → ApiExecuteRequest → Run E → Handled E × Option Labels
handle_execute c meta request w = execute_read c meta w (ws_to_execute request)

-- What the task records. `JoinSet` drops a task that `spawn` or `shutdown` of the manager has
-- aborted at one of its awaits, and nothing that comes after it happens: the metric comes last.
unfoldable pub metric_recorded :
    {E : Type 0} → Bool → Channels → Meta → ApiExecuteRequest → Run E → Option Labels
metric_recorded true c meta request w = none
metric_recorded false c meta request w = (handle_execute c meta request w).1
