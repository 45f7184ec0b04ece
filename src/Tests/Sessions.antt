-- ===== src/Tests/Sessions.antt =====
-- Metrics and sessions over a WebSocket at concrete events.
use rust_playground.Base.{
  ℕ, ◌≡◌, refl, not, ◌&&◌, true, false, none, some, List, [], ◌∷◌, ok, is_some, is_ok, String, ltb,
}
use rust_playground.Api.{ApiExecuteRequest}
use rust_playground.Request.{Code}
use rust_playground.Api.Convert.{ws_to_execute}
use rust_playground.WebSocket.Execute.{
  Channels, stdin, stdout, stderr, Run, execute_inner, metric_recorded,
}
use rust_playground.WebSocket.Execute.Stream.{Reports, story, gather, execute_inner-Reports}
use rust_playground.WebSocket.Execute.Whole.{
  StopsWith, stop_for, chunk_of, are_possible, execute_inner-StopsWith,
}
use rust_playground.WebSocket.Execute.Metric.{handle_execute-metric}
use rust_playground.WebSocket.{server_meta, feature_flags}
use rust_playground.WebSocket.Manager.{ManagerError, manager, spawn}
use rust_playground.WebSocket.Session.Collected.{Goes, here, step, handle-closed}
use rust_playground.WebSocket.Session.{
  Session, start, insert_active, retain_active, to_response, execute_request, execute_stdin_close,
  goes_on,
}
use rust_playground.WebSocket.Session.Loop.{
  message, unknown, taken, request, response, garbage_collection, handle, handle_msg, is_possible,
  respond,
}
use rust_playground.WebSocket.Session.Changes.{Reaches, started, later}
use rust_playground.WebSocket.Session.Exclusive.{has, IsExclusive, Reaches-IsExclusive}
use rust_playground.WebSocket.Session.Tokens.{IsAccounted, Reaches-IsAccounted}

abbrev two_only : Channels
two_only = record { accepts = λ n. ltb n 2; takes = λ n. true }

abbrev everything : Channels
everything = record { accepts = λ n. true; takes = λ n. true }

abbrev greeting : Run ℕ
greeting = record {
  begun = none;
  events = stdin (some "me") ∷ stdout "hello" ∷ stdin none ∷ stderr "oh" ∷ [];
  stdout_left = "me" ∷ [];
  stderr_left = [];
  ended = ok (record { success = true; exit_detail = "done" });
}

execute_inner-Reports_example : Reports 7 greeting (execute_inner two_only 7 greeting)
execute_inner-Reports_example = execute_inner-Reports two_only 7 greeting

execute_inner-StopsWith_example :
    StopsWith
      (stop_for greeting.ended)
      (gather chunk_of greeting.events)
      (story 7 greeting)
      (execute_inner everything 7 greeting)
unfolding are_possible
execute_inner-StopsWith_example =
    execute_inner-StopsWith everything 7 greeting
      (record { all_accepted = λ n. refl; all_taken = λ n. refl }) refl refl

abbrev a_request : ApiExecuteRequest
a_request = record {
  channel = "stable";
  mode = "debug";
  edition = "2021";
  crate_type = "bin";
  tests = false;
  backtrace = false;
  code = Code.single "fn main() {}";
}

handle_execute-metric_example :
    is_some (metric_recorded false two_only 7 a_request greeting)
    ≡ (not false && is_ok (ws_to_execute a_request))
unfolding are_possible
handle_execute-metric_example = handle_execute-metric false two_only 7 a_request greeting refl

abbrev plain : ManagerError → List String
plain e = "error" ∷ []

abbrev quiet : Session
quiet = record {
  manager = record { tasks = []; abort_handle = none; aborted = []; spawned = 0 };
  active = [];
  cancelled = [];
  idle_timer = false;
  waiting = [];
  inputs = [];
  sent = feature_flags none server_meta ∷ [];
  incoming = 0;
  outgoing = true ∷ [];
}

quiet-Reaches : Reaches plain quiet
unfolding start manager is_possible handle respond to_response
quiet-Reaches = later (response true) (started none) refl refl

abbrev running : Session
running = record quiet {
  manager = record { tasks = 0 ∷ 1 ∷ []; abort_handle = some 1; aborted = 0 ∷ []; spawned = 2 };
  active =
      record { sequence_number = 5; job = 1; has_stdin = true }
      ∷ record { sequence_number = 4; job = 0; has_stdin = true }
      ∷ [];
  incoming = 2;
}

running-Reaches : Reaches plain running
unfolding handle handle_msg insert_active retain_active spawn is_possible
running-Reaches =
    later (request (message (ok (execute_request a_request 5))) taken)
      (later (request (message (ok (execute_request a_request 4))) taken) quiet-Reaches refl refl)
      refl refl

Reaches-IsExclusive_example : IsExclusive running.manager
Reaches-IsExclusive_example = Reaches-IsExclusive running-Reaches

Reaches-IsAccounted_example : IsAccounted running
Reaches-IsAccounted_example = Reaches-IsAccounted running-Reaches

abbrev closed : Session
closed = record running {
  active =
      record { sequence_number = 5; job = 1; has_stdin = true }
      ∷ record { sequence_number = 4; job = 0; has_stdin = false }
      ∷ [];
  incoming = 3;
}

-- A message that is not known comes in between.
abbrev later_on : Session
later_on = record closed { incoming = 4 }

abbrev collected : Session
collected = record later_on {
  active = record { sequence_number = 5; job = 1; has_stdin = true } ∷ [];
  cancelled = 0 ∷ [];
}

closes :
    handle plain (request (message (ok (execute_stdin_close 4))) taken) running ≡ goes_on closed
unfolding handle handle_msg
closes = refl

between : Goes plain closed (request unknown taken ∷ []) later_on
unfolding handle
between = step (request unknown taken) refl here

collects : handle plain (garbage_collection λ j. false) later_on ≡ goes_on collected
unfolding handle retain_active
collects = refl

handle-closed_example : has 0 collected.cancelled ≡ true
handle-closed_example =
    handle-closed plain running 4 (λ j. false) taken closes between collects 0 refl
