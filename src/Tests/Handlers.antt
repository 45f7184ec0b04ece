-- ===== src/Tests/Handlers.antt =====
-- A request to execute a program, over HTTP.
use rust_playground.Base.{String, true, false, none, some, ok, err}
use rust_playground.Request.{single}
use rust_playground.Api.{ApiExecuteRequest}
use rust_playground.Container.Tasks.{WithOutput, PlainResponse}
use rust_playground.Http.Handlers
use rust_playground.Http.Handlers.{Job, ApiPlainResponse}

abbrev greeting : WithOutput PlainResponse
greeting = record {
  response = record { success = true; exit_detail = "Exited with status 0" };
  stdout = "hello";
  stderr = "";
}

abbrev greeter : Job String
greeter = record {
  execute = λ r. some (ok greeting);
  compile = λ r. none;
  format = λ r. none;
  clippy = λ r. none;
  miri = λ r. some (err "gone");
  macro_expansion = λ r. none;
  shut_down = ok tt;
}

abbrev asked : ApiExecuteRequest
asked = record {
  channel = "stable";
  mode = "debug";
  edition = "2024";
  crate_type = "bin";
  tests = false;
  backtrace = false;
  code = single "fn main() {}";
}
