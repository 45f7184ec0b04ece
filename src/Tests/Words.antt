-- ===== src/Tests/Words.antt =====
-- The words of the web API at concrete inputs.
use rust_playground.Base.{◌≡◌, ok, ◌↔◌, true, false}
use rust_playground.Request.{nightly, release, rust2021, library, cdylib, single, ExecuteRequest}
use rust_playground.Api.{ApiExecuteRequest}
use rust_playground.Api.Convert.{to_execute, ws_to_execute}
use rust_playground.Api.Roundtrip.{spell_execute, to_execute_iff}

abbrev spoken : ApiExecuteRequest
spoken = record {
  channel = "nightly";
  mode = "release";
  edition = "2021";
  crate_type = "cdylib";
  tests = false;
  backtrace = true;
  code = single "fn main() {}";
}

abbrev meant : ExecuteRequest
meant = record {
  channel = nightly;
  mode = release;
  edition = rust2021;
  crate_type = library cdylib;
  tests = false;
  backtrace = true;
  code = single "fn main() {}";
}

to_execute_iff_example :
    ((to_execute spoken ≡ ok meant) ↔ (spoken ≡ spell_execute meant))
    × ((ws_to_execute spoken ≡ ok meant) ↔ (spoken ≡ spell_execute meant))
to_execute_iff_example = to_execute_iff spoken meant
