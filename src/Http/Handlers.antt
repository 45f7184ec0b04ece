-- ===== src/Http/Handlers.antt =====
-- The seven operations over HTTP in ui/src/server_axum.rs, each as its handler puts it together,
-- and the responses that they answer with (ui/src/public_http_api.rs).
use Prim.Native.String.{◌++◌ as str_append}
use rust_playground.Base.{String, Bool, Option, none, some, Result, if◌then◌else◌, ℕ, List}
use rust_playground.Request.{
  CompileRequest, ExecuteRequest, FormatRequest, ClippyRequest, MiriRequest, MacroExpansionRequest,
}
use rust_playground.Api.{
  ParseError, ApiCompileRequest, ApiExecuteRequest, ApiFormatRequest, ApiClippyRequest,
  ApiMiriRequest, ApiMacroExpansionRequest, ApiEvaluateRequest,
}
use rust_playground.Api.Convert.{
  to_compile, to_execute, to_format, to_clippy, to_miri, to_macro_expansion, evaluate_to_execute,
}
use rust_playground.Metrics.{
  Endpoint, compile_labels, execute_labels, format_labels, clippy_labels, miri_labels,
  macro_expansion_labels,
}
use rust_playground.Container.{CompileResponse}
use rust_playground.Container.Tasks.{PlainResponse, FormatResponse, OutputCode, WithOutput}
use rust_playground.Http.{Operation}

-- The responses of `execute`, `clippy`, `miri` and `macro_expansion` have the same fields.
pub record ApiPlainResponse : Type 0 where
  pub success : Bool
  pub exit_detail : String
  pub stdout : String
  pub stderr : String

pub record ApiCompileResponse : Type 0 where
  pub success : Bool
  pub exit_detail : String
  pub code : List ℕ
  pub stdout : String
  pub stderr : String

pub record ApiFormatResponse : Type 0 where
  pub success : Bool
  pub exit_detail : String
  pub code : OutputCode
  pub stdout : String
  pub stderr : String

pub record ApiEvaluateResponse : Type 0 where
  pub result : String
  pub error : Option String

from_plain : WithOutput PlainResponse → ApiPlainResponse
from_plain o = record {
  success = o.response.success;
  exit_detail = o.response.exit_detail;
  stdout = o.stdout;
  stderr = o.stderr;
}

from_compile : WithOutput CompileResponse → ApiCompileResponse
from_compile o = record {
  success = o.response.success;
  exit_detail = o.response.exit_detail;
  code = o.response.code;
  stdout = o.stdout;
  stderr = o.stderr;
}

from_format : WithOutput FormatResponse → ApiFormatResponse
from_format o = record {
  success = o.response.success;
  exit_detail = o.response.exit_detail;
  code = o.response.code;
  stdout = o.stdout;
  stderr = o.stderr;
}

pub from_evaluate : WithOutput PlainResponse → ApiEvaluateResponse
from_evaluate o =
    let result = str_append o.stderr o.stdout in
    if o.response.success
    then record { result = o.stdout; error = none }
    else record { result = result; error = some result }

-- The coordinator that a request gets: what its operations end with, `none` when the time is up,
-- and its shutdown.
pub record Job (E : Type 0) : Type 0 where
  pub execute : ExecuteRequest → Option (Result (WithOutput PlainResponse) E)
  pub compile : CompileRequest → Option (Result (WithOutput CompileResponse) E)
  pub format : FormatRequest → Option (Result (WithOutput FormatResponse) E)
  pub clippy : ClippyRequest → Option (Result (WithOutput PlainResponse) E)
  pub miri : MiriRequest → Option (Result (WithOutput PlainResponse) E)
  pub macro_expansion : MacroExpansionRequest → Option (Result (WithOutput PlainResponse) E)
  pub shut_down : Result (Unit {0}) E

-- `payload` is the request as JSON.
module _ {E : Type 0} (c : Job E) where
  pub evaluate :
      (ApiEvaluateRequest → String)
      → Operation ApiEvaluateRequest ExecuteRequest
          (WithOutput PlainResponse)
          ApiEvaluateResponse
          ParseError
          E
  unfolding from_evaluate
  evaluate payload = record {
    endpoint = Endpoint.evaluate;
    payload = payload;
    try_into = evaluate_to_execute;
    labels_core = execute_labels;
    job = c.execute;
    is_success = λ o. o.response.success;
    into = from_evaluate;
    shut_down = c.shut_down;
  }

  pub compile :
      (ApiCompileRequest → String)
      → Operation ApiCompileRequest CompileRequest
          (WithOutput CompileResponse)
          ApiCompileResponse
          ParseError
          E
  unfolding from_compile
  compile payload = record {
    endpoint = Endpoint.compile;
    payload = payload;
    try_into = to_compile;
    labels_core = compile_labels;
    job = c.compile;
    is_success = λ o. o.response.success;
    into = from_compile;
    shut_down = c.shut_down;
  }

  unfoldable pub execute :
      (ApiExecuteRequest → String)
      → Operation ApiExecuteRequest ExecuteRequest
          (WithOutput PlainResponse)
          ApiPlainResponse
          ParseError
          E
  unfolding from_plain
  execute payload = record {
    endpoint = Endpoint.execute;
    payload = payload;
    try_into = to_execute;
    labels_core = execute_labels;
    job = c.execute;
    is_success = λ o. o.response.success;
    into = from_plain;
    shut_down = c.shut_down;
  }

  pub format :
      (ApiFormatRequest → String)
      → Operation ApiFormatRequest FormatRequest
          (WithOutput FormatResponse)
          ApiFormatResponse
          ParseError
          E
  unfolding from_format
  format payload = record {
    endpoint = Endpoint.format;
    payload = payload;
    try_into = to_format;
    labels_core = format_labels;
    job = c.format;
    is_success = λ o. o.response.success;
    into = from_format;
    shut_down = c.shut_down;
  }

  pub clippy :
      (ApiClippyRequest → String)
      → Operation ApiClippyRequest ClippyRequest
          (WithOutput PlainResponse)
          ApiPlainResponse
          ParseError
          E
  unfolding from_plain
  clippy payload = record {
    endpoint = Endpoint.clippy;
    payload = payload;
    try_into = to_clippy;
    labels_core = clippy_labels;
    job = c.clippy;
    is_success = λ o. o.response.success;
    into = from_plain;
    shut_down = c.shut_down;
  }

  pub miri :
      (ApiMiriRequest → String)
      → Operation ApiMiriRequest MiriRequest
          (WithOutput PlainResponse)
          ApiPlainResponse
          ParseError
          E
  unfolding from_plain
  miri payload = record {
    endpoint = Endpoint.miri;
    payload = payload;
    try_into = to_miri;
    labels_core = miri_labels;
    job = c.miri;
    is_success = λ o. o.response.success;
    into = from_plain;
    shut_down = c.shut_down;
  }

  pub macro_expansion :
      (ApiMacroExpansionRequest → String)
      → Operation ApiMacroExpansionRequest MacroExpansionRequest
          (WithOutput PlainResponse)
          ApiPlainResponse
          ParseError
          E
  unfolding from_plain
  macro_expansion payload = record {
    endpoint = Endpoint.macro_expansion;
    payload = payload;
    try_into = to_macro_expansion;
    labels_core = macro_expansion_labels;
    job = c.macro_expansion;
    is_success = λ o. o.response.success;
    into = from_plain;
    shut_down = c.shut_down;
  }
