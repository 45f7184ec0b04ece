-- ===== src/Api/Convert.antt =====
-- The requests of the web API as requests to the coordinator (`TryFrom` in
-- `api_orchestrator_integration_impls` of ui/src/server_axum.rs, and for the WebSocket in
-- ui/src/server_axum/websocket.rs). Each stops at its first error, in the order of its fields.
use Prim.Native.Char.{Char, code}
use rust_playground.Base.{
  ℕ, String, Bool, true, false, ◌&&◌, ◌||◌, ok, ◌>>=◌, str_eq, leb, ◌==◌, if◌then◌else◌,
}
use rust_playground.Request.{
  nightly, stacked, debug, release, rust2015, binary, single, ExecuteRequest, CompileRequest,
  FormatRequest, ClippyRequest, MiriRequest, MacroExpansionRequest,
}
use rust_playground.Api.{
  Parsed, parse_channel, parse_crate_type, parse_mode, parse_edition, parse_aliasing_model,
  parse_or, parse_target, ApiCompileRequest, ApiExecuteRequest, ApiFormatRequest, ApiClippyRequest,
  ApiMiriRequest, ApiMacroExpansionRequest, ApiEvaluateRequest,
}

unfoldable pub to_execute : ApiExecuteRequest → Parsed ExecuteRequest
to_execute r = do
  channel ← parse_channel r.channel
  crate_type ← parse_crate_type r.crate_type
  mode ← parse_mode r.mode
  edition ← parse_edition r.edition
  ok (record {
    channel = channel;
    mode = mode;
    edition = edition;
    crate_type = crate_type;
    tests = r.tests;
    backtrace = r.backtrace;
    code = r.code;
  })

-- The same fields arrive over the WebSocket, and are read in another order.
unfoldable pub ws_to_execute : ApiExecuteRequest → Parsed ExecuteRequest
ws_to_execute r = do
  channel ← parse_channel r.channel
  mode ← parse_mode r.mode
  edition ← parse_edition r.edition
  crate_type ← parse_crate_type r.crate_type
  ok (record {
    channel = channel;
    mode = mode;
    edition = edition;
    crate_type = crate_type;
    tests = r.tests;
    backtrace = r.backtrace;
    code = r.code;
  })

unfoldable pub to_compile : ApiCompileRequest → Parsed CompileRequest
to_compile r = do
  target ← parse_target r.target r.assembly_flavor r.demangle_assembly r.process_assembly
  channel ← parse_channel r.channel
  crate_type ← parse_crate_type r.crate_type
  mode ← parse_mode r.mode
  edition ← parse_edition r.edition
  ok (record {
    target = target;
    channel = channel;
    crate_type = crate_type;
    mode = mode;
    edition = edition;
    tests = r.tests;
    backtrace = r.backtrace;
    code = r.code;
  })

unfoldable pub to_format : ApiFormatRequest → Parsed FormatRequest
to_format r = do
  channel ← parse_or parse_channel nightly r.channel
  edition ← parse_edition r.edition
  ok (record { channel = channel; crate_type = binary; edition = edition; code = r.code })

unfoldable pub to_clippy : ApiClippyRequest → Parsed ClippyRequest
to_clippy r = do
  channel ← parse_or parse_channel nightly r.channel
  crate_type ← parse_crate_type r.crate_type
  edition ← parse_edition r.edition
  ok (record { channel = channel; crate_type = crate_type; edition = edition; code = r.code })

unfoldable pub to_miri : ApiMiriRequest → Parsed MiriRequest
to_miri r = do
  aliasing_model ← parse_or parse_aliasing_model stacked r.aliasing_model
  edition ← parse_edition r.edition
  ok (record {
    channel = nightly;
    crate_type = binary;
    edition = edition;
    tests = r.tests;
    aliasing_model = aliasing_model;
    code = r.code;
  })

unfoldable pub to_macro_expansion : ApiMacroExpansionRequest → Parsed MacroExpansionRequest
to_macro_expansion r = do
  edition ← parse_edition r.edition
  ok (record { channel = nightly; crate_type = binary; edition = edition; code = r.code })

-- `char::is_whitespace`
abbrev is_whitespace : ℕ → Bool
is_whitespace c =
    (leb 9 c && leb c 13)
    || c == 32
    || c == 0x85
    || c == 0xa0
    || c == 0x1680
    || (leb 0x2000 c && leb c 0x200a)
    || c == 0x2028
    || c == 0x2029
    || c == 0x202f
    || c == 0x205f
    || c == 0x3000

-- `s.trim().is_empty()`
unfoldable pub is_blank : String → Bool
is_blank String.[] = true
is_blank (String.◌∷◌ c s) = is_whitespace (Prim.Native.Char.code c) && is_blank s

unfoldable pub evaluate_to_execute : ApiEvaluateRequest → Parsed ExecuteRequest
unfolding is_blank
evaluate_to_execute r = do
  let mode = if str_eq r.optimize "0" then debug else release
  edition ← (if is_blank r.edition then ok rust2015 else parse_edition r.edition)
  channel ← parse_channel r.version
  ok (record {
    channel = channel;
    mode = mode;
    edition = edition;
    crate_type = binary;
    tests = r.tests;
    backtrace = false;
    code = single r.code;
  })
