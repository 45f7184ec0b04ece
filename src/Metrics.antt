-- ===== src/Metrics.antt =====
-- The labels of a request's metric (ui/src/metrics.rs): what is known of a request, and the nine
-- words under which its duration is observed. The durations and Prometheus are left out.
pub mod Distinct
use rust_playground.Base.{
  String, Bool, true, false, Option, none, some, List, [], ◌∷◌, Result, is_ok, if◌then◌else◌,
}
use rust_playground.Request.{
  CompileTarget, assembly, hir, llvm_ir, mir, wasm, Channel, stable, beta, nightly, Mode, debug,
  release, Edition, rust2015, rust2018, rust2021, rust2024, CrateType, binary, library,
  ExecuteRequest, CompileRequest, FormatRequest, ClippyRequest, MiriRequest, MacroExpansionRequest,
}

pub data Endpoint : Type 0 where
  compile execute format miri clippy : Endpoint
  macro_expansion meta_crates meta_versions evaluate : Endpoint

pub data Outcome : Type 0 where
  success error_server error_timeout_soft error_user_code abandoned : Outcome

pub record LabelsCore : Type 0 where
  pub target : Option CompileTarget
  pub channel : Option Channel
  pub mode : Option Mode
  pub edition : Option (Option Edition)
  pub crate_type : Option CrateType
  pub tests : Option Bool
  pub backtrace : Option Bool

pub record Labels : Type 0 where
  pub endpoint : Endpoint
  pub outcome : Outcome
  pub target : Option CompileTarget
  pub channel : Option Channel
  pub mode : Option Mode
  pub edition : Option (Option Edition)
  pub crate_type : Option CrateType
  pub tests : Option Bool
  pub backtrace : Option Bool

-- `strum::IntoStaticStr` gives the names of the variants.
abbrev pub endpoint_word : Endpoint → String
endpoint_word compile = "Compile"
endpoint_word execute = "Execute"
endpoint_word format = "Format"
endpoint_word miri = "Miri"
endpoint_word clippy = "Clippy"
endpoint_word macro_expansion = "MacroExpansion"
endpoint_word meta_crates = "MetaCrates"
endpoint_word meta_versions = "MetaVersions"
endpoint_word evaluate = "Evaluate"

abbrev pub outcome_word : Outcome → String
outcome_word success = "Success"
outcome_word error_server = "ErrorServer"
outcome_word error_timeout_soft = "ErrorTimeoutSoft"
outcome_word error_user_code = "ErrorUserCode"
outcome_word abandoned = "Abandoned"

abbrev pub target_label : Option CompileTarget → String
target_label none = ""
target_label (some (assembly f d p)) = "Assembly"
target_label (some hir) = "Hir"
target_label (some llvm_ir) = "LlvmIr"
target_label (some mir) = "Mir"
target_label (some wasm) = "Wasm"

abbrev pub channel_label : Option Channel → String
channel_label none = ""
channel_label (some stable) = "Stable"
channel_label (some beta) = "Beta"
channel_label (some nightly) = "Nightly"

abbrev pub mode_label : Option Mode → String
mode_label none = ""
mode_label (some debug) = "Debug"
mode_label (some release) = "Release"

abbrev pub edition_label : Option (Option Edition) → String
edition_label none = ""
edition_label (some none) = "Unspecified"
edition_label (some (some rust2015)) = "Rust2015"
edition_label (some (some rust2018)) = "Rust2018"
edition_label (some (some rust2021)) = "Rust2021"
edition_label (some (some rust2024)) = "Rust2024"

abbrev pub crate_type_label : Option CrateType → String
crate_type_label none = ""
crate_type_label (some binary) = "Binary"
crate_type_label (some (library l)) = "Library"

-- `fn b` of `as_values`
abbrev pub bool_label : Option Bool → String
bool_label none = ""
bool_label (some true) = "true"
bool_label (some false) = "false"

unfoldable pub as_values : Labels → List String
as_values l =
    endpoint_word l.endpoint
    ∷ outcome_word l.outcome
    ∷ target_label l.target
    ∷ channel_label l.channel
    ∷ mode_label l.mode
    ∷ edition_label l.edition
    ∷ crate_type_label l.crate_type
    ∷ bool_label l.tests
    ∷ bool_label l.backtrace
    ∷ []

unfoldable pub complete : Endpoint → LabelsCore → Outcome → Labels
complete endpoint c outcome = record {
  endpoint = endpoint;
  outcome = outcome;
  target = c.target;
  channel = c.channel;
  mode = c.mode;
  edition = c.edition;
  crate_type = c.crate_type;
  tests = c.tests;
  backtrace = c.backtrace;
}

-- The labels of `track_metric_no_request_async`.
unfoldable pub no_request_labels : {A E : Type 0} → Endpoint → Result A E → Labels
no_request_labels endpoint response = record {
  endpoint = endpoint;
  outcome = if is_ok response then success else error_server;
  target = none;
  channel = none;
  mode = none;
  edition = none;
  crate_type = none;
  tests = none;
  backtrace = none;
}

-- `HasLabelsCore::labels_core` of the six requests.
unfoldable pub compile_labels : CompileRequest → LabelsCore
compile_labels r = record {
  target = some r.target;
  channel = some r.channel;
  mode = some r.mode;
  edition = some (some r.edition);
  crate_type = some r.crate_type;
  tests = some r.tests;
  backtrace = some r.backtrace;
}

unfoldable pub execute_labels : ExecuteRequest → LabelsCore
execute_labels r = record {
  target = none;
  channel = some r.channel;
  mode = some r.mode;
  edition = some (some r.edition);
  crate_type = some r.crate_type;
  tests = some r.tests;
  backtrace = some r.backtrace;
}

-- The three requests that have only these fields.
abbrev plain_labels : Channel → CrateType → Edition → Option Bool → LabelsCore
plain_labels channel crate_type edition tests = record {
  target = none;
  channel = some channel;
  mode = none;
  edition = some (some edition);
  crate_type = some crate_type;
  tests = tests;
  backtrace = none;
}

unfoldable pub format_labels : FormatRequest → LabelsCore
format_labels r = plain_labels r.channel r.crate_type r.edition none

unfoldable pub clippy_labels : ClippyRequest → LabelsCore
clippy_labels r = plain_labels r.channel r.crate_type r.edition none

unfoldable pub miri_labels : MiriRequest → LabelsCore
miri_labels r = plain_labels r.channel r.crate_type r.edition (some r.tests)

unfoldable pub macro_expansion_labels : MacroExpansionRequest → LabelsCore
macro_expansion_labels r = plain_labels r.channel r.crate_type r.edition none
