-- ===== src/Api.antt =====
-- The words of the web API and what they stand for (`parse_…` of ui/src/server_axum.rs), and the
-- requests as they arrive (ui/src/public_http_api.rs). `api::Code`, `coordinator::Code` and
-- `gist::Code` have the same cases and are one type here, so the conversions between them are the
-- identity. The transparent error types are one type, with a case for each error that they wrap.
pub mod Convert
pub mod Words
pub mod Roundtrip
pub mod Compile
use rust_playground.Base.{
  String, Bool, Option, none, some, Result, ok, err, ◌>>=◌, str_eq, if◌then◌else◌,
}
use rust_playground.Request.{
  AssemblyFlavor, att, intel, DemangleAssembly, demangle, mangle, ProcessAssembly, filter, raw,
  CompileTarget, assembly, hir, llvm_ir, mir, wasm, Channel, stable, beta, nightly, AliasingModel,
  stacked, tree, Mode, debug, release, Edition, rust2015, rust2018, rust2021, rust2024, CrateType,
  binary, library, lib, dylib, rlib, staticlib, cdylib, proc_macro, Code,
}

pub data ParseError : Type 0 where
  bad_target bad_assembly_flavor bad_demangle_assembly bad_process_assembly : String → ParseError
  bad_channel bad_crate_type bad_mode bad_edition bad_aliasing_model : String → ParseError

abbrev pub Parsed : Type 0 → Type 0
Parsed A = Result A ParseError

unfoldable pub parse_assembly_flavor : String → Parsed AssemblyFlavor
parse_assembly_flavor s =
    if str_eq s "att"
    then ok att
    else if str_eq s "intel"
    then ok intel
    else err (bad_assembly_flavor s)

unfoldable pub parse_demangle_assembly : String → Parsed DemangleAssembly
parse_demangle_assembly s =
    if str_eq s "demangle"
    then ok demangle
    else if str_eq s "mangle"
    then ok mangle
    else err (bad_demangle_assembly s)

unfoldable pub parse_process_assembly : String → Parsed ProcessAssembly
parse_process_assembly s =
    if str_eq s "filter"
    then ok filter
    else if str_eq s "raw"
    then ok raw
    else err (bad_process_assembly s)

unfoldable pub parse_channel : String → Parsed Channel
parse_channel s =
    if str_eq s "stable"
    then ok stable
    else if str_eq s "beta"
    then ok beta
    else if str_eq s "nightly"
    then ok nightly
    else err (bad_channel s)

unfoldable pub parse_crate_type : String → Parsed CrateType
parse_crate_type s =
    if str_eq s "bin"
    then ok binary
    else if str_eq s "lib"
    then ok (library lib)
    else if str_eq s "dylib"
    then ok (library dylib)
    else if str_eq s "rlib"
    then ok (library rlib)
    else if str_eq s "staticlib"
    then ok (library staticlib)
    else if str_eq s "cdylib"
    then ok (library cdylib)
    else if str_eq s "proc-macro"
    then ok (library proc_macro)
    else err (bad_crate_type s)

unfoldable pub parse_mode : String → Parsed Mode
parse_mode s =
    if str_eq s "debug"
    then ok debug
    else if str_eq s "release"
    then ok release
    else err (bad_mode s)

unfoldable pub parse_edition : String → Parsed Edition
parse_edition s =
    if str_eq s "2015"
    then ok rust2015
    else if str_eq s "2018"
    then ok rust2018
    else if str_eq s "2021"
    then ok rust2021
    else if str_eq s "2024"
    then ok rust2024
    else err (bad_edition s)

unfoldable pub parse_aliasing_model : String → Parsed AliasingModel
parse_aliasing_model s =
    if str_eq s "stacked"
    then ok stacked
    else if str_eq s "tree"
    then ok tree
    else err (bad_aliasing_model s)

-- `match word { Some(w) => parse(w)?, None => default }`
abbrev pub parse_or : {A : Type 0} → (String → Parsed A) → A → Option String → Parsed A
parse_or parse default none = ok default
parse_or parse default (some w) = parse w

-- The case `"asm"` of `parse_target`.
unfoldable pub parse_assembly : Option String → Option String → Option String → Parsed CompileTarget
parse_assembly assembly_flavor demangle_assembly process_assembly = do
  f ← parse_or parse_assembly_flavor att assembly_flavor
  d ← parse_or parse_demangle_assembly demangle demangle_assembly
  p ← parse_or parse_process_assembly filter process_assembly
  ok (assembly f d p)

unfoldable pub parse_target :
    String → Option String → Option String → Option String → Parsed CompileTarget
unfolding parse_assembly
parse_target target assembly_flavor demangle_assembly process_assembly =
    if str_eq target "asm"
    then parse_assembly assembly_flavor demangle_assembly process_assembly
    else if str_eq target "llvm-ir"
    then ok llvm_ir
    else if str_eq target "mir"
    then ok mir
    else if str_eq target "hir"
    then ok hir
    else if str_eq target "wasm"
    then ok wasm
    else err (bad_target target)

pub record ApiCompileRequest : Type 0 where
  pub target : String
  pub assembly_flavor : Option String
  pub demangle_assembly : Option String
  pub process_assembly : Option String
  pub channel : String
  pub mode : String
  pub edition : String
  pub crate_type : String
  pub tests : Bool
  pub backtrace : Bool
  pub code : Code

pub record ApiExecuteRequest : Type 0 where
  pub channel : String
  pub mode : String
  pub edition : String
  pub crate_type : String
  pub tests : Bool
  pub backtrace : Bool
  pub code : Code

pub record ApiFormatRequest : Type 0 where
  pub channel : Option String
  pub edition : String
  pub code : Code

pub record ApiClippyRequest : Type 0 where
  pub channel : Option String
  pub crate_type : String
  pub edition : String
  pub code : Code

pub record ApiMiriRequest : Type 0 where
  pub code : Code
  pub edition : String
  pub tests : Bool
  pub aliasing_model : Option String

pub record ApiMacroExpansionRequest : Type 0 where
  pub code : Code
  pub edition : String

pub record ApiEvaluateRequest : Type 0 where
  pub version : String
  pub optimize : String
  pub code : String
  pub edition : String
  pub tests : Bool
