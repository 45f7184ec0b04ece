-- ===== src/Request.antt =====
-- What a request to the coordinator is about (compiler/base/orchestrator/src/coordinator.rs): the
-- enumerations, their keys, and the six kinds of request.
pub mod Sources
pub mod Files
pub mod Setup
pub mod Cargo
pub mod Args
use rust_playground.Base.{String, Bool, true, false, Option, none, some, List}

pub data AssemblyFlavor : Type 0 where
  att intel : AssemblyFlavor

pub data DemangleAssembly : Type 0 where
  demangle mangle : DemangleAssembly

pub data ProcessAssembly : Type 0 where
  filter raw : ProcessAssembly

pub data CompileTarget : Type 0 where
  assembly : AssemblyFlavor → DemangleAssembly → ProcessAssembly → CompileTarget
  hir llvm_ir mir wasm : CompileTarget

pub data Channel : Type 0 where
  stable beta nightly : Channel

pub data AliasingModel : Type 0 where
  stacked tree : AliasingModel

pub data Mode : Type 0 where
  debug release : Mode

pub data Edition : Type 0 where
  rust2015 rust2018 rust2021 rust2024 : Edition

pub data LibraryType : Type 0 where
  lib dylib rlib staticlib cdylib proc_macro : LibraryType

pub data CrateType : Type 0 where
  binary : CrateType
  library : LibraryType → CrateType

unfoldable pub to_str : Edition → String
to_str rust2015 = "2015"
to_str rust2018 = "2018"
to_str rust2021 = "2021"
to_str rust2024 = "2024"

-- `Edition::to_cargo_toml_key`
unfoldable pub edition_key : Edition → String
unfolding to_str
edition_key e = to_str e

abbrev pub main_rs : String
main_rs = "src/main.rs"

abbrev pub lib_rs : String
lib_rs = "src/lib.rs"

unfoldable pub is_binary : CrateType → Bool
is_binary binary = true
is_binary (library l) = false

unfoldable pub primary_path : CrateType → String
primary_path binary = main_rs
primary_path (library l) = lib_rs

-- `CrateType::to_cargo_toml_key`
unfoldable pub crate_type_key : CrateType → String
crate_type_key binary = "bin"
crate_type_key (library lib) = "lib"
crate_type_key (library dylib) = "dylib"
crate_type_key (library rlib) = "rlib"
crate_type_key (library staticlib) = "staticlib"
crate_type_key (library cdylib) = "cdylib"
crate_type_key (library proc_macro) = "proc-macro"

-- `CrateType::to_library_cargo_toml_key`
unfoldable pub library_key : CrateType → Option String
unfolding crate_type_key
library_key binary = none
library_key (library l) = some (crate_type_key (library l))

-- `Channel::to_container_name`
unfoldable pub to_container_name : Channel → String
to_container_name stable = "rust-stable"
to_container_name beta = "rust-beta"
to_container_name nightly = "rust-nightly"

pub record CodeFile : Type 0 where
  pub name : String
  pub content : String

pub data Code : Type 0 where
  single : String → Code
  multiple : List CodeFile → Code

pub record ExecuteRequest : Type 0 where
  pub channel : Channel
  pub mode : Mode
  pub edition : Edition
  pub crate_type : CrateType
  pub tests : Bool
  pub backtrace : Bool
  pub code : Code

pub record CompileRequest : Type 0 where
  pub target : CompileTarget
  pub channel : Channel
  pub crate_type : CrateType
  pub mode : Mode
  pub edition : Edition
  pub tests : Bool
  pub backtrace : Bool
  pub code : Code

pub record FormatRequest : Type 0 where
  pub channel : Channel
  pub crate_type : CrateType
  pub edition : Edition
  pub code : Code

pub record ClippyRequest : Type 0 where
  pub channel : Channel
  pub crate_type : CrateType
  pub edition : Edition
  pub code : Code

pub record MiriRequest : Type 0 where
  pub channel : Channel
  pub crate_type : CrateType
  pub edition : Edition
  pub tests : Bool
  pub aliasing_model : AliasingModel
  pub code : Code

pub record MacroExpansionRequest : Type 0 where
  pub channel : Channel
  pub crate_type : CrateType
  pub edition : Edition
  pub code : Code
