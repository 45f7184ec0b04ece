-- ===== src/Request/Cargo.antt =====
-- The command that each kind of request runs: `impl LowerRequest` of
-- compiler/base/orchestrator/src/coordinator.rs. `delete_files` and `write_files` are the same
-- calls of `Code` in all six and are not repeated.
use rust_playground.Base.{String, Bool, true, false, none, List, [], ◌∷◌, ◌++◌, if◌then◌else◌}
use rust_playground.Message.{ExecuteCommandRequest}
use rust_playground.Request.{
  AssemblyFlavor, att, intel, CompileTarget, assembly, hir, llvm_ir, mir, wasm, Channel, stable,
  beta, nightly, AliasingModel, stacked, tree, Mode, debug, release, CrateType, binary, library,
  is_binary, ExecuteRequest, CompileRequest, FormatRequest, ClippyRequest, MiriRequest,
  MacroExpansionRequest,
}

abbrev cargo : List String → List (String × String) → ExecuteCommandRequest
cargo args envs = record { cmd = "cargo"; args = args; envs = envs; cwd = none }

-- `if let Mode::Release = self.mode { args.push("--release") }`
abbrev pub release_flag : Mode → List String
release_flag debug = []
release_flag release = "--release" ∷ []

abbrev pub backtrace_env : Bool → List (String × String)
backtrace_env true = ("RUST_BACKTRACE", "1") ∷ []
backtrace_env false = []

-- `match (self.tests, self.crate_type.is_binary())`
abbrev execute_command : Bool → Bool → String
execute_command true b = "test"
execute_command false true = "run"
execute_command false false = "build"

unfoldable pub execute_cargo : ExecuteRequest → ExecuteCommandRequest
execute_cargo r =
    cargo (execute_command r.tests (is_binary r.crate_type) ∷ release_flag r.mode)
      (backtrace_env r.backtrace)

abbrev pub target_flags : CrateType → List String
target_flags binary = "--bin" ∷ "playground" ∷ []
target_flags (library l) = "--lib" ∷ []

abbrev verbose_asm : Channel → List String
verbose_asm nightly = "-Z" ∷ "verbose-asm" ∷ []
verbose_asm stable = []
verbose_asm beta = []

abbrev flavor_flag : AssemblyFlavor → String
flavor_flag att = "llvm-args=-x86-asm-syntax=att"
flavor_flag intel = "llvm-args=-x86-asm-syntax=intel"

abbrev pub output_path : String
output_path = "compilation"

abbrev pub compile_command : CompileTarget → String
compile_command wasm = "wasm"
compile_command (assembly f d p) = "rustc"
compile_command hir = "rustc"
compile_command llvm_ir = "rustc"
compile_command mir = "rustc"

abbrev pub emit_flags : CompileTarget → Channel → List String
emit_flags (assembly f d p) c =
    "--" ∷ "--emit" ∷ "asm=compilation" ∷ (verbose_asm c ++ ("-C" ∷ flavor_flag f ∷ []))
emit_flags llvm_ir c = "--" ∷ "--emit" ∷ "llvm-ir=compilation" ∷ []
emit_flags mir c = "--" ∷ "--emit" ∷ "mir=compilation" ∷ []
emit_flags hir c = "--" ∷ "-Zunpretty=hir" ∷ "-o" ∷ output_path ∷ []
emit_flags wasm c = "-o" ∷ output_path ∷ []

unfoldable pub compile_cargo : CompileRequest → ExecuteCommandRequest
compile_cargo r =
    cargo
      (compile_command r.target
        ∷ (release_flag r.mode ++ (target_flags r.crate_type ++ emit_flags r.target r.channel)))
      (backtrace_env r.backtrace)

unfoldable pub format_cargo : FormatRequest → ExecuteCommandRequest
format_cargo r = cargo ("fmt" ∷ []) []

unfoldable pub clippy_cargo : ClippyRequest → ExecuteCommandRequest
clippy_cargo r = cargo ("clippy" ∷ []) []

-- The flags, joined by a space.
abbrev miriflags : AliasingModel → String
miriflags tree = "-Zmiri-tree-borrows -Zmiri-disable-isolation"
miriflags stacked = "-Zmiri-disable-isolation"

unfoldable pub miri_cargo : MiriRequest → ExecuteCommandRequest
miri_cargo r =
    cargo ("miri" ∷ (if r.tests then "test" else "run") ∷ [])
      (("MIRIFLAGS", miriflags r.aliasing_model) ∷ ("MIRI_SYSROOT", "/playground/.cache/miri") ∷ [])

unfoldable pub macro_expansion_cargo : MacroExpansionRequest → ExecuteCommandRequest
macro_expansion_cargo r =
    cargo ("rustc" ∷ (target_flags r.crate_type ++ ("--" ∷ "-Zunpretty=expanded" ∷ []))) []
