-- ===== src/Request/Args.antt =====
-- What the cargo commands of Request/Cargo.antt say, read from their arguments.
use text.Mathlib.Text.{◌==◌ as str_eq}
use rust_playground.Base.{
  String, ◌≡◌, refl, Bool, true, false, not, ◌&&◌, List, any, any-append, arith,
}
use rust_playground.Request.{
  att, intel, CompileTarget, assembly, hir, llvm_ir, mir, wasm, Channel, stable, beta, nightly,
  Mode, debug, release, CrateType, binary, library, is_binary, ExecuteRequest, CompileRequest,
}
use rust_playground.Request.Cargo.{
  execute_cargo, compile_cargo, release_flag, target_flags, emit_flags, compile_command,
}

-- Whether an argument is passed.
abbrev pub has : String → List String → Bool
has s = any (λ a. str_eq a s)

abbrev pub is_release : Mode → Bool
is_release debug = false
is_release release = true

-- The flag by which rustc or `cargo wasm` is told to write to the file that is read back.
abbrev pub output_flag : CompileTarget → String
output_flag (assembly f d p) = "asm=compilation"
output_flag llvm_ir = "llvm-ir=compilation"
output_flag mir = "mir=compilation"
output_flag hir = "compilation"
output_flag wasm = "compilation"

-- What the arguments of an execution say about its request.
pub record DescribesExecute (r : ExecuteRequest) (args : List String) : Type 0 where
  pub optimised : has "--release" args ≡ is_release r.mode
  pub tested : has "test" args ≡ r.tests
  pub run : has "run" args ≡ (not r.tests && is_binary r.crate_type)
  pub built : has "build" args ≡ (not r.tests && not (is_binary r.crate_type))

execute_at :
    (r : ExecuteRequest) (t : Bool) (m : Mode) (c : CrateType)
    → let q = record r { tests = t; mode = m; crate_type = c } in
      DescribesExecute q (execute_cargo q).args
unfolding execute_cargo is_binary
execute_at r true debug c = record { optimised = refl; tested = refl; run = refl; built = refl }
execute_at r true release c = record { optimised = refl; tested = refl; run = refl; built = refl }
execute_at r false debug binary = record {
  optimised = refl;
  tested = refl;
  run = refl;
  built = refl;
}
execute_at r false debug (library l) = record {
  optimised = refl;
  tested = refl;
  run = refl;
  built = refl;
}
execute_at r false release binary = record {
  optimised = refl;
  tested = refl;
  run = refl;
  built = refl;
}
execute_at r false release (library l) = record {
  optimised = refl;
  tested = refl;
  run = refl;
  built = refl;
}

-- An execution is optimised, tested, run or built exactly as its request says: tests take
-- precedence, and only a binary is run.
pub execute_cargo-DescribesExecute :
    (r : ExecuteRequest) → DescribesExecute r (execute_cargo r).args
execute_cargo-DescribesExecute r = execute_at r r.tests r.mode r.crate_type

release_in_flag : (m : Mode) → has "--release" (release_flag m) ≡ is_release m
release_in_flag debug = refl
release_in_flag release = refl

no_release_in_target : (c : CrateType) → has "--release" (target_flags c) ≡ false
no_release_in_target binary = refl
no_release_in_target (library l) = refl

no_release_in_emit : (t : CompileTarget) (h : Channel) → has "--release" (emit_flags t h) ≡ false
no_release_in_emit (assembly att d p) stable = refl
no_release_in_emit (assembly att d p) beta = refl
no_release_in_emit (assembly att d p) nightly = refl
no_release_in_emit (assembly intel d p) stable = refl
no_release_in_emit (assembly intel d p) beta = refl
no_release_in_emit (assembly intel d p) nightly = refl
no_release_in_emit _ h = refl

no_release_in_command : (t : CompileTarget) → str_eq (compile_command t) "--release" ≡ false
no_release_in_command wasm = refl
no_release_in_command _ = refl

output_in_emit : (t : CompileTarget) (h : Channel) → has (output_flag t) (emit_flags t h) ≡ true
output_in_emit (assembly f d p) h = refl
output_in_emit _ h = refl

compile_optimised :
    (r : CompileRequest) → has "--release" (compile_cargo r).args ≡ is_release r.mode
unfolding compile_cargo
compile_optimised r =
    simp
      (any-append, no_release_in_command, release_in_flag, no_release_in_target, no_release_in_emit)
      (ground arith)

compile_output : (r : CompileRequest) → has (output_flag r.target) (compile_cargo r).args ≡ true
unfolding compile_cargo
compile_output r = simp (any-append, output_in_emit) (ground arith)

-- A compilation is optimised exactly when its request says so, and whatever its target, it is
-- told to write to the file that is read back.
pub compile_cargo-flags :
    (r : CompileRequest)
    → (has "--release" (compile_cargo r).args ≡ is_release r.mode)
      × (has (output_flag r.target) (compile_cargo r).args ≡ true)
compile_cargo-flags r = (compile_optimised r, compile_output r)
