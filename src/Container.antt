-- ===== src/Container.antt =====
-- What a container does with a request (`impl Container` of
-- compiler/base/orchestrator/src/coordinator.rs): `do_request`, the tasks behind its six operations
-- and the collection of their output. `E` stands for the errors of the
-- commander and of the other parts that a request rests on. Contents of files
-- that are read back stand as their bytes.
pub mod Tasks
pub mod Ready
pub mod Formatted
pub mod Collected
use Prim.Native.String.{◌++◌ as str_append}
use rust_playground.Base.{
  ℕ, String, Bool, true, false, Option, none, some, List, [], ◌∷◌, ◌++◌, map, Result, ok, err,
  map_err, ◌>>=◌, length, ◌==◌, if◌then◌else◌,
}
use rust_playground.Message.{
  ReadFileRequest, ExecuteCommandRequest, ExecuteCommandResponse, CommandStatistics,
}
use rust_playground.Request.{
  Code, single, multiple, CodeFile, CrateType, CompileRequest, CompileTarget, FormatRequest,
  DemangleAssembly, ProcessAssembly,
}
use rust_playground.Request.Sources.{files}
use rust_playground.Request.Files.{FileOperation, write, delete, operations}
use rust_playground.Request.Cargo.{output_path}
use rust_playground.CargoTask.{SpawnCargoError}
use rust_playground.Worker.Utf8.{valid_up_to}

-- `ModifyCargoToml::write`: the file that it writes, with the text of the modified TOML.
abbrev pub cargo_toml_file : String → CodeFile
cargo_toml_file text = record { name = "Cargo.toml"; content = text }

pub data SetUp : Type 0 where
  file : FileOperation → SetUp
  cargo_toml : String → SetUp

-- All that `do_request` waits for before cargo runs.
unfoldable pub set_up : Code → CrateType → String → List SetUp
set_up c k text = map file (operations c k) ++ (cargo_toml text ∷ [])

pub data DoRequestError (E : Type 0) : Type 0 where
  could_not_delete_previous_code could_not_write_code : E → DoRequestError E
  could_not_modify_cargo_toml could_not_start_cargo : E → DoRequestError E

abbrev pub set_up_error : {E : Type 0} → SetUp → E → DoRequestError E
set_up_error (file (delete r)) e = could_not_delete_previous_code e
set_up_error (file (write r)) e = could_not_write_code e
set_up_error (cargo_toml t) e = could_not_modify_cargo_toml e

-- `try_join!` on the replies in the order in which they come, each with its error, if it is one.
unfoldable pub try_join :
    {E : Type 0} → List (SetUp × Option E) → Result (Unit {0}) (DoRequestError E)
try_join [] = ok tt
try_join ((o, none) ∷ rs) = try_join rs
try_join ((o, some e) ∷ rs) = err (set_up_error o e)

abbrev started :
    {E : Type 0}
    → ExecuteCommandRequest
    → Option E
    → Result ExecuteCommandRequest (DoRequestError E)
started command none = ok command
started command (some e) = err (could_not_start_cargo e)

-- `do_request`: the command that runs, after the replies, unless it could not start.
unfoldable pub do_request :
    {E : Type 0}
    → List (SetUp × Option E)
    → ExecuteCommandRequest
    → Option E
    → Result ExecuteCommandRequest (DoRequestError E)
unfolding try_join
do_request replies command e = try_join replies >>= λ u. started command e

-- The errors of the tasks.
pub data TaskError (E : Type 0) : Type 0 where
  do_request_error : DoRequestError E → TaskError E
  cargo_task_panicked : TaskError E
  cargo_failed : SpawnCargoError → TaskError E
  could_not_read_code : E → TaskError E
  code_not_utf8 : TaskError E

-- `task.await.context(CargoTaskPanickedSnafu)?.context(CargoFailedSnafu)?`, with nothing for a
-- panic.
unfoldable pub cargo_response :
    {E : Type 0}
    → Option (Result ExecuteCommandResponse SpawnCargoError)
    → Result ExecuteCommandResponse (TaskError E)
cargo_response none = err cargo_task_panicked
cargo_response (some r) = map_err cargo_failed r

-- `commander.one(ReadFileRequest { path })`, by the path.
abbrev pub Reads : Type 0 → Type 0
Reads E = String → Result (List ℕ) E

unfoldable pub from_utf8 : {E : Type 0} → List ℕ → Result (List ℕ) (TaskError E)
from_utf8 bs = if valid_up_to bs == length bs then ok bs else err code_not_utf8

unfoldable pub read_code : {E : Type 0} → Reads E → String → Result (List ℕ) (TaskError E)
unfolding from_utf8
read_code read path = map_err could_not_read_code (read path) >>= from_utf8

pub record CompileResponse : Type 0 where
  pub success : Bool
  pub exit_detail : String
  pub code : List ℕ

-- The two functions of asm_cleanup.
pub record Cleanup : Type 0 where
  pub demangle_asm : List ℕ → List ℕ
  pub filter_asm : List ℕ → List ℕ

abbrev demangled : Cleanup → DemangleAssembly → List ℕ → List ℕ
demangled a DemangleAssembly.demangle code = a.demangle_asm code
demangled a DemangleAssembly.mangle code = code

abbrev filtered : Cleanup → ProcessAssembly → List ℕ → List ℕ
filtered a ProcessAssembly.filter code = a.filter_asm code
filtered a ProcessAssembly.raw code = code

unfoldable pub postprocess_result : Cleanup → CompileTarget → List ℕ → List ℕ
postprocess_result a (CompileTarget.assembly f d p) code = filtered a p (demangled a d code)
postprocess_result a _ code = code

-- The task of `begin_compile`.
unfoldable pub compile_task :
    {E : Type 0}
    → Cleanup
    → Reads E
    → CompileRequest
    → Option (Result ExecuteCommandResponse SpawnCargoError)
    → Result CompileResponse (TaskError E)
unfolding cargo_response read_code postprocess_result
compile_task a read request cargo = do
  done ← cargo_response cargo
  code ← if done.success then read_code read output_path else ok []
  ok (record {
    success = done.success;
    exit_detail = done.exit_detail;
    code = postprocess_result a request.target code;
  })
