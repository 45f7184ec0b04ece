-- ===== src/Container/Tasks.antt =====
-- The other tasks of a container, `WithOutput::try_absorb`, and `execute`, which joins a run of
-- cargo to them (compiler/base/orchestrator/src/coordinator.rs).
use Prim.Native.String.{◌++◌ as str_append}
use rust_playground.Base.{ℕ, String, Bool, Option, some, List, [], ◌∷◌, map, Result, ok, ◌>>=◌}
use rust_playground.Message.{ReadFileRequest, ExecuteCommandResponse}
use rust_playground.Request.{Code, single, multiple, FormatRequest}
use rust_playground.Request.Sources.{files}
use rust_playground.CargoTask.{SpawnCargoError, Task}
use rust_playground.Container.{TaskError, Reads, cargo_response, read_code}

-- The task of `begin_execute`, `begin_clippy`, `begin_miri` and `begin_macro_expansion`, whose
-- responses have the same fields.
pub record PlainResponse : Type 0 where
  pub success : Bool
  pub exit_detail : String

unfoldable pub plain_task :
    {E : Type 0}
    → Option (Result ExecuteCommandResponse SpawnCargoError)
    → Result PlainResponse (TaskError E)
unfolding cargo_response
plain_task cargo = do
  done ← cargo_response cargo
  ok (record { success = done.success; exit_detail = done.exit_detail })

-- A `CodeFile`, and `Code`, with the contents as bytes.
pub record OutputFile : Type 0 where
  pub name : String
  pub content : List ℕ

pub data OutputCode : Type 0 where
  single_output : List ℕ → OutputCode
  multiple_output : List OutputFile → OutputCode

pub record FormatResponse : Type 0 where
  pub success : Bool
  pub exit_detail : String
  pub code : OutputCode

-- `FormatRequest::read_output_requests`
unfoldable pub read_output_requests : FormatRequest → List ReadFileRequest
unfolding files
read_output_requests r = map (λ f. record { path = f.name }) (files r.code r.crate_type)

-- `try_collect` on the files in the order in which they are read.
unfoldable pub read_all :
    {E : Type 0} → Reads E → List ReadFileRequest → Result (List OutputFile) (TaskError E)
unfolding read_code
read_all read [] = ok []
read_all read (r ∷ rs) = do
  content ← read_code read r.path
  others ← read_all read rs
  ok (record { name = r.path; content = content } ∷ others)

-- `files.pop().map(|cf| cf.content).unwrap_or_default()`
abbrev pub last_content : List OutputFile → List ℕ
last_content [] = []
last_content (f ∷ []) = f.content
last_content (f ∷ g ∷ fs) = last_content (g ∷ fs)

abbrev pub output_code : Code → List OutputFile → OutputCode
output_code (single c) fs = single_output (last_content fs)
output_code (multiple gs) fs = multiple_output fs

-- The task of `begin_format`; `order` is how the files that it reads back arrive.
unfoldable pub format_task :
    {E : Type 0}
    → Reads E
    → FormatRequest
    → List ReadFileRequest
    → Option (Result ExecuteCommandResponse SpawnCargoError)
    → Result FormatResponse (TaskError E)
unfolding cargo_response read_all
format_task read request order cargo = do
  done ← cargo_response cargo
  fs ← read_all read order
  ok (record {
    success = done.success;
    exit_detail = done.exit_detail;
    code = output_code request.code fs;
  })

pub record WithOutput (T : Type 0) : Type 0 where
  pub response : T
  pub stdout : String
  pub stderr : String

-- `collect::<String>()`
abbrev pub collect : List String → String
collect [] = ""
collect (s ∷ ss) = str_append s (collect ss)

-- `WithOutput::try_absorb`, on what the channels bring until they close.
unfoldable pub try_absorb :
    {T E : Type 0} → Result T E → List String → List String → Result (WithOutput T) E
try_absorb task stdout stderr = do
  response ← task
  ok (record { response = response; stdout = collect stdout; stderr = collect stderr })

-- `execute`, on the task of cargo when it has returned.
unfoldable pub execute :
    {E : Type 0}
    → Task
    → Result ExecuteCommandResponse SpawnCargoError
    → Result (WithOutput PlainResponse) (TaskError E)
unfolding plain_task try_absorb
execute t r = try_absorb (plain_task (some r)) t.stdout t.stderr
