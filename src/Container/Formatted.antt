-- ===== src/Container/Formatted.antt =====
-- What formatting returns.
use mathlib.Core.List.{Perm}
use rust_playground.Base.{ℕ, ◌≡◌, String, Option, some, List, [], ◌∷◌, map, All, Result, ok}
use rust_playground.Message.{ReadFileRequest, ExecuteCommandResponse}
use rust_playground.Request.{Code, single, multiple, FormatRequest}
use mathlib.Core.List.Perm
use rust_playground.CargoTask.{SpawnCargoError}
use rust_playground.Container.{TaskError, Reads, read_code}
use rust_playground.Container.Tasks.{
  OutputFile, OutputCode, single_output, multiple_output, FormatResponse, output_code,
  read_output_requests,
}

abbrev pub request_for : OutputFile → ReadFileRequest
request_for f = record { path = f.name }

-- Files as they were read.
abbrev pub IsReadBack : {E : Type 0} → Reads E → OutputFile → Type 0
IsReadBack {E = E} read f = read_code {E = E} read f.name ≡ ok f.content

-- A file and the others, both read.
record Joined {E : Type 0} (path : String) (c : Result (List ℕ) (TaskError E))
    (o : Result (List OutputFile) (TaskError E)) (fs : List OutputFile) : Type 0 where
  content : List ℕ
  others : List OutputFile
  read_one : c ≡ ok content
  read_others : o ≡ ok others
  is : (record { name = path; content = content } ∷ others) ≡ fs

-- The code of a response: the one text that was read back, or all the files as they were read.
abbrev pub IsCode : Code → List OutputFile → OutputCode → Type 0
IsCode (single c) fs code = (f : OutputFile) × (fs ≡ f ∷ []) × (code ≡ single_output f.content)
IsCode (multiple gs) fs code = code ≡ multiple_output fs

-- What a response says: how the command ended, and just the files of the request, each as it was
-- read back.
pub record Formats {E : Type 0} (read : Reads E) (request : FormatRequest)
    (cargo : Option (Result ExecuteCommandResponse SpawnCargoError)) (r : FormatResponse)
    : Type 0 where
  pub ended : cargo ≡ some (ok (record { success = r.success; exit_detail = r.exit_detail }))
  pub files_read : List OutputFile
  pub complete : Perm (map request_for files_read) (read_output_requests request)
  pub read_back : All (IsReadBack read) files_read
  pub is_code : IsCode request.code files_read r.code

record Done {E : Type 0} (request : FormatRequest) (d : Result ExecuteCommandResponse (TaskError E))
    (o : Result (List OutputFile) (TaskError E)) (r : FormatResponse) : Type 0 where
  response : ExecuteCommandResponse
  read : List OutputFile
  done : d ≡ ok response
  were_read : o ≡ ok read
  is :
      record {
        success = response.success;
        exit_detail = response.exit_detail;
        code = output_code request.code read;
      }
      ≡ r
