-- ===== src/Tests/Requests.antt =====
-- Requests to the coordinator at concrete inputs.
use mathlib.Core.List.{Perm}
use mathlib.Core.List.Perm
use rust_playground.Base.{true, false, none, List, [], ◌∷◌}
use rust_playground.Request.{
  Code, single, binary, nightly, release, rust2021, ExecuteRequest, primary_path,
}
use rust_playground.Request.Sources.{into_bytes, delete_requests, write_requests}
use rust_playground.Request.Files.{Directory, FileOperation, delete, write, perform_all, operations}
use rust_playground.Request.Setup.{IsSetUp, perform_all-IsSetUp}

abbrev hello : Code
hello = single "fn main() {}"

-- The library's directory, as an earlier request left it.
abbrev left_over : Directory
left_over p = none

-- The two deletions in the other order.
abbrev reordered : List FileOperation
reordered =
    delete (record { path = "src/lib.rs" })
    ∷ delete (record { path = "build.rs" })
    ∷ write (record { path = "src/main.rs"; content = 102 ∷ [] })
    ∷ []

abbrev small : Code
small = single "f"

reordered-Perm : Perm reordered (operations small binary)
unfolding operations delete_requests write_requests primary_path into_bytes
reordered-Perm = Perm.swap _ _ _

perform_all-IsSetUp_example : IsSetUp small binary left_over (perform_all reordered left_over)
perform_all-IsSetUp_example = perform_all-IsSetUp small binary reordered left_over reordered-Perm

abbrev to_run : ExecuteRequest
to_run = record {
  channel = nightly;
  mode = release;
  edition = rust2021;
  crate_type = binary;
  tests = false;
  backtrace = true;
  code = hello;
}
