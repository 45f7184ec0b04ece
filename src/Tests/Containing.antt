-- ===== src/Tests/Containing.antt =====
-- A container at concrete replies and output.
use mathlib.Core.List.{Perm}
use mathlib.Core.List.Perm
use rust_playground.Base.{ℕ, ◌≡◌, ◌↔◌, refl, true, Option, none, List, [], ◌∷◌, map, ok}
use rust_playground.Message.{ExecuteCommandResponse, WorkerMessage, simple}
use rust_playground.Request.{Code, FormatRequest, stable, rust2021, binary}
use rust_playground.Request.Sources.{files, delete_requests, write_requests, remove_names}
use rust_playground.Request.Files.{Directory, operations, perform, perform_all}
use rust_playground.CargoTask.{Event, from_worker, Task, returns, start, handle}
use rust_playground.CargoTask.Forwarding.{Steps, here, step}
use rust_playground.Container.{Reads, SetUp, set_up, do_request, try_join}
use rust_playground.Container.Tasks.{FormatResponse, multiple_output, execute}
use rust_playground.Container.Ready.{
  part_of, operation_of, with_cargo_toml, Leaves, here, done, do_request-IsReady,
}
use rust_playground.Request.Setup.{IsSetUp}
use rust_playground.Container.Collected.{output_of, execute-ok_iff}

abbrev two_files : Code
two_files = Code.multiple (
    record { name = "src/main.rs"; content = "mod a;" }
    ∷ record { name = "src/a.rs"; content = "" }
    ∷ [])

abbrev good : SetUp → SetUp × Option ℕ
good o = (o, none)

abbrev replies : List (SetUp × Option ℕ)
replies = map good (set_up two_files binary "[package]")

nothing : Directory
nothing p = none

replies-Perm : Perm (map part_of replies) (set_up two_files binary "[package]")
unfolding set_up operations delete_requests write_requests files remove_names
replies-Perm = Perm.refl (set_up two_files binary "[package]")

runs : do_request replies (simple "cargo" []) none ≡ ok (simple "cargo" [])
unfolding do_request try_join set_up operations delete_requests write_requests files remove_names
runs = refl

-- Where every part is done.
all_done :
    (os : List SetUp) (d : Directory)
    → Leaves {E = ℕ} (map good os) d (perform_all (map operation_of os) d)
unfolding perform_all
all_done [] d = here
all_done (o ∷ os) d = done o (all_done os (perform (operation_of o) d))

do_request-IsReady_example :
    (simple "cargo" [] ≡ simple "cargo" [])
    × IsSetUp
        (with_cargo_toml two_files binary "[package]")
        binary
        nothing
        (perform_all (map operation_of (set_up two_files binary "[package]")) nothing)
do_request-IsReady_example =
    do_request-IsReady two_files binary "[package]" replies (simple "cargo" []) none replies-Perm
      (all_done (set_up two_files binary "[package]") nothing) runs

abbrev request : FormatRequest
request = record { channel = stable; crate_type = binary; edition = rust2021; code = two_files }

reads : Reads ℕ
reads p = ok (65 ∷ [])

abbrev response : FormatResponse
response = record {
  success = true;
  exit_detail = "";
  code = multiple_output (
      record { name = "src/main.rs"; content = 65 ∷ [] }
      ∷ record { name = "src/a.rs"; content = 65 ∷ [] }
      ∷ []);
}

abbrev cargo_done : ExecuteCommandResponse
cargo_done = record { success = true; exit_detail = "" }

abbrev printed : Event
printed = from_worker (WorkerMessage.stdout_packet "one")

abbrev returned : Event
returned = from_worker (WorkerMessage.execute_command cargo_done)

abbrev after_printing : Task
after_printing = record {
  cancellable = true;
  stdin_open = true;
  to_worker = [];
  stdout = "one" ∷ [];
  stderr = [];
  status = [];
}

prints : Steps start (printed ∷ []) after_printing
unfolding start handle
prints = step true printed refl refl here

returns_done : handle true after_printing returned ≡ returns (ok cargo_done)
unfolding handle
returns_done = refl

execute-ok_iff_example :
    (execute {E = ℕ} after_printing (ok cargo_done) ≡ ok (output_of (printed ∷ []) cargo_done)) ↔ (
      (x : ExecuteCommandResponse) × (returned ≡ from_worker (WorkerMessage.execute_command x))
      × (output_of (printed ∷ []) cargo_done ≡ output_of (printed ∷ []) x))
execute-ok_iff_example =
    execute-ok_iff (printed ∷ []) true returned (output_of (printed ∷ []) cargo_done) prints
      returns_done
