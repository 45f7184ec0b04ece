-- ===== src/Tests/Endings.antt =====
-- A process that is killed while its output is still read.
use rust_playground.Base.{
  ℕ, String, ◌≡◌, ◌↔◌, refl, true, false, none, some, List, [], ◌∷◌, ok, ◌==◌, if◌then◌else◌,
}
use rust_playground.Message.{ExecuteCommandResponse}
use rust_playground.Worker.Ending.{
  ExitStatus, Event, finished, cancelled, exited, joined, process_end, extract_exit_detail,
}
use rust_playground.Worker.Ending.Responds.{Exits, Ends, process_end-ok_iff}

abbrev decimal : ℕ → String
decimal n = if n == 9 then "9" else "?"

abbrev killed_status : ExitStatus
killed_status = record { code = none; signal = some 9 }

abbrev events : List Event
events = joined finished ∷ cancelled (ok tt) ∷ exited (ok killed_status) ∷ []

abbrev killed_response : ExecuteCommandResponse
killed_response = record {
  success = false;
  exit_detail = "Exited with signal 9 (SIGKILL): kill program";
}

says_killed :
    extract_exit_detail decimal killed_status ≡ "Exited with signal 9 (SIGKILL): kill program"
unfolding extract_exit_detail
says_killed = refl

process_end-ok_iff_example :
    (process_end decimal 3 events true (finished ∷ finished ∷ []) finished
      ≡ some (ok killed_response))
    ↔ ((s : ExitStatus) × (m : ℕ) × Exits 3 events s m
        × Ends decimal s m true (finished ∷ finished ∷ []) finished killed_response)
process_end-ok_iff_example =
    process_end-ok_iff decimal 3 events true (finished ∷ finished ∷ []) finished killed_response
