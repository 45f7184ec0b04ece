-- ===== src/Tests/Processes.antt =====
-- The processes of the worker at concrete events: job 1 begins, is sent input and is killed while
-- job 0 goes on.
use rust_playground.Base.{true, some, List, [], ◌∷◌, insert, remove, empty_map}
use rust_playground.Worker.Processes.{Event, command, start, stdin, kill, ProcessState}

abbrev one_process : ProcessState
one_process = record {
  stdin_senders = insert 0 5 empty_map;
  kill_tokens = insert 0 6 empty_map;
  processes = 0 ∷ [];
  packets = [];
  cancelled = [];
}

abbrev one_killed : ProcessState
one_killed = record {
  stdin_senders = insert 1 7 (insert 0 5 empty_map);
  kill_tokens = remove 1 (insert 1 8 (insert 0 6 empty_map));
  processes = 0 ∷ 1 ∷ [];
  packets = (7, "in") ∷ [];
  cancelled = 8 ∷ [];
}

abbrev events : List Event
events = command 1 (start 8 (some 7) true) ∷ command 1 (stdin "in" true) ∷ command 1 kill ∷ []
