-- ===== src/Worker/Processes.antt =====
-- `ProcessState` and the loop of `manage_processes` in compiler/base/orchestrator/src/worker.rs.
-- The channels to a process's standard input and the tokens that kill a process are numbers. What
-- the operating system and the other tasks answer comes with the event: whether a process begins,
-- and whether a channel takes what is sent.
pub mod Killing
use rust_playground.Base.{
  ℕ, String, Bool, Option, none, some, List, [], ◌∷◌, ◌++◌, Result, ok, err, Map, insert, remove,
  empty_map, if◌then◌else◌,
}

-- The errors of the loop; the other errors of the source come from a process that has ended.
pub data ProcessError : Type 0 where
  unable_to_send_execute_command_started_response : ProcessError
  unable_to_send_stdin_data : ProcessError
  other : String → ProcessError

-- `start` has the new token, the channel to the standard input of the process that begins, or
-- nothing when `process_begin` fails, and whether the report of that is taken.
pub data ProcessCommand : Type 0 where
  start : ℕ → Option ℕ → Bool → ProcessCommand
  stdin : String → Bool → ProcessCommand
  stdin_close kill : ProcessCommand

-- What `select!` gives.
pub data Event : Type 0 where
  command : ℕ → ProcessCommand → Event
  stdin_shutdown : ℕ → Event
  joined : Result (Unit {0}) ProcessError → Event

-- The state, with what was sent to the processes and which tokens were cancelled.
pub record ProcessState : Type 0 where
  pub stdin_senders : Map ℕ
  pub kill_tokens : Map ℕ
  pub processes : List ℕ
  pub packets : List (ℕ × String)
  pub cancelled : List ℕ

unfoldable pub new : ProcessState
new = record {
  stdin_senders = empty_map;
  kill_tokens = empty_map;
  processes = [];
  packets = [];
  cancelled = [];
}

-- A token's guard that is dropped cancels it, also when `insert` replaces it.
abbrev pub drop_guard : Option ℕ → List ℕ → List ℕ
drop_guard none ts = ts
drop_guard (some t) ts = ts ++ (t ∷ [])

-- `ProcessState::start`
abbrev pub start_process : ProcessState → ℕ → ℕ → Option ℕ → Bool → Result ProcessState ProcessError
start_process s job_id token none reported =
    if reported then ok s else err unable_to_send_execute_command_started_response
start_process s job_id token (some stdin_tx) reported = ok (record {
  stdin_senders = insert job_id stdin_tx s.stdin_senders;
  kill_tokens = insert job_id token s.kill_tokens;
  processes = s.processes ++ (job_id ∷ []);
  packets = s.packets;
  cancelled = drop_guard (s.kill_tokens job_id) s.cancelled;
})

-- `ProcessState::stdin`
abbrev pub send_stdin : ProcessState → Option ℕ → String → Bool → Result ProcessState ProcessError
send_stdin s none packet accepted = ok s
send_stdin s (some stdin_tx) packet accepted =
    if accepted
    then ok (record s { packets = s.packets ++ ((stdin_tx, packet) ∷ []) })
    else err unable_to_send_stdin_data

-- `ProcessState::stdin_close`
abbrev pub close_stdin : ProcessState → ℕ → ProcessState
close_stdin s job_id = record s { stdin_senders = remove job_id s.stdin_senders }

-- `ProcessState::kill`
abbrev pub kill_process : ProcessState → ℕ → ProcessState
kill_process s job_id = record s {
  kill_tokens = remove job_id s.kill_tokens;
  cancelled = drop_guard (s.kill_tokens job_id) s.cancelled;
}

-- `process?`
abbrev pub join_process :
    ProcessState → Result (Unit {0}) ProcessError → Result ProcessState ProcessError
join_process s (ok u) = ok s
join_process s (err e) = err e

-- The arms of the loop's `select!`.
unfoldable pub handle : ProcessState → Event → Result ProcessState ProcessError
handle s (command job_id (start token begun reported)) = start_process s job_id token begun reported
handle s (command job_id (stdin packet accepted)) =
    send_stdin s (s.stdin_senders job_id) packet accepted
handle s (command job_id stdin_close) = ok (close_stdin s job_id)
handle s (command job_id kill) = ok (kill_process s job_id)
handle s (stdin_shutdown job_id) = ok (close_stdin s job_id)
handle s (joined process) = join_process s process
