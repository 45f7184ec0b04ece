-- ===== src/Worker/Ending.antt =====
-- The end of a process in compiler/base/orchestrator/src/worker.rs: `process_end`, and the words
-- for how it ended. What the operating system answers comes with the event.
pub mod Responds
use rust_playground.Base.{
  ℕ, zero, suc, String, ◌==◌, Bool, true, false, Option, none, some, List, [], ◌∷◌, Result, ok, err,
  ◌>>=◌, if◌then◌else◌, get_or,
}
use rust_playground.Message.{ExecuteCommandResponse}
use Prim.Native.String.{◌++◌ as str_append}

-- The errors that `process_end` returns, with what they come from.
pub data ProcessError : Type 0 where
  kill_child wait_child : String → ProcessError
  stdio_task_panicked stdio_task_failed : String → ProcessError
  unable_to_send_stdin_shutdown : ProcessError
  statistics_task_panicked statistics_task_failed : String → ProcessError

-- `std::process::ExitStatus`: on Unix a code or a signal, or neither.
pub record ExitStatus : Type 0 where
  pub code : Option ℕ
  pub signal : Option ℕ

abbrev pub is_zero : Option ℕ → Bool
is_zero none = false
is_zero (some c) = c == 0

-- What joining a task gives.
pub data Joined : Type 0 where
  finished : Joined
  failed panicked : String → Joined

-- What the `select!` of the loop waits for. A cancellation comes with what killing gives.
pub data Event : Type 0 where
  cancelled : Result (Unit {0}) String → Event
  exited : Result ExitStatus String → Event
  joined : Joined → Event

abbrev pub unknown : String × String
unknown = ("???", "Unknown signal")

-- `SIGNALS` for Linux, with the descriptions.
abbrev pub signals : List (String × String)
signals =
    ("SIGHUP", "terminal line hangup")
    ∷ ("SIGINT", "interrupt program")
    ∷ ("SIGQUIT", "quit program")
    ∷ ("SIGILL", "illegal instruction")
    ∷ ("SIGTRAP", "trace trap")
    ∷ ("SIGABRT", "abort program")
    ∷ ("SIGBUS", "bus error")
    ∷ ("SIGFPE", "floating-point exception")
    ∷ ("SIGKILL", "kill program")
    ∷ ("SIGUSR1", "user-defined signal 1")
    ∷ ("SIGSEGV", "segmentation violation")
    ∷ ("SIGUSR2", "user-defined signal 2")
    ∷ ("SIGPIPE", "write on a pipe with no reader")
    ∷ ("SIGALRM", "real-time timer expired")
    ∷ ("SIGTERM", "software termination signal")
    ∷ []

-- `signals::get`, of a signal that is not negative.
pub get_signal : ℕ → String × String
get_signal zero = unknown
get_signal (suc signal) = get_or signals signal unknown

infixr 60 ◌<>◌
abbrev ◌<>◌ : String → String → String
s <> t = str_append s t

pub check_stdio : Joined → Result (Unit {0}) ProcessError
check_stdio finished = ok tt
check_stdio (failed e) = err (stdio_task_failed e)
check_stdio (panicked e) = err (stdio_task_panicked e)

-- The loop, with the tasks that were not joined. It returns the status with the tasks that are
-- left; without events it goes on waiting.
unfoldable pub wait : ℕ → List Event → Option (Result (Result ExitStatus String × ℕ) ProcessError)
unfolding check_stdio
wait tasks [] = none
wait tasks (exited status ∷ es) = some (ok (status, tasks))
wait tasks (cancelled (ok u) ∷ es) = wait tasks es
wait tasks (cancelled (err e) ∷ es) = some (err (kill_child e))
wait zero (joined t ∷ es) = none
wait (suc tasks) (joined t ∷ es) = elim (check_stdio t) [
  | ok u ↦ wait tasks es
  | err e ↦ some (err e)
]

-- `while let Some(task) = task_set.join_next().await`
unfoldable pub join_rest : ℕ → List Joined → Option (Result (Unit {0}) ProcessError)
unfolding check_stdio
join_rest zero ts = some (ok tt)
join_rest (suc tasks) [] = none
join_rest (suc tasks) (t ∷ ts) = elim (check_stdio t) [
  | ok u ↦ join_rest tasks ts
  | err e ↦ some (err e)
]

module _ (decimal : ℕ → String) where
  unfoldable pub extract_exit_detail : ExitStatus → String
  unfolding get_signal
  extract_exit_detail status = elim status.code [
    | some code ↦ "Exited with status " <> decimal code
    | none ↦ elim status.signal [
      | some signal ↦
          let (name, description) = get_signal signal in
          "Exited with signal " <> decimal signal <> " (" <> name <> "): " <> description
      | none ↦ ""
    ]
  ]

  unfoldable pub response : ExitStatus → ExecuteCommandResponse
  response status = record {
    success = is_zero status.code;
    exit_detail = extract_exit_detail status;
  }

  -- What happens once the other tasks were joined.
  unfoldable pub after_rest :
      ExitStatus
      → Joined
      → Option (Result (Unit {0}) ProcessError)
      → Option (Result ExecuteCommandResponse ProcessError)
  unfolding response
  after_rest status statistics none = none
  after_rest status statistics (some (err e)) = some (err e)
  after_rest status (failed e) (some (ok u)) = some (err (statistics_task_failed e))
  after_rest status (panicked e) (some (ok u)) = some (err (statistics_task_panicked e))
  after_rest status finished (some (ok u)) = some (ok (response status))

  -- What happens once the loop has a status: the standard input is shut down, if its receiver
  -- takes it, and the other tasks and the statistics are waited for.
  unfoldable pub after_wait :
      Result (Result ExitStatus String × ℕ) ProcessError
      → Bool
      → List Joined
      → Joined
      → Option (Result ExecuteCommandResponse ProcessError)
  unfolding after_rest
  after_wait (err e) takes rest statistics = some (err e)
  after_wait (ok (err e, tasks)) takes rest statistics = some (err (wait_child e))
  after_wait (ok (ok status, tasks)) false rest statistics =
      some (err unable_to_send_stdin_shutdown)
  after_wait (ok (ok status, tasks)) true rest statistics =
      after_rest status statistics (join_rest tasks rest)

  unfoldable pub process_end :
      ℕ
      → List Event
      → Bool
      → List Joined
      → Joined
      → Option (Result ExecuteCommandResponse ProcessError)
  unfolding wait after_wait
  process_end tasks events takes rest statistics = elim (wait tasks events) [
    | none ↦ none
    | some waited ↦ after_wait waited takes rest statistics
  ]
