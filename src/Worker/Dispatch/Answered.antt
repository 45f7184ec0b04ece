-- ===== src/Worker/Dispatch/Answered.antt =====
-- What the worker does with the messages of the coordinator.
use rust_playground.Base.{
  ◌+◌, ◌≡◌, refl, sym, ap, subst, ◌∙◌, Bool, true, false, some, List, [], ◌∷◌, ◌++◌, map,
  map-append, append-nil, append_assoc, count, count-append, arith,
}
use rust_playground.Message.{JobId, Multiplexed, CoordinatorMessage, WorkerMessage}
use rust_playground.Worker.Dispatch.{
  FileRequest, FileTask, Answer, ForwardedCommand, start_command, stdin_data, close_input,
  kill_command, Dispatcher, received, answered, goes_on, start, forward, spawn_task, dispatch,
  handle,
}

-- The messages received and the state that they led to, as tasks finish in any order.
pub data Runs : List (Multiplexed CoordinatorMessage) → Dispatcher → Type 0 where
  idle : Runs [] start
  receives :
      {ms : List (Multiplexed CoordinatorMessage)} {s t : Dispatcher}
      (m : Multiplexed CoordinatorMessage) (accepted : Bool)
      → Runs ms s
      → handle s (received (some m) accepted) ≡ goes_on t
      → Runs (ms ++ (m ∷ [])) t
  answers :
      {ms : List (Multiplexed CoordinatorMessage)} {s t : Dispatcher} (before : List FileTask)
      (x : FileTask) (after : List FileTask) (a : Answer x.request) (accepted : Bool)
      → Runs ms s
      → s.tasks ≡ before ++ (x ∷ after)
      → handle s (answered before x after a accepted) ≡ goes_on t
      → Runs ms t

-- The jobs that ask for files, and the commands for processes, in order.
abbrev pub file_jobs_of : JobId → CoordinatorMessage → List JobId
file_jobs_of j (CoordinatorMessage.write_file r) = j ∷ []
file_jobs_of j (CoordinatorMessage.delete_file r) = j ∷ []
file_jobs_of j (CoordinatorMessage.read_file r) = j ∷ []
file_jobs_of j _ = []

abbrev pub commands_of : CoordinatorMessage → List ForwardedCommand
commands_of (CoordinatorMessage.execute_command r) = start_command r ∷ []
commands_of (CoordinatorMessage.stdin_packet d) = stdin_data d ∷ []
commands_of CoordinatorMessage.stdin_close = close_input ∷ []
commands_of CoordinatorMessage.kill = kill_command ∷ []
commands_of _ = []

abbrev tagged : JobId → ForwardedCommand → Multiplexed ForwardedCommand
tagged j c = record { job_id = j; message = c }

abbrev pub file_jobs : List (Multiplexed CoordinatorMessage) → List JobId
file_jobs [] = []
file_jobs (m ∷ ms) = file_jobs_of m.job_id m.message ++ file_jobs ms

abbrev pub commands : List (Multiplexed CoordinatorMessage) → List (Multiplexed ForwardedCommand)
commands [] = []
commands (m ∷ ms) = map (tagged m.job_id) (commands_of m.message) ++ commands ms

abbrev pub jobs_of : List FileTask → List JobId
jobs_of ts = map (λ t. t.job) ts

abbrev pub answered_jobs : List (Multiplexed WorkerMessage) → List JobId
answered_jobs ms = map (λ m. m.job_id) ms

-- Each request for a file is being worked on or was answered, once and to its own job, and the
-- commands for processes were handed on in order.
pub record Serves (ms : List (Multiplexed CoordinatorMessage)) (s : Dispatcher) : Type 0 where
  pub each_once :
      (j : JobId)
      → count j (jobs_of s.tasks) + count j (answered_jobs s.sent) ≡ count j (file_jobs ms)
  pub in_order : s.forwarded ≡ commands ms

file_jobs-append :
    (xs ys : List (Multiplexed CoordinatorMessage))
    → file_jobs (xs ++ ys) ≡ file_jobs xs ++ file_jobs ys
file_jobs-append [] ys = refl
file_jobs-append (x ∷ xs) ys =
    ap (λ l. file_jobs_of x.job_id x.message ++ l) (file_jobs-append xs ys)
    ∙ sym (append_assoc (file_jobs_of x.job_id x.message) (file_jobs xs) (file_jobs ys))

commands-append :
    (xs ys : List (Multiplexed CoordinatorMessage))
    → commands (xs ++ ys) ≡ commands xs ++ commands ys
commands-append [] ys = refl
commands-append (x ∷ xs) ys =
    ap (λ l. map (tagged x.job_id) (commands_of x.message) ++ l) (commands-append xs ys)
    ∙ sym (append_assoc (map (tagged x.job_id) (commands_of x.message)) (commands xs) (commands ys))

goes_on-injective : {s t : Dispatcher} → goes_on s ≡ goes_on t → s ≡ t
goes_on-injective h = cc

-- What a message adds to the tasks and to the commands.
record Adds (s t : Dispatcher) (js : List JobId) (cs : List (Multiplexed ForwardedCommand))
    : Type 0 where
  tasks_added : jobs_of t.tasks ≡ jobs_of s.tasks ++ js
  commands_added : t.forwarded ≡ s.forwarded ++ cs
  sent_same : t.sent ≡ s.sent

spawn_task-Adds :
    (j : JobId) (r : FileRequest) (s : Dispatcher) {t : Dispatcher}
    → spawn_task j r s ≡ goes_on t
    → Adds s t (j ∷ []) []
spawn_task-Adds j r s h =
    subst (λ t. Adds s t (j ∷ []) []) (goes_on-injective h)
      (record {
        tasks_added = map-append (λ t. t.job) s.tasks (record { job = j; request = r } ∷ []);
        commands_added = sym (append-nil s.forwarded);
        sent_same = refl;
      })

forward-Adds :
    (b : Bool) (j : JobId) (c : ForwardedCommand) (s : Dispatcher) {t : Dispatcher}
    → forward b j c s ≡ goes_on t
    → Adds s t [] (tagged j c ∷ [])
forward-Adds true j c s h =
    subst (λ t. Adds s t [] (tagged j c ∷ [])) (goes_on-injective h)
      (record {
        tasks_added = sym (append-nil (jobs_of s.tasks));
        commands_added = refl;
        sent_same = refl;
      })
forward-Adds false j c s h = absurd cc

dispatch-Adds :
    (b : Bool) (j : JobId) (m : CoordinatorMessage) (s : Dispatcher) {t : Dispatcher}
    → dispatch b j m s ≡ goes_on t
    → Adds s t (file_jobs_of j m) (map (tagged j) (commands_of m))
unfolding dispatch
dispatch-Adds b j (CoordinatorMessage.write_file r) s h = spawn_task-Adds j _ s h
dispatch-Adds b j (CoordinatorMessage.delete_file r) s h = spawn_task-Adds j _ s h
dispatch-Adds b j (CoordinatorMessage.read_file r) s h = spawn_task-Adds j _ s h
dispatch-Adds b j (CoordinatorMessage.execute_command r) s h = forward-Adds b j _ s h
dispatch-Adds b j (CoordinatorMessage.stdin_packet r) s h = forward-Adds b j _ s h
dispatch-Adds b j CoordinatorMessage.stdin_close s h = forward-Adds b j _ s h
dispatch-Adds b j CoordinatorMessage.kill s h = forward-Adds b j _ s h

Adds-Serves :
    {ms : List (Multiplexed CoordinatorMessage)} {s t : Dispatcher}
    (m : Multiplexed CoordinatorMessage)
    → Serves ms s
    → Adds s t (file_jobs_of m.job_id m.message) (map (tagged m.job_id) (commands_of m.message))
    → Serves (ms ++ (m ∷ [])) t
Adds-Serves {ms} {s} {t} m v a =
    let js = file_jobs_of m.job_id m.message in
    let cs = map (tagged m.job_id) (commands_of m.message) in
    record {
      each_once = λ j.
          let p = ap (count j) a.tasks_added ∙ count-append j (jobs_of s.tasks) js in
          let q = ap (λ l. count j (answered_jobs l)) a.sent_same in
          let r =
            ap (count j)
              (file_jobs-append ms (m ∷ []) ∙ ap (λ l. file_jobs ms ++ l) (append-nil js))
            ∙ count-append j (file_jobs ms) js in
          let o = v.each_once j in omega arith;
      in_order =
          a.commands_added
          ∙ ap (λ l. l ++ cs) v.in_order
          ∙ sym (commands-append ms (m ∷ []) ∙ ap (λ l. commands ms ++ l) (append-nil cs));
    }

moves_once :
    (j : JobId) (before : List FileTask) (x : FileTask) (after : List FileTask)
    (sent : List (Multiplexed WorkerMessage)) (m : WorkerMessage)
    → count j (jobs_of (before ++ after))
        + count j (answered_jobs (sent ++ (record { job_id = x.job; message = m } ∷ [])))
      ≡ count j (jobs_of (before ++ (x ∷ after))) + count j (answered_jobs sent)
moves_once j before x after sent m =
    let p =
      ap (count j) (map-append (λ (t : FileTask). t.job) before after)
      ∙ count-append j (jobs_of before) (jobs_of after) in
    let q =
      ap (count j) (map-append (λ (t : FileTask). t.job) before (x ∷ after))
      ∙ count-append j (jobs_of before) (x.job ∷ jobs_of after) in
    let r =
      ap (count j) (
        map-append (λ (m : Multiplexed WorkerMessage). m.job_id) sent
          (record { job_id = x.job; message = m } ∷ []))
      ∙ count-append j (answered_jobs sent) (x.job ∷ []) in
    omega arith

-- However the tasks of the worker interleave: of every job, each request for a file is either being
-- worked on or was answered, exactly once, to the job that asked; and the commands for processes
-- are handed on in the order in which they came.
pub Runs-Serves :
    {ms : List (Multiplexed CoordinatorMessage)} {s : Dispatcher} → Runs ms s → Serves ms s
unfolding handle start
Runs-Serves idle = record { each_once = λ j. refl; in_order = refl }
Runs-Serves (receives {s} m accepted r h) =
    Adds-Serves m (Runs-Serves r) (dispatch-Adds accepted m.job_id m.message s h)
Runs-Serves (answers {ms} {s} before x after a true r p h) =
    let v = Runs-Serves r in
    subst (Serves ms) (goes_on-injective h) (record {
      each_once = λ j.
          moves_once j before x after s.sent _
          ∙ ap (λ ts. count j (jobs_of ts) + count j (answered_jobs s.sent)) (sym p)
          ∙ v.each_once j;
      in_order = v.in_order;
    })
Runs-Serves (answers before x after a false r p h) = absurd cc
