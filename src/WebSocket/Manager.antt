-- ===== src/WebSocket/Manager.antt =====
-- `CoordinatorManager` of ui/src/server_axum/websocket.rs. A task is the number of tasks spawned
-- before it, and holds a clone of the coordinator until it is taken out of `tasks`. There is one
-- kind of task, so one handle. The semaphore, which lets two tasks run at a time, is left out.
use rust_playground.Base.{
  ℕ, suc, String, Bool, true, false, not, Option, none, some, List, [], ◌∷◌, ◌++◌, Result, ok, err,
  keep, ◌==◌, if◌then◌else◌,
}

pub record Manager : Type 0 where
  pub tasks : List ℕ
  pub abort_handle : Option ℕ
  pub aborted : List ℕ
  pub spawned : ℕ

-- The texts of the coordinator's errors.
pub data ManagerError : Type 0 where
  outstanding_coordinator_idle outstanding_coordinator_shutdown : ManagerError
  idle_error shutdown_error : List String → ManagerError

unfoldable pub manager : Manager
manager = record { tasks = []; abort_handle = none; aborted = []; spawned = 0 }

abbrev pub is_empty : List ℕ → Bool
is_empty [] = true
is_empty (j ∷ js) = false

abbrev pub abort : Option ℕ → List ℕ → List ℕ
abort none js = js
abort (some j) js = j ∷ js

unfoldable pub spawn : Manager → Manager
spawn m = record {
  tasks = m.tasks ++ (m.spawned ∷ []);
  abort_handle = some m.spawned;
  aborted = abort m.abort_handle m.aborted;
  spawned = suc m.spawned;
}

-- `join_next`, when it gives the task `j`.
unfoldable pub join_next : ℕ → Manager → Manager
join_next j m = record m { tasks = keep (λ i. not (i == j)) m.tasks }

abbrev pub answer : {E : Type 0} → (List String → E) → Option (List String) → Result (Unit {0}) E
answer f none = ok tt
answer f (some e) = err (f e)

-- `idle`, with the error of the coordinator's own `idle`, if there is one. `Arc::get_mut` fails
-- while there is a clone.
unfoldable pub idle : Manager → Option (List String) → Result (Unit {0}) ManagerError
idle m e = if is_empty m.tasks then answer idle_error e else err outstanding_coordinator_idle

-- `shutdown`, likewise: the tasks are shut down and taken out first.
unfoldable pub shutdown : Manager → Option (List String) → Result (Unit {0}) ManagerError
shutdown m e =
    let rest = record m { tasks = [] } in
    if is_empty rest.tasks then answer shutdown_error e else err outstanding_coordinator_shutdown
