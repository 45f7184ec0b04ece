-- ===== src/Tests/Running.antt =====
-- A run of cargo and the limits at concrete events.
use rust_playground.Base.{refl, true, false, none, some, List, [], ◌∷◌}
use rust_playground.Message.{CoordinatorMessage, WorkerMessage}
use rust_playground.CargoTask.{Event, cancelled, stdin, from_worker, Task, start, handle}
use rust_playground.CargoTask.Forwarding.{Steps, here, step, Forwards, Steps-Forwards}
use rust_playground.CargoTask.Input.{IsOrdered, start-IsOrdered}
use rust_playground.Limits
use rust_playground.Limits.{
  Global, Gauge, Gauges, Resource, next_container, container_dropped, with_lifecycle,
}
use rust_playground.Limits.Balance.{Reachable, started, later, Balanced, Reachable-Balanced}

abbrev events : List Event
events =
    stdin (some "1") ∷ from_worker (WorkerMessage.stdout_packet "one") ∷ cancelled ∷ stdin none ∷ []

abbrev ended : Task
ended = record {
  cancellable = false;
  stdin_open = false;
  to_worker =
      CoordinatorMessage.stdin_packet "1"
      ∷ CoordinatorMessage.kill
      ∷ CoordinatorMessage.stdin_close
      ∷ [];
  stdout = "one" ∷ [];
  stderr = [];
  status = [];
}

runs : Steps start events ended
unfolding start handle
runs =
    step true _ refl refl
      (step true _ refl refl (step true _ refl refl (step true _ refl refl here)))

Steps-Forwards_example : Forwards start events ended
Steps-Forwards_example = Steps-Forwards runs

start-IsOrdered_example : IsOrdered events ended
start-IsOrdered_example = start-IsOrdered runs

abbrev used : Global
used = record {
  container = record {
    gauges = record {
      queue = record { ups = 1; downs = 1 };
      active = record { ups = 1; downs = 0 };
    };
    permits = 1;
    waiting = 0;
    held = 1;
  };
  process = record {
    gauges = record {
      queue = record { ups = 0; downs = 0 };
      active = record { ups = 0; downs = 0 };
    };
    permits = 4;
    waiting = 0;
    held = 0;
  };
  container_requests = 0;
}

one_container : Reachable 2 4 used
unfolding Limits.step with_lifecycle
one_container = later next_container started refl

Reachable-Balanced_example : Balanced 2 4 used
Reachable-Balanced_example = Reachable-Balanced 2 4 one_container
