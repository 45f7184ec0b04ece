-- ===== src/Limits.antt =====
-- The limits on containers and processes: compiler/base/orchestrator/src/coordinator/limits.rs with
-- the gauges of `LifecycleMetrics` in ui/src/main.rs. A semaphore is the number of its permits, and
-- is never closed. A request is waiting from its start until it has its permit or is dropped, and a
-- permit is held until it is dropped: the numbers of both stand beside the program's state.
pub mod Balance
use rust_playground.Base.{ℕ, zero, suc, ◌+◌, Option, none, some}

pub data Acquisition : Type 0 where
  acquired aborted error : Acquisition

-- A gauge, as how often it went up and down.
pub record Gauge : Type 0 where
  pub ups : ℕ
  pub downs : ℕ

abbrev inc : Gauge → Gauge
inc g = record g { ups = suc g.ups }

abbrev dec : Gauge → Gauge
dec g = record g { downs = suc g.downs }

-- The queue and the active ones of one kind, containers or processes.
pub record Gauges : Type 0 where
  pub queue : Gauge
  pub active : Gauge

-- `container_start` and `process_start`
unfoldable pub on_start : Gauges → Gauges
on_start g = record g { queue = inc g.queue }

-- `container_acquired` and `process_acquired`
unfoldable pub on_acquired : Acquisition → Gauges → Gauges
on_acquired acquired g = record { queue = dec g.queue; active = inc g.active }
on_acquired aborted g = record g { queue = dec g.queue }
on_acquired error g = record g { queue = dec g.queue }

-- `container_release` and `process_release`
unfoldable pub on_release : Gauges → Gauges
on_release g = record g { active = dec g.active }

-- One kind of resource.
pub record Resource : Type 0 where
  pub gauges : Gauges
  pub permits : ℕ
  pub waiting : ℕ
  pub held : ℕ

pub record Global : Type 0 where
  pub container : Resource
  pub process : Resource
  pub container_requests : ℕ

abbrev none_yet : Gauges
none_yet = record { queue = record { ups = 0; downs = 0 }; active = record { ups = 0; downs = 0 } }

abbrev pub with_permits : ℕ → Resource
with_permits n = record { gauges = none_yet; permits = n; waiting = 0; held = 0 }

-- `Global::with_lifecycle`
unfoldable pub with_lifecycle : ℕ → ℕ → Global
with_lifecycle container_limit process_limit = record {
  container = with_permits container_limit;
  process = with_permits process_limit;
  container_requests = 0;
}

abbrev pub less_one : ℕ → Option ℕ
less_one zero = none
less_one (suc n) = some n

-- The guard is dropped after `complete` was given the permit. The caller waited for it.
unfoldable pub obtain : Resource → Option Resource
unfolding on_acquired
obtain r = elim (less_one r.permits) [
  | none ↦ none
  | some p ↦ elim (less_one r.waiting) [
    | none ↦ none
    | some w ↦ some (record {
      gauges = on_acquired acquired r.gauges;
      permits = p;
      waiting = w;
      held = suc r.held;
    })
  ]
]

-- The guard starts.
unfoldable pub ask : Resource → Resource
unfolding on_start
ask r = record r { gauges = on_start r.gauges; waiting = suc r.waiting }

-- The guard is dropped with the future, before there is a permit.
unfoldable pub abandon : Resource → Option Resource
unfolding on_acquired
abandon r = elim (less_one r.waiting) [
  | none ↦ none
  | some w ↦ some (record r { gauges = on_acquired aborted r.gauges; waiting = w })
]

-- `Drop` of `TrackContainer` and of `TrackProcess`, and of the permit in it.
unfoldable pub give_back : Resource → Option Resource
unfolding on_release
give_back r = elim (less_one r.held) [
  | none ↦ none
  | some h ↦ some (record r { gauges = on_release r.gauges; permits = suc r.permits; held = h })
]

pub data Event : Type 0 where
  next_container container_obtained container_abandoned container_dropped : Event
  container_requested : Event
  next_process process_obtained process_abandoned process_dropped : Event

abbrev pub set_container : Global → Option Resource → Option Global
set_container g none = none
set_container g (some r) = some (record g { container = r })

abbrev pub set_process : Global → Option Resource → Option Global
set_process g none = none
set_process g (some r) = some (record g { process = r })

-- `next_container` up to where it waits: it takes a permit at once, or asks for a container.
unfoldable pub begin_container : Global → Global
unfolding ask obtain
begin_container g = elim (obtain (ask g.container)) [
  | some r ↦ record g { container = r }
  | none ↦ record g { container = ask g.container; container_requests = suc g.container_requests }
]

-- What happens next, where it can.
unfoldable pub step : Global → Event → Option Global
unfolding begin_container obtain abandon give_back ask
step g next_container = some (begin_container g)
step g container_obtained = set_container g (obtain g.container)
step g container_abandoned = set_container g (abandon g.container)
step g container_dropped = set_container g (give_back g.container)
step g container_requested = elim (less_one g.container_requests) [
  | none ↦ none
  | some n ↦ some (record g { container_requests = n })
]
step g next_process = some (record g { process = ask g.process })
step g process_obtained = set_process g (obtain g.process)
step g process_abandoned = set_process g (abandon g.process)
step g process_dropped = set_process g (give_back g.process)
