-- ===== src/Commander.antt =====
-- The part of `Commander` in compiler/base/orchestrator/src/coordinator.rs that shares one worker
-- between jobs: `next_id` and `demultiplex`. A channel to a waiting caller is a number, `Msg` is
-- the worker's messages, and what was sent into the channels is a log.
pub mod Listeners
pub mod Routes
pub mod Ids
pub mod Unused
pub mod Once
use rust_playground.Base.{
  ℕ, ◌+◌, ◌%◌, ◌^◌, Bool, not, Option, none, some, List, [], ◌∷◌, ◌++◌, Result, ok, err, ◌>>=◌, Map,
  insert, remove, retain, empty_map, is_some, if◌then◌else◌,
}

-- `JobId` is a `u64`.
abbrev pub job_ids : ℕ
job_ids = 2 ^ 64

-- `next_id`: the id that is given out, and the counter afterwards.
unfoldable pub next_id : ℕ → ℕ × ℕ
next_id id = (id, (id + 1) % job_ids)

pub data CommanderError : Type 0 where
  duplicate_demultiplexer_client : ℕ → CommanderError

pub data DemultiplexCommand : Type 0 where
  listen listen_once : ℕ → ℕ → DemultiplexCommand

-- What `select!` gives. A command comes with the channel for its acknowledgement; `gc` with which
-- channels' receivers were dropped.
pub data Event (Msg : Type 0) : Type 0 where
  command : ℕ → DemultiplexCommand → Event Msg
  from_worker : ℕ → Msg → Event Msg
  gc : (ℕ → Bool) → Event Msg

-- `ensure!(old.is_none(), …)`
abbrev pub ensure_new : ℕ → Option ℕ → Result (Unit {0}) CommanderError
ensure_new job_id old = if is_some old then err (duplicate_demultiplexer_client job_id) else ok tt

pub record Demultiplexer (Msg : Type 0) : Type 0 where
  pub waiting : Map ℕ
  pub waiting_once : Map ℕ
  pub sent : List (ℕ × Msg)
  pub acks : List ℕ

module _ {Msg : Type 0} where
  unfoldable pub start : Demultiplexer Msg
  start = record { waiting = empty_map; waiting_once = empty_map; sent = []; acks = [] }

  -- Registers a listener.
  abbrev pub run_command :
      Demultiplexer Msg → DemultiplexCommand → Result (Demultiplexer Msg) CommanderError
  run_command d (listen job_id waiter) = do
    u ← ensure_new job_id (d.waiting job_id)
    ok (record d { waiting = insert job_id waiter d.waiting })
  run_command d (listen_once job_id waiter) = do
    u ← ensure_new job_id (d.waiting_once job_id)
    ok (record d { waiting_once = insert job_id waiter d.waiting_once })

  abbrev to_waiting : Demultiplexer Msg → Option ℕ → Msg → Demultiplexer Msg
  to_waiting d none msg = d
  to_waiting d (some waiter) msg = record d { sent = d.sent ++ ((waiter, msg) ∷ []) }

  -- Hands a message to the listener of its job, if there is one.
  abbrev notify : Demultiplexer Msg → Option ℕ → ℕ → Msg → Demultiplexer Msg
  notify d none job_id msg = to_waiting d (d.waiting job_id) msg
  notify d (some waiter) job_id msg = record d {
    waiting_once = remove job_id d.waiting_once;
    sent = d.sent ++ ((waiter, msg) ∷ []);
  }

  -- The arms of the loop's `match`.
  unfoldable pub handle : Demultiplexer Msg → Event Msg → Result (Demultiplexer Msg) CommanderError
  handle d (command ack c) = do d ← run_command d c; ok (record d { acks = d.acks ++ (ack ∷ []) })
  handle d (from_worker job_id msg) = ok (notify d (d.waiting_once job_id) job_id msg)
  handle d (gc is_closed) = ok (record d {
    waiting = retain (λ tx. not (is_closed tx)) d.waiting;
    waiting_once = retain (λ tx. not (is_closed tx)) d.waiting_once;
  })

  -- The loop, on the events that come before one of its channels is closed.
  unfoldable pub demultiplex :
      Demultiplexer Msg → List (Event Msg) → Result (Demultiplexer Msg) CommanderError
  unfolding handle
  demultiplex d [] = ok d
  demultiplex d (e ∷ es) = do d ← handle d e; demultiplex d es
