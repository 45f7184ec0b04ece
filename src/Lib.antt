-- ===== src/Lib.antt =====
-- The Rust playground: what its Rust code does with requests, messages and output.
--
-- The program's parts. The web server (ui/src) reads requests over HTTP and a WebSocket
-- (server_axum.rs, server_axum/websocket.rs), turns their words into typed requests, caches what
-- changes seldom (server_axum/cache.rs), counts requests (metrics.rs) and records them
-- (request_database.rs). The coordinator (compiler/base/orchestrator/src/coordinator.rs) lowers a
-- request to file operations and a cargo command, and shares one connection to a worker between
-- jobs. The worker (compiler/base/orchestrator/src/worker.rs) runs in a container: it carries the
-- operations out, runs the command and sends its output back. Both ends speak the messages of
-- compiler/base/orchestrator/src/message.rs.
--
-- Where each part is modelled:
--   * Base: lists, results, maps and Boolean tests over the native numbers.
--   * Message: the messages of message.rs; Message/Errors, `SerializedError2::new` and `adapt`;
--     Message/Convert, the conversions that the macros of message.rs write.
--   * Request: the types of coordinator.rs; Request/Sources, `impl Code`; Request/Files, what the
--     worker's `handle_delete_file` and `handle_write_file` do to a directory, and what
--     `do_request` sends; Request/Cargo, the six `execute_cargo_request`.
--   * Api: the `parse_…` functions of server_axum.rs; Api/Convert, the `TryFrom` of the requests.
--   * Worker/Reader: `Utf8BufReader`; Worker/Output: `copy_child_output`; Worker/Utf8: the standard
--     library's reading of UTF-8, which they use.
--   * Worker/Processes: `ProcessState` and `manage_processes`.
--   * Worker/Ending: `process_end` and the words for how a process ended.
--   * Worker/Dispatch: `handle_coordinator_message`, and the end of `Commander::one`, which reads
--     the answer.
--   * Commander: `next_id` and `demultiplex` of coordinator.rs.
--   * Cache: `cache_task` and `CacheInfo` of cache.rs.
--   * CargoTask: the task that `spawn_cargo_task` of coordinator.rs starts.
--   * Assembly: `filter_asm` of compiler/base/asm-cleanup/src/lib.rs, which the result of a
--     compilation goes through.
--   * Container: `do_request` of coordinator.rs, which carries out a request's setup and starts
--     cargo; Container/Tasks, the tasks behind its operations and `WithOutput`, on what CargoTask
--     returns.
--   * Coordinator: the containers of the three channels in coordinator.rs, which come and go with
--     `select_channel` and `idle`.
--   * Limits: `Global` of compiler/base/orchestrator/src/coordinator/limits.rs, with the gauges of
--     `LifecycleMetrics` in ui/src/main.rs.
--   * Metrics: the labels of metrics.rs.
--   * WebSocket: the messages of websocket.rs; WebSocket/Execute, `handle_execute`, which relays
--     one execution; WebSocket/Manager, `CoordinatorManager`; WebSocket/Session, the state of
--     `handle_core`, and WebSocket/Session/Loop, its loop with `handle_msg`. A session starts
--     executions through the manager; what an execution sends comes to the session as an event.
--   * Database: the rows, the handle and the guards of request_database.rs.
--   * Gist: gist.rs, which shares code and loads it again; octocrab, toml and percent_encoding are
--     parameters.
--   * CargoToml: compiler/base/modify-cargo-toml/src/lib.rs; CargoToml/Requests, the changes that
--     the requests of coordinator.rs make with it.
--   * TopCrates: the walk over dependencies in top-crates/src/lib.rs, on what Cargo resolved.
--   * Http: `attempt_record_request` and `with_coordinator` of server_axum.rs, the frame of every
--     request over HTTP; Http/Handlers, the seven operations in it. Its conversions are those of
--     Api, its effects those of Database, Metrics and Coordinator.
--   * Versions: what the tools print, as `Version` of coordinator.rs reads it.
--   * Tests: the theorems at concrete inputs.
-- The children that are not named hold proofs about their parent.
--
-- How the code is read. An asynchronous loop around `select!` is a handler of the events that it
-- waits for, and a run is a list of events or a relation on states, so that statements hold for
-- every interleaving. A channel is the list of what is sent into it or the sequence of what comes
-- out. Maps with integer keys are functions, since the code reads and writes them at one key at a
-- time. A byte is a number; job ids wrap at 2 ^ 64 and the byte count of the output saturates at 2
-- ^ 64 - 1. The loop of `copy_child_output` runs on fuel: each round but the last sends at least
-- one byte and the total stays within the limit, so one round more than the limit has bytes is
-- enough. What a child writes is a list of reads of any length. The walk of the top crates runs on
-- fuel as well: dependencies have no cycle, and a number above the rank of every root is enough.
--
-- What is not modelled: JSON and TOML (serde), HTTP (axum), regular expressions, Docker, the
-- operating system's processes and file system beyond the contents of files by path (two spellings
-- of one path count as two), the scheduler's fairness, the capacity of channels (but for those of a
-- session) and of the reader's buffer, where exactly in its awaits an aborted execution stops, the
-- durations in the metrics, SQLite, the demangling of assembly, the frontend and the tools beside
-- the orchestrator.
pub mod Base
pub mod Message
pub mod Request
pub mod Api
pub mod Worker
pub mod Cache
pub mod Commander
pub mod CargoTask
pub mod Limits
pub mod Metrics
pub mod Assembly
pub mod Container
pub mod Coordinator
pub mod Database
pub mod Gist
pub mod CargoToml
pub mod TopCrates
pub mod Http
pub mod Versions
pub mod WebSocket
pub mod Tests
