-- ===== src/Worker.antt =====
-- The worker inside a container (compiler/base/orchestrator/src/worker.rs).
pub mod Utf8
pub mod Reader
pub mod Output
pub mod Processes
pub mod Ending
pub mod Dispatch
