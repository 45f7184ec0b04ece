-- ===== src/Tests.antt =====
-- The theorems at concrete inputs.
pub mod Requests
pub mod Words
pub mod Streams
pub mod Assembling
pub mod Caching
pub mod Containing
pub mod Coordinating
pub mod Listening
pub mod Running
pub mod Recording
pub mod Serving
pub mod Sessions
pub mod Sharing
pub mod Tools
pub mod Endings
pub mod Handlers
pub mod Crates
pub mod Manifest
pub mod Processes
