-- ===== src/Tests.antt =====
-- Test data, runs of the model and the theorems at concrete inputs.
pub mod Samples
mod Domain
mod Services
mod Pages
mod Messages
mod Http
mod Cursor
mod Tokens
mod Locks
