-- ===== src/Tests.antt =====
-- The library on concrete data.
pub mod Queues
pub mod Schedules
mod Mpsc
mod Dispatch
mod Broadcast
mod Oneshot
mod Watch
mod Sync
mod Sinks
mod Streams
