-- ===== src/Channels.antt =====
-- src/channels: the six channels.
pub mod BoundedQueue
pub mod QueueChannel
pub mod Mpsc
pub mod Dispatch
pub mod Oneshot
pub mod Barrier
pub mod Watch
pub mod Broadcast
