-- ===== src/Sync.antt =====
-- src/sync: the synchronisation objects that the channels are built of.
pub mod RefCount
pub mod Notifier
pub mod Shared
pub mod StateCell
pub mod OneshotCell
pub mod Transfer
pub mod MpmcCircularBuffer
pub mod SenderShared
pub mod ReceiverShared
pub mod Alone
pub mod Advances
