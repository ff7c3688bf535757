-- ===== src/Channels/Mpsc/Disconnect.antt =====
-- The mpsc channel when its last receiver is dropped during a poll of a sender.
use postage_rs.Prelude.{◌≤◌, ◌≡◌, [], length}
use postage_rs.Queues.{SegQueue, ArrayQueue}
use postage_rs.Channels.BoundedQueue
use postage_rs.Channels.BoundedQueue.{BoundedQueue}
use postage_rs.Channels.Mpsc.{Channel, drop_receiver}

module _ {Q W AQ : Type 0} (T : Type 0) ⦃sq : SegQueue Q W⦄ ⦃aq : ArrayQueue AQ T⦄ where
  -- The receiver goes.
  unfoldable pub receiver_goes : Channel Q W AQ → Channel Q W AQ
  receiver_goes s = (drop_receiver [] s).1

  -- The queue is full, and there is one receiver.
  pub record IsLastReader (s : Channel Q W AQ) : Type 0 where
    pub full : aq.capacity s.extension.queue ≤ length (aq.contents s.extension.queue)
    pub one_receiver : s.receiver_count.count ≡ 1
