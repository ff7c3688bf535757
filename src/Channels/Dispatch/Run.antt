-- ===== src/Channels/Dispatch/Run.antt =====
-- Sequences of calls on a dispatch channel, each of them undisturbed.
use postage_rs.Prelude.{◌≤◌, ◌≡◌, refl, ap, ◌∙◌, List, [], ◌++◌, map, length}
use postage_rs.Context.{Context}
use postage_rs.Queues.{SegQueue, ArrayQueue}
use postage_rs.Sync.Alone.{sender_drop-alone, receiver_drop-alone}
use postage_rs.Channels.BoundedQueue
use postage_rs.Channels.BoundedQueue.{BoundedQueue}
use postage_rs.Channels.BoundedQueue.Run
use postage_rs.Channels.BoundedQueue.Run.{Reply, done, reply_send, reply_recv, accepted, delivered}
use postage_rs.Channels.QueueChannel
use postage_rs.Channels.QueueChannel.{
  QueueChannel, run_refines_queue, run-fifo_queue, run-Fits_queue,
}
use postage_rs.Channels.Dispatch.{
  Channel, poll_send, poll_recv, clone_sender, drop_sender, drop_receiver, subscribe,
  clone_receiver,
}
use postage_rs.Channels.Dispatch.Refine.{
  view, poll_send_refines, poll_recv_refines, view-without_sender, view-without_receiver,
}

-- A call on a sender or on a receiver of the channel.
pub data Call (W T : Type 0) : Type 0 where
  send : Context W → T → Call W T
  recv : Context W → Call W T
  clone_tx drop_tx clone_rx subscribe_rx drop_rx : Call W T

module _ {W T : Type 0} where
  abbrev pub to_op : Call W T → Run.Op W T
  to_op (send cx v) = Run.Op.send_op cx v
  to_op (recv cx) = Run.Op.recv_op cx
  to_op clone_tx = Run.Op.clone_sender_op
  to_op drop_tx = Run.Op.drop_sender_op
  to_op clone_rx = Run.Op.clone_receiver_op
  to_op subscribe_rx = Run.Op.clone_receiver_op
  to_op drop_rx = Run.Op.drop_receiver_op

module _ {Q W AQ T : Type 0} ⦃sq : SegQueue Q W⦄ ⦃aq : ArrayQueue AQ T⦄ where
  unfoldable pub step : Call W T → Channel Q W AQ → Reply T × Channel Q W AQ
  unfolding reply_send reply_recv
  step (send cx v) s = let (r, s', es) = poll_send cx v [] s in (reply_send v r, s')
  step (recv cx) s = let (r, s', es) = poll_recv cx [] s in (reply_recv r, s')
  step clone_tx s = let (u, s', es) = clone_sender [] s in (done, s')
  step drop_tx s = let (u, s', es) = drop_sender [] s in (done, s')
  step clone_rx s = let (u, s', es) = clone_receiver [] s in (done, s')
  step subscribe_rx s = let (u, s', es) = subscribe [] s in (done, s')
  step drop_rx s = let (u, s', es) = drop_receiver [] s in (done, s')

  pub step_refines_queue :
      (c : Call W T) (s : Channel Q W AQ)
      → ((step c s).0 ≡ (Run.step (to_op c) (view s)).0)
        × (view (step c s).1 ≡ (Run.step (to_op c) (view s)).1)
  unfolding step Run.step clone_sender drop_sender drop_receiver BoundedQueue.add_sender
      BoundedQueue.add_receiver clone_receiver subscribe
  step_refines_queue (send cx v) s =
      let (h, h', _) = poll_send_refines cx v s in (ap (reply_send v) h, h')
  step_refines_queue (recv cx) s = let (h, h', _) = poll_recv_refines cx s in (ap reply_recv h, h')
  step_refines_queue clone_tx s = (refl, refl)
  step_refines_queue drop_tx s =
      (refl, ap (λ r. view r.1) (sender_drop-alone s) ∙ view-without_sender s)
  step_refines_queue clone_rx s = (refl, refl)
  step_refines_queue subscribe_rx s = (refl, refl)
  step_refines_queue drop_rx s =
      (refl, ap (λ r. view r.1) (receiver_drop-alone s) ∙ view-without_receiver s)

  abbrev pub dispatch : QueueChannel (Call W T) (Channel Q W AQ) W T
  dispatch = record { view = view; to_op = to_op; step = step; step_refines = step_refines_queue }

  -- Any sequence of calls on the channel, each of them undisturbed, has the results that the
  -- bounded queue gives: the replies agree, and so do the items, the capacity, the handles, and
  -- the tasks that wait and that were woken.
  pub dispatch_refines :
      (calls : List (Call W T)) (s : Channel Q W AQ)
      → let r = QueueChannel.run dispatch calls s in
        let b = Run.run (map to_op calls) (view s) in (r.0 ≡ b.0) × (view r.1 ≡ b.1)
  dispatch_refines = run_refines_queue dispatch

  -- Over any sequence of undisturbed calls, the values in the queue at the start followed by those
  -- that `poll_send` accepted are those that `poll_recv` delivered followed by those still there.
  pub dispatch_fifo :
      (calls : List (Call W T)) (s : Channel Q W AQ)
      → let r = QueueChannel.run dispatch calls s in
        aq.contents s.extension.queue ++ accepted r.0
        ≡ delivered r.0 ++ aq.contents r.1.extension.queue
  dispatch_fifo = run-fifo_queue dispatch

  -- A queue that holds no more than its capacity never does, and its capacity never changes, over
  -- any sequence of undisturbed calls.
  pub dispatch_bounded :
      (calls : List (Call W T)) (s : Channel Q W AQ)
      → length (aq.contents s.extension.queue) ≤ aq.capacity s.extension.queue
      → let q = (QueueChannel.run dispatch calls s).1.extension.queue in
        (length (aq.contents q) ≤ aq.capacity q) × (aq.capacity q ≡ aq.capacity s.extension.queue)
  dispatch_bounded = run-Fits_queue dispatch
