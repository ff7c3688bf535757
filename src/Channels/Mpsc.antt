-- ===== src/Channels/Mpsc.antt =====
-- src/channels/mpsc.rs: a bounded queue with many senders and one receiver.
pub mod Refine
pub mod Schedules
pub mod Sinks
pub mod Race
pub mod Disconnect
pub mod Delivery
pub mod Wakeup
pub mod Room
pub mod Run
use postage_rs.Prelude.{ℕ, ◌≡◌, refl, Bool, Option, none, some, if◌then◌else◌}
use mathlib.Core.Option
use postage_rs.Context.{Context}
use postage_rs.Queues.{SegQueue, ArrayQueue}
use postage_rs.Concurrent.{M, Ref, ◌▸◌, pure, ◌>>=◌, ◌>>◌}
use postage_rs.Concurrent.Atomic.{Result, ok, err, access, load}
use postage_rs.Concurrent.Loop.{Control, continue, break, retry}
use postage_rs.Stream.{PollRecv, Poll}
use postage_rs.Sink.{PollSend, SendError}
use postage_rs.Sync.Notifier.{NotificationGuard}
use postage_rs.Sync.Shared
use postage_rs.Sync.Shared.{Shared, extension_field}
use postage_rs.Sync.SenderShared
use postage_rs.Sync.ReceiverShared

-- `StateExtension<T>`
pub record StateExtension (AQ : Type 0) : Type 0 where
  pub queue : AQ

-- The shared state of a channel. A `Sender` and a `Receiver` are handles of it.
abbrev pub Channel : Type 0 → Type 0 → Type 0 → Type 0
Channel Q W AQ = Shared Q W (StateExtension AQ)

abbrev pub queue_field : {AQ : Type 0} → Ref (StateExtension AQ) AQ
queue_field = record {
  get = λ x. x.queue;
  put = λ q x. record x { queue = q };
  get-put = λ q x. refl;
  put-get = λ x. refl;
  put-put = λ q y x. refl;
}

abbrev pub queue : {Q W AQ : Type 0} → Ref (Channel Q W AQ) AQ
queue = extension_field ▸ queue_field

module _ {Q W AQ : Type 0} (T : Type 0) ⦃sq : SegQueue Q W⦄ ⦃aq : ArrayQueue AQ T⦄ where
  -- `none` is the panic of `ArrayQueue::new`.
  unfoldable pub channel : ℕ → Option (Channel Q W AQ)
  unfolding Shared.new
  channel capacity = Option.map (λ q. Shared.new (record { queue = q })) (aq.new capacity)

module _ {Q W AQ T : Type 0} ⦃sq : SegQueue Q W⦄ ⦃aq : ArrayQueue AQ T⦄ where
  -- The end of a round of `poll_send` that has found the queue full.
  unfoldable pub send_wait :
      Context W → NotificationGuard → T → M (Channel Q W AQ) (Control T (PollSend T))
  unfolding SenderShared.subscribe_recv SenderShared.guard_is_expired
  send_wait cx guard v = do
    SenderShared.subscribe_recv cx
    expired ← SenderShared.guard_is_expired guard
    pure (if expired then continue v else break (PollSend.pending v))

  -- The arms of its match on the result of the push.
  unfoldable pub send_pushed :
      Context W
      → NotificationGuard
      → Result (Unit {0}) T
      → M (Channel Q W AQ) (Control T (PollSend T))
  send_pushed cx guard (ok _) = SenderShared.notify_receivers >> pure (break PollSend.ready)
  send_pushed cx guard (err v) = send_wait cx guard v

  -- The rest of a round that has found the channel open.
  unfoldable pub send_open : Context W → T → M (Channel Q W AQ) (Control T (PollSend T))
  unfolding SenderShared.recv_guard send_pushed
  send_open cx value = do
    guard ← SenderShared.recv_guard
    pushed ← access queue (aq.push value)
    send_pushed cx guard pushed

  unfoldable pub poll_send_round : Context W → T → M (Channel Q W AQ) (Control T (PollSend T))
  unfolding SenderShared.is_closed send_open
  poll_send_round cx value = do
    closed ← SenderShared.is_closed
    if closed then pure (break (PollSend.rejected value)) else send_open cx value

  unfoldable pub poll_send : Context W → T → M (Channel Q W AQ) (Option (PollSend T))
  unfolding poll_send_round
  poll_send cx value = retry (poll_send_round cx) value

  -- The end of a round of `poll_recv` that has found the queue empty and the channel open.
  unfoldable pub recv_wait :
      Context W → NotificationGuard → M (Channel Q W AQ) (Control (Unit {0}) (PollRecv T))
  unfolding ReceiverShared.subscribe_send ReceiverShared.guard_is_expired
  recv_wait cx guard = do
    ReceiverShared.subscribe_send cx
    expired ← ReceiverShared.guard_is_expired guard
    pure (if expired then continue tt else break PollRecv.pending)

  -- The arms of its match on what was popped.
  unfoldable pub recv_popped :
      Context W
      → NotificationGuard
      → Option T
      → M (Channel Q W AQ) (Control (Unit {0}) (PollRecv T))
  unfolding ReceiverShared.is_closed
  recv_popped cx guard (some v) = ReceiverShared.notify_senders >> pure (break (PollRecv.ready v))
  recv_popped cx guard none = do
    closed ← ReceiverShared.is_closed
    if closed then pure (break PollRecv.closed) else recv_wait cx guard

  unfoldable pub poll_recv_round :
      Context W → Unit {0} → M (Channel Q W AQ) (Control (Unit {0}) (PollRecv T))
  unfolding ReceiverShared.send_guard recv_popped
  poll_recv_round cx _ = do
    guard ← ReceiverShared.send_guard
    popped ← access queue aq.pop
    recv_popped cx guard popped

  unfoldable pub poll_recv : Context W → M (Channel Q W AQ) (Option (PollRecv T))
  unfolding poll_recv_round
  poll_recv cx = retry (poll_recv_round cx) tt

-- `Clone for Sender`, and the drop of the handles.
module _ {Q W AQ : Type 0} where
  unfoldable pub clone_sender : M (Channel Q W AQ) (Unit {0})
  unfolding SenderShared.clone
  clone_sender = SenderShared.clone

module _ {Q W AQ : Type 0} ⦃sq : SegQueue Q W⦄ where
  unfoldable pub drop_sender : M (Channel Q W AQ) (Unit {0})
  drop_sender = SenderShared.drop

  unfoldable pub drop_receiver : M (Channel Q W AQ) (Unit {0})
  drop_receiver = ReceiverShared.drop

-- The `futures::Sink` of the sender.
module _ {Q W AQ T : Type 0} ⦃sq : SegQueue Q W⦄ ⦃aq : ArrayQueue AQ T⦄ where
  unfoldable pub poll_ready_round :
      Context W
      → Unit {0}
      → M (Channel Q W AQ) (Control (Unit {0}) (Poll (Result (Unit {0}) (SendError T))))
  unfolding SenderShared.is_closed SenderShared.recv_guard SenderShared.subscribe_recv
      SenderShared.guard_is_expired
  poll_ready_round cx _ = do
    closed ← SenderShared.is_closed
    if closed then pure (break (Poll.ready (ok tt))) else do
      guard ← SenderShared.recv_guard
      q ← load queue
      if aq.is_full q
          then (do
            SenderShared.subscribe_recv cx
            expired ← SenderShared.guard_is_expired guard
            pure (if expired then continue tt else break Poll.pending))
          else pure (break (Poll.ready (ok tt)))

  unfoldable pub poll_ready :
      Context W → M (Channel Q W AQ) (Option (Poll (Result (Unit {0}) (SendError T))))
  unfolding poll_ready_round
  poll_ready cx = retry (poll_ready_round cx) tt

  unfoldable pub start_send : T → M (Channel Q W AQ) (Result (Unit {0}) (SendError T))
  unfolding SenderShared.is_closed
  start_send item = do
    closed ← SenderShared.is_closed
    if closed then pure (err (record { value = item })) else do
      pushed ← access queue (aq.push item)
      elim pushed [
        | ok _ ↦ SenderShared.notify_receivers >> pure (ok tt)
        | err v ↦ pure (err (record { value = v }))
      ]
