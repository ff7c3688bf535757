-- ===== src/Futures.antt =====
-- src/futures.rs: the receivers as streams of the futures crate.
use postage_rs.Prelude.{ℕ, Option}
use mathlib.Core.Option
use postage_rs.Context.{from_waker}
use postage_rs.Queues.{SegQueue, ArrayQueue}
use postage_rs.Concurrent.{M, pure, ◌>>=◌}
use postage_rs.Stream.{PollRecv, Poll, to_future}
use postage_rs.Sync.Transfer.{Transfer}
use postage_rs.Sync.MpmcCircularBuffer.{BufferReader}
use postage_rs.Channels.Barrier
use postage_rs.Channels.Barrier.{Barrier}
use postage_rs.Channels.Broadcast
use postage_rs.Channels.Dispatch
use postage_rs.Channels.Mpsc
use postage_rs.Channels.Oneshot
use postage_rs.Channels.Watch

-- The macro `poll!`, on a poll that returns; `none` stays what it is for the poll.
module _ {S A : Type 0} where
  unfoldable pub poll : M S (PollRecv A) → M S (Poll (Option A))
  unfolding to_future
  poll poll_recv = do polled ← poll_recv; pure (to_future polled)

  -- The same of a poll that may not return.
  unfoldable pub poll_some : M S (Option (PollRecv A)) → M S (Option (Poll (Option A)))
  unfolding to_future
  poll_some poll_recv = do polled ← poll_recv; pure (Option.map to_future polled)

module _ {Q W : Type 0} ⦃sq : SegQueue Q W⦄ (w : W) where
  -- `cx.into()` of a task's context has the task's waker.
  unfoldable pub barrier_poll_next : M (Barrier Q W) (Poll (Option (Unit {0})))
  unfolding poll Barrier.poll_recv
  barrier_poll_next = poll (Barrier.poll_recv (from_waker w))

module _ {Q W T : Type 0} ⦃sq : SegQueue Q W⦄ (w : W) where
  unfoldable pub broadcast_poll_next :
      BufferReader → M (Broadcast.Channel Q W T) (Option (Poll (Option T)) × BufferReader)
  unfolding to_future Broadcast.poll_recv
  broadcast_poll_next reader = do
    (polled, reader') ← Broadcast.poll_recv (from_waker w) reader
    pure (Option.map to_future polled, reader')

  -- An inner `none` is a panic.
  unfoldable pub oneshot_poll_next : M (Transfer Q W T) (Option (Option (Poll (Option T))))
  unfolding to_future Oneshot.poll_recv
  oneshot_poll_next = do
    polled ← Oneshot.poll_recv (from_waker w)
    pure (Option.map (Option.map to_future) polled)

  -- The receiver's own generation goes in and comes out.
  unfoldable pub watch_poll_next : ℕ → M (Watch.Channel Q W T) (Option (Poll (Option T) × ℕ))
  unfolding to_future Watch.poll_recv
  watch_poll_next own = do
    polled ← Watch.poll_recv (from_waker w) own
    pure (Option.map (λ r. (to_future r.0, r.1)) polled)

module _ {Q W AQ T : Type 0} ⦃sq : SegQueue Q W⦄ ⦃aq : ArrayQueue AQ T⦄ (w : W) where
  unfoldable pub dispatch_poll_next : M (Dispatch.Channel Q W AQ) (Option (Poll (Option T)))
  unfolding poll_some Dispatch.poll_recv
  dispatch_poll_next = poll_some (Dispatch.poll_recv (from_waker w))

  unfoldable pub mpsc_poll_next : M (Mpsc.Channel Q W AQ) (Option (Poll (Option T)))
  unfolding poll_some Mpsc.poll_recv
  mpsc_poll_next = poll_some (Mpsc.poll_recv (from_waker w))
