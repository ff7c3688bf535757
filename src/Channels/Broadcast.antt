-- ===== src/Channels/Broadcast.antt =====
-- src/channels/broadcast.rs: every receiver sees every value that is sent after its subscription.
pub mod Log
pub mod Shows
pub mod Sends
pub mod Receives
pub mod Refine
pub mod Order
pub mod Gets
pub mod Race
pub mod Wakeup
pub mod Counts
pub mod Handles
pub mod Run
pub mod Handlers
use postage_rs.Prelude.{ℕ, Option, none, some, if◌then◌else◌}
use postage_rs.Context.{Context}
use postage_rs.Queues.{SegQueue}
use postage_rs.Concurrent.{M, pure, ◌>>=◌, ◌>>◌}
use postage_rs.Stream.{PollRecv}
use postage_rs.Sink.{PollSend}
use postage_rs.Sync.Shared
use postage_rs.Sync.Shared.{Shared, extension_field}
use postage_rs.Sync.SenderShared
use postage_rs.Sync.ReceiverShared
use postage_rs.Sync.MpmcCircularBuffer
use postage_rs.Sync.MpmcCircularBuffer.{MpmcCircularBuffer, BufferReader, TryWrite}
use postage_rs.Sync.MpmcCircularBuffer.Slot.{TryRead}

-- The shared state of a channel. A `Sender` is a handle of it, a `Receiver` a handle with a reader.
abbrev pub Channel : Type 0 → Type 0 → Type 0 → Type 0
Channel Q W T = Shared Q W (MpmcCircularBuffer Q W T)

module _ {Q W T : Type 0} ⦃sq : SegQueue Q W⦄ where
  unfoldable pub channel : ℕ → Channel Q W T × BufferReader
  unfolding Shared.new MpmcCircularBuffer.new
  channel capacity =
      let (buffer, reader) = MpmcCircularBuffer.new capacity in (Shared.new buffer, reader)

  -- The match on what the buffer's write returns. `none` stands for a loop of the buffer that ran
  -- out of rounds.
  unfoldable pub send_tried : Option (Option (TryWrite T)) → M (Channel Q W T) (Option (PollSend T))
  send_tried (some (some (TryWrite.pending v))) = pure (some (PollSend.pending v))
  send_tried (some (some TryWrite.ready)) = pure (some PollSend.ready)
  send_tried (some none) = pure none
  send_tried none = pure none

  unfoldable pub poll_send : Context W → T → M (Channel Q W T) (Option (PollSend T))
  unfolding MpmcCircularBuffer.try_write send_tried
  poll_send cx value = do
    closed ← SenderShared.is_closed
    if closed
        then pure (some (PollSend.rejected value))
        else do tried ← MpmcCircularBuffer.try_write extension_field value cx; send_tried tried

  -- The new receiver's reader.
  unfoldable pub subscribe : M (Channel Q W T) BufferReader
  unfolding MpmcCircularBuffer.new_reader
  subscribe = do
    SenderShared.clone_receiver
    reader ← MpmcCircularBuffer.new_reader extension_field
    SenderShared.notify_self
    pure reader

  -- What a receiver does that has found no value.
  unfoldable pub recv_wait :
      Context W → BufferReader → M (Channel Q W T) (Option (PollRecv T) × BufferReader)
  recv_wait cx reader = do
    ReceiverShared.subscribe_send cx
    closed ← ReceiverShared.is_closed
    if closed then pure (some PollRecv.closed, reader) else pure (some PollRecv.pending, reader)

  -- The match on what the buffer's read returns, with the reader as it left it.
  unfoldable pub recv_tried :
      Context W
      → BufferReader
      → Option (Option (TryRead T))
      → M (Channel Q W T) (Option (PollRecv T) × BufferReader)
  unfolding recv_wait
  recv_tried cx reader (some (some (TryRead.ready v))) = pure (some (PollRecv.ready v), reader)
  recv_tried cx reader (some (some TryRead.pending)) = recv_wait cx reader
  recv_tried cx reader (some none) = pure (none, reader)
  recv_tried cx reader none = pure (none, reader)

  -- `none` stands for a panic, or for a loop of the buffer that ran out of rounds.
  unfoldable pub poll_recv :
      Context W → BufferReader → M (Channel Q W T) (Option (PollRecv T) × BufferReader)
  unfolding MpmcCircularBuffer.try_read recv_tried
  poll_recv cx reader = do
    (tried, reader') ← MpmcCircularBuffer.try_read extension_field cx reader
    recv_tried cx reader' tried

  unfoldable pub clone_receiver : BufferReader → M (Channel Q W T) BufferReader
  unfolding MpmcCircularBuffer.clone_with
  clone_receiver reader = do
    copied ← MpmcCircularBuffer.clone_with extension_field reader
    ReceiverShared.clone
    pure copied

  -- The reader goes first, and then the handle.
  unfoldable pub drop_receiver : BufferReader → M (Channel Q W T) (Unit {0})
  unfolding MpmcCircularBuffer.drop_with
  drop_receiver reader = do MpmcCircularBuffer.drop_with extension_field reader; ReceiverShared.drop

  unfoldable pub clone_sender : M (Channel Q W T) (Unit {0})
  clone_sender = SenderShared.clone

  unfoldable pub drop_sender : M (Channel Q W T) (Unit {0})
  drop_sender = SenderShared.drop
