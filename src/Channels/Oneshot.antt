-- ===== src/Channels/Oneshot.antt =====
-- src/channels/oneshot.rs: a single value from one sender to one receiver.
pub mod Single
use postage_rs.Prelude.{Option}
use postage_rs.Context.{Context}
use postage_rs.Queues.{SegQueue}
use postage_rs.Concurrent.{M, pure, ◌>>=◌}
use postage_rs.Concurrent.Atomic.{Result, ok, err}
use postage_rs.Stream.{PollRecv, Poll}
use postage_rs.Sink.{PollSend, SendError}
use postage_rs.Sync.Transfer
use postage_rs.Sync.Transfer.{Transfer}

module _ {Q W T : Type 0} ⦃sq : SegQueue Q W⦄ where
  unfoldable pub channel : Transfer Q W T
  unfolding Transfer.new
  channel = Transfer.new

  unfoldable pub poll_send : Context W → T → M (Transfer Q W T) (PollSend T)
  unfolding Transfer.send
  poll_send cx value = do
    sent ← Transfer.send value
    elim sent [ ok _ ↦ pure PollSend.ready | err v ↦ pure (PollSend.rejected v) ]

  unfoldable pub poll_recv : Context W → M (Transfer Q W T) (Option (Option (PollRecv T)))
  unfolding Transfer.recv
  poll_recv cx = Transfer.recv cx

  unfoldable pub drop_sender : M (Transfer Q W T) (Unit {0})
  unfolding Transfer.sender_disconnect
  drop_sender = Transfer.sender_disconnect

  unfoldable pub drop_receiver : M (Transfer Q W T) (Unit {0})
  unfolding Transfer.receiver_disconnect
  drop_receiver = Transfer.receiver_disconnect

  -- The `futures::Sink` of the sender, which is always ready.
  unfoldable pub poll_ready :
      Context W → M (Transfer Q W T) (Poll (Result (Unit {0}) (SendError T)))
  poll_ready cx = pure (Poll.ready (ok tt))

  unfoldable pub start_send : T → M (Transfer Q W T) (Result (Unit {0}) (SendError T))
  unfolding Transfer.send
  start_send item = do
    sent ← Transfer.send item
    elim sent [ ok _ ↦ pure (ok tt) | err v ↦ pure (err (record { value = v })) ]
