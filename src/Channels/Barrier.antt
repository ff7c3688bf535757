-- ===== src/Channels/Barrier.antt =====
-- src/channels/barrier.rs: a signal that is sent by a call or by the drop of the sender.
pub mod Signal
use postage_rs.Prelude.{refl}
use postage_rs.Context.{Context}
use postage_rs.Queues.{SegQueue}
use postage_rs.Concurrent.{M, Ref, pure, ◌>>=◌, ◌>>◌}
use postage_rs.Concurrent.Atomic.{Result, ok, err, load, store}
use postage_rs.Stream.{PollRecv, Poll}
use postage_rs.Sink.{PollSend, SendError}
use postage_rs.Sync.Notifier
use postage_rs.Sync.Notifier.{Notifier}

pub data State : Type 0 where
  pending sent : State

-- `Shared`. The sender and the clones of the receiver are handles of it.
pub record Barrier (Q W : Type 0) : Type 0 where
  pub state : State
  pub notify_rx : Notifier Q W

module _ {Q W : Type 0} where
  abbrev pub state_field : Ref (Barrier Q W) State
  state_field = record {
    get = λ b. b.state;
    put = λ x b. record b { state = x };
    get-put = λ x b. refl;
    put-get = λ b. refl;
    put-put = λ x y b. refl;
  }

  abbrev pub notify_rx_field : Ref (Barrier Q W) (Notifier Q W)
  notify_rx_field = record {
    get = λ b. b.notify_rx;
    put = λ x b. record b { notify_rx = x };
    get-put = λ x b. refl;
    put-get = λ b. refl;
    put-put = λ x y b. refl;
  }

-- What is made of the second load.
unfoldable pub received : State → PollRecv (Unit {0})
received sent = PollRecv.ready tt
received pending = PollRecv.pending

module _ {Q W : Type 0} ⦃sq : SegQueue Q W⦄ where
  unfoldable pub channel : Barrier Q W
  unfolding Notifier.new
  channel = record { state = pending; notify_rx = Notifier.new }

  unfoldable pub close : M (Barrier Q W) (Unit {0})
  close = do store state_field sent; Notifier.notify notify_rx_field

  unfoldable pub poll_send : Context W → M (Barrier Q W) (PollSend (Unit {0}))
  unfolding close
  poll_send cx = do
    state ← load state_field
    elim state [ pending ↦ close >> pure PollSend.ready | sent ↦ pure (PollSend.rejected tt) ]

  unfoldable pub drop_sender : M (Barrier Q W) (Unit {0})
  unfolding close
  drop_sender = close

  -- The arms of the match on the first load.
  unfoldable pub recv_loaded : Context W → State → M (Barrier Q W) (PollRecv (Unit {0}))
  unfolding received
  recv_loaded cx pending = do
    Notifier.subscribe notify_rx_field cx
    again ← load state_field
    pure (received again)
  recv_loaded cx sent = pure (PollRecv.ready tt)

  unfoldable pub poll_recv : Context W → M (Barrier Q W) (PollRecv (Unit {0}))
  unfolding recv_loaded
  poll_recv cx = do state ← load state_field; recv_loaded cx state

  -- The `futures::Sink` of the sender.
  unfoldable pub poll_ready :
      Context W → M (Barrier Q W) (Poll (Result (Unit {0}) (SendError (Unit {0}))))
  poll_ready cx = do
    state ← load state_field
    elim state [
      | pending ↦ pure (Poll.ready (ok tt))
      | sent ↦ pure (Poll.ready (err (record { value = tt })))
    ]

  unfoldable pub start_send : M (Barrier Q W) (Result (Unit {0}) (SendError (Unit {0})))
  unfolding close
  start_send = do
    state ← load state_field
    elim state [ pending ↦ close >> pure (ok tt) | sent ↦ pure (err (record { value = tt })) ]
