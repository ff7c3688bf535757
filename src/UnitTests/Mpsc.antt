-- ===== src/UnitTests/Mpsc.antt =====
-- src/channels/mpsc.rs: the module `tests`.
use postage_rs.Prelude.{ℕ, refl, Option, none, some, List, [], ◌∷◌, All, ◌++◌}
use postage_rs.Context.{empty, from_waker}
use postage_rs.Concurrent.Loop.{retry}
use postage_rs.Stream.{PollRecv}
use postage_rs.Sink.{PollSend}
use postage_rs.Sync.RefCount
use postage_rs.Sync.Notifier
use postage_rs.Sync.SenderShared
use postage_rs.Sync.ReceiverShared
use postage_rs.Channels.BoundedQueue.Run.{Reply, sent, received, stuck}
use postage_rs.Channels.Mpsc
use postage_rs.Channels.Mpsc.{
  Channel, channel, poll_send, poll_recv, clone_sender, drop_sender, drop_receiver,
}
use postage_rs.Channels.Mpsc.Run
use postage_rs.Channels.Mpsc.Run.{Call}
use postage_rs.UnitTests.{expect, call, woken, Driver, UnitTest, Passes, panic_context}
use postage_rs.Tests.Queues.{Bounded, wakers, bounded}

-- `none` is a channel that could not be made.
abbrev step :
    Call ℕ ℕ → Option (Channel (List ℕ) ℕ Bounded) → Reply ℕ × Option (Channel (List ℕ) ℕ Bounded)
step c none = (stuck, none)
step c (some s) = let (r, s') = Run.step c s in (r, some s')

abbrev wakes : Option (Channel (List ℕ) ℕ Bounded) → List ℕ
wakes none = []
wakes (some s) = s.sender_notify.woken ++ s.receiver_notify.woken

-- The clones of a handle are not told apart.
abbrev driver : Driver (Call ℕ ℕ) (Reply ℕ) (Option (Channel (List ℕ) ℕ Bounded))
driver = record { step = step; wakes = wakes }

abbrev Test : Type 0
Test = UnitTest (Call ℕ ℕ) (Reply ℕ) (Option (Channel (List ℕ) ℕ Bounded))

abbrev send_accepted : Test
send_accepted = record {
  start = channel ℕ 2;
  lines = expect (sent 1 PollSend.ready) (Call.send panic_context 1) ∷ [];
}

abbrev send_blocks : Test
send_blocks = record {
  start = channel ℕ 2;
  lines =
      expect (sent 1 PollSend.ready) (Call.send panic_context 1)
      ∷ expect (sent 1 PollSend.ready) (Call.send panic_context 1)
      ∷ [];
}

abbrev send_recv : Test
send_recv = record {
  start = channel ℕ 2;
  lines =
      expect (sent 1 PollSend.ready) (Call.send panic_context 1)
      ∷ expect (sent 2 PollSend.ready) (Call.send panic_context 2)
      ∷ expect (sent 3 (PollSend.pending 3)) (Call.send empty 3)
      ∷ expect (received (PollRecv.ready 1)) (Call.recv panic_context)
      ∷ expect (received (PollRecv.ready 2)) (Call.recv panic_context)
      ∷ expect (received PollRecv.pending) (Call.recv empty)
      ∷ [];
}

abbrev sender_disconnect : Test
sender_disconnect = record {
  start = channel ℕ 100;
  lines =
      call Call.clone_tx
      ∷ expect (sent 1 PollSend.ready) (Call.send panic_context 1)
      ∷ expect (sent 2 PollSend.ready) (Call.send panic_context 2)
      ∷ call Call.drop_tx
      ∷ call Call.drop_tx
      ∷ expect (received (PollRecv.ready 1)) (Call.recv panic_context)
      ∷ expect (received (PollRecv.ready 2)) (Call.recv panic_context)
      ∷ expect (received PollRecv.closed) (Call.recv panic_context)
      ∷ [];
}

abbrev receiver_disconnect : Test
receiver_disconnect = record {
  start = channel ℕ 100;
  lines =
      call Call.clone_tx
      ∷ expect (sent 1 PollSend.ready) (Call.send panic_context 1)
      ∷ expect (sent 2 PollSend.ready) (Call.send panic_context 2)
      ∷ call Call.drop_rx
      ∷ expect (sent 3 (PollSend.rejected 3)) (Call.send panic_context 3)
      ∷ expect (sent 4 (PollSend.rejected 4)) (Call.send panic_context 4)
      ∷ [];
}

abbrev wake_sender : Test
wake_sender = record {
  start = channel ℕ 1;
  lines =
      expect (sent 1 PollSend.ready) (Call.send panic_context 1)
      ∷ expect (sent 2 (PollSend.pending 2)) (Call.send (from_waker 1) 2)
      ∷ woken 0 1
      ∷ expect (received (PollRecv.ready 1)) (Call.recv panic_context)
      ∷ woken 1 1
      ∷ expect (received PollRecv.pending) (Call.recv empty)
      ∷ woken 1 1
      ∷ [];
}

abbrev wake_receiver : Test
wake_receiver = record {
  start = channel ℕ 100;
  lines =
      expect (received PollRecv.pending) (Call.recv (from_waker 1))
      ∷ woken 0 1
      ∷ expect (sent 1 PollSend.ready) (Call.send panic_context 1)
      ∷ woken 1 1
      ∷ expect (sent 2 PollSend.ready) (Call.send panic_context 2)
      ∷ woken 1 1
      ∷ [];
}

abbrev wake_sender_on_disconnect : Test
wake_sender_on_disconnect = record {
  start = channel ℕ 1;
  lines =
      expect (sent 1 PollSend.ready) (Call.send (from_waker 1) 1)
      ∷ expect (sent 2 (PollSend.pending 2)) (Call.send (from_waker 1) 2)
      ∷ woken 0 1
      ∷ call Call.drop_rx
      ∷ woken 1 1
      ∷ [];
}

abbrev wake_receiver_on_disconnect : Test
wake_receiver_on_disconnect = record {
  start = channel ℕ 100;
  lines =
      expect (received PollRecv.pending) (Call.recv (from_waker 1))
      ∷ woken 0 1
      ∷ call Call.drop_tx
      ∷ woken 1 1
      ∷ [];
}

-- The tests of the module.
abbrev tests : List Test
tests =
    send_accepted ∷ send_blocks ∷ send_recv ∷ sender_disconnect ∷ receiver_disconnect ∷ wake_sender
    ∷ wake_receiver ∷ wake_sender_on_disconnect ∷ wake_receiver_on_disconnect ∷ []

tests-Passes : All (Passes driver) tests
unfolding channel Run.step poll_send poll_recv clone_sender drop_sender drop_receiver retry
    RefCount.increment RefCount.decrement SenderShared.notify_receivers SenderShared.is_closed
    SenderShared.clone SenderShared.drop ReceiverShared.notify_senders ReceiverShared.is_closed
    ReceiverShared.subscribe_send ReceiverShared.drop Notifier.notify Notifier.subscribe
    Mpsc.send_wait Mpsc.recv_wait
tests-Passes = (refl, (refl, (refl, (refl, (refl, (refl, (refl, (refl, (refl, tt)))))))))
