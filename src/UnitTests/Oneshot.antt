-- ===== src/UnitTests/Oneshot.antt =====
-- src/channels/oneshot.rs: the module `tests`.
use postage_rs.Prelude.{ℕ, refl, Option, some, List, [], ◌∷◌, All}
use postage_rs.Context.{Context, empty, from_waker}
use postage_rs.Concurrent.Loop.{retry}
use postage_rs.Stream.{PollRecv}
use postage_rs.Sink.{PollSend}
use postage_rs.Sync.Notifier
use postage_rs.Sync.StateCell
use postage_rs.Sync.OneshotCell
use postage_rs.Sync.Transfer
use postage_rs.Sync.Transfer.{Transfer}
use postage_rs.Channels.Oneshot.{channel, poll_send, poll_recv, drop_sender, drop_receiver}
use postage_rs.UnitTests.{expect, call, woken, Driver, UnitTest, Passes, panic_context}
use postage_rs.Tests.Queues.{wakers}

data Call : Type 0 where
  send : Context ℕ → ℕ → Call
  recv : Context ℕ → Call
  drop_tx drop_rx : Call

-- `failed` is a poll that panics or does not return.
data Reply : Type 0 where
  sent : ℕ → PollSend ℕ → Reply
  received : PollRecv ℕ → Reply
  failed done : Reply

abbrev reply_recv : Option (Option (PollRecv ℕ)) → Reply
reply_recv (some (some r)) = received r
reply_recv other = failed

abbrev State : Type 0
State = Transfer (List ℕ) ℕ ℕ

abbrev step : Call → State → Reply × State
step (send cx v) s = let (r, s', es) = poll_send cx v [] s in (sent v r, s')
step (recv cx) s = let (r, s', es) = poll_recv cx [] s in (reply_recv r, s')
step drop_tx s = let (u, s', es) = drop_sender [] s in (done, s')
step drop_rx s = let (u, s', es) = drop_receiver [] s in (done, s')

abbrev driver : Driver Call Reply State
driver = record { step = step; wakes = λ s. s.notify_rx.woken }

abbrev Test : Type 0
Test = UnitTest Call Reply State

abbrev send_accepted : Test
send_accepted = record {
  start = channel;
  lines =
      expect (sent 1 PollSend.ready) (Call.send empty 1)
      ∷ expect (sent 2 (PollSend.rejected 2)) (Call.send empty 2)
      ∷ [];
}

abbrev send_recv : Test
send_recv = record {
  start = channel;
  lines =
      expect (sent 1 PollSend.ready) (Call.send empty 1)
      ∷ expect (received (PollRecv.ready 1)) (Call.recv empty)
      ∷ expect (received PollRecv.closed) (Call.recv empty)
      ∷ [];
}

abbrev sender_disconnect : Test
sender_disconnect = record {
  start = channel;
  lines = call Call.drop_tx ∷ expect (received PollRecv.closed) (Call.recv empty) ∷ [];
}

abbrev sender_disconnect_after_poll : Test
sender_disconnect_after_poll = record {
  start = channel;
  lines =
      expect (received PollRecv.pending) (Call.recv empty)
      ∷ call Call.drop_tx
      ∷ expect (received PollRecv.closed) (Call.recv empty)
      ∷ [];
}

abbrev send_then_disconnect : Test
send_then_disconnect = record {
  start = channel;
  lines =
      expect (sent 1 PollSend.ready) (Call.send empty 1)
      ∷ call Call.drop_tx
      ∷ expect (received (PollRecv.ready 1)) (Call.recv empty)
      ∷ expect (received PollRecv.closed) (Call.recv empty)
      ∷ [];
}

abbrev receiver_disconnect : Test
receiver_disconnect = record {
  start = channel;
  lines = call Call.drop_rx ∷ expect (sent 1 (PollSend.rejected 1)) (Call.send empty 1) ∷ [];
}

abbrev wake_receiver : Test
wake_receiver = record {
  start = channel;
  lines =
      expect (received PollRecv.pending) (Call.recv (from_waker 1))
      ∷ woken 0 1
      ∷ expect (sent 1 PollSend.ready) (Call.send panic_context 1)
      ∷ woken 1 1
      ∷ expect (sent 2 (PollSend.rejected 2)) (Call.send panic_context 2)
      ∷ woken 1 1
      ∷ [];
}

abbrev sender_disconnect_wakes_receiver : Test
sender_disconnect_wakes_receiver = record {
  start = channel;
  lines =
      expect (received PollRecv.pending) (Call.recv (from_waker 1))
      ∷ woken 0 1
      ∷ call Call.drop_tx
      ∷ woken 1 1
      ∷ expect (received PollRecv.closed) (Call.recv (from_waker 1))
      ∷ [];
}

-- The tests of the module.
abbrev tests : List Test
tests =
    send_accepted ∷ send_recv ∷ sender_disconnect ∷ sender_disconnect_after_poll
    ∷ send_then_disconnect ∷ receiver_disconnect ∷ wake_receiver ∷ sender_disconnect_wakes_receiver
    ∷ []

tests-Passes : All (Passes driver) tests
unfolding channel poll_send poll_recv drop_sender drop_receiver retry Transfer.new Transfer.send
    Transfer.recv Transfer.recv_round Transfer.recv_tried Transfer.recv_without
    Transfer.last_received Transfer.sender_disconnect Transfer.receiver_disconnect OneshotCell.new
    OneshotCell.send OneshotCell.try_recv OneshotCell.failed OneshotCell.received
    OneshotCell.to_error StateCell.new StateCell.compare_store StateCell.compare_take
    StateCell.take_internal StateCell.take_exchanged Notifier.new Notifier.notify Notifier.subscribe
    Notifier.guard Notifier.is_expired
tests-Passes = (refl, (refl, (refl, (refl, (refl, (refl, (refl, (refl, tt))))))))
