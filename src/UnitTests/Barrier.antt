-- ===== src/UnitTests/Barrier.antt =====
-- src/channels/barrier.rs: the module `tests`. To clone or drop a receiver does nothing to the
-- state, so it is no line of a test here.
use postage_rs.Prelude.{ℕ, refl, List, [], ◌∷◌, All}
use postage_rs.Context.{Context, empty, from_waker}
use postage_rs.Concurrent.Loop.{retry}
use postage_rs.Stream.{PollRecv}
use postage_rs.Sink.{PollSend}
use postage_rs.Sync.Notifier
use postage_rs.Channels.Barrier.{Barrier, channel, poll_send, poll_recv, drop_sender}
use postage_rs.UnitTests.{expect, call, woken, Driver, UnitTest, Passes, panic_context}
use postage_rs.Tests.Queues.{wakers}

data Call : Type 0 where
  send : Context ℕ → Call
  recv : Context ℕ → Call
  drop_tx : Call

data Reply : Type 0 where
  sent : PollSend (Unit {0}) → Reply
  received : PollRecv (Unit {0}) → Reply
  done : Reply

abbrev step : Call → Barrier (List ℕ) ℕ → Reply × Barrier (List ℕ) ℕ
step (send cx) s = let (r, s', es) = poll_send cx [] s in (sent r, s')
step (recv cx) s = let (r, s', es) = poll_recv cx [] s in (received r, s')
step drop_tx s = let (u, s', es) = drop_sender [] s in (done, s')

abbrev driver : Driver Call Reply (Barrier (List ℕ) ℕ)
driver = record { step = step; wakes = λ s. s.notify_rx.woken }

abbrev Test : Type 0
Test = UnitTest Call Reply (Barrier (List ℕ) ℕ)

abbrev send_accepted : Test
send_accepted = record {
  start = channel;
  lines =
      expect (sent PollSend.ready) (Call.send empty)
      ∷ expect (sent (PollSend.rejected tt)) (Call.send empty)
      ∷ [];
}

abbrev send_recv : Test
send_recv = record {
  start = channel;
  lines =
      expect (sent PollSend.ready) (Call.send empty)
      ∷ expect (received (PollRecv.ready tt)) (Call.recv empty)
      ∷ expect (received (PollRecv.ready tt)) (Call.recv empty)
      ∷ [];
}

abbrev sender_disconnect : Test
sender_disconnect = record {
  start = channel;
  lines = call Call.drop_tx ∷ expect (received (PollRecv.ready tt)) (Call.recv empty) ∷ [];
}

abbrev send_then_disconnect : Test
send_then_disconnect = record {
  start = channel;
  lines =
      expect (sent PollSend.ready) (Call.send empty)
      ∷ call Call.drop_tx
      ∷ expect (received (PollRecv.ready tt)) (Call.recv empty)
      ∷ expect (received (PollRecv.ready tt)) (Call.recv empty)
      ∷ [];
}

abbrev receiver_disconnect : Test
receiver_disconnect = record {
  start = channel;
  lines = expect (sent PollSend.ready) (Call.send empty) ∷ [];
}

abbrev receiver_clone : Test
receiver_clone = record {
  start = channel;
  lines =
      expect (sent PollSend.ready) (Call.send empty)
      ∷ expect (received (PollRecv.ready tt)) (Call.recv empty)
      ∷ expect (received (PollRecv.ready tt)) (Call.recv empty)
      ∷ [];
}

abbrev receiver_send_then_clone : Test
receiver_send_then_clone = record {
  start = channel;
  lines =
      expect (sent PollSend.ready) (Call.send empty)
      ∷ expect (received (PollRecv.ready tt)) (Call.recv empty)
      ∷ expect (received (PollRecv.ready tt)) (Call.recv empty)
      ∷ [];
}

abbrev wake_receiver : Test
wake_receiver = record {
  start = channel;
  lines =
      expect (received PollRecv.pending) (Call.recv (from_waker 1))
      ∷ woken 0 1
      ∷ expect (sent PollSend.ready) (Call.send panic_context)
      ∷ woken 1 1
      ∷ expect (sent (PollSend.rejected tt)) (Call.send panic_context)
      ∷ woken 1 1
      ∷ [];
}

abbrev wake_receiver_on_disconnect : Test
wake_receiver_on_disconnect = record {
  start = channel;
  lines =
      expect (received PollRecv.pending) (Call.recv (from_waker 1))
      ∷ woken 0 1
      ∷ call Call.drop_tx
      ∷ woken 1 1
      ∷ [];
}

-- The tests of the module.
abbrev tests : List Test
tests =
    send_accepted ∷ send_recv ∷ sender_disconnect ∷ send_then_disconnect ∷ receiver_disconnect
    ∷ receiver_clone ∷ receiver_send_then_clone ∷ wake_receiver ∷ wake_receiver_on_disconnect ∷ []

tests-Passes : All (Passes driver) tests
unfolding channel poll_send poll_recv drop_sender retry Notifier.notify Notifier.subscribe
tests-Passes = (refl, (refl, (refl, (refl, (refl, (refl, (refl, (refl, (refl, tt)))))))))
