-- ===== src/UnitTests/Watch.antt =====
-- src/channels/watch.rs: the module `tests`.
use postage_rs.Prelude.{
  ℕ, refl, Option, none, some, List, [], ◌∷◌, All, ◌++◌, get_elem?, set, remove_at,
}
use postage_rs.Context.{Context, empty, from_waker}
use postage_rs.Concurrent.Loop.{retry}
use postage_rs.Stream.{PollRecv}
use postage_rs.Sink.{PollSend}
use postage_rs.Sync.RefCount
use postage_rs.Sync.Notifier
use postage_rs.Sync.SenderShared
use postage_rs.Sync.ReceiverShared
use postage_rs.Channels.Watch
use postage_rs.Channels.Watch.{
  Channel, channel, poll_send, poll_recv, clone_receiver, drop_sender, drop_receiver,
}
use postage_rs.UnitTests.{expect, call, woken, Driver, UnitTest, Passes, panic_context}
use postage_rs.Tests.Queues.{wakers}

-- `borrow_mut v` is a borrow that assigns `v`.
data Call : Type 0 where
  send : Context ℕ → ℕ → Call
  recv : Context ℕ → ℕ → Call
  borrow_mut : ℕ → Call
  clone_rx drop_rx : ℕ → Call
  borrow subscribe drop_tx : Call

-- `failed` is a poll that does not return, or a call on a receiver that is not there.
data Reply : Type 0 where
  sent : PollSend ℕ → Reply
  received : PollRecv ℕ → Reply
  borrowed : ℕ → Reply
  failed done : Reply

-- The channel, and the generations of its receivers.
record System : Type 0 where
  channel : Channel (List ℕ) ℕ ℕ
  receivers : List ℕ

abbrev recv_reply : ℕ → Option (PollRecv ℕ × ℕ) → Channel (List ℕ) ℕ ℕ → System → Reply × System
recv_reply i (some (r, own)) s y =
    (received r, record { channel = s; receivers = set y.receivers i own })
recv_reply i none s y = (failed, record y { channel = s })

abbrev recv_on : Context ℕ → ℕ → Option ℕ → System → Reply × System
recv_on cx i (some own) y = let (r, s, es) = poll_recv cx own [] y.channel in recv_reply i r s y
recv_on cx i none y = (failed, y)

abbrev step : Call → System → Reply × System
step (Call.send cx v) y =
    let (r, s, es) = poll_send cx v [] y.channel in (sent r, record y { channel = s })
step (Call.recv cx i) y = recv_on cx i (get_elem? y.receivers i) y
step (Call.borrow_mut v) y =
    let (u, s, es) = Watch.borrow_mut (λ x. v) [] y.channel in (done, record y { channel = s })
step (Call.clone_rx i) y =
    let (own, s, es) = clone_receiver [] y.channel in
    (done, record { channel = s; receivers = y.receivers ++ (own ∷ []) })
step (Call.drop_rx i) y =
    let (u, s, es) = drop_receiver [] y.channel in
    (done, record { channel = s; receivers = remove_at y.receivers i })
step Call.borrow y =
    let (v, s, es) = Watch.borrow [] y.channel in (borrowed v, record y { channel = s })
step Call.subscribe y =
    let (own, s, es) = Watch.subscribe [] y.channel in
    (done, record { channel = s; receivers = y.receivers ++ (own ∷ []) })
step Call.drop_tx y = let (u, s, es) = drop_sender [] y.channel in (done, record y { channel = s })

-- `State::default()` is 0.
abbrev started : System
started = let (s, own) = channel 0 in record { channel = s; receivers = own ∷ [] }

abbrev driver : Driver Call Reply System
driver = record {
  step = step;
  wakes = λ y. y.channel.sender_notify.woken ++ y.channel.receiver_notify.woken;
}

abbrev Test : Type 0
Test = UnitTest Call Reply System

abbrev send_accepted : Test
send_accepted = record {
  start = started;
  lines =
      expect (sent PollSend.ready) (Call.send empty 1)
      ∷ expect (sent PollSend.ready) (Call.send empty 2)
      ∷ [];
}

abbrev send_recv : Test
send_recv = record {
  start = started;
  lines =
      expect (sent PollSend.ready) (Call.send empty 1)
      ∷ expect (received (PollRecv.ready 1)) (Call.recv empty 0)
      ∷ expect (received PollRecv.pending) (Call.recv empty 0)
      ∷ [];
}

abbrev recv_default : Test
recv_default = record {
  start = started;
  lines =
      expect (received (PollRecv.ready 0)) (Call.recv panic_context 0)
      ∷ expect (received PollRecv.pending) (Call.recv empty 0)
      ∷ [];
}

abbrev borrow_default : Test
borrow_default = record { start = started; lines = expect (borrowed 0) Call.borrow ∷ [] }

abbrev borrow_sent : Test
borrow_sent = record {
  start = started;
  lines =
      expect (sent PollSend.ready) (Call.send panic_context 1)
      ∷ expect (borrowed 1) Call.borrow
      ∷ [];
}

abbrev borrow_mut_notifies : Test
borrow_mut_notifies = record {
  start = started;
  lines =
      expect (received (PollRecv.ready 0)) (Call.recv empty 0)
      ∷ expect (received PollRecv.pending) (Call.recv (from_waker 1) 0)
      ∷ call (Call.borrow_mut 1)
      ∷ woken 1 1
      ∷ expect (borrowed 1) Call.borrow
      ∷ expect (received (PollRecv.ready 1)) (Call.recv empty 0)
      ∷ [];
}

abbrev sender_disconnect : Test
sender_disconnect = record {
  start = started;
  lines =
      call (Call.clone_rx 0)
      ∷ expect (sent PollSend.ready) (Call.send empty 1)
      ∷ call Call.drop_tx
      ∷ expect (received (PollRecv.ready 1)) (Call.recv empty 0)
      ∷ expect (received PollRecv.closed) (Call.recv empty 0)
      ∷ expect (received (PollRecv.ready 1)) (Call.recv empty 1)
      ∷ expect (received PollRecv.closed) (Call.recv empty 1)
      ∷ [];
}

abbrev receiver_disconnect : Test
receiver_disconnect = record {
  start = started;
  lines = call (Call.drop_rx 0) ∷ expect (sent (PollSend.rejected 1)) (Call.send empty 1) ∷ [];
}

abbrev send_then_receiver_disconnect : Test
send_then_receiver_disconnect = record {
  start = started;
  lines =
      expect (sent PollSend.ready) (Call.send empty 1)
      ∷ call (Call.drop_rx 0)
      ∷ expect (sent (PollSend.rejected 2)) (Call.send empty 2)
      ∷ [];
}

abbrev wake_receiver : Test
wake_receiver = record {
  start = started;
  lines =
      expect (received (PollRecv.ready 0)) (Call.recv panic_context 0)
      ∷ expect (received PollRecv.pending) (Call.recv (from_waker 1) 0)
      ∷ woken 0 1
      ∷ expect (sent PollSend.ready) (Call.send panic_context 1)
      ∷ woken 1 1
      ∷ expect (sent PollSend.ready) (Call.send panic_context 2)
      ∷ woken 1 1
      ∷ [];
}

abbrev wake_receiver_on_disconnect : Test
wake_receiver_on_disconnect = record {
  start = started;
  lines =
      expect (received (PollRecv.ready 0)) (Call.recv panic_context 0)
      ∷ expect (received PollRecv.pending) (Call.recv (from_waker 1) 0)
      ∷ woken 0 1
      ∷ call Call.drop_tx
      ∷ woken 1 1
      ∷ [];
}

abbrev subscribe_default : Test
subscribe_default = record {
  start = started;
  lines =
      call Call.subscribe
      ∷ expect (received (PollRecv.ready 0)) (Call.recv panic_context 1)
      ∷ expect (received PollRecv.pending) (Call.recv empty 1)
      ∷ [];
}

abbrev subscribe_both_receive_value : Test
subscribe_both_receive_value = record {
  start = started;
  lines =
      call Call.subscribe
      ∷ expect (received (PollRecv.ready 0)) (Call.recv panic_context 0)
      ∷ expect (received PollRecv.pending) (Call.recv empty 0)
      ∷ expect (received (PollRecv.ready 0)) (Call.recv panic_context 1)
      ∷ expect (received PollRecv.pending) (Call.recv empty 1)
      ∷ [];
}

-- The tests of the module.
abbrev tests : List Test
tests =
    send_accepted ∷ send_recv ∷ recv_default ∷ borrow_default ∷ borrow_sent ∷ borrow_mut_notifies
    ∷ sender_disconnect ∷ receiver_disconnect ∷ send_then_receiver_disconnect ∷ wake_receiver
    ∷ wake_receiver_on_disconnect ∷ subscribe_default ∷ subscribe_both_receive_value ∷ []

tests-Passes : All (Passes driver) tests
unfolding channel poll_send poll_recv Watch.borrow Watch.borrow_mut clone_receiver Watch.subscribe
    Watch.recv_wait drop_sender drop_receiver retry RefCount.increment RefCount.decrement
    SenderShared.is_closed SenderShared.notify_receivers SenderShared.clone
    SenderShared.clone_receiver SenderShared.drop ReceiverShared.is_closed
    ReceiverShared.subscribe_send ReceiverShared.clone ReceiverShared.drop Notifier.notify
    Notifier.subscribe
tests-Passes = (
  refl,
  (
    refl,
    (refl, (refl, (refl, (refl, (refl, (refl, (refl, (refl, (refl, (refl, (refl, tt))))))))))),
  ),
)
