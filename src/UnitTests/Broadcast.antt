-- ===== src/UnitTests/Broadcast.antt =====
-- src/channels/broadcast.rs: the module `tests`.
use postage_rs.Prelude.{ℕ, zero, suc, refl, List, [], ◌∷◌, All, ◌++◌}
use postage_rs.Context.{empty, from_waker}
use postage_rs.Concurrent.Loop.{retry}
use postage_rs.Stream.{PollRecv}
use postage_rs.Sink.{PollSend}
use postage_rs.Sync.RefCount
use postage_rs.Sync.Notifier
use postage_rs.Sync.SenderShared
use postage_rs.Sync.ReceiverShared
use postage_rs.Sync.MpmcCircularBuffer.{MpmcCircularBuffer}
use postage_rs.Sync.MpmcCircularBuffer
use postage_rs.Sync.MpmcCircularBuffer.Slot
use postage_rs.Channels.Broadcast.{
  poll_send, poll_recv, subscribe, clone_receiver, drop_receiver, clone_sender, drop_sender,
}
use postage_rs.Channels.Broadcast.Log.{Call, Reply, sent, received}
use postage_rs.Channels.Broadcast.Run.{System, step}
use postage_rs.Channels.Broadcast.Refine.{fresh}
use postage_rs.UnitTests.{expect, call, woken, Driver, UnitTest, Passes, panic_context}
use postage_rs.Tests.Queues.{wakers}

abbrev Buffer : Type 0
Buffer = MpmcCircularBuffer (List ℕ) ℕ ℕ

abbrev slot_wakes : Buffer → ℕ → List ℕ
slot_wakes b zero = []
slot_wakes b (suc n) = (b.slots n).on_write.woken ++ (b.slots n).on_release.woken ++ slot_wakes b n

abbrev wakes : System (List ℕ) ℕ ℕ → List ℕ
wakes y =
    y.channel.sender_notify.woken
    ++ y.channel.receiver_notify.woken
    ++ slot_wakes y.channel.extension y.channel.extension.len

-- The receivers are numbered in the order of their creation, without those dropped. The clones of
-- the sender are not told apart.
abbrev driver : Driver (Call ℕ ℕ) (Reply ℕ) (System (List ℕ) ℕ ℕ)
driver = record { step = step; wakes = wakes }

abbrev Test : Type 0
Test = UnitTest (Call ℕ ℕ) (Reply ℕ) (System (List ℕ) ℕ ℕ)

abbrev send_accepted : Test
send_accepted = record {
  start = fresh 2;
  lines = expect (sent 1 PollSend.ready) (Call.send panic_context 1) ∷ [];
}

abbrev full_send_blocks : Test
full_send_blocks = record {
  start = fresh 2;
  lines =
      expect (sent 1 PollSend.ready) (Call.send panic_context 1)
      ∷ expect (sent 2 PollSend.ready) (Call.send panic_context 2)
      ∷ expect (sent 3 (PollSend.pending 3)) (Call.send empty 3)
      ∷ [];
}

abbrev empty_send_recv : Test
empty_send_recv = record {
  start = fresh 0;
  lines =
      expect (sent 1 PollSend.ready) (Call.send empty 1)
      ∷ expect (received 0 (PollRecv.ready 1)) (Call.recv empty 0)
      ∷ [];
}

abbrev send_recv : Test
send_recv = record {
  start = fresh 2;
  lines =
      expect (sent 1 PollSend.ready) (Call.send empty 1)
      ∷ expect (received 0 (PollRecv.ready 1)) (Call.recv empty 0)
      ∷ [];
}

abbrev sender_subscribe_same_read : Test
sender_subscribe_same_read = record {
  start = fresh 2;
  lines =
      expect (sent 1 PollSend.ready) (Call.send empty 1)
      ∷ expect (received 0 (PollRecv.ready 1)) (Call.recv empty 0)
      ∷ call Call.subscribe
      ∷ expect (received 1 PollRecv.pending) (Call.recv empty 1)
      ∷ expect (sent 2 PollSend.ready) (Call.send empty 2)
      ∷ expect (received 1 (PollRecv.ready 2)) (Call.recv empty 1)
      ∷ [];
}

abbrev sender_subscribe_different_read : Test
sender_subscribe_different_read = record {
  start = fresh 2;
  lines =
      expect (sent 1 PollSend.ready) (Call.send empty 1)
      ∷ call Call.subscribe
      ∷ expect (received 1 PollRecv.pending) (Call.recv empty 1)
      ∷ expect (sent 2 PollSend.ready) (Call.send empty 2)
      ∷ expect (received 1 (PollRecv.ready 2)) (Call.recv empty 1)
      ∷ [];
}

abbrev two_senders_recv : Test
two_senders_recv = record {
  start = fresh 2;
  lines =
      call Call.clone_tx
      ∷ expect (sent 1 PollSend.ready) (Call.send panic_context 1)
      ∷ expect (sent 2 PollSend.ready) (Call.send panic_context 2)
      ∷ expect (sent 3 (PollSend.pending 3)) (Call.send empty 3)
      ∷ expect (sent 3 (PollSend.pending 3)) (Call.send empty 3)
      ∷ expect (received 0 (PollRecv.ready 1)) (Call.recv panic_context 0)
      ∷ expect (received 0 (PollRecv.ready 2)) (Call.recv panic_context 0)
      ∷ expect (received 0 PollRecv.pending) (Call.recv empty 0)
      ∷ [];
}

abbrev two_receivers : Test
two_receivers = record {
  start = fresh 2;
  lines =
      call (Call.clone_rx 0)
      ∷ expect (sent 1 PollSend.ready) (Call.send panic_context 1)
      ∷ expect (sent 2 PollSend.ready) (Call.send panic_context 2)
      ∷ expect (sent 3 (PollSend.pending 3)) (Call.send empty 3)
      ∷ expect (received 0 (PollRecv.ready 1)) (Call.recv panic_context 0)
      ∷ expect (received 0 (PollRecv.ready 2)) (Call.recv panic_context 0)
      ∷ expect (received 0 PollRecv.pending) (Call.recv empty 0)
      ∷ expect (received 1 (PollRecv.ready 1)) (Call.recv panic_context 1)
      ∷ expect (received 1 (PollRecv.ready 2)) (Call.recv panic_context 1)
      ∷ expect (received 1 PollRecv.pending) (Call.recv empty 1)
      ∷ [];
}

abbrev sender_disconnect : Test
sender_disconnect = record {
  start = fresh 100;
  lines =
      call Call.clone_tx
      ∷ expect (sent 1 PollSend.ready) (Call.send panic_context 1)
      ∷ expect (sent 2 PollSend.ready) (Call.send panic_context 2)
      ∷ call Call.drop_tx
      ∷ call Call.drop_tx
      ∷ expect (received 0 (PollRecv.ready 1)) (Call.recv panic_context 0)
      ∷ expect (received 0 (PollRecv.ready 2)) (Call.recv panic_context 0)
      ∷ expect (received 0 PollRecv.closed) (Call.recv panic_context 0)
      ∷ [];
}

abbrev receiver_disconnect : Test
receiver_disconnect = record {
  start = fresh 100;
  lines =
      call (Call.clone_rx 0)
      ∷ expect (sent 1 PollSend.ready) (Call.send panic_context 1)
      ∷ call (Call.drop_rx 0)
      ∷ call (Call.drop_rx 0)
      ∷ expect (sent 2 (PollSend.rejected 2)) (Call.send panic_context 2)
      ∷ [];
}

abbrev receiver_reconnect : Test
receiver_reconnect = record {
  start = fresh 100;
  lines =
      expect (sent 1 PollSend.ready) (Call.send panic_context 1)
      ∷ call (Call.drop_rx 0)
      ∷ expect (sent 2 (PollSend.rejected 2)) (Call.send (from_waker 1) 2)
      ∷ call Call.subscribe
      ∷ woken 0 1
      ∷ [];
}

abbrev wake_sender : Test
wake_sender = record {
  start = fresh 2;
  lines =
      expect (sent 1 PollSend.ready) (Call.send panic_context 1)
      ∷ expect (sent 2 PollSend.ready) (Call.send panic_context 2)
      ∷ expect (sent 3 (PollSend.pending 3)) (Call.send (from_waker 1) 3)
      ∷ woken 0 1
      ∷ expect (received 0 (PollRecv.ready 1)) (Call.recv panic_context 0)
      ∷ expect (received 0 (PollRecv.ready 2)) (Call.recv panic_context 0)
      ∷ woken 1 1
      ∷ expect (received 0 PollRecv.pending) (Call.recv empty 0)
      ∷ woken 1 1
      ∷ [];
}

abbrev wake_receiver : Test
wake_receiver = record {
  start = fresh 100;
  lines =
      expect (received 0 PollRecv.pending) (Call.recv (from_waker 1) 0)
      ∷ woken 0 1
      ∷ expect (sent 1 PollSend.ready) (Call.send panic_context 1)
      ∷ woken 1 1
      ∷ expect (sent 2 PollSend.ready) (Call.send panic_context 2)
      ∷ woken 1 1
      ∷ [];
}

abbrev dropping_receiver_does_not_block : Test
dropping_receiver_does_not_block = record {
  start = fresh 2;
  lines =
      call (Call.clone_rx 0)
      ∷ expect (sent 1 PollSend.ready) (Call.send panic_context 1)
      ∷ expect (sent 2 PollSend.ready) (Call.send panic_context 2)
      ∷ call (Call.drop_rx 1)
      ∷ expect (sent 2 (PollSend.pending 2)) (Call.send empty 2)
      ∷ expect (received 0 (PollRecv.ready 1)) (Call.recv panic_context 0)
      ∷ expect (sent 4 PollSend.ready) (Call.send panic_context 4)
      ∷ [];
}

abbrev drop_receiver_frees_slot : Test
drop_receiver_frees_slot = record {
  start = fresh 2;
  lines =
      call (Call.clone_rx 0)
      ∷ expect (sent 1 PollSend.ready) (Call.send panic_context 1)
      ∷ expect (sent 2 PollSend.ready) (Call.send panic_context 2)
      ∷ expect (received 0 (PollRecv.ready 1)) (Call.recv panic_context 0)
      ∷ call (Call.drop_rx 1)
      ∷ expect (sent 3 PollSend.ready) (Call.send panic_context 3)
      ∷ [];
}

abbrev wake_sender_on_disconnect : Test
wake_sender_on_disconnect = record {
  start = fresh 2;
  lines =
      expect (sent 1 PollSend.ready) (Call.send (from_waker 1) 1)
      ∷ expect (sent 2 PollSend.ready) (Call.send (from_waker 1) 2)
      ∷ expect (sent 3 (PollSend.pending 3)) (Call.send (from_waker 1) 3)
      ∷ woken 0 1
      ∷ call (Call.drop_rx 0)
      ∷ woken 1 1
      ∷ [];
}

abbrev wake_receiver_on_disconnect : Test
wake_receiver_on_disconnect = record {
  start = fresh 100;
  lines =
      expect (received 0 PollRecv.pending) (Call.recv (from_waker 1) 0)
      ∷ woken 0 1
      ∷ call Call.drop_tx
      ∷ woken 1 1
      ∷ [];
}

abbrev reader_bounds_bug : Test
reader_bounds_bug = record {
  start = fresh 2;
  lines =
      expect (sent 1 PollSend.ready) (Call.send empty 1)
      ∷ expect (received 0 (PollRecv.ready 1)) (Call.recv empty 0)
      ∷ expect (sent 2 PollSend.ready) (Call.send empty 2)
      ∷ expect (received 0 (PollRecv.ready 2)) (Call.recv empty 0)
      ∷ [];
}

abbrev drop_subscribe_bug : Test
drop_subscribe_bug = record {
  start = fresh 2;
  lines =
      call (Call.drop_rx 0)
      ∷ call Call.subscribe
      ∷ expect (sent 1 PollSend.ready) (Call.send empty 1)
      ∷ expect (received 0 (PollRecv.ready 1)) (Call.recv empty 0)
      ∷ [];
}

abbrev skips_intermediate_bug : Test
skips_intermediate_bug = record {
  start = fresh 2;
  lines =
      call (Call.drop_rx 0)
      ∷ call Call.subscribe
      ∷ expect (sent 1 PollSend.ready) (Call.send empty 1)
      ∷ expect (sent 2 PollSend.ready) (Call.send empty 2)
      ∷ expect (received 0 (PollRecv.ready 1)) (Call.recv empty 0)
      ∷ [];
}

abbrev drop_subscribe_ignores_queued : Test
drop_subscribe_ignores_queued = record {
  start = fresh 2;
  lines =
      expect (sent 1 PollSend.ready) (Call.send empty 1)
      ∷ call (Call.drop_rx 0)
      ∷ call Call.subscribe
      ∷ expect (sent 2 PollSend.ready) (Call.send empty 2)
      ∷ expect (received 0 (PollRecv.ready 2)) (Call.recv empty 0)
      ∷ [];
}

abbrev drop_preserves_read : Test
drop_preserves_read = record {
  start = fresh 2;
  lines =
      call (Call.clone_rx 0)
      ∷ expect (sent 1 PollSend.ready) (Call.send empty 1)
      ∷ expect (sent 2 PollSend.ready) (Call.send empty 2)
      ∷ expect (received 0 (PollRecv.ready 1)) (Call.recv empty 0)
      ∷ call (Call.clone_rx 0)
      ∷ call (Call.drop_rx 2)
      ∷ expect (sent 3 (PollSend.pending 3)) (Call.send empty 3)
      ∷ [];
}

-- The tests of the module.
abbrev tests : List Test
tests =
    send_accepted ∷ full_send_blocks ∷ empty_send_recv ∷ send_recv ∷ sender_subscribe_same_read
    ∷ sender_subscribe_different_read ∷ two_senders_recv ∷ two_receivers ∷ sender_disconnect
    ∷ receiver_disconnect ∷ receiver_reconnect ∷ wake_sender ∷ wake_receiver
    ∷ dropping_receiver_does_not_block ∷ drop_receiver_frees_slot ∷ wake_sender_on_disconnect
    ∷ wake_receiver_on_disconnect ∷ reader_bounds_bug ∷ drop_subscribe_bug ∷ skips_intermediate_bug
    ∷ drop_subscribe_ignores_queued ∷ drop_preserves_read ∷ []

tests-Passes : All (Passes driver) tests
unfolding fresh step poll_send poll_recv subscribe clone_receiver drop_receiver clone_sender
    drop_sender retry RefCount.increment RefCount.decrement SenderShared.is_closed
    SenderShared.notify_self SenderShared.clone SenderShared.drop SenderShared.clone_receiver
    ReceiverShared.is_closed ReceiverShared.subscribe_send ReceiverShared.clone ReceiverShared.drop
    Notifier.notify Notifier.subscribe Slot.try_write Slot.try_read MpmcCircularBuffer.new_reader
    MpmcCircularBuffer.clone_with MpmcCircularBuffer.drop_with Slot.mark_read_in_range
    Slot.decrement_read_in_range Slot.notify_readers_decreased
tests-Passes = (
  refl,
  (
    refl,
    (
      refl,
      (
        refl,
        (
          refl,
          (
            refl,
            (
              refl,
              (
                refl,
                (
                  refl,
                  (
                    refl,
                    (
                      refl,
                      (
                        refl,
                        (
                          refl,
                          (
                            refl,
                            (refl, (refl, (refl, (refl, (refl, (refl, (refl, (refl, tt)))))))),
                          ),
                        ),
                      ),
                    ),
                  ),
                ),
              ),
            ),
          ),
        ),
      ),
    ),
  ),
)
