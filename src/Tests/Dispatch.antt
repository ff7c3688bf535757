-- ===== src/Tests/Dispatch.antt =====
-- The dispatch channel on concrete data: a channel for two values, with one handle of each half.
use postage_rs.Prelude.{ℕ, ◌≡◌, refl, some, List, [], ◌∷◌, map, arith, ap}
use postage_rs.Context.{from_waker, empty}
use postage_rs.Concurrent.{Env}
use postage_rs.Concurrent.Loop.{retry}
use postage_rs.Stream.{PollRecv}
use postage_rs.Sink.{PollSend}
use postage_rs.Sync.Notifier.Waiting.{Cause}
use postage_rs.Sync.SenderShared.{notify_receivers}
use postage_rs.Sync.ReceiverShared.{notify_senders}
use postage_rs.Channels.BoundedQueue.Run
use postage_rs.Channels.BoundedQueue.Run.{accepted, delivered}
use postage_rs.Channels.QueueChannel
use postage_rs.Channels.Dispatch.{Channel, poll_send, poll_recv, clone_sender, send_wait, recv_wait}
use postage_rs.Channels.Dispatch.Run.{Call, to_op, dispatch, dispatch_refines}
use postage_rs.Channels.Dispatch.Wakeup.{IsReady, receiving, dispatch_poll_recv_misses_nothing}
use postage_rs.Channels.Dispatch.Room.{sending, dispatch_poll_send_misses_no_room}
use postage_rs.Concurrent.Fair.{clear, Served}
use postage_rs.Tests.Schedules.{afterwards, afterwards-Fair}
use postage_rs.Sync.Alone.{notify_receivers-alone, notify_senders-alone}
use postage_rs.Channels.Dispatch.Race.{send_and_drop, IsLastChance, dispatch_poll_recv_ends_early}
use postage_rs.Tests.Queues.{Bounded, push_bounded, pop_bounded, wakers, bounded, idle}

abbrev channel_of : List ℕ → Channel (List ℕ) ℕ Bounded
channel_of vs = record {
  sender_notify = idle;
  sender_count = record { count = 1 };
  receiver_notify = idle;
  receiver_count = record { count = 1 };
  extension = record { queue = record { items = vs; room = 2 } };
}

-- Three values into the channel for two; then the receiver takes two, and the sender goes.
abbrev calls : List (Call ℕ ℕ)
calls =
    Call.send (from_waker 7) 1
    ∷ Call.send (from_waker 7) 2
    ∷ Call.send (from_waker 7) 3
    ∷ Call.recv (from_waker 8)
    ∷ Call.recv (from_waker 8)
    ∷ Call.recv (from_waker 8)
    ∷ Call.drop_tx
    ∷ Call.recv (from_waker 8)
    ∷ []

-- Another thread clones a sender before the first access.
abbrev cloning : Env (Channel (List ℕ) ℕ Bounded)
cloning = (λ s. (clone_sender [] s).1) ∷ []

dispatch_refines_example :
    let r = QueueChannel.run dispatch calls (channel_of []) in
    let b = Run.run (map to_op calls) (dispatch.view (channel_of [])) in
    (r.0 ≡ b.0) × (dispatch.view r.1 ≡ b.1)
dispatch_refines_example = dispatch_refines calls (channel_of [])

-- The channel with a task that waits, a receiver or a sender.
abbrev receiver_waits : Channel (List ℕ) ℕ Bounded
receiver_waits = record (channel_of []) {
  receiver_notify = record { generation = 0; wakers = 8 ∷ []; woken = [] };
}

abbrev sender_waits : Channel (List ℕ) ℕ Bounded
sender_waits = record (channel_of (1 ∷ 2 ∷ [])) {
  sender_notify = record { generation = 0; wakers = 7 ∷ []; woken = [] };
}

-- A sender adds 5 to the queue, and notifies the receivers afterwards.
abbrev push_five : Channel (List ℕ) ℕ Bounded → Channel (List ℕ) ℕ Bounded
push_five s = record s { extension = record { queue = (push_bounded 5 s.extension.queue).1 } }

abbrev send_later : Env (Channel (List ℕ) ℕ Bounded)
send_later = afterwards push_five (λ s. (notify_receivers [] s).1)

recv_pending :
    (poll_recv {T = ℕ} (from_waker 8) send_later (channel_of [])).0 ≡ some PollRecv.pending
unfolding poll_recv retry recv_wait
recv_pending = refl

dispatch_poll_recv_misses_nothing_example :
    let r = poll_recv {T = ℕ} (from_waker 8) send_later (channel_of []) in
    Served (receiving ℕ 8 Cause.value) r.2 r.1
dispatch_poll_recv_misses_nothing_example =
    dispatch_poll_recv_misses_nothing ℕ 8 Cause.value clear send_later (channel_of [])
      (afterwards-Fair (λ s. s.receiver_notify) (IsReady ℕ 8 Cause.value) 8 push_five _ (λ s. refl)
        (λ s. ap (λ r. r.1.receiver_notify) (notify_receivers-alone s)))
      (omega arith) recv_pending

-- A receiver takes a value from the queue, and notifies the senders afterwards.
abbrev pop_one : Channel (List ℕ) ℕ Bounded → Channel (List ℕ) ℕ Bounded
pop_one s = record s { extension = record { queue = (pop_bounded s.extension.queue).1 } }

abbrev recv_later : Env (Channel (List ℕ) ℕ Bounded)
recv_later = afterwards pop_one (λ s. (notify_senders [] s).1)

send_pending :
    (poll_send {T = ℕ} (from_waker 7) 3 recv_later (channel_of (1 ∷ 2 ∷ []))).0
    ≡ some (PollSend.pending 3)
unfolding poll_send retry send_wait
send_pending = refl

dispatch_poll_send_misses_no_room_example :
    let r = poll_send {T = ℕ} (from_waker 7) 3 recv_later (channel_of (1 ∷ 2 ∷ [])) in
    Served (sending ℕ 7) r.2 r.1
dispatch_poll_send_misses_no_room_example =
    dispatch_poll_send_misses_no_room ℕ 7 clear 3 3 recv_later (channel_of (1 ∷ 2 ∷ []))
      (afterwards-Fair (λ s. s.sender_notify) _ 7 pop_one _ (λ s. refl)
        (λ s. ap (λ r. r.1.sender_notify) (notify_senders-alone s)))
      (omega arith) send_pending

last_chance : IsLastChance {T = ℕ} 5 (channel_of [])
last_chance = record {
  nothing = refl;
  room = omega arith;
  one_sender = refl;
  receiver = omega arith;
}

dispatch_poll_recv_ends_early_example :
    let r =
      poll_recv {T = ℕ}
        (from_waker 8)
        ((λ x. x) ∷ (λ x. x) ∷ send_and_drop {T = ℕ} 5 (from_waker 7) ∷ [])
        (channel_of []) in
    (r.0 ≡ some PollRecv.closed)
    × (r.1.extension.queue.items ≡ 5 ∷ [])
    × ((poll_recv {T = ℕ} (from_waker 8) [] r.1).0 ≡ some (PollRecv.ready 5))
dispatch_poll_recv_ends_early_example =
    dispatch_poll_recv_ends_early 5 (from_waker 8) (from_waker 7) (channel_of []) last_chance

send_ready : (poll_send {T = ℕ} empty 5 [] receiver_waits).0 ≡ some PollSend.ready
unfolding poll_send retry send_wait notify_receivers
send_ready = refl

recv_ready : (poll_recv {T = ℕ} empty [] sender_waits).0 ≡ some (PollRecv.ready 1)
unfolding poll_recv retry recv_wait notify_senders
recv_ready = refl
