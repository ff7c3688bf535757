-- ===== src/Tests/Broadcast.antt =====
-- The broadcast channel on concrete data: a buffer of two slots and one receiver.
use postage_rs.Prelude.{ℕ, ◌≡◌, ◌-◌, refl, some, List, [], ◌∷◌, ◌++◌, arith, get_elem?, take, Elem}
use postage_rs.Context.{empty, from_waker}
use postage_rs.Concurrent.Loop.{retry}
use postage_rs.Stream.{PollRecv}
use postage_rs.Sink.{PollSend}
use postage_rs.Sync.Notifier
use postage_rs.Sync.SenderShared
use postage_rs.Sync.ReceiverShared
use postage_rs.Sync.MpmcCircularBuffer.Slot
use postage_rs.Channels.Broadcast.{Channel, poll_send, poll_recv}
use postage_rs.Sync.MpmcCircularBuffer.Invariant.{IsValid}
use postage_rs.Channels.Broadcast.Log.{BroadcastLog, Call, sent, received, step_log, run_log}
use postage_rs.Channels.Broadcast.Run.{System, run}
use postage_rs.Channels.Broadcast.Shows.{positions}
use postage_rs.Channels.Broadcast.Refine.{
  fresh, fresh_log, fresh-Shows, broadcast_refines, broadcast_holds_log,
}
use postage_rs.Channels.Broadcast.Gets.{accepted, delivered_to}
use postage_rs.Channels.Broadcast.Order.{broadcast_in_order}
use postage_rs.Sync.MpmcCircularBuffer.Alone.{slot_of}
use postage_rs.Channels.Broadcast.Wakeup.{broadcast_send-wakes, broadcast_recv-wakes}
use postage_rs.Channels.Broadcast.Race.{send_and_drop, broadcast_poll_recv_ends_early}
use postage_rs.Tests.Queues.{wakers}

abbrev some_calls : List (Call ℕ ℕ)
some_calls =
    Call.send (from_waker 7) 1
    ∷ Call.subscribe
    ∷ Call.send (from_waker 7) 2
    ∷ Call.send (from_waker 7) 3
    ∷ Call.recv (from_waker 8) 0
    ∷ Call.clone_rx 0
    ∷ Call.recv (from_waker 8) 1
    ∷ Call.drop_rx 2
    ∷ Call.recv (from_waker 8) 0
    ∷ Call.send (from_waker 7) 3
    ∷ Call.drop_tx
    ∷ Call.recv (from_waker 8) 1
    ∷ Call.recv (from_waker 8) 1
    ∷ []

abbrev started : System (List ℕ) ℕ ℕ
started = fresh 2

-- The third value waits until the receiver has read the first.
two_slots :
    (run
      (Call.send (from_waker 7) 1
        ∷ Call.send (from_waker 7) 2
        ∷ Call.send (from_waker 7) 3
        ∷ Call.recv (from_waker 8) 0
        ∷ Call.send (from_waker 7) 3
        ∷ Call.recv (from_waker 8) 0
        ∷ Call.recv (from_waker 8) 0
        ∷ Call.recv (from_waker 8) 0
        ∷ [])
      started).0
    ≡ sent 1 PollSend.ready
      ∷ sent 2 PollSend.ready
      ∷ sent 3 (PollSend.pending 3)
      ∷ received 0 (PollRecv.ready 1)
      ∷ sent 3 PollSend.ready
      ∷ received 0 (PollRecv.ready 2)
      ∷ received 0 (PollRecv.ready 3)
      ∷ received 0 PollRecv.pending
      ∷ []
unfolding run fresh poll_send poll_recv retry SenderShared.is_closed Slot.try_write Notifier.notify
    Notifier.subscribe Slot.try_read ReceiverShared.is_closed ReceiverShared.subscribe_send
two_slots = refl

broadcast_refines_example : (run some_calls started).0 ≡ (run_log some_calls (fresh_log 2)).0
broadcast_refines_example = broadcast_refines (List ℕ) 2 some_calls (omega arith)

broadcast_holds_log_example :
    let y = (run some_calls started).1 in
    let l = (run_log some_calls (fresh_log 2)).1 in
    IsValid y.channel.extension l.items l.positions × (positions y.readers ≡ l.positions)
broadcast_holds_log_example = broadcast_holds_log (List ℕ) 2 some_calls (omega arith)

abbrev calls_in_order : List (Call ℕ ℕ)
calls_in_order =
    Call.send (from_waker 7) 1
    ∷ Call.recv (from_waker 8) 0
    ∷ Call.send (from_waker 7) 2
    ∷ Call.recv (from_waker 8) 0
    ∷ []

broadcast_in_order_example :
    let r = run calls_in_order started in
    let all = [] ++ accepted r.0 in
    (q : ℕ) × (get_elem? (positions r.1.readers) 0 ≡ some q)
    × (take (1 - 1) all ++ delivered_to 0 r.0 ≡ take (q - 1) all)
unfolding fresh_log
broadcast_in_order_example =
    broadcast_in_order calls_in_order 0 1 started (fresh_log 2) (fresh-Shows 2) (omega arith)
      (tt, (tt, (tt, (tt, tt)))) (unfold fresh in refl)

started-IsValid : IsValid started.channel.extension [] (1 ∷ [])
unfolding fresh_log
started-IsValid = (fresh-Shows 2).valid

broadcast_send-wakes_example :
    let a =
      poll_recv
        (from_waker 8)
        (record { index = started.channel.extension.head })
        []
        started.channel in
    let b = poll_send (from_waker 7) 5 [] a.1 in
    (b.0 ≡ some PollSend.ready)
    × Elem 8 (slot_of b.1.extension started.channel.extension.head).on_write.woken
unfolding fresh
broadcast_send-wakes_example =
    broadcast_send-wakes 8 (from_waker 7) 5 started.channel [] (1 ∷ []) started-IsValid
      (omega arith) refl

-- The channel when its buffer is full.
abbrev two_sends : List (Call ℕ ℕ)
two_sends = Call.send (from_waker 7) 1 ∷ Call.send (from_waker 7) 2 ∷ []

abbrev full : Channel (List ℕ) ℕ ℕ
full = (run two_sends started).1.channel

abbrev full_log : BroadcastLog ℕ
full_log = (run_log two_sends (fresh_log 2)).1

full-IsValid : IsValid full.extension full_log.items full_log.positions
full-IsValid = (broadcast_holds_log (List ℕ) 2 two_sends (omega arith)).0

broadcast_recv-wakes_example :
    let a = poll_send (from_waker 7) 3 [] full in
    let b = poll_recv (from_waker 8) (record { index = 1 }) [] a.1 in
    (a.0 ≡ some (PollSend.pending 3))
    × Elem 7 (slot_of b.1.extension full.extension.head).on_release.woken
unfolding run run_log step_log fresh fresh_log poll_send SenderShared.is_closed retry Slot.try_write
    Notifier.notify
broadcast_recv-wakes_example =
    broadcast_recv-wakes 7 (from_waker 8) 3 full full_log.items full_log.positions 0 1 full-IsValid
      (omega arith) refl refl refl

broadcast_poll_recv_ends_early_example :
    let s = started.channel in
    let r =
      poll_recv
        (from_waker 8)
        (record { index = s.extension.head })
        ((λ x. x) ∷ (λ x. x) ∷ (λ x. x) ∷ (λ x. x) ∷ send_and_drop (from_waker 7) 5 ∷ [])
        s in
    (r.0.0 ≡ some PollRecv.closed) × ((poll_recv empty r.0.1 [] r.1).0.0 ≡ some (PollRecv.ready 5))
unfolding fresh
broadcast_poll_recv_ends_early_example =
    broadcast_poll_recv_ends_early 8 (from_waker 7) 5 started.channel [] (1 ∷ []) 0
      (record {
        valid = started-IsValid;
        at_head = refl;
        room = refl;
        one_sender = refl;
        receiver = omega arith;
        bound = omega arith;
      })
      empty
