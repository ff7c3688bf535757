-- ===== src/UnitTests/Futures.antt =====
-- src/futures.rs: the modules `sink_tests` and `stream_tests`.
use mathlib.Core.Option
use postage_rs.Prelude.{ℕ, refl, Option, none, some, List, [], ◌∷◌, ◌++◌, ◌≡◌}
use postage_rs.Context.{empty, from_waker}
use postage_rs.Concurrent.{M, pure, ◌>>=◌, ◌>>◌, alone}
use postage_rs.Concurrent.Atomic.{Result, ok, err}
use postage_rs.Concurrent.Loop.{retry}
use postage_rs.Stream.{Poll}
use postage_rs.Sink.{PollSend, SendError}
use postage_rs.Channels.Barrier
use postage_rs.Channels.Broadcast
use postage_rs.Channels.Dispatch
use postage_rs.Channels.Mpsc
use postage_rs.Channels.Oneshot
use postage_rs.Channels.Watch
use postage_rs.Sync.RefCount
use postage_rs.Sync.Notifier
use postage_rs.Sync.SenderShared
use postage_rs.Sync.ReceiverShared
use postage_rs.Sync.StateCell
use postage_rs.Sync.OneshotCell
use postage_rs.Sync.Transfer
use postage_rs.Sync.Transfer.{Transfer}
use postage_rs.Sync.MpmcCircularBuffer.Slot
use postage_rs.Futures.{
  barrier_poll_next, broadcast_poll_next, dispatch_poll_next, mpsc_poll_next, oneshot_poll_next,
  watch_poll_next,
}
use postage_rs.Tests.Queues.{Bounded, wakers, bounded}

-- The waker of `noop_context`.
abbrev noop : ℕ
noop = 1

-- What a call of a test returns. An outer `none` is a poll that does not return.
data Reply (T : Type 0) : Type 0 where
  readied : Option (Poll (Result (Unit {0}) (SendError T))) → Reply T
  started : Result (Unit {0}) (SendError T) → Reply T
  sent : Option (PollSend T) → Reply T
  next : Option (Poll (Option T)) → Reply T

abbrev ready_ok : {T : Type 0} → Reply T
ready_ok = readied (some (Poll.ready (ok tt)))

abbrev not_sent : {T : Type 0} → T → Reply T
not_sent v = started (err (record { value = v }))

-- The macros, over the operations of a channel; the receivers of `subscribe` are not in them.
module _ {S T : Type 0} (poll_ready : M S (Option (Poll (Result (Unit {0}) (SendError T)))))
    (start_send : T → M S (Result (Unit {0}) (SendError T))) (drop_receiver : M S (Unit {0}))
    (v : T) where
  abbrev test_sink : M S (List (Reply T))
  test_sink = do
    a ← poll_ready
    b ← start_send v
    c ← poll_ready
    drop_receiver
    d ← poll_ready
    e ← start_send v
    pure (readied a ∷ started b ∷ readied c ∷ readied d ∷ started e ∷ [])

  abbrev test_sink_ready : M S (List (Reply T))
  test_sink_ready = do
    a ← poll_ready
    b ← start_send v
    c ← poll_ready
    d ← start_send v
    pure (readied a ∷ started b ∷ readied c ∷ started d ∷ [])

  -- The test of the oneshot channel, which drops the receiver after the second `start_send`.
  abbrev test_sink_twice : M S (List (Reply T))
  test_sink_twice = do
    before ← test_sink_ready
    drop_receiver
    e ← poll_ready
    f ← start_send v
    pure (before ++ (readied e ∷ started f ∷ []))

module _ {S R T : Type 0} (poll_next : R → M S (Option (Poll (Option T)) × R))
    (poll_send : T → M S (Option (PollSend T))) (drop_sender : M S (Unit {0})) (v : T)
    (rx : R) where
  abbrev test_stream : M S (List (Reply T))
  test_stream = do
    (a, rx1) ← poll_next rx
    b ← poll_send v
    (c, rx2) ← poll_next rx1
    drop_sender
    (d, rx3) ← poll_next rx2
    pure (next a ∷ sent b ∷ next c ∷ next d ∷ [])

-- A poll of a receiver without a state of its own.
abbrev stateless : {S A : Type 0} → M S A → Unit {0} → M S (A × Unit {0})
stateless m u = do a ← m; pure (a, u)

-- A poll that returns.
abbrev returning : {S A : Type 0} → M S A → M S (Option A)
returning m = do a ← m; pure (some a)

-- The replies of a run that nothing disturbs; `none` is a channel that could not be made.
abbrev replies : {S T : Type 0} → M S (List (Reply T)) → Option S → Option (List (Reply T))
replies m s = Option.map (λ s1. (alone m s1).0) s

abbrev waiting : {T : Type 0} → Reply T
waiting = readied (some Poll.pending)

abbrev accepted : {T : Type 0} → Reply T
accepted = started (ok tt)

-- The receiver keeps its generation when the poll does not return.
abbrev watch_kept : ℕ → Option (Poll (Option ℕ) × ℕ) → Option (Poll (Option ℕ)) × ℕ
watch_kept own none = (none, own)
watch_kept own (some (r, own1)) = (some r, own1)

abbrev watch_next : ℕ → M (Watch.Channel (List ℕ) ℕ ℕ) (Option (Poll (Option ℕ)) × ℕ)
watch_next own = do polled ← watch_poll_next noop own; pure (watch_kept own polled)

-- `none` also for a panic.
abbrev flat : {A : Type 0} → Option (Option A) → Option A
flat none = none
flat (some x) = x

abbrev oneshot_next : M (Transfer (List ℕ) ℕ ℕ) (Option (Poll (Option ℕ)))
oneshot_next = do polled ← oneshot_poll_next noop; pure (flat polled)

abbrev sink_barrier : Option (List (Reply (Unit {0})))
sink_barrier =
    replies {S = Barrier.Barrier (List ℕ) ℕ}
      (test_sink_ready (returning (Barrier.poll_ready (from_waker noop))) (λ u. Barrier.start_send)
        (pure tt) tt)
      (some Barrier.channel)

sink_barrier_lem :
    sink_barrier
    ≡ some (
        ready_ok
        ∷ accepted
        ∷ readied (some (Poll.ready (err (record { value = tt }))))
        ∷ not_sent tt
        ∷ [])
unfolding Barrier.channel Barrier.poll_ready Barrier.start_send Notifier.notify retry
sink_barrier_lem = refl

abbrev sink_dispatch : Option (List (Reply ℕ))
sink_dispatch =
    replies {S = Dispatch.Channel (List ℕ) ℕ Bounded}
      (test_sink (Dispatch.poll_ready (from_waker noop)) Dispatch.start_send Dispatch.drop_receiver
        1)
      (Dispatch.channel ℕ 1)

sink_dispatch_lem :
    sink_dispatch ≡ some (ready_ok ∷ accepted ∷ waiting ∷ ready_ok ∷ not_sent 1 ∷ [])
unfolding Dispatch.channel Dispatch.poll_ready Dispatch.start_send Dispatch.drop_receiver retry
    RefCount.increment RefCount.decrement SenderShared.notify_receivers SenderShared.is_closed
    SenderShared.clone SenderShared.drop ReceiverShared.notify_senders ReceiverShared.is_closed
    ReceiverShared.subscribe_send ReceiverShared.drop Notifier.notify Notifier.subscribe
    SenderShared.notify_self
sink_dispatch_lem = refl

abbrev sink_mpsc : Option (List (Reply ℕ))
sink_mpsc =
    replies {S = Mpsc.Channel (List ℕ) ℕ Bounded}
      (test_sink (Mpsc.poll_ready (from_waker noop)) Mpsc.start_send Mpsc.drop_receiver 1)
      (Mpsc.channel ℕ 1)

sink_mpsc_lem : sink_mpsc ≡ some (ready_ok ∷ accepted ∷ waiting ∷ ready_ok ∷ not_sent 1 ∷ [])
unfolding Mpsc.channel Mpsc.poll_ready Mpsc.start_send Mpsc.drop_receiver retry RefCount.increment
    RefCount.decrement SenderShared.notify_receivers SenderShared.is_closed SenderShared.clone
    SenderShared.drop ReceiverShared.notify_senders ReceiverShared.is_closed
    ReceiverShared.subscribe_send ReceiverShared.drop Notifier.notify Notifier.subscribe
    SenderShared.notify_self
sink_mpsc_lem = refl

abbrev sink_oneshot : Option (List (Reply ℕ))
sink_oneshot =
    replies {S = Transfer (List ℕ) ℕ ℕ}
      (test_sink_twice (returning (Oneshot.poll_ready (from_waker noop))) Oneshot.start_send
        Oneshot.drop_receiver 1)
      (some Oneshot.channel)

sink_oneshot_lem :
    sink_oneshot ≡ some (ready_ok ∷ accepted ∷ ready_ok ∷ not_sent 1 ∷ ready_ok ∷ not_sent 1 ∷ [])
unfolding Oneshot.channel Oneshot.poll_ready Oneshot.start_send Oneshot.drop_receiver retry
    Transfer.new Transfer.send Transfer.recv Transfer.recv_round Transfer.recv_tried
    Transfer.recv_without Transfer.last_received Transfer.sender_disconnect
    Transfer.receiver_disconnect OneshotCell.new OneshotCell.send OneshotCell.try_recv
    OneshotCell.failed OneshotCell.received OneshotCell.to_error StateCell.new
    StateCell.compare_store StateCell.compare_take StateCell.take_internal StateCell.take_exchanged
    Notifier.new Notifier.notify Notifier.subscribe Notifier.guard Notifier.is_expired
sink_oneshot_lem = refl

abbrev sink_watch : Option (List (Reply ℕ))
sink_watch =
    replies {S = Watch.Channel (List ℕ) ℕ ℕ}
      (test_sink_ready (returning (Watch.poll_ready (from_waker noop))) Watch.start_send
        Watch.drop_receiver 1)
      (some (Watch.channel 0).0)

sink_watch_lem : sink_watch ≡ some (ready_ok ∷ accepted ∷ ready_ok ∷ accepted ∷ [])
unfolding Watch.channel Watch.poll_ready Watch.start_send RefCount.increment RefCount.decrement
    SenderShared.notify_receivers SenderShared.is_closed SenderShared.clone SenderShared.drop
    ReceiverShared.notify_senders ReceiverShared.is_closed ReceiverShared.subscribe_send
    ReceiverShared.drop Notifier.notify Notifier.subscribe SenderShared.notify_self retry
sink_watch_lem = refl

abbrev stream_barrier : Option (List (Reply (Unit {0})))
stream_barrier =
    replies {S = Barrier.Barrier (List ℕ) ℕ}
      (test_stream (stateless (returning (barrier_poll_next noop)))
        (λ u. returning (Barrier.poll_send empty)) Barrier.drop_sender tt tt)
      (some Barrier.channel)

stream_barrier_lem :
    stream_barrier
    ≡ some (
        next (some Poll.pending)
        ∷ sent (some PollSend.ready)
        ∷ next (some (Poll.ready (some tt)))
        ∷ next (some (Poll.ready (some tt)))
        ∷ [])
unfolding Barrier.channel barrier_poll_next Barrier.poll_send Barrier.drop_sender Notifier.subscribe
    Notifier.notify retry
stream_barrier_lem = refl

abbrev stream_broadcast : Option (List (Reply ℕ))
stream_broadcast =
    (let (s, rx) = Broadcast.channel {Q = List ℕ} {W = ℕ} {T = ℕ} 4 in
      replies {S = Broadcast.Channel (List ℕ) ℕ ℕ}
        (test_stream (broadcast_poll_next noop) (Broadcast.poll_send empty) Broadcast.drop_sender 1
          rx)
        (some s))

stream_broadcast_lem :
    stream_broadcast
    ≡ some (
        next (some Poll.pending)
        ∷ sent (some PollSend.ready)
        ∷ next (some (Poll.ready (some 1)))
        ∷ next (some (Poll.ready none))
        ∷ [])
unfolding Broadcast.channel broadcast_poll_next Broadcast.poll_send Broadcast.drop_sender retry
    RefCount.increment RefCount.decrement SenderShared.notify_receivers SenderShared.is_closed
    SenderShared.clone SenderShared.drop ReceiverShared.notify_senders ReceiverShared.is_closed
    ReceiverShared.subscribe_send ReceiverShared.drop Notifier.notify Notifier.subscribe
    SenderShared.notify_self Slot.try_write Slot.try_read
stream_broadcast_lem = refl

abbrev stream_dispatch : Option (List (Reply ℕ))
stream_dispatch =
    replies {S = Dispatch.Channel (List ℕ) ℕ Bounded}
      (test_stream (stateless (dispatch_poll_next noop)) (Dispatch.poll_send empty)
        Dispatch.drop_sender 1 tt)
      (Dispatch.channel ℕ 4)

stream_dispatch_lem :
    stream_dispatch
    ≡ some (
        next (some Poll.pending)
        ∷ sent (some PollSend.ready)
        ∷ next (some (Poll.ready (some 1)))
        ∷ next (some (Poll.ready none))
        ∷ [])
unfolding Dispatch.channel dispatch_poll_next Dispatch.poll_send Dispatch.drop_sender retry
    RefCount.increment RefCount.decrement SenderShared.notify_receivers SenderShared.is_closed
    SenderShared.clone SenderShared.drop ReceiverShared.notify_senders ReceiverShared.is_closed
    ReceiverShared.subscribe_send ReceiverShared.drop Notifier.notify Notifier.subscribe
    SenderShared.notify_self Dispatch.recv_wait
stream_dispatch_lem = refl

abbrev stream_mpsc : Option (List (Reply ℕ))
stream_mpsc =
    replies {S = Mpsc.Channel (List ℕ) ℕ Bounded}
      (test_stream (stateless (mpsc_poll_next noop)) (Mpsc.poll_send empty) Mpsc.drop_sender 1 tt)
      (Mpsc.channel ℕ 4)

stream_mpsc_lem :
    stream_mpsc
    ≡ some (
        next (some Poll.pending)
        ∷ sent (some PollSend.ready)
        ∷ next (some (Poll.ready (some 1)))
        ∷ next (some (Poll.ready none))
        ∷ [])
unfolding Mpsc.channel mpsc_poll_next Mpsc.poll_send Mpsc.drop_sender retry RefCount.increment
    RefCount.decrement SenderShared.notify_receivers SenderShared.is_closed SenderShared.clone
    SenderShared.drop ReceiverShared.notify_senders ReceiverShared.is_closed
    ReceiverShared.subscribe_send ReceiverShared.drop Notifier.notify Notifier.subscribe
    SenderShared.notify_self Mpsc.recv_wait
stream_mpsc_lem = refl

abbrev stream_oneshot : Option (List (Reply ℕ))
stream_oneshot =
    replies {S = Transfer (List ℕ) ℕ ℕ}
      (test_stream (stateless oneshot_next) (λ v. returning (Oneshot.poll_send empty v))
        Oneshot.drop_sender 1 tt)
      (some Oneshot.channel)

stream_oneshot_lem :
    stream_oneshot
    ≡ some (
        next (some Poll.pending)
        ∷ sent (some PollSend.ready)
        ∷ next (some (Poll.ready (some 1)))
        ∷ next (some (Poll.ready none))
        ∷ [])
unfolding Oneshot.channel oneshot_poll_next Oneshot.poll_send Oneshot.drop_sender retry Transfer.new
    Transfer.send Transfer.recv Transfer.recv_round Transfer.recv_tried Transfer.recv_without
    Transfer.last_received Transfer.sender_disconnect Transfer.receiver_disconnect OneshotCell.new
    OneshotCell.send OneshotCell.try_recv OneshotCell.failed OneshotCell.received
    OneshotCell.to_error StateCell.new StateCell.compare_store StateCell.compare_take
    StateCell.take_internal StateCell.take_exchanged Notifier.new Notifier.notify Notifier.subscribe
    Notifier.guard Notifier.is_expired
stream_oneshot_lem = refl

abbrev stream_watch : Option (List (Reply ℕ))
stream_watch =
    (let (s, rx) = Watch.channel {Q = List ℕ} {W = ℕ} 0 in
      replies {S = Watch.Channel (List ℕ) ℕ ℕ}
        (test_stream watch_next (λ v. returning (Watch.poll_send empty v)) Watch.drop_sender 1 rx)
        (some s))

stream_watch_lem :
    stream_watch
    ≡ some (
        next (some (Poll.ready (some 0)))
        ∷ sent (some PollSend.ready)
        ∷ next (some (Poll.ready (some 1)))
        ∷ next (some (Poll.ready none))
        ∷ [])
unfolding Watch.channel watch_poll_next Watch.poll_send Watch.drop_sender retry RefCount.increment
    RefCount.decrement SenderShared.notify_receivers SenderShared.is_closed SenderShared.clone
    SenderShared.drop ReceiverShared.notify_senders ReceiverShared.is_closed
    ReceiverShared.subscribe_send ReceiverShared.drop Notifier.notify Notifier.subscribe
    SenderShared.notify_self
stream_watch_lem = refl
