-- ===== src/Channels/Mpsc/Sinks.antt =====
-- The sender of the mpsc channel as a sink of the futures crate, undisturbed.
use postage_rs.Prelude.{
  ◌≡◌, ◌≤◌, ◌<◌, sym, ◌∙◌, true, false, Option, none, some, [], arith, length, inl, inr,
}
use native.Mathlib.Decide.{dec_lt}
use postage_rs.Context.{Context}
use postage_rs.Queues.{SegQueue, ArrayQueue}
use postage_rs.Concurrent.{M, pure, ◌>>=◌}
use postage_rs.Concurrent.Atomic.{Result, ok, err}
use postage_rs.Concurrent.Loop.{break, retry-settled}
use postage_rs.Stream.{Poll}
use postage_rs.Sink.{PollSend, SendError}
use postage_rs.Sync.Notifier.Alone.{notified_lem}
use postage_rs.Sync.Alone.{notify_receivers-alone}
use postage_rs.Channels.BoundedQueue
use postage_rs.Channels.BoundedQueue.{BoundedQueue}
use postage_rs.Channels.Mpsc.{Channel, poll_send, poll_ready, poll_ready_round, start_send}
use postage_rs.Channels.Mpsc.Refine.{view, Gives, poll_send_refines, room_or_full, waiting}

module _ {AQ : Type 0} (T : Type 0) ⦃aq : ArrayQueue AQ T⦄ where
  is_full-room : (q : AQ) → length (aq.contents q) < aq.capacity q → aq.is_full q ≡ false
  is_full-room q h = ground (arith, aq.is_full_iff q)

  is_full-full : (q : AQ) → aq.capacity q ≤ length (aq.contents q) → aq.is_full q ≡ true
  is_full-full q h = (aq.is_full_iff q).1 h

-- What the reply of `start_send` says in the words of `poll_send`.
unfoldable sent_by : {T : Type 0} → Result (Unit {0}) (SendError T) → PollSend T
sent_by (ok _) = PollSend.ready
sent_by (err e) = PollSend.rejected e.value

module _ {Q W AQ T : Type 0} ⦃sq : SegQueue Q W⦄ ⦃aq : ArrayQueue AQ T⦄ where
  -- `start_send` once `poll_ready` has said that the channel is ready. A sink that waits keeps the
  -- value.
  unfoldable finish :
      T → Option (Poll (Result (Unit {0}) (SendError T))) → M (Channel Q W AQ) (Option (PollSend T))
  unfolding sent_by start_send
  finish v none = pure none
  finish v (some Poll.pending) = pure (some (PollSend.pending v))
  finish v (some (Poll.ready (err e))) = pure (some (PollSend.rejected e.value))
  finish v (some (Poll.ready (ok _))) = do r ← start_send v; pure (some (sent_by r))

  unfoldable pub sink_send : Context W → T → M (Channel Q W AQ) (Option (PollSend T))
  unfolding finish
  sink_send cx v = do r ← poll_ready cx; finish v r

  ready_room :
      (cx : Context W) (s : Channel Q W AQ)
      → length (aq.contents s.extension.queue) < aq.capacity s.extension.queue
      → poll_ready {T = T} cx [] s ≡ (some (Poll.ready (ok tt)), s, [])
  unfolding poll_ready poll_ready_round
  ready_room cx s room =
      retry-settled (poll_ready_round {T = T} cx) tt (Poll.ready (ok tt)) [] [] s s
        (ground (arith, is_full-room T s.extension.queue room))

  ready_closed :
      (cx : Context W) (s : Channel Q W AQ)
      → s.receiver_count.count ≡ 0
      → poll_ready {T = T} cx [] s ≡ (some (Poll.ready (ok tt)), s, [])
  unfolding poll_ready poll_ready_round
  ready_closed cx s h =
      retry-settled (poll_ready_round {T = T} cx) tt (Poll.ready (ok tt)) [] [] s s (ground arith)

  -- The round of `poll_ready` that finds the queue full.
  ready_full :
      (cx : Context W) (s : Channel Q W AQ)
      → 0 < s.receiver_count.count
      → aq.capacity s.extension.queue ≤ length (aq.contents s.extension.queue)
      → let r = poll_ready_round {T = T} cx tt [] s in
        (r ≡ (break Poll.pending, r.1, []))
        × (view {T = T} r.1
            ≡ record (view s) { sending = BoundedQueue.wait cx (view {T = T} s).sending })
  unfolding poll_ready_round BoundedQueue.wait
  ready_full cx s h full =
      ground (arith, is_full-full T s.extension.queue full, waiting cx s.sender_notify.wakers)

  sink_sent-Gives :
      (cx : Context W) (v : T) (s : Channel Q W AQ)
      → Gives (sink_send cx v [] s) (BoundedQueue.send cx v (view s))
  unfolding sink_send start_send poll_ready BoundedQueue.send
  sink_sent-Gives cx v s = elim (room_or_full T s.extension.queue) [
    | inl room ↦ rw (ready_room cx s room) (
        ground (
          arith,
          aq.push_room v s.extension.queue,
          notify_receivers-alone
              (record s { extension = record { queue = (aq.push v s.extension.queue).1 } }),
          notified_lem s.receiver_notify,
        ))
    | inr full ↦ elim (dec_lt 0 s.receiver_count.count) [
      | no h ↦ rw (ready_closed cx s (omega arith)) (ground arith)
      | yes h ↦
          let (e, e') = ready_full cx s h full in
          rw (retry-settled (poll_ready_round {T = T} cx) tt Poll.pending [] [] s _ e)
            (ground (arith, e'))
    ]
  ]

  -- A sink of the futures crate, `poll_ready` and then `start_send` once it is ready, gives the
  -- undisturbed caller what `poll_send` gives it, and leaves the channel with the same contents,
  -- counts of handles, waiting tasks and woken tasks.
  pub mpsc_sink_agrees :
      (cx : Context W) (v : T) (s : Channel Q W AQ)
      → let r = sink_send cx v [] s in
        let p = poll_send cx v [] s in (r.0 ≡ p.0) × (view {T = T} r.1 ≡ view p.1)
  mpsc_sink_agrees cx v s =
      let (e, e', _) = sink_sent-Gives cx v s in
      let (p, p', _) = poll_send_refines cx v s in (e ∙ sym p, e' ∙ sym p')
