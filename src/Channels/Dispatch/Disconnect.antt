-- ===== src/Channels/Dispatch/Disconnect.antt =====
-- The dispatch channel when its last receiver is dropped during a poll of a sender.
use postage_rs.Prelude.{◌≤◌, ◌≡◌, refl, ap, ◌∙◌, some, [], ◌∷◌, ◌++◌, arith, length}
use postage_rs.Context.{from_waker}
use postage_rs.Queues.{SegQueue, ArrayQueue}
use postage_rs.Concurrent.Loop.{break, retry-break}
use postage_rs.Sink.{PollSend}
use postage_rs.Sync.Alone.{receiver_drop-alone}
use postage_rs.Channels.BoundedQueue
use postage_rs.Channels.BoundedQueue.{BoundedQueue}
use postage_rs.Channels.Dispatch.{Channel, poll_send, poll_send_round, send_wait, drop_receiver}
use postage_rs.Channels.Dispatch.Refine.{view, view-without_receiver}

module _ {Q W AQ : Type 0} (T : Type 0) ⦃sq : SegQueue Q W⦄ ⦃aq : ArrayQueue AQ T⦄ where
  -- The receiver goes.
  unfoldable pub receiver_goes : Channel Q W AQ → Channel Q W AQ
  receiver_goes s = (drop_receiver [] s).1

  -- The queue is full, and there is one receiver.
  pub record IsLastReader (s : Channel Q W AQ) : Type 0 where
    pub full : aq.capacity s.extension.queue ≤ length (aq.contents s.extension.queue)
    pub one_receiver : s.receiver_count.count ≡ 1

  gone_view :
      (s : Channel Q W AQ)
      → view {T = T} (receiver_goes s) ≡ BoundedQueue.remove_receiver (view {T = T} s)
  unfolding receiver_goes drop_receiver
  gone_view s = ap (λ r. view {T = T} r.1) (receiver_drop-alone s) ∙ view-without_receiver s

  -- What the drop leaves.
  gone :
      (s : Channel Q W AQ)
      → IsLastReader s
      → let t = receiver_goes s in
        (aq.capacity t.extension.queue ≤ length (aq.contents t.extension.queue))
        × (t.receiver_count.count ≡ 0)
        × (sq.contents t.sender_notify.wakers ≡ [])
        × (t.sender_notify.woken ≡ s.sender_notify.woken ++ sq.contents s.sender_notify.wakers)
  unfolding BoundedQueue.remove_receiver
  gone s h = ground (arith, gone_view s, h.full, h.one_receiver)

  race_round :
      (w : W) (v : T) (s : Channel Q W AQ)
      → IsLastReader s
      → let r = poll_send_round (from_waker w) v ((λ x. x) ∷ receiver_goes ∷ []) s in
        (r.0 ≡ break (PollSend.pending v))
        × (r.1.receiver_count.count ≡ 0)
        × (sq.contents r.1.sender_notify.wakers ≡ w ∷ [])
        × (r.1.sender_notify.woken ≡ s.sender_notify.woken ++ sq.contents s.sender_notify.wakers)
  unfolding poll_send_round send_wait
  race_round w v s h = ground (
    arith,
    h.one_receiver,
    gone s h,
    aq.push_full v (receiver_goes s).extension.queue (gone s h).0,
    sq.contents-push w (receiver_goes s).sender_notify.wakers,
  )

  -- A sender that finds the queue full waits for ever: `poll_send` tells its task to wait although no
  -- receiver is left, and all the tasks that the drop of the last one has woken are those that
  -- waited before, while this one stays in the queue of wakers. This holds of every channel with a
  -- full queue and one receiver, if that is dropped between the look at the count of receivers and
  -- the guard.
  pub dispatch_poll_send_misses_end :
      (w : W) (v : T) (s : Channel Q W AQ)
      → IsLastReader s
      → let r = poll_send (from_waker w) v ((λ x. x) ∷ receiver_goes ∷ []) s in
        (r.0 ≡ some (PollSend.pending v))
        × (r.1.receiver_count.count ≡ 0)
        × (sq.contents r.1.sender_notify.wakers ≡ w ∷ [])
        × (r.1.sender_notify.woken ≡ s.sender_notify.woken ++ sq.contents s.sender_notify.wakers)
  unfolding poll_send
  dispatch_poll_send_misses_end w v s h =
      let early = (λ (x : Channel Q W AQ). x) ∷ receiver_goes ∷ [] in
      let (e, none_left, waits, woken) = race_round w v s h in
      rw (retry-break (poll_send_round (from_waker w)) v (PollSend.pending v) early s e)
        (refl, none_left, waits, woken)
