-- ===== src/Channels/Dispatch/Delivery.antt =====
-- Which calls on a dispatch channel wake whom.
use postage_rs.Prelude.{◌≡◌, ◌≤◌, sym, arith, some, [], Elem}
use mathlib.Core.Path.{subst}
use postage_rs.Context.{Context}
use postage_rs.Queues.{SegQueue, ArrayQueue}
use postage_rs.Stream.{PollRecv}
use postage_rs.Sink.{PollSend}
use postage_rs.Sync.Notifier.Waiting.{Known}
use postage_rs.Sync.Alone.{sender_drop-alone}
use postage_rs.Channels.BoundedQueue.Wakes.{send-wakes, recv-wakes, remove_sender-wakes}
use postage_rs.Channels.Dispatch.{Channel, poll_send, poll_recv, drop_sender}
use postage_rs.Channels.Dispatch.Refine.{
  view, poll_send_refines, poll_recv_refines, view-without_sender,
}

module _ {Q W AQ T : Type 0} ⦃sq : SegQueue Q W⦄ ⦃aq : ArrayQueue AQ T⦄ (w : W) where
  -- An undisturbed `poll_send` that accepts its value wakes every task that is registered as a
  -- receiver or has been woken already.
  pub dispatch_send-wakes :
      (cx : Context W) (v : T) (s : Channel Q W AQ)
      → (poll_send cx v [] s).0 ≡ some PollSend.ready
      → Known w s.receiver_notify
      → Elem w (poll_send cx v [] s).1.receiver_notify.woken
  unfolding Known
  dispatch_send-wakes cx v s e h =
      let (q, q', _) = poll_send_refines cx v s in
      subst (λ b. Elem w b.receiving.woken) (sym q')
        (send-wakes w cx v (view s) (ground (arith, e, q)) h)

  -- An undisturbed `poll_recv` that delivers a value wakes every task that is registered as a
  -- sender or has been woken already.
  pub dispatch_recv-wakes :
      (cx : Context W) (v : T) (s : Channel Q W AQ)
      → (poll_recv cx [] s).0 ≡ some (PollRecv.ready v)
      → Known w s.sender_notify
      → Elem w (poll_recv {T = T} cx [] s).1.sender_notify.woken
  unfolding Known
  dispatch_recv-wakes cx v s e h =
      let (q, q', _) = poll_recv_refines cx s in
      subst (λ b. Elem w b.sending.woken) (sym q')
        (recv-wakes w cx v (view s) (ground (arith, e, q)) h)

module _ {Q W AQ : Type 0} (T : Type 0) ⦃sq : SegQueue Q W⦄ ⦃aq : ArrayQueue AQ T⦄ (w : W) where
  -- The undisturbed drop of the last sender wakes every task that is registered as a receiver or has
  -- been woken already.
  pub dispatch_drop-wakes :
      (s : Channel Q W AQ)
      → s.sender_count.count ≤ 1
      → Known w s.receiver_notify
      → Elem w (drop_sender [] s).1.receiver_notify.woken
  unfolding Known drop_sender
  dispatch_drop-wakes s e h = rw (sender_drop-alone s) (
      subst (λ b. Elem w b.receiving.woken) (sym (view-without_sender {T = T} s))
        (remove_sender-wakes w (view {T = T} s) e h))
