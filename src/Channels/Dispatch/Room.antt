-- ===== src/Channels/Dispatch/Room.antt =====
-- No task that waits to send on the dispatch channel misses room in the queue.
use postage_rs.Prelude.{
  ◌≡◌, ◌≤◌, ◌<◌, ◌+◌, refl, some, Bool, true, false, if◌then◌else◌, Elem, length, arith, inl, inr,
}
use postage_rs.Context.{from_waker}
use postage_rs.Queues.{SegQueue, ArrayQueue}
use postage_rs.Concurrent.{Env, interfere, pure}
use postage_rs.Concurrent.Atomic.{Result, ok, err, usize_mod}
use postage_rs.Concurrent.Fair.{
  Waiter, Fair, Debt, Fit, Watched, Served, Fit-interfere, Watched-start, Watched-interfere,
  known-interfere, Watched-own,
}
use postage_rs.Concurrent.Loop.{break}
use postage_rs.Concurrent.Served.{Always, Leaves, retry-Served, compared}
use postage_rs.Sink.{PollSend}
use postage_rs.Sync.Notifier.{NotificationGuard}
use postage_rs.Sync.Notifier.Waiting.{Known, Known-push}
use postage_rs.Channels.Dispatch.{
  Channel, poll_send, poll_send_round, send_wait, send_pushed, send_open,
}
use postage_rs.Channels.Dispatch.Refine.{room_or_full}

module _ {AQ : Type 0} (T : Type 0) ⦃aq : ArrayQueue AQ T⦄ where
  -- A push that fails has found the queue full, and leaves it so.
  push-full :
      (v v' : T) (q : AQ)
      → (aq.push v q).0 ≡ err v'
      → aq.capacity (aq.push v q).1 ≤ length (aq.contents (aq.push v q).1)
  push-full v v' q e = elim (room_or_full T q) [
    | inl room ↦ ground (arith, aq.push_room v q)
    | inr full ↦ ground (arith, aq.push_full v q)
  ]

abbrev pub IsFull : {T : Type 0} → PollSend T → Type 0
IsFull (PollSend.pending v) = Unit
IsFull _ = ⊥

module _ {Q W AQ : Type 0} (T : Type 0) ⦃sq : SegQueue Q W⦄ ⦃aq : ArrayQueue AQ T⦄ (w : W) where
  -- A task that sends, and waits for room.
  abbrev pub sending : Waiter (Channel Q W AQ)
  sending = record {
    known = λ s. Known w s.sender_notify;
    woken = λ s. Elem w s.sender_notify.woken;
    generation = λ s. s.sender_notify.generation;
    ready = λ s. length (aq.contents s.extension.queue) < aq.capacity s.extension.queue;
  }

  -- The state after the registration of a task that sends.
  abbrev queued : Channel Q W AQ → Channel Q W AQ
  queued s = record s {
    sender_notify = record s.sender_notify { wakers = sq.push w s.sender_notify.wakers };
  }

  send_wait-Leaves :
      (g : NotificationGuard) (v : T) (es : Env (Channel Q W AQ)) (s : Channel Q W AQ)
      → Watched sending g.generation es s
      → Leaves sending Always IsFull (send_wait {T = T} (from_waker w) g v es s)
  unfolding send_wait
  send_wait-Leaves g v es s h =
      let (s', es') = interfere es s in
      let h' : Watched sending g.generation es' (queued s') =
        Watched-own sending g.generation es' s' (queued s') refl (λ r. r)
          (Watched-interfere sending g.generation es s h) in
      compared sending Always IsFull g.generation v (PollSend.pending v) _ _ tt
        (Watched-interfere sending g.generation es' (queued s') h')
        (known-interfere sending g.generation es' (queued s') h' (Known-push w s'.sender_notify))

  -- The state after a push of `v`.
  abbrev after_push : T → Channel Q W AQ → Channel Q W AQ
  after_push v s = record s { extension = record { queue = (aq.push v s.extension.queue).1 } }

  send_pushed-Leaves :
      (pushed : Result (Unit {0}) T) (g : NotificationGuard) (es : Env (Channel Q W AQ))
      (s : Channel Q W AQ)
      → ((v : T) → pushed ≡ err v → Watched sending g.generation es s)
      → Leaves sending Always IsFull (send_pushed (from_waker w) g pushed es s)
  unfolding send_pushed
  send_pushed-Leaves (ok u) g es s h = λ p. absurd p
  send_pushed-Leaves (err v) g es s h = send_wait-Leaves g v es s (h v refl)

  send_open-Leaves :
      (closed : Bool) (v : T) (es : Env (Channel Q W AQ)) (s : Channel Q W AQ)
      → Fit sending 0 es s
      → Leaves sending Always IsFull
          ((if closed then pure (break (PollSend.rejected v)) else send_open (from_waker w) v) es s)
  unfolding send_open
  send_open-Leaves true v es s h = λ p. absurd p
  send_open-Leaves false v es s h =
      let (s1, es1) = interfere es s in
      let (d, f, le, b) = Fit-interfere sending 0 es s h in
      let g = s1.sender_notify.generation in
      let (s2, es2) = interfere es1 s1 in
      let (d2, f2, le2, b2) = Fit-interfere sending g es1 s1 (d, f, omega arith, b) in
      send_pushed-Leaves _ _ _ _ (λ v' (e : (aq.push v s2.extension.queue).0 ≡ err v').
        Watched-start sending g es2 (after_push v s2) (d2, f2, le2, b2)
          (λ p. omega (arith, p, push-full T v v' s2.extension.queue e)))

  poll_send_round-Leaves :
      (v : T) (es : Env (Channel Q W AQ)) (s : Channel Q W AQ)
      → Always v
      → Fit sending 0 es s
      → Leaves sending Always IsFull (poll_send_round (from_waker w) v es s)
  unfolding poll_send_round
  poll_send_round-Leaves v es s i h = send_open-Leaves _ v _ _ (Fit-interfere sending 0 es s h)

  -- A task that `poll_send` tells to wait is not forgotten: if the queue has room once the other
  -- threads have done what they have begun, then it has been woken; and it is known to the notifier
  -- in any case. The other threads do what they like before and during the poll and after it, if
  -- whoever makes room notifies the senders afterwards, no waker is dropped unwoken, and the count of
  -- notifications does not wrap.
  pub dispatch_poll_send_misses_no_room :
      (d : Debt) (v v' : T) (es : Env (Channel Q W AQ)) (s : Channel Q W AQ)
      → Fair sending d es
      → s.sender_notify.generation + length es < usize_mod
      → (poll_send (from_waker w) v es s).0 ≡ some (PollSend.pending v')
      → let r = poll_send (from_waker w) v es s in Served sending r.2 r.1
  unfolding poll_send
  dispatch_poll_send_misses_no_room d v v' es s f b e =
      retry-Served sending Always IsFull (poll_send_round (from_waker w)) poll_send_round-Leaves v
        es s (PollSend.pending v') tt (d, f, omega arith, b) e tt
