-- ===== src/Channels/Mpsc/Wakeup.antt =====
-- No task that waits to receive from the mpsc channel misses a value or the end.
use postage_rs.Prelude.{
  ◌≡◌, ◌<◌, ◌+◌, refl, Option, none, some, List, [], ◌∷◌, Bool, ℕ, true, false, if◌then◌else◌, Elem,
  length, arith, ltb, not,
}
use postage_rs.Context.{from_waker}
use postage_rs.Queues.{SegQueue, ArrayQueue}
use postage_rs.Concurrent.{Env, interfere, pure}
use postage_rs.Concurrent.Atomic.{usize_mod}
use postage_rs.Concurrent.Fair.{
  Waiter, Fair, Debt, Fit, Watched, Served, Fit-interfere, Watched-start, Watched-interfere,
  known-interfere, Watched-own,
}
use postage_rs.Concurrent.Loop.{break}
use postage_rs.Concurrent.Served.{Always, Leaves, retry-Served, compared}
use postage_rs.Stream.{PollRecv}
use postage_rs.Sync.Notifier.{NotificationGuard}
use postage_rs.Sync.Notifier.Waiting.{Known, Known-push, Cause}
use postage_rs.Channels.Mpsc.{Channel, poll_recv, poll_recv_round, recv_wait, recv_popped}

abbrev pub IsPending : {T : Type 0} → PollRecv T → Type 0
IsPending PollRecv.pending = Unit
IsPending _ = ⊥

module _ {AQ : Type 0} (T : Type 0) ⦃aq : ArrayQueue AQ T⦄ where
  -- A pop that finds nothing has found the queue empty, and leaves it.
  pop-none :
      (q : AQ) (vs : List T)
      → aq.contents q ≡ vs
      → (aq.pop q).0 ≡ none
      → (aq.contents (aq.pop q).1 ≡ [])
  pop-none q [] e h = ground (arith, aq.pop_empty q e)
  pop-none q (v ∷ vs) e h = ground (arith, aq.pop_first q v vs e)

module _ {Q W AQ : Type 0} (T : Type 0) ⦃sq : SegQueue Q W⦄ ⦃aq : ArrayQueue AQ T⦄ (w : W) where
  abbrev pub IsReady : Cause → Channel Q W AQ → Type 0
  IsReady Cause.value s = 0 < length (aq.contents s.extension.queue)
  IsReady Cause.ended s = s.sender_count.count ≡ 0

  -- A task that receives, and waits for a value or for the end.
  abbrev pub receiving : Cause → Waiter (Channel Q W AQ)
  receiving c = record {
    known = λ s. Known w s.receiver_notify;
    woken = λ s. Elem w s.receiver_notify.woken;
    generation = λ s. s.receiver_notify.generation;
    ready = IsReady c;
  }

  -- The state after the task's registration.
  abbrev registered : Channel Q W AQ → Channel Q W AQ
  registered s = record s {
    receiver_notify = record s.receiver_notify { wakers = sq.push w s.receiver_notify.wakers };
  }

  registered-IsReady : (c : Cause) (s : Channel Q W AQ) → IsReady c (registered s) → IsReady c s
  registered-IsReady Cause.value s h = h
  registered-IsReady Cause.ended s h = h

  recv_wait-Leaves :
      (c : Cause) (g : NotificationGuard) (es : Env (Channel Q W AQ)) (s : Channel Q W AQ)
      → Watched (receiving c) g.generation es s
      → Leaves (receiving c) Always IsPending (recv_wait {T = T} (from_waker w) g es s)
  unfolding recv_wait
  recv_wait-Leaves c g es s h =
      let (s', es') = interfere es s in
      let h' : Watched (receiving c) g.generation es' (registered s') =
        Watched-own (receiving c) g.generation es' s' (registered s') refl (registered-IsReady c s')
          (Watched-interfere (receiving c) g.generation es s h) in
      compared (receiving c) Always IsPending g.generation tt PollRecv.pending _ _ tt
        (Watched-interfere (receiving c) g.generation es' (registered s') h')
        (known-interfere (receiving c) g.generation es' (registered s') h'
          (Known-push w s'.receiver_notify))

  -- What is known of the event once the queue has been found empty: only a new value is watched for.
  abbrev Emptied : Cause → ℕ → Env (Channel Q W AQ) → Channel Q W AQ → Type 0
  Emptied Cause.value g es s = Watched (receiving Cause.value) g es s
  Emptied Cause.ended g es s = Fit (receiving Cause.ended) g es s

  recv_open :
      (c : Cause) (closed : Bool) (g : NotificationGuard) (es : Env (Channel Q W AQ))
      (s : Channel Q W AQ)
      → closed ≡ not (ltb 0 s.sender_count.count)
      → Emptied c g.generation es s
      → Leaves (receiving c) Always IsPending (
          (if closed then pure (break PollRecv.closed) else recv_wait {T = T} (from_waker w) g) es
            s)
  recv_open c true g es s e h = λ p. absurd p
  recv_open Cause.value false g es s e h = recv_wait-Leaves Cause.value g es s h
  recv_open Cause.ended false g es s e h =
      recv_wait-Leaves Cause.ended g es s
        (Watched-start (receiving Cause.ended) g.generation es s h (λ z. ground (arith, e, z)))

  Emptied-interfere :
      (c : Cause) (g : ℕ) (es : Env (Channel Q W AQ)) (s : Channel Q W AQ)
      → Emptied c g es s
      → Emptied c g (interfere es s).1 (interfere es s).0
  Emptied-interfere Cause.value g es s h = Watched-interfere (receiving Cause.value) g es s h
  Emptied-interfere Cause.ended g es s h = Fit-interfere (receiving Cause.ended) g es s h

  -- The state after the pop.
  abbrev after_pop : Channel Q W AQ → Channel Q W AQ
  after_pop s = record s { extension = record { queue = (aq.pop s.extension.queue).1 } }

  pop-Emptied :
      (c : Cause) (g : ℕ) (es : Env (Channel Q W AQ)) (s : Channel Q W AQ)
      → (aq.pop s.extension.queue).0 ≡ none
      → Fit (receiving c) g es s
      → Emptied c g es (after_pop s)
  pop-Emptied Cause.value g es s e (d, f, le, b) =
      Watched-start (receiving Cause.value) g es (after_pop s) (d, f, le, b)
        (λ p. ground (arith, pop-none T s.extension.queue _ refl e, p))
  pop-Emptied Cause.ended g es s e h = h

  recv_popped-Leaves :
      (c : Cause) (popped : Option T) (g : NotificationGuard) (es : Env (Channel Q W AQ))
      (s : Channel Q W AQ)
      → (popped ≡ none → Emptied c g.generation es s)
      → Leaves (receiving c) Always IsPending (recv_popped (from_waker w) g popped es s)
  unfolding recv_popped
  recv_popped-Leaves c (some v) g es s h = λ p. absurd p
  recv_popped-Leaves c none g es s h =
      recv_open c _ g _ _ refl (Emptied-interfere c g.generation es s (h refl))

  poll_recv_round-Leaves :
      (c : Cause) (u : Unit {0}) (es : Env (Channel Q W AQ)) (s : Channel Q W AQ)
      → Always u
      → Fit (receiving c) 0 es s
      → Leaves (receiving c) Always IsPending (poll_recv_round {T = T} (from_waker w) u es s)
  unfolding poll_recv_round
  poll_recv_round-Leaves c u es s i h =
      let (s1, es1) = interfere es s in
      let (d, f, le, b) = Fit-interfere (receiving c) 0 es s h in
      let g = s1.receiver_notify.generation in
      let h2 = Fit-interfere (receiving c) g es1 s1 (d, f, omega arith, b) in
      recv_popped-Leaves c _ _ _ _ (λ e. pop-Emptied c g _ _ e h2)

  -- A task that `poll_recv` tells to wait is not forgotten: if a value is in the queue, or all the
  -- senders have gone, once the other threads have done what they have begun, then it has been
  -- woken; and it is known to the notifier in any case. The other threads do what they like before
  -- and during the poll and after it, if whoever adds a value or drops the last sender notifies the
  -- receivers afterwards, no waker is dropped unwoken, and the count of notifications does not wrap.
  pub mpsc_poll_recv_misses_nothing :
      (c : Cause) (d : Debt) (es : Env (Channel Q W AQ)) (s : Channel Q W AQ)
      → Fair (receiving c) d es
      → s.receiver_notify.generation + length es < usize_mod
      → (poll_recv {T = T} (from_waker w) es s).0 ≡ some PollRecv.pending
      → let r = poll_recv {T = T} (from_waker w) es s in Served (receiving c) r.2 r.1
  unfolding poll_recv
  mpsc_poll_recv_misses_nothing c d es s f b e =
      retry-Served (receiving c) Always IsPending (poll_recv_round (from_waker w))
        (poll_recv_round-Leaves c) tt es s PollRecv.pending tt (d, f, omega arith, b) e tt
