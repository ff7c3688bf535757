-- ===== src/Channels/Watch/Wakeup.antt =====
-- No task that waits to receive from the watch channel misses a new value or the end.
use postage_rs.Prelude.{
  ℕ, ◌≡◌, ◌≤◌, ◌<◌, ◌+◌, refl, some, Bool, true, false, if◌then◌else◌, Elem, length, arith, not,
  ltb,
}
use postage_rs.Context.{from_waker}
use postage_rs.Queues.{SegQueue}
use postage_rs.Concurrent.{Env, interfere, pure}
use postage_rs.Concurrent.Atomic.{usize_mod}
use postage_rs.Concurrent.Loop.{break}
use postage_rs.Concurrent.Fair.{
  Waiter, Fair, Debt, Fit, Watched, Served, Fit-interfere, Watched-start, Watched-interfere,
  known-interfere, Watched-own,
}
use postage_rs.Concurrent.Served.{Leaves, retry-Served, compared}
use postage_rs.Stream.{PollRecv}
use postage_rs.Sync.Notifier.{NotificationGuard}
use postage_rs.Sync.Notifier.Waiting.{Known, Known-push, Cause}
use postage_rs.Channels.Watch.{
  Channel, TryRecv, pending, ready, try_recv_internal, read_value, poll_recv, poll_recv_round,
  recv_wait, recv_tried,
}

abbrev pub IsPending : {T : Type 0} → PollRecv T × ℕ → Type 0
IsPending (PollRecv.pending, n) = Unit
IsPending _ = ⊥

-- A receiver's generation does not change until it receives.
abbrev IsOwn : ℕ → ℕ → Type 0
IsOwn own n = n ≡ own

module _ {Q W : Type 0} (T : Type 0) ⦃sq : SegQueue Q W⦄ (w : W) (own : ℕ) where
  abbrev pub IsReady : Cause → Channel Q W T → Type 0
  IsReady Cause.value s = own ≤ s.extension.generation
  IsReady Cause.ended s = s.sender_count.count ≡ 0

  -- A task that receives, and waits for a value of generation `own` or later, or for the end.
  abbrev pub receiving : Cause → Waiter (Channel Q W T)
  receiving c = record {
    known = λ s. Known w s.receiver_notify;
    woken = λ s. Elem w s.receiver_notify.woken;
    generation = λ s. s.receiver_notify.generation;
    ready = IsReady c;
  }

  -- The state after the task's registration.
  abbrev registered : Channel Q W T → Channel Q W T
  registered s = record s {
    receiver_notify = record s.receiver_notify { wakers = sq.push w s.receiver_notify.wakers };
  }

  registered-IsReady : (c : Cause) (s : Channel Q W T) → IsReady c (registered s) → IsReady c s
  registered-IsReady Cause.value s h = h
  registered-IsReady Cause.ended s h = h

  recv_wait-Leaves :
      (c : Cause) (g : NotificationGuard) (n : ℕ) (es : Env (Channel Q W T)) (s : Channel Q W T)
      → n ≡ own
      → Watched (receiving c) g.generation es s
      → Leaves (receiving c) (IsOwn own) IsPending (recv_wait (from_waker w) g n es s)
  unfolding recv_wait
  recv_wait-Leaves c g n es s i h =
      let (s', es') = interfere es s in
      let h' : Watched (receiving c) g.generation es' (registered s') =
        Watched-own (receiving c) g.generation es' s' (registered s') refl (registered-IsReady c s')
          (Watched-interfere (receiving c) g.generation es s h) in
      compared (receiving c) (IsOwn own) IsPending g.generation n (PollRecv.pending, n) _ _ i
        (Watched-interfere (receiving c) g.generation es' (registered s') h')
        (known-interfere (receiving c) g.generation es' (registered s') h'
          (Known-push w s'.receiver_notify))

  -- What is known of the event once no new value has been found: only a new value is watched for.
  abbrev Stale : Cause → ℕ → Env (Channel Q W T) → Channel Q W T → Type 0
  Stale Cause.value g es s = Watched (receiving Cause.value) g es s
  Stale Cause.ended g es s = Fit (receiving Cause.ended) g es s

  Stale-interfere :
      (c : Cause) (g : ℕ) (es : Env (Channel Q W T)) (s : Channel Q W T)
      → Stale c g es s
      → Stale c g (interfere es s).1 (interfere es s).0
  Stale-interfere Cause.value g es s h = Watched-interfere (receiving Cause.value) g es s h
  Stale-interfere Cause.ended g es s h = Fit-interfere (receiving Cause.ended) g es s h

  start-Stale :
      (c : Cause) (g n : ℕ) (es : Env (Channel Q W T)) (s : Channel Q W T)
      → n ≡ own
      → ltb s.extension.generation n ≡ true
      → Fit (receiving c) g es s
      → Stale c g es s
  start-Stale Cause.value g n es s i e h =
      Watched-start (receiving Cause.value) g es s h (λ p. ground (arith, i, e, p))
  start-Stale Cause.ended g n es s i e h = h

  recv_open :
      (c : Cause) (closed : Bool) (g : NotificationGuard) (n : ℕ) (es : Env (Channel Q W T))
      (s : Channel Q W T)
      → closed ≡ not (ltb 0 s.sender_count.count)
      → n ≡ own
      → Stale c g.generation es s
      → Leaves (receiving c) (IsOwn own) IsPending (
          (if closed then pure (break (PollRecv.closed, n)) else recv_wait (from_waker w) g n) es s)
  recv_open c true g n es s e i h = λ p. absurd p
  recv_open Cause.value false g n es s e i h = recv_wait-Leaves Cause.value g n es s i h
  recv_open Cause.ended false g n es s e i h =
      recv_wait-Leaves Cause.ended g n es s i
        (Watched-start (receiving Cause.ended) g.generation es s h (λ z. ground (arith, e, z)))

  -- What is known after `try_recv_internal`.
  Tried : Cause → ℕ → TryRecv T × ℕ → Env (Channel Q W T) → Channel Q W T → Type 0
  Tried c g (ready v, n) es s = Unit
  Tried c g (pending, n) es s = (n ≡ own) × Stale c g es s

  if-Tried :
      (c : Cause) (g n : ℕ) (b : Bool) (es : Env (Channel Q W T)) (s : Channel Q W T)
      → n ≡ own
      → ltb s.extension.generation n ≡ b
      → Fit (receiving c) g es s
      → let r = (if b then pure (pending, n) else read_value) es s in Tried c g r.0 r.2 r.1
  unfolding Tried read_value
  if-Tried c g n true es s i e h = (i, start-Stale c g n es s i e h)
  if-Tried c g n false es s i e h = tt

  try_recv-Tried :
      (c : Cause) (g n : ℕ) (es : Env (Channel Q W T)) (s : Channel Q W T)
      → n ≡ own
      → Fit (receiving c) g es s
      → let r = try_recv_internal n es s in Tried c g r.0 r.2 r.1
  unfolding try_recv_internal
  try_recv-Tried c g n es s i h = if-Tried c g n _ _ _ i refl (Fit-interfere (receiving c) g es s h)

  recv_tried-Leaves :
      (c : Cause) (tried : TryRecv T × ℕ) (g : NotificationGuard) (es : Env (Channel Q W T))
      (s : Channel Q W T)
      → Tried c g.generation tried es s
      → Leaves (receiving c) (IsOwn own) IsPending (recv_tried (from_waker w) g tried es s)
  unfolding recv_tried Tried
  recv_tried-Leaves c (ready v, n) g es s h = λ p. absurd p
  recv_tried-Leaves c (pending, n) g es s (i, h) =
      recv_open c _ g n _ _ refl i (Stale-interfere c g.generation es s h)

  poll_recv_round-Leaves :
      (c : Cause) (n : ℕ) (es : Env (Channel Q W T)) (s : Channel Q W T)
      → n ≡ own
      → Fit (receiving c) 0 es s
      → Leaves (receiving c) (IsOwn own) IsPending (poll_recv_round {T = T} (from_waker w) n es s)
  unfolding poll_recv_round
  poll_recv_round-Leaves c n es s i h =
      let (s1, es1) = interfere es s in
      let (d, f, le, b) = Fit-interfere (receiving c) 0 es s h in
      let g = s1.receiver_notify.generation in
      recv_tried-Leaves c _ _ _ _ (try_recv-Tried c g n es1 s1 i (d, f, omega arith, b))

  -- A task that `poll_recv` tells to wait is not forgotten: if the channel has a value of the
  -- receiver's generation or a later one, or all the senders have gone, once the other threads have
  -- done what they have begun, then it has been woken; and it is known to the notifier in any case.
  -- The other threads do what they like before and during the poll and after it, if whoever sends a
  -- value or drops the last sender notifies the receivers afterwards, no waker is dropped unwoken,
  -- and the count of notifications does not wrap.
  pub watch_poll_recv_misses_nothing :
      (c : Cause) (d : Debt) (n : ℕ) (es : Env (Channel Q W T)) (s : Channel Q W T)
      → Fair (receiving c) d es
      → s.receiver_notify.generation + length es < usize_mod
      → (poll_recv {T = T} (from_waker w) own es s).0 ≡ some (PollRecv.pending, n)
      → let r = poll_recv {T = T} (from_waker w) own es s in Served (receiving c) r.2 r.1
  unfolding poll_recv
  watch_poll_recv_misses_nothing c d n es s f b e =
      retry-Served (receiving c) (IsOwn own) IsPending (poll_recv_round (from_waker w))
        (poll_recv_round-Leaves c) own es s (PollRecv.pending, n) refl (d, f, omega arith, b) e tt
