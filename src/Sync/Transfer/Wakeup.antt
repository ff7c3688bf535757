-- ===== src/Sync/Transfer/Wakeup.antt =====
-- No task that waits to receive from a transfer misses the value or the end.
use postage_rs.Prelude.{
  ℕ, ◌≡◌, ◌≢◌, ◌<◌, ◌+◌, refl, arith, Option, none, some, length, Bool, true, false, if◌then◌else◌,
  Elem,
}
use postage_rs.Context.{from_waker}
use postage_rs.Queues.{SegQueue}
use postage_rs.Concurrent.{M, Env, interfere, pure, ◌>>=◌}
use postage_rs.Concurrent.Atomic.{Result, ok, err, usize_mod}
use postage_rs.Concurrent.Fair.{
  Waiter, Fair, Debt, Fit, Watched, Served, Fit-interfere, Watched-start, Watched-interfere,
  known-interfere, Watched-own,
}
use postage_rs.Concurrent.Served.{Always, Leaves, retry-Served, compared}
use postage_rs.Stream.{PollRecv}
use postage_rs.Sync.Notifier
use postage_rs.Sync.Notifier.{NotificationGuard}
use postage_rs.Sync.Notifier.Waiting.{Known, Known-push, Cause}
use postage_rs.Sync.StateCell
use postage_rs.Sync.OneshotCell
use postage_rs.Sync.OneshotCell.{
  State, none_yet, writing, ready, taken, TryRecvError, received, State-beq, State-beq_iff,
  state_word,
}
use postage_rs.Sync.Transfer.{
  State as TransferState, Transfer, alive, dead, value_field, last_received, recv_without,
  recv_tried, recv_round, recv,
}

abbrev pub IsPending : {T : Type 0} → Option (PollRecv T) → Type 0
IsPending (some PollRecv.pending) = Unit
IsPending _ = ⊥

last-settles :
    {T : Type 0} (got : Option (Result T TryRecvError)) → IsPending (last_received got) → ⊥
unfolding last_received
last-settles none p = p
last-settles (some (ok v)) p = p
last-settles (some (err x)) p = p

module _ {Q W : Type 0} (T : Type 0) ⦃sq : SegQueue Q W⦄ (w : W) where
  abbrev pub IsReady : Cause → Transfer Q W T → Type 0
  IsReady Cause.value s = s.value.state ≡ ready
  IsReady Cause.ended s = s.sender ≡ dead

  -- A task that receives, and waits for the value or for the end.
  abbrev pub receiving : Cause → Waiter (Transfer Q W T)
  receiving c = record {
    known = λ s. Known w s.notify_rx;
    woken = λ s. Elem w s.notify_rx.woken;
    generation = λ s. s.notify_rx.generation;
    ready = IsReady c;
  }

  -- The state after the task's registration.
  abbrev registered : Transfer Q W T → Transfer Q W T
  registered s = record s {
    notify_rx = record s.notify_rx { wakers = sq.push w s.notify_rx.wakers };
  }

  registered-IsReady : (c : Cause) (s : Transfer Q W T) → IsReady c (registered s) → IsReady c s
  registered-IsReady Cause.value s h = h
  registered-IsReady Cause.ended s h = h

  -- What is known of the event once the cell has been found without a value.
  abbrev Emptied : Cause → ℕ → Env (Transfer Q W T) → Transfer Q W T → Type 0
  Emptied Cause.value g es s = Watched (receiving Cause.value) g es s
  Emptied Cause.ended g es s = Fit (receiving Cause.ended) g es s

  Emptied-interfere :
      (c : Cause) (g : ℕ) (es : Env (Transfer Q W T)) (s : Transfer Q W T)
      → Emptied c g es s
      → Emptied c g (interfere es s).1 (interfere es s).0
  Emptied-interfere Cause.value g es s h = Watched-interfere (receiving Cause.value) g es s h
  Emptied-interfere Cause.ended g es s h = Fit-interfere (receiving Cause.ended) g es s h

  alive-Watched :
      (c : Cause) (g : ℕ) (es : Env (Transfer Q W T)) (s : Transfer Q W T)
      → s.sender ≡ alive
      → Emptied c g es s
      → Watched (receiving c) g es s
  alive-Watched Cause.value g es s e h = h
  alive-Watched Cause.ended g es s e h = Watched-start (receiving Cause.ended) g es s h (λ p. cc)

  recv_without-Leaves :
      (c : Cause) (st : TransferState) (g : NotificationGuard) (es : Env (Transfer Q W T))
      (s : Transfer Q W T)
      → s.sender ≡ st
      → Emptied c g.generation es s
      → Leaves (receiving c) Always IsPending (recv_without {T = T} (from_waker w) g st es s)
  unfolding recv_without Notifier.subscribe Notifier.is_expired
  recv_without-Leaves c dead g es s e h = λ p. absurd (last-settles _ p)
  recv_without-Leaves c alive g es s e h =
      let (s', es') = interfere es s in
      let h' : Watched (receiving c) g.generation es' (registered s') =
        Watched-own (receiving c) g.generation es' s' (registered s') refl (registered-IsReady c s')
          (Watched-interfere (receiving c) g.generation es s
            (alive-Watched c g.generation es s e h)) in
      compared (receiving c) Always IsPending g.generation tt (some PollRecv.pending) _ _ tt
        (Watched-interfere (receiving c) g.generation es' (registered s') h')
        (known-interfere (receiving c) g.generation es' (registered s') h'
          (Known-push w s'.notify_rx))

  -- What is known after a receive on the cell that has found no value.
  Tried :
      Cause → ℕ → Option (Result T TryRecvError) → Env (Transfer Q W T) → Transfer Q W T → Type 0
  Tried c g (some (err TryRecvError.pending)) es s = Emptied c g es s
  Tried c g _ es s = Unit

  recv_tried-Leaves :
      (c : Cause) (got : Option (Result T TryRecvError)) (g : NotificationGuard)
      (es : Env (Transfer Q W T)) (s : Transfer Q W T)
      → Tried c g.generation got es s
      → Leaves (receiving c) Always IsPending (recv_tried {T = T} (from_waker w) g got es s)
  unfolding recv_tried Tried
  recv_tried-Leaves c none g es s h = λ p. absurd p
  recv_tried-Leaves c (some (ok v)) g es s h = λ p. absurd p
  recv_tried-Leaves c (some (err TryRecvError.closed)) g es s h = λ p. absurd p
  recv_tried-Leaves c (some (err TryRecvError.pending)) g es s h =
      recv_without-Leaves c _ g _ _ refl (Emptied-interfere c g.generation es s h)

  start-Emptied :
      (c : Cause) (g : ℕ) (es : Env (Transfer Q W T)) (s : Transfer Q W T)
      → s.value.state ≢ ready
      → Fit (receiving c) g es s
      → Emptied c g es s
  start-Emptied Cause.value g es s n h = Watched-start (receiving Cause.value) g es s h n
  start-Emptied Cause.ended g es s n h = h

  received-Tried :
      (c : Cause) (g : ℕ) (x : Option T) (es : Env (Transfer Q W T)) (s : Transfer Q W T)
      → Tried c g (received (ok x)) es s
  unfolding Tried received
  received-Tried c g none es s = tt
  received-Tried c g (some v) es s = tt

  failed-Tried :
      (c : Cause) (g : ℕ) (st : State) (es : Env (Transfer Q W T)) (s : Transfer Q W T)
      → s.value.state ≡ st
      → State-beq st ready ≡ false
      → Fit (receiving c) g es s
      → Tried c g (received (err st)) es s
  unfolding Tried received
  failed-Tried c g none_yet es s e n h = start-Emptied c g es s (λ p. cc) h
  failed-Tried c g writing es s e n h = start-Emptied c g es s (λ p. cc) h
  failed-Tried c g ready es s e n h = cc
  failed-Tried c g taken es s e n h = tt

  -- The rest of `try_recv` after the exchange, of which `b` says whether it succeeded.
  exchanged-Tried :
      (c : Cause) (g : ℕ) (b : Bool) (es : Env (Transfer Q W T)) (s : Transfer Q W T)
      → State-beq s.value.state ready ≡ b
      → Fit (receiving c) g es s
      → let st = s.value.state in
        let x : Result State State × State = if b then (ok st, taken) else (err st, st) in
        let m : M (Transfer Q W T) (Option (Result T TryRecvError)) =
          StateCell.take_exchanged value_field x.0 >>= λ y. pure (received y) in
        let r = m es (record s { value = record s.value { state = x.1 } }) in Tried c g r.0 r.2 r.1
  unfolding StateCell.take_exchanged
  exchanged-Tried c g true es s e h = received-Tried c g _ _ _
  exchanged-Tried c g false es s e h = failed-Tried c g s.value.state es s refl e h

  try_recv-Tried :
      (c : Cause) (g : ℕ) (es : Env (Transfer Q W T)) (s : Transfer Q W T)
      → Fit (receiving c) g es s
      → let r = OneshotCell.try_recv value_field es s in Tried c g r.0 r.2 r.1
  unfolding OneshotCell.try_recv StateCell.compare_take
  try_recv-Tried c g es s h = exchanged-Tried c g _ _ _ refl (Fit-interfere (receiving c) g es s h)

  recv_round-Leaves :
      (c : Cause) (u : Unit {0}) (es : Env (Transfer Q W T)) (s : Transfer Q W T)
      → Always u
      → Fit (receiving c) 0 es s
      → Leaves (receiving c) Always IsPending (recv_round {T = T} (from_waker w) u es s)
  unfolding recv_round Notifier.guard
  recv_round-Leaves c u es s i h =
      let (s1, es1) = interfere es s in
      let (d, f, le, b) = Fit-interfere (receiving c) 0 es s h in
      let g = s1.notify_rx.generation in
      recv_tried-Leaves c _ _ _ _ (try_recv-Tried c g es1 s1 (d, f, omega arith, b))

  -- A task that `recv` tells to wait is not forgotten: if the value is in the cell, or the sender has
  -- gone, once the sender has done what it has begun, then the task has been woken; and it is known
  -- to the notifier in any case. The sender does what it likes before and during the poll and after
  -- it, if it notifies after it has stored the value or gone, no waker is dropped unwoken, and the
  -- count of notifications does not wrap.
  pub transfer_recv_misses_nothing :
      (c : Cause) (d : Debt) (es : Env (Transfer Q W T)) (s : Transfer Q W T)
      → Fair (receiving c) d es
      → s.notify_rx.generation + length es < usize_mod
      → (recv {T = T} (from_waker w) es s).0 ≡ some (some PollRecv.pending)
      → let r = recv {T = T} (from_waker w) es s in Served (receiving c) r.2 r.1
  unfolding recv
  transfer_recv_misses_nothing c d es s f b e =
      retry-Served (receiving c) Always IsPending (recv_round (from_waker w)) (recv_round-Leaves c)
        tt es s (some PollRecv.pending) tt (d, f, omega arith, b) e tt
