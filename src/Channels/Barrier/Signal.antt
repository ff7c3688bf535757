-- ===== src/Channels/Barrier/Signal.antt =====
-- The barrier's signal: who waits for it is woken by it, and who comes later sees it.
use postage_rs.Prelude.{◌≡◌, refl, [], Elem}
use postage_rs.Context.{Context, from_waker}
use postage_rs.Queues.{SegQueue}
use postage_rs.Concurrent.{Env, interfere, pure, ◌>>=◌}
use postage_rs.Concurrent.Atomic.{load}
use postage_rs.Concurrent.Rely.{Relies, Triple, Triple-atomic, Triple-bind}
use postage_rs.Concurrent.Fair.{
  Waiter, Fair, Debt, Served, Fair-interfere, known-Fair, unready-Served,
}
use postage_rs.Stream.{PollRecv}
use postage_rs.Sink.{PollSend}
use postage_rs.Sync.Notifier
use postage_rs.Sync.Notifier.{Notifier}
use postage_rs.Sync.Notifier.Alone.{notified, notify-alone}
use postage_rs.Sync.Notifier.Waiting.{Known, Known-push, notified-wakes}
use postage_rs.Channels.Barrier.{
  Barrier, State, pending, sent, state_field, notify_rx_field, received, recv_loaded, poll_recv,
  poll_send, close, drop_sender,
}

module _ {Q W : Type 0} ⦃sq : SegQueue Q W⦄ (w : W) where
  -- What the other threads must respect: a signal that was sent stays sent, and no waker is dropped
  -- unwoken.
  pub record IsAllowed (s t : Barrier Q W) : Type 0 where
    pub keeps_sent : s.state ≡ sent → t.state ≡ sent
    pub keeps_known : Known w s.notify_rx → Known w t.notify_rx

  -- What the result of a poll says.
  abbrev pub Promise : PollRecv (Unit {0}) → Barrier Q W → Type 0
  Promise (PollRecv.ready _) s = s.state ≡ sent
  Promise PollRecv.pending s = Known w s.notify_rx
  Promise PollRecv.closed s = ⊥

  SeenSent : State → Barrier Q W → Type 0
  SeenSent st s = st ≡ sent → s.state ≡ sent

  after_second_load :
      (st : State)
      → Triple IsAllowed (λ s. Known w s.notify_rx × SeenSent st s) (pure (received st)) Promise
  unfolding received SeenSent
  after_second_load sent es s r h = (h.1 refl, r)
  after_second_load pending es s r h = (h.0, r)

  subscribe-Triple :
      Triple IsAllowed
        (λ _. Unit)
        (Notifier.subscribe notify_rx_field (from_waker w))
        (λ _ s. Known w s.notify_rx)
  unfolding Notifier.subscribe
  subscribe-Triple =
      Triple-atomic IsAllowed (λ _. Unit)
        (λ s. (
          tt,
          record s { notify_rx = record s.notify_rx { wakers = sq.push w s.notify_rx.wakers } },
        ))
        (λ _ s. Known w s.notify_rx) (λ s t a h. tt) (λ s h. Known-push w s.notify_rx)

  load-Triple :
      (P : Barrier Q W → Type 0)
      → ((s t : Barrier Q W) → IsAllowed s t → P s → P t)
      → Triple IsAllowed P (load state_field) (λ st s. P s × SeenSent st s)
  unfolding SeenSent
  load-Triple P stable =
      Triple-atomic IsAllowed P _ (λ st s. P s × (st ≡ sent → s.state ≡ sent)) stable
        (λ s h. (h, λ e. e))

  after_load :
      (st : State)
      → Triple IsAllowed (λ s. Unit × SeenSent st s) (recv_loaded (from_waker w) st) Promise
  unfolding recv_loaded SeenSent
  after_load sent es s r h = (h.1 refl, r)
  after_load pending es s r h =
      Triple-bind IsAllowed (λ _. Unit) (Notifier.subscribe notify_rx_field (from_waker w))
        (λ _. load state_field >>= λ st. pure (received st)) (λ _ s. Known w s.notify_rx) Promise
        subscribe-Triple
        (λ _.
          Triple-bind IsAllowed (λ s. Known w s.notify_rx) (load state_field)
            (λ st. pure (received st)) (λ st s. Known w s.notify_rx × SeenSent st s) Promise
            (load-Triple _ (λ s t a. a.keeps_known)) after_second_load)
        es s r tt

  -- A task that waits for the signal.
  abbrev pub receiving : Waiter (Barrier Q W)
  receiving = record {
    known = λ s. Known w s.notify_rx;
    woken = λ s. Elem w s.notify_rx.woken;
    generation = λ s. s.notify_rx.generation;
    ready = λ s. s.state ≡ sent;
  }

  ServedIfPending : PollRecv (Unit {0}) → Env (Barrier Q W) → Barrier Q W → Type 0
  ServedIfPending PollRecv.pending es s = Served receiving es s
  ServedIfPending _ es s = Unit

  received-Served :
      (st : State) (d : Debt) (es : Env (Barrier Q W)) (s : Barrier Q W)
      → st ≡ s.state
      → Fair receiving d es
      → Known w s.notify_rx
      → ServedIfPending (received st) es s
  unfolding received ServedIfPending
  received-Served sent d es s e f k = tt
  received-Served pending d es s e f k = unready-Served receiving d es s f k (λ h. cc)

  recv_loaded-Served :
      (st : State) (d : Debt) (es : Env (Barrier Q W)) (s : Barrier Q W)
      → Fair receiving d es
      → let r = recv_loaded (from_waker w) st es s in ServedIfPending r.0 r.2 r.1
  unfolding recv_loaded Notifier.subscribe ServedIfPending
  recv_loaded-Served sent d es s f = tt
  recv_loaded-Served pending d es s f =
      let (s1, es1) = interfere es s in
      let (d1, f1) = Fair-interfere receiving d es s f in
      let s2 : Barrier Q W = record s1 {
        notify_rx = record s1.notify_rx { wakers = sq.push w s1.notify_rx.wakers };
      } in
      let (d2, f2) = Fair-interfere receiving d1 es1 s2 f1 in
      received-Served _ d2 _ _ refl f2
        (known-Fair receiving d1 es1 s2 f1 (Known-push w s1.notify_rx))

  served :
      (p : PollRecv (Unit {0})) (es : Env (Barrier Q W)) (s : Barrier Q W)
      → ServedIfPending p es s
      → p ≡ PollRecv.pending
      → Served receiving es s
  unfolding ServedIfPending
  served PollRecv.pending es s h e = h
  served (PollRecv.ready v) es s h e = cc
  served PollRecv.closed es s h e = cc

  -- Whatever the other threads do, as long as a signal stays sent, no waker is dropped unwoken, and
  -- who sends the signal notifies afterwards: a receiver that is given `ready` has its signal sent,
  -- no receiver is told that the stream has ended, and a receiver that is told to wait misses no
  -- signal: it is known to the notifier, and if the signal is sent once the other threads have done
  -- what they have begun, it has been woken.
  pub barrier_poll_recv-Promise :
      (d : Debt) (es : Env (Barrier Q W)) (s : Barrier Q W)
      → Relies IsAllowed es
      → Fair receiving d es
      → let r = poll_recv (from_waker w) es s in
        Promise r.0 r.1 × (r.0 ≡ PollRecv.pending → Served receiving r.2 r.1)
  unfolding poll_recv
  barrier_poll_recv-Promise d es s r f =
      let (d1, f1) = Fair-interfere receiving d es s f in
      (
        (Triple-bind IsAllowed (λ _. Unit) (load state_field) (recv_loaded (from_waker w))
            (λ st s. Unit × SeenSent st s) Promise (load-Triple _ (λ s t a h. tt)) after_load es s r
            tt).0,
        served _ _ _ (recv_loaded-Served _ d1 _ _ f1),
      )

module _ {Q W : Type 0} ⦃sq : SegQueue Q W⦄ where
  abbrev signalled : Barrier Q W → Barrier Q W
  signalled s = record s { state = sent; notify_rx = notified s.notify_rx }

  close-alone : (s : Barrier Q W) → close [] s ≡ (tt, signalled s, [])
  unfolding close
  close-alone s = notify-alone notify_rx_field (record s { state = sent })

  -- What follows a signal.
  pub record IsSignalled (w : W) (s : Barrier Q W) : Type 0 where
    pub wakes : Elem w s.notify_rx.woken
    pub received_now : (cx : Context W) → poll_recv cx [] s ≡ (PollRecv.ready tt, s, [])
    pub rejects : (cx : Context W) → poll_send cx [] s ≡ (PollSend.rejected tt, s, [])

  signalled-IsSignalled :
      (w : W) (s : Barrier Q W) → Known w s.notify_rx → IsSignalled w (signalled s)
  unfolding poll_recv poll_send
  signalled-IsSignalled w s h = record {
    wakes = notified-wakes w s.notify_rx h;
    received_now = λ cx. refl;
    rejects = λ cx. refl;
  }

  -- The drop of the sender, undisturbed, wakes every task that is known to the barrier; after it
  -- every poll of a receiver is ready, and every send is rejected.
  pub barrier_drop_signals :
      (w : W) (s : Barrier Q W) → Known w s.notify_rx → IsSignalled w (drop_sender [] s).1
  unfolding drop_sender
  barrier_drop_signals w s h = rw (close-alone s) (signalled-IsSignalled w s h)

  -- The first send, undisturbed, is accepted and does the same.
  pub barrier_send_signals :
      (w : W) (cx : Context W) (s : Barrier Q W)
      → s.state ≡ pending
      → Known w s.notify_rx
      → ((poll_send cx [] s).0 ≡ PollSend.ready) × IsSignalled w (poll_send cx [] s).1
  unfolding poll_send
  barrier_send_signals w cx s e h = rw e (refl, rw (close-alone s) (signalled-IsSignalled w s h))
