-- ===== src/Channels/Mpsc/Refine.antt =====
-- The mpsc channel, one handler at a time, behaves as the bounded queue that it shows.
use postage_rs.Prelude.{
  ◌<◌, ◌≤◌, ◌≡◌, refl, Option, none, some, List, [], ◌∷◌, arith, length, ◌⊎◌, inl, inr, ◌++◌,
  Option-cases,
}
use native.Mathlib.Decide.{dec_lt}
use postage_rs.Context.{Context}
use postage_rs.Queues.{SegQueue, ArrayQueue}
use postage_rs.Concurrent.Loop.{break, retry-break}
use postage_rs.Sync.Notifier.Alone.{notified_lem}
use postage_rs.Sync.Alone.{
  without_sender, without_receiver, notify_receivers-alone, notify_senders-alone,
}
use postage_rs.Channels.BoundedQueue
use postage_rs.Channels.BoundedQueue.{BoundedQueue, wait_list}
use postage_rs.Channels.Mpsc.{
  Channel, poll_send, poll_send_round, poll_recv, poll_recv_round, recv_wait, send_wait,
}

module _ {AQ : Type 0} (T : Type 0) ⦃aq : ArrayQueue AQ T⦄ where
  pub room_or_full :
      (q : AQ) → (length (aq.contents q) < aq.capacity q) ⊎ (aq.capacity q ≤ length (aq.contents q))
  room_or_full q = elim (dec_lt (length (aq.contents q)) (aq.capacity q)) [
    | yes h ↦ inl h
    | no h ↦ inr (omega arith)
  ]

module _ {Q W : Type 0} ⦃sq : SegQueue Q W⦄ where
  -- The contents of the queue of wakers after a `subscribe`.
  pub waiting :
      (cx : Context W) (q : Q)
      → sq.contents (elim cx.waker [ none ↦ q | some w ↦ sq.push w q ])
        ≡ elim cx.waker [ none ↦ sq.contents q | some w ↦ sq.contents q ++ (w ∷ []) ]
  waiting cx q = elim (Option-cases cx.waker) [
    | inl e ↦ ground arith
    | inr (w, e) ↦ ground (arith, sq.contents-push w q)
  ]

module _ {Q W AQ T : Type 0} ⦃sq : SegQueue Q W⦄ ⦃aq : ArrayQueue AQ T⦄ where
  abbrev pub view : Channel Q W AQ → BoundedQueue W T
  view s = record {
    items = aq.contents s.extension.queue;
    capacity = aq.capacity s.extension.queue;
    senders = s.sender_count.count;
    receivers = s.receiver_count.count;
    sending = wait_list s.sender_notify;
    receiving = wait_list s.receiver_notify;
  }

  -- An undisturbed handler returns, and gives the reply and the next view that `b` describes.
  abbrev pub Gives :
      {A : Type 0}
      → Option A × Channel Q W AQ × List (Channel Q W AQ → Channel Q W AQ)
      → A × BoundedQueue W T
      → Type 0
  Gives r b = (r.0 ≡ some b.0) × (view r.1 ≡ b.1) × (r.2 ≡ [])

  pub poll_send_round-gives :
      (cx : Context W) (v : T) (s : Channel Q W AQ)
      → let r = poll_send_round cx v [] s in
        let b = BoundedQueue.send cx v (view s) in (r.0 ≡ break b.0) × (view r.1 ≡ b.1) × (r.2 ≡ [])
  unfolding poll_send_round send_wait BoundedQueue.send
  poll_send_round-gives cx v s = elim (room_or_full T s.extension.queue) [
    | inl room ↦ ground (
      arith,
      aq.push_room v s.extension.queue,
      notify_receivers-alone
          (record s { extension = record { queue = (aq.push v s.extension.queue).1 } }),
      notified_lem s.receiver_notify,
    )
    | inr full ↦ ground (arith, aq.push_full v s.extension.queue, waiting cx s.sender_notify.wakers)
  ]

  -- `poll_send` returns what sending to the bounded queue returns, and leaves the channel showing
  -- the bounded queue after it.
  pub poll_send_refines :
      (cx : Context W) (v : T) (s : Channel Q W AQ)
      → Gives (poll_send cx v [] s) (BoundedQueue.send cx v (view s))
  unfolding poll_send
  poll_send_refines cx v s =
      let (e, h, h') = poll_send_round-gives cx v s in
      rw (retry-break (poll_send_round cx) v (BoundedQueue.send cx v (view s)).0 [] s e)
        (refl, h, h')

  pub poll_recv_round-gives :
      (cx : Context W) (s : Channel Q W AQ) (items : List T)
      → aq.contents s.extension.queue ≡ items
      → let r = poll_recv_round {T = T} cx tt [] s in
        let b = BoundedQueue.recv cx (view s) in (r.0 ≡ break b.0) × (view r.1 ≡ b.1) × (r.2 ≡ [])
  unfolding poll_recv_round recv_wait BoundedQueue.recv
  poll_recv_round-gives cx s (v ∷ vs) e = ground (
    arith,
    aq.pop_first s.extension.queue v vs e,
    notify_senders-alone (record s { extension = record { queue = (aq.pop s.extension.queue).1 } }),
    notified_lem s.sender_notify,
  )
  poll_recv_round-gives cx s [] e =
      ground (arith, aq.pop_empty s.extension.queue e, waiting cx s.receiver_notify.wakers)

  -- The same of `poll_recv`.
  pub poll_recv_refines :
      (cx : Context W) (s : Channel Q W AQ)
      → Gives (poll_recv cx [] s) (BoundedQueue.recv cx (view s))
  unfolding poll_recv
  poll_recv_refines cx s =
      let (e, h, h') = poll_recv_round-gives cx s (aq.contents s.extension.queue) refl in
      rw (retry-break (poll_recv_round {T = T} cx) tt (BoundedQueue.recv cx (view s)).0 [] s e)
        (refl, h, h')

  pub view-without_sender :
      (s : Channel Q W AQ) → view (without_sender s) ≡ BoundedQueue.remove_sender (view s)
  unfolding without_sender BoundedQueue.remove_sender
  view-without_sender s = ground (arith, notified_lem s.receiver_notify)

  pub view-without_receiver :
      (s : Channel Q W AQ) → view (without_receiver s) ≡ BoundedQueue.remove_receiver (view s)
  unfolding without_receiver BoundedQueue.remove_receiver
  view-without_receiver s = ground (arith, notified_lem s.sender_notify)
