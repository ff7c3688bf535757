-- ===== src/Channels/Dispatch/Race.antt =====
-- The dispatch channel when its last sender sends and is dropped during a poll of the receiver.
use postage_rs.Prelude.{◌<◌, ◌≡◌, refl, ap, ◌∙◌, some, [], ◌∷◌, arith}
use postage_rs.Context.{Context}
use postage_rs.Queues.{SegQueue, ArrayQueue}
use postage_rs.Concurrent.Loop.{break, retry-break}
use postage_rs.Stream.{PollRecv}
use postage_rs.Sync.Alone.{sender_drop-alone}
use postage_rs.Channels.BoundedQueue
use postage_rs.Channels.BoundedQueue.{BoundedQueue}
use postage_rs.Channels.Dispatch.{
  Channel, poll_send, poll_recv, poll_recv_round, recv_wait, drop_sender,
}
use postage_rs.Channels.Dispatch.Refine.{
  view, poll_send_refines, poll_recv_refines, view-without_sender,
}

module _ {Q W AQ T : Type 0} ⦃sq : SegQueue Q W⦄ ⦃aq : ArrayQueue AQ T⦄ (v : T) where
  -- The sender's last value, and its end.
  unfoldable pub send_and_drop : Context W → Channel Q W AQ → Channel Q W AQ
  send_and_drop cx s = (drop_sender [] (poll_send cx v [] s).1).1

  -- The channel has room, a receiver, one sender, and no value.
  pub record IsLastChance (s : Channel Q W AQ) : Type 0 where
    pub nothing : aq.contents s.extension.queue ≡ []
    pub room : 0 < aq.capacity s.extension.queue
    pub one_sender : s.sender_count.count ≡ 1
    pub receiver : 0 < s.receiver_count.count

  view-send_and_drop :
      (cx : Context W) (s : Channel Q W AQ)
      → view (send_and_drop cx s) ≡ BoundedQueue.remove_sender (BoundedQueue.send cx v (view s)).1
  unfolding send_and_drop drop_sender
  view-send_and_drop cx s =
      ap (λ r. view r.1) (sender_drop-alone (poll_send cx v [] s).1)
      ∙ view-without_sender (poll_send cx v [] s).1
      ∙ ap BoundedQueue.remove_sender (poll_send_refines cx v s).1

  last_view :
      (cx : Context W) (s : Channel Q W AQ)
      → IsLastChance s
      → (aq.contents (send_and_drop cx s).extension.queue ≡ v ∷ [])
        × ((send_and_drop cx s).sender_count.count ≡ 0)
  last_view cx s h = ground (arith, view-send_and_drop cx s, items, count)
    where
      b : BoundedQueue W T
      b = BoundedQueue.remove_sender (BoundedQueue.send cx v (view s)).1

      items : b.items ≡ v ∷ []
      items = unfold BoundedQueue.remove_sender BoundedQueue.send in ground (arith, h.nothing)

      count : b.senders ≡ 0
      count = unfold BoundedQueue.remove_sender BoundedQueue.send in ground (arith, h.nothing)

  race_round :
      (cx cx' : Context W) (s : Channel Q W AQ)
      → IsLastChance s
      → let r = poll_recv_round {T = T} cx tt ((λ x. x) ∷ (λ x. x) ∷ send_and_drop cx' ∷ []) s in
        (r.0 ≡ break PollRecv.closed) × (r.1 ≡ send_and_drop cx' s) × (r.2 ≡ [])
  unfolding poll_recv_round recv_wait
  race_round cx cx' s h =
      ground (arith, aq.pop_empty s.extension.queue h.nothing, last_view cx' s h)

  next_ready :
      (cx : Context W) (s : Channel Q W AQ)
      → aq.contents s.extension.queue ≡ v ∷ []
      → (poll_recv cx [] s).0 ≡ some (PollRecv.ready v)
  unfolding BoundedQueue.recv
  next_ready cx s e =
      (poll_recv_refines cx s).0 ∙ ap (λ l. some (BoundedQueue.recv_from cx l (view s)).0) e

  -- `poll_recv` returns `closed`, the value that was accepted stays in the queue, and the next
  -- `poll_recv` returns it: a stream that has ended goes on. This holds of every channel with room, one
  -- sender, a receiver and an empty queue, if the sender sends and is dropped between the look into
  -- the queue and the look at the count of senders.
  pub dispatch_poll_recv_ends_early :
      (cx cx' : Context W) (s : Channel Q W AQ)
      → IsLastChance s
      → let r = poll_recv {T = T} cx ((λ x. x) ∷ (λ x. x) ∷ send_and_drop cx' ∷ []) s in
        (r.0 ≡ some PollRecv.closed)
        × (aq.contents r.1.extension.queue ≡ v ∷ [])
        × ((poll_recv cx [] r.1).0 ≡ some (PollRecv.ready v))
  unfolding poll_recv
  dispatch_poll_recv_ends_early cx cx' s h =
      let early = (λ (x : Channel Q W AQ). x) ∷ (λ x. x) ∷ send_and_drop cx' ∷ [] in
      let (e, e', _) = race_round cx cx' s h in
      let (left, _) = last_view cx' s h in
      rw (retry-break (poll_recv_round {T = T} cx) tt PollRecv.closed early s e)
        (refl, rw e' left, rw e' (next_ready cx (send_and_drop cx' s) left))
