-- ===== src/Channels/Broadcast/Race.antt =====
-- The broadcast channel when its last sender sends and is dropped during a poll of a receiver.
use postage_rs.Prelude.{
  ℕ, ◌+◌, ◌-◌, ◌%◌, ◌<◌, ◌≡◌, refl, ap, ◌∙◌, some, List, [], ◌∷◌, ◌++◌, false, arith, length,
  get_elem?, get_elem?-append_last,
}
use postage_rs.Context.{Context, from_waker}
use postage_rs.Queues.{SegQueue}
use postage_rs.Concurrent.{Env, Ref, ◌▸◌}
use postage_rs.Concurrent.Atomic.{usize_mod}
use postage_rs.Concurrent.Loop.{break, retry-settled}
use postage_rs.Stream.{PollRecv}
use postage_rs.Sync.Shared.{extension_field}
use postage_rs.Sync.Notifier
use postage_rs.Sync.ReceiverShared
use postage_rs.Sync.MpmcCircularBuffer
use postage_rs.Sync.MpmcCircularBuffer.{
  MpmcCircularBuffer, BufferReader, slot_at, readers_field, get_slot, read_tried,
}
use postage_rs.Sync.MpmcCircularBuffer.Slot.{Slot, TryRead, read_wait, try_read_round, try_read}
use postage_rs.Sync.MpmcCircularBuffer.Slot.Alone.{write_subscribed, subscribed}
use postage_rs.Sync.Alone.{without_sender_lem, sender_drop-alone}
use postage_rs.Sync.MpmcCircularBuffer.Alone.{change_slot, written}
use postage_rs.Sync.MpmcCircularBuffer.Invariant.{IsValid, change_slot-IsValid}
use postage_rs.Sync.MpmcCircularBuffer.Writing.{
  is_behind, head-slot, readers-in_front, written-IsValid,
}
use postage_rs.Channels.Broadcast.Handlers.{poll_send-writes, poll_recv-reads, waited}
use postage_rs.Channels.Broadcast.{
  Channel, poll_send, poll_recv, recv_tried, recv_wait, drop_sender,
}

module _ {S Q W T : Type 0} ⦃sq : SegQueue Q W⦄ (self : Ref S (Slot Q W T)) (readers : Ref S ℕ)
    (w : W) (index : ℕ) (es : Env S) (s : S) (behind : (self.get s).index < index) where
  read_wait-idle : read_wait self readers index (from_waker w) ((λ x. x) ∷ (λ x. x) ∷ es) s ≡ (
    break (some TryRead.pending),
    self.put (write_subscribed (from_waker w) (self.get s)) s,
    es,
  )
  unfolding read_wait Notifier.subscribe
  read_wait-idle =
      ground (arith, behind, self.get-put (write_subscribed (from_waker w) (self.get s)) s)

  round-idle :
      try_read_round self readers index (from_waker w) tt ((λ x. x) ∷ (λ x. x) ∷ (λ x. x) ∷ es) s
      ≡ (
        break (some TryRead.pending),
        self.put (write_subscribed (from_waker w) (self.get s)) s,
        es,
      )
  unfolding try_read_round
  round-idle = ground (arith, behind, read_wait-idle)

  -- The other threads are idle for the three accesses of a read that waits.
  try_read-idle :
      try_read self readers index (from_waker w) ((λ x. x) ∷ (λ x. x) ∷ (λ x. x) ∷ es) s
      ≡ (some (some TryRead.pending), self.put (write_subscribed (from_waker w) (self.get s)) s, es)
  unfolding try_read
  try_read-idle =
      retry-settled (try_read_round self readers index (from_waker w)) tt (some TryRead.pending)
        ((λ x. x) ∷ (λ x. x) ∷ (λ x. x) ∷ es) es s _ round-idle

module _ {Q W T : Type 0} ⦃sq : SegQueue Q W⦄ (cx : Context W) (v : T) where
  -- The sender's last value, and its end.
  unfoldable pub send_and_drop : Channel Q W T → Channel Q W T
  send_and_drop s = (drop_sender [] (poll_send cx v [] s).1).1

  -- A valid buffer with room, one sender, and a receiver of index `i` that has read everything.
  pub record IsLastChance (s : Channel Q W T) (items : List T) (ps : List ℕ) (i : ℕ) : Type 0 where
    pub valid : IsValid s.extension items ps
    pub at_head : get_elem? ps i ≡ some s.extension.head
    pub room : is_behind s.extension.len s.extension.head ps ≡ false
    pub one_sender : s.sender_count.count ≡ 1
    pub receiver : 0 < s.receiver_count.count
    pub bound : s.extension.head + 1 < usize_mod

  send_and_drop_lem :
      (s : Channel Q W T) (items : List T) (ps : List ℕ) (i : ℕ)
      → IsLastChance s items ps i
      → ((send_and_drop s).extension ≡ written s.extension v)
        × ((send_and_drop s).sender_count.count ≡ 0)
  unfolding send_and_drop drop_sender
  send_and_drop_lem s items ps i h =
      let s' = (poll_send cx v [] s).1 in
      let sends = poll_send-writes cx s items ps h.valid v h.receiver h.room in
      let kept = without_sender_lem s' in
      rw (send_and_drop, drop_sender, sender_drop-alone s')
        (
          kept.0 ∙ ap (λ t. t.1.extension) sends,
          omega (arith, kept.2, ap (λ t. t.1.sender_count.count) sends, h.one_sender),
        )

module _ {Q W T : Type 0} ⦃sq : SegQueue Q W⦄ (w : W) (cx : Context W) (v : T) (s : Channel Q W T)
    (items : List T) (ps : List ℕ) (i : ℕ) (h : IsLastChance cx v s items ps i) where
  reader : BufferReader
  reader = record { index = s.extension.head }

  -- The sender acts between the look into the buffer and the look at the count of senders.
  abbrev early : Env (Channel Q W T)
  early = (λ x. x) ∷ (λ x. x) ∷ (λ x. x) ∷ (λ x. x) ∷ send_and_drop cx v ∷ []

  abbrev waiting : Channel Q W T
  waiting = waited (from_waker w) s items ps h.valid s.extension.head

  waiting-IsLastChance : IsLastChance cx v waiting items ps i
  waiting-IsLastChance = record {
    valid =
        change_slot-IsValid s.extension items ps h.valid s.extension.head
          (write_subscribed (from_waker w)) (λ x. (refl, refl, refl));
    at_head = h.at_head;
    room = h.room;
    one_sender = h.one_sender;
    receiver = h.receiver;
    bound = h.bound;
  }

  recv_wait-early :
      (x : Channel Q W T)
      → let x' = record x { receiver_notify = subscribed (from_waker w) x.receiver_notify } in
        (send_and_drop cx v x').sender_count.count ≡ 0
        → recv_wait (from_waker w) reader ((λ x. x) ∷ send_and_drop cx v ∷ []) x
          ≡ ((some PollRecv.closed, reader), send_and_drop cx v x', [])
  unfolding recv_wait ReceiverShared.is_closed ReceiverShared.subscribe_send Notifier.subscribe
  recv_wait-early x e = ground (arith, e)

  closed_early :
      poll_recv (from_waker w) reader early s
      ≡ ((some PollRecv.closed, reader), send_and_drop cx v waiting, [])
  unfolding poll_recv MpmcCircularBuffer.try_read recv_tried read_tried get_slot reader
  closed_early =
      let k = s.extension.head % s.extension.len in
      ap
        (λ t.
          let (a, s', es) = read_tried extension_field reader t.0 t.2 t.1 in
          recv_tried (from_waker w) a.1 a.0 es s')
        (try_read-idle (extension_field ▸ slot_at k) (extension_field ▸ readers_field) w
          s.extension.head ((λ x. x) ∷ send_and_drop cx v ∷ []) s
          (omega (arith, head-slot s.extension items ps h.valid, h.valid.head, h.valid.two)))
      ∙ recv_wait-early
          (record s {
            extension = change_slot s.extension s.extension.head (write_subscribed (from_waker w));
          })
          (send_and_drop_lem cx v waiting items ps i waiting-IsLastChance).1

  next_ready :
      (cx' : Context W)
      → (poll_recv cx' reader [] (send_and_drop cx v waiting)).0.0 ≡ some (PollRecv.ready v)
  unfolding reader
  next_ready cx' =
      let b : MpmcCircularBuffer Q W T = waiting.extension in
      let (same, _) = send_and_drop_lem cx v waiting items ps i waiting-IsLastChance in
      let valid : IsValid (send_and_drop cx v waiting).extension (items ++ (v ∷ [])) ps = rw same (
        written-IsValid b items ps waiting-IsLastChance.valid v h.bound
          (readers-in_front b items ps waiting-IsLastChance.valid h.room)) in
      ap (λ t. t.0.0)
        (poll_recv-reads cx' (send_and_drop cx v waiting) (items ++ (v ∷ [])) ps valid i reader v
          h.at_head (rw same (omega (arith, h.bound)))
          (ap (λ k. get_elem? (items ++ (v ∷ [])) k) before ∙ get_elem?-append_last items v))
    where
      before : s.extension.head - 1 ≡ length items
      before = omega (arith, h.valid.head)

  -- A receiver that has read everything, with one sender and room in a valid buffer: if the sender
  -- sends and is dropped between the look into the buffer and the look at the count of senders,
  -- `poll_recv` returns `closed`, and the next `poll_recv` returns the value that was sent.
  pub broadcast_poll_recv_ends_early :
      (cx' : Context W)
      → let r = poll_recv (from_waker w) (record { index = s.extension.head }) early s in
        (r.0.0 ≡ some PollRecv.closed)
        × ((poll_recv cx' r.0.1 [] r.1).0.0 ≡ some (PollRecv.ready v))
  unfolding reader
  broadcast_poll_recv_ends_early cx' = rw closed_early (refl, next_ready cx')
