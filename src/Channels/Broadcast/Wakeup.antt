-- ===== src/Channels/Broadcast/Wakeup.antt =====
-- Who waits on a broadcast channel is woken, by undisturbed calls.
use postage_rs.Prelude.{
  ℕ, zero, suc, ◌+◌, ◌-◌, ◌%◌, ◌<◌, ◌≤◌, ◌≡◌, refl, sym, ap, ◌∙◌, some, List, [], ◌∷◌, true, false,
  if◌then◌else◌, arith, get_elem?, set, All, All-imp, length-set, Elem, eqb, eqb_self, All-set,
  get_elem?_lt,
}
use native.Mathlib.Nat.{add-mod_right}
use postage_rs.Context.{Context, from_waker}
use postage_rs.Queues.{SegQueue}
use postage_rs.Sink.{PollSend}
use postage_rs.Sync.Notifier.{Notifier}
use postage_rs.Sync.Notifier.Alone.{notified}
use postage_rs.Sync.Notifier.Waiting.{Known-push, notified-wakes}
use postage_rs.Sync.MpmcCircularBuffer.{MpmcCircularBuffer, get_slot-with_slot}
use postage_rs.Sync.MpmcCircularBuffer.Slot.{Slot}
use postage_rs.Sync.MpmcCircularBuffer.Slot.Alone.{
  subscribed, write_subscribed, release_subscribed, read_by_one,
}
use postage_rs.Sync.MpmcCircularBuffer.Alone.{slot_of, change_slot, written}
use postage_rs.Sync.MpmcCircularBuffer.Invariant.{IsValid, change_slot-IsValid, past}
use postage_rs.Sync.MpmcCircularBuffer.Writing.{is_behind, head-slot, not-is_behind, past-All}
use postage_rs.Sync.MpmcCircularBuffer.Reading.{past-set, reader-Within}
use postage_rs.Channels.Broadcast.{Channel, poll_send, poll_recv}
use postage_rs.Channels.Broadcast.Handlers.{
  poll_send-waits, poll_send-writes, poll_recv-reads, poll_recv-waits, waited,
}

module _ {Q W : Type 0} ⦃sq : SegQueue Q W⦄ (w : W) where
  subscribed-wakes : (n : Notifier Q W) → Elem w (notified (subscribed (from_waker w) n)).woken
  subscribed-wakes n = notified-wakes w (subscribed (from_waker w) n) (Known-push w n)

module _ {Q W T : Type 0} ⦃sq : SegQueue Q W⦄ (w : W) where
  written_waited :
      (v : T) (b : MpmcCircularBuffer Q W T)
      → (slot_of
          (written (change_slot b b.head (write_subscribed (from_waker w))) v)
          b.head).on_write
        ≡ notified (subscribed (from_waker w) (slot_of b b.head).on_write)
  written_waited v b =
      ap (λ x. x.on_write)
        (get_slot-with_slot (b.head % b.len) _
          (change_slot b b.head (write_subscribed (from_waker w))).slots)
      ∙ ap (λ x. notified x.on_write)
          (get_slot-with_slot (b.head % b.len) (write_subscribed (from_waker w) (slot_of b b.head))
            b.slots)

  -- In a valid buffer, none of whose readers is behind by its length, and with a receiver: when a
  -- receiver that has read everything polls, and then a send follows, both undisturbed, the send is
  -- accepted, and the slot that the receiver waits on has woken the receiver's task.
  pub broadcast_send-wakes :
      (cx : Context W) (v : T) (s : Channel Q W T) (items : List T) (ps : List ℕ)
      → IsValid s.extension items ps
      → 0 < s.receiver_count.count
      → is_behind s.extension.len s.extension.head ps ≡ false
      → let a = poll_recv (from_waker w) (record { index = s.extension.head }) [] s in
        let b = poll_send cx v [] a.1 in
        (b.0 ≡ some PollSend.ready) × Elem w (slot_of b.1.extension s.extension.head).on_write.woken
  broadcast_send-wakes cx v s items ps valid h room =
      let b = s.extension in
      let f : Slot Q W T → Slot Q W T = write_subscribed (from_waker w) in
      rw
        (
          poll_recv-waits (from_waker w) s items ps valid (record { index = b.head }) refl,
          poll_send-writes cx (waited (from_waker w) s items ps valid b.head) items ps
              (change_slot-IsValid b items ps valid b.head f (λ x. (refl, refl, refl))) v h room,
        )
        (refl, rw (written_waited v b) (subscribed-wakes w (slot_of b b.head).on_write))

-- The read that lets the slot at the head go.
last_behind :
    (n h : ℕ) (ps : List ℕ) (i p : ℕ)
    → get_elem? ps i ≡ some p
    → is_behind n h ps ≡ true
    → is_behind n h (set ps i (p + 1)) ≡ false
    → p + n ≤ h
last_behind n h [] i p e k k' = cc
last_behind n h (q ∷ ps) zero p e k k' = ground (arith, e)
last_behind n h (q ∷ ps) (suc i) p e k k' = ground (arith, last_behind n h ps i p e)

module _ {Q W T : Type 0} ⦃sq : SegQueue Q W⦄ (w : W) (b : MpmcCircularBuffer Q W T)
    (items : List T) (ps : List ℕ) (i p : ℕ) (valid : IsValid b items ps)
    (at : get_elem? ps i ≡ some p) (behind : is_behind b.len b.head ps ≡ true)
    (room : is_behind b.len b.head (set ps i (p + 1)) ≡ false) where
  at_last : p + b.len ≡ b.head
  at_last =
      omega (
        arith,
        last_behind b.len b.head ps i p at behind room,
        reader-Within b items ps valid i p at,
      )

  -- The slot at the head then has all the reads that it needs.
  last_read : b.readers ≤ 1 + (slot_of b b.head).reads
  last_read = omega (
    arith,
    valid.readers,
    (head-slot b items ps valid).1
        (omega (arith, at_last, valid.head, reader-Within b items ps valid i p at)),
    ap (λ k. past k ps) counted,
    past-set p ps i p at,
    if_self,
    past-All p (set ps i (p + 1)) after,
    length-set ps i (p + 1),
  )
    where
      counted : b.head - b.len ≡ p
      counted = omega (arith, at_last)

      if_self : ◌≡◌ {A = ℕ} (if eqb p p then 1 else 0) 1
      if_self = rw (eqb_self p)

      after : All (λ q. p < q) (set ps i (p + 1))
      after =
          All-imp _ _ (λ q h. omega (arith, h, at_last)) (set ps i (p + 1))
            (not-is_behind b.len b.head (set ps i (p + 1)) room (
              All-set (λ q. (0 < q) × (q ≤ b.head)) ps i (p + 1)
                (All-imp _ _ (λ q h. (h.0, h.1)) ps valid.within)
                (omega arith, omega (arith, at_last, valid.two))))

  read_released :
      let b' = change_slot b b.head (release_subscribed (from_waker w)) in
      (slot_of (change_slot b' p (read_by_one b.readers)) b.head).on_release
      ≡ notified (subscribed (from_waker w) (slot_of b b.head).on_release)
  read_released =
      let b' = change_slot b b.head (release_subscribed (from_waker w)) in
      rw same (
        ap (λ x. x.on_release)
          (get_slot-with_slot (b.head % b.len) (read_by_one b.readers (slot_of b' b.head)) b'.slots)
        ∙ ap (λ x. (read_by_one b.readers x).on_release)
            (get_slot-with_slot (b.head % b.len)
              (release_subscribed (from_waker w) (slot_of b b.head)) b.slots)
        ∙ ground (arith, last_read))
    where
      same : p % b.len ≡ b.head % b.len
      same = sym (add-mod_right p b.len) ∙ ap (λ k. k % b.len) at_last

module _ {Q W T : Type 0} ⦃sq : SegQueue Q W⦄ (w : W) where
  -- In a valid buffer, one of whose readers is behind by its length: when a sender polls, and then the
  -- receiver of index `i` and position `p` reads, after which no reader is behind by the length, both
  -- undisturbed, the sender is told to wait, and the slot that it waits on has woken the sender's task.
  pub broadcast_recv-wakes :
      (cx : Context W) (v : T) (s : Channel Q W T) (items : List T) (ps : List ℕ) (i p : ℕ)
      → IsValid s.extension items ps
      → 0 < s.receiver_count.count
      → get_elem? ps i ≡ some p
      → is_behind s.extension.len s.extension.head ps ≡ true
      → is_behind s.extension.len s.extension.head (set ps i (p + 1)) ≡ false
      → let a = poll_send (from_waker w) v [] s in
        let b = poll_recv cx (record { index = p }) [] a.1 in
        (a.0 ≡ some (PollSend.pending v))
        × Elem w (slot_of b.1.extension s.extension.head).on_release.woken
  broadcast_recv-wakes cx v s items ps i p valid h at behind room =
      let b = s.extension in
      let f : Slot Q W T → Slot Q W T = release_subscribed (from_waker w) in
      let (v', e) = get_elem?_lt items (p - 1) (
        omega (
          arith,
          valid.head,
          at_last w b items ps i p valid at behind room,
          valid.two,
          reader-Within b items ps valid i p at,
        )) in
      rw
        (
          poll_send-waits (from_waker w) s items ps valid v h behind,
          poll_recv-reads cx (record s { extension = change_slot b b.head f }) items ps
              (change_slot-IsValid b items ps valid b.head f (λ x. (refl, refl, refl))) i
              (record { index = p }) v' at
              (omega (arith, at_last w b items ps i p valid at behind room, valid.two)) e,
        )
        (
          refl,
          rw (read_released w b items ps i p valid at behind room)
              (subscribed-wakes w (slot_of b b.head).on_release),
        )
