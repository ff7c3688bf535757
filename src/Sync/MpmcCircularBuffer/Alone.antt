-- ===== src/Sync/MpmcCircularBuffer/Alone.antt =====
-- The buffer's reads and writes, undisturbed: what each makes of the buffer.
use postage_rs.Prelude.{
  ℕ, ◌+◌, ◌%◌, ◌<◌, ◌≡◌, sym, ap, ◌∙◌, some, [], eqb, if◌then◌else◌, arith, eqb_self,
}
use postage_rs.Context.{Context}
use postage_rs.Queues.{SegQueue}
use postage_rs.Concurrent.{Ref, ◌▸◌, update-update}
use postage_rs.Concurrent.Atomic.{usize_mod, usize_word}
use postage_rs.Concurrent.Loop.{break, retry-settled}
use postage_rs.Sync.MpmcCircularBuffer.{
  MpmcCircularBuffer, BufferReader, TryWrite, readers_field, slot_at, with_slot, advance_head,
  get_slot, slot_tried, read_tried, try_write_round, try_write, try_read,
}
use postage_rs.Sync.MpmcCircularBuffer.Slot
use postage_rs.Sync.MpmcCircularBuffer.Slot.{Slot, SlotTryWrite, TryRead}
use postage_rs.Sync.MpmcCircularBuffer.Slot.Alone.{
  IsFree, filled, release_subscribed, write_subscribed, read_by_one, write_free, write_waits,
  read_waits, read_ready,
}

module _ {Q W T : Type 0} ⦃sq : SegQueue Q W⦄ (b : MpmcCircularBuffer Q W T) where
  -- The slot of an id, and the buffer with that slot changed.
  abbrev pub slot_of : ℕ → Slot Q W T
  slot_of id = b.slots (id % b.len)

  abbrev pub change_slot : ℕ → (Slot Q W T → Slot Q W T) → MpmcCircularBuffer Q W T
  change_slot id f = record b { slots = with_slot (id % b.len) (f (slot_of id)) b.slots }

  abbrev pub written : T → MpmcCircularBuffer Q W T
  written v = record (change_slot b.head (filled b.head v)) { head = (b.head + 1) % usize_mod }

module _ {S Q W T : Type 0} ⦃sq : SegQueue Q W⦄ (self : Ref S (MpmcCircularBuffer Q W T)) where
  readers-apart :
      (i : ℕ) (x : Slot Q W T) (s : S)
      → (self ▸ readers_field).get ((self ▸ slot_at i).put x s) ≡ (self ▸ readers_field).get s
  readers-apart i x s = rw self.get-put

  abbrev head_put : ℕ → MpmcCircularBuffer Q W T → MpmcCircularBuffer Q W T
  head_put id b = record b { head = if eqb b.head id then (id + 1) % usize_mod else b.head }

  abbrev slot_put : ℕ → Slot Q W T → MpmcCircularBuffer Q W T → MpmcCircularBuffer Q W T
  slot_put i x b = record b { slots = with_slot i x b.slots }

  moved : ℕ → S → S
  moved id s = self.put (head_put id (self.get s)) s

  advance_head-alone : (id : ℕ) (s : S) → advance_head self id [] s ≡ (tt, moved id s, [])
  unfolding advance_head moved
  advance_head-alone id s = ground arith

  moved-put :
      (id i : ℕ) (x : Slot Q W T) (s : S)
      → moved id ((self ▸ slot_at i).put x s) ≡ (self ▸ slot_at i).put x (moved id s)
  unfolding moved
  moved-put id i x s =
      update-update self (slot_put i x) (head_put id) s
      ∙ sym (update-update self (head_put id) (slot_put i x) s)

  put-moved :
      (v : T) (s : S)
      → let b = self.get s in
        (self ▸ slot_at (b.head % b.len)).put (filled b.head v (slot_of b b.head)) (moved b.head s)
        ≡ self.put (written b v) s
  unfolding moved
  put-moved v s = rw (self.get-put, self.put-put, eqb_self (self.get s).head)

  round_free :
      (v : T) (cx : Context W) (s : S)
      → let b = self.get s in
        (slot_of b b.head).index < b.head
        → IsFree (slot_of b b.head) b.readers
        → try_write_round self cx v [] s
          ≡ (break (some TryWrite.ready), self.put (written b v) s, [])
  unfolding try_write_round get_slot slot_tried
  round_free v cx s h free =
      let b = self.get s in
      let i = b.head % b.len in
      ap (λ r. slot_tried self r.0 r.2 r.1)
        (write_free (self ▸ slot_at i) (self ▸ readers_field) (readers-apart i)
          (advance_head self b.head) (moved b.head) (advance_head-alone b.head) (moved-put b.head i)
          b.head v cx s h free)
      ∙ ap (λ s'. (break (some TryWrite.ready), s', [])) (put-moved v s)

  -- A write to a slot that is free goes in, and moves the head.
  pub try_write_free :
      (v : T) (cx : Context W) (s : S)
      → let b = self.get s in
        (slot_of b b.head).index < b.head
        → IsFree (slot_of b b.head) b.readers
        → try_write self v cx [] s ≡ (some (some TryWrite.ready), self.put (written b v) s, [])
  unfolding try_write
  try_write_free v cx s h free =
      retry-settled (try_write_round self cx) v (some TryWrite.ready) [] [] s _
        (round_free v cx s h free)

  round_waits :
      (v : T) (cx : Context W) (s : S)
      → let b = self.get s in
        let x = slot_of b b.head in
        x.index < b.head
        → 0 < x.index
        → x.reads < b.readers
        → try_write_round self cx v [] s ≡ (
          break (some (TryWrite.pending v)),
          self.put (change_slot b b.head (release_subscribed cx)) s,
          [],
        )
  unfolding try_write_round get_slot slot_tried
  round_waits v cx s h h' h'' =
      let b = self.get s in
      let i = b.head % b.len in
      ap (λ r. slot_tried self r.0 r.2 r.1)
        (write_waits (self ▸ slot_at i) (self ▸ readers_field) (readers-apart i) b.head v cx
          (advance_head self b.head) s h h' h'')

  -- A write to a slot that has readers to come waits.
  pub try_write_waits :
      (v : T) (cx : Context W) (s : S)
      → let b = self.get s in
        let x = slot_of b b.head in
        x.index < b.head
        → 0 < x.index
        → x.reads < b.readers
        → try_write self v cx [] s ≡ (
          some (some (TryWrite.pending v)),
          self.put (change_slot b b.head (release_subscribed cx)) s,
          [],
        )
  unfolding try_write
  try_write_waits v cx s h h' h'' =
      retry-settled (try_write_round self cx) v (some (TryWrite.pending v)) [] [] s _
        (round_waits v cx s h h' h'')

  -- A read of an id that its slot has not reached waits.
  pub try_read_waits :
      (cx : Context W) (r : BufferReader) (s : S)
      → let b = self.get s in
        (slot_of b r.index).index < r.index
        → try_read self cx r [] s ≡ (
          (some (some TryRead.pending), r),
          self.put (change_slot b r.index (write_subscribed cx)) s,
          [],
        )
  unfolding try_read get_slot read_tried
  try_read_waits cx r s h =
      let i = r.index % (self.get s).len in
      ap (λ t. read_tried self r t.0 t.2 t.1)
        (read_waits (self ▸ slot_at i) (self ▸ readers_field) (readers-apart i) r.index cx s h)

  -- A read of the id of its slot gives the value, and moves the reader.
  pub try_read_ready :
      (v : T) (cx : Context W) (r : BufferReader) (s : S)
      → let b = self.get s in
        (slot_of b r.index).index ≡ r.index
        → (slot_of b r.index).data_cell ≡ some v
        → try_read self cx r [] s ≡ (
          (some (some (TryRead.ready v)), record { index = (r.index + 1) % usize_mod }),
          self.put (change_slot b r.index (read_by_one b.readers)) s,
          [],
        )
  unfolding try_read get_slot read_tried
  try_read_ready v cx r s h h' =
      let i = r.index % (self.get s).len in
      ap (λ t. read_tried self r t.0 t.2 t.1)
        (ap (λ k. Slot.try_read (self ▸ slot_at i) (self ▸ readers_field) k cx [] s) (sym h)
          ∙ read_ready (self ▸ slot_at i) (self ▸ readers_field) (readers-apart i) v cx s h')
