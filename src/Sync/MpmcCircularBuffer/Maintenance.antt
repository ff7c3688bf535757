-- ===== src/Sync/MpmcCircularBuffer/Maintenance.antt =====
-- The coming and going of readers, undisturbed: what each makes of the buffer.
use postage_rs.Prelude.{
  ℕ, zero, suc, ◌+◌, ◌-◌, ◌%◌, ◌≡◌, ap, ◌∙◌, sym, [], ltb, leb, ◌&&◌, if◌then◌else◌, arith,
}
use postage_rs.Queues.{SegQueue}
use postage_rs.Concurrent.{M, Ref, ◌▸◌, ◌>>◌, update-update}
use postage_rs.Concurrent.Atomic.{usize_mod, fetch_sub}
use postage_rs.Sync.MpmcCircularBuffer.{
  MpmcCircularBuffer, BufferReader, readers_field, slot_at, with_slot, each_slot, for_slots,
  mark_read_in_range, new_reader, clone_with, drop_with,
}
use postage_rs.Sync.MpmcCircularBuffer.Slot.{
  Slot, decrement_read_in_range, notify_readers_decreased,
}
use postage_rs.Sync.MpmcCircularBuffer.Slot.Maintenance.{
  marked, unread, released, mark-alone, decrement-alone, notify_decreased-alone,
}

module _ {Q W T : Type 0} where
  abbrev slots_from : ℕ → ℕ → (Slot Q W T → Slot Q W T) → (ℕ → Slot Q W T) → ℕ → Slot Q W T
  slots_from i n g slots j = if leb i j && ltb j (i + n) then g (slots j) else slots j

  slots_from-zero :
      (i : ℕ) (g : Slot Q W T → Slot Q W T) (slots : ℕ → Slot Q W T) (j : ℕ)
      → slots_from i 0 g slots j ≡ slots j
  slots_from-zero i g slots j = ground arith

  slots_from-suc :
      (i n : ℕ) (g : Slot Q W T → Slot Q W T) (slots : ℕ → Slot Q W T) (j : ℕ)
      → slots_from (i + 1) n g (with_slot i (g (slots i)) slots) j ≡ slots_from i (suc n) g slots j
  slots_from-suc i n g slots j = ground arith

  -- The buffer with every slot changed, given the count of readers.
  abbrev pub every_slot :
      (ℕ → Slot Q W T → Slot Q W T) → MpmcCircularBuffer Q W T → MpmcCircularBuffer Q W T
  every_slot g b = record b { slots = slots_from 0 b.len (g b.readers) b.slots }

module _ {S Q W T : Type 0} ⦃sq : SegQueue Q W⦄ (self : Ref S (MpmcCircularBuffer Q W T))
    (f : ℕ → M S (Unit {0})) (g : ℕ → Slot Q W T → Slot Q W T)
    (f-alone : (i : ℕ) (s : S)
      → f i [] s
        ≡ (tt, (self ▸ slot_at i).put (g (self.get s).readers ((self.get s).slots i)) s, [])) where
  abbrev slots_put : ℕ → ℕ → S → S
  slots_put i n s =
      let b = self.get s in self.put (record b { slots = slots_from i n (g b.readers) b.slots }) s

  slots_put-zero : (i : ℕ) (s : S) → slots_put i 0 s ≡ s
  slots_put-zero i s =
      let b = self.get s in
      (λ k. self.put (record b { slots = λ j. slots_from-zero i (g b.readers) b.slots j k }) s)
      ∙ self.put-get s

  slots_put-suc :
      (i n : ℕ) (s : S)
      → slots_put
          (i + 1)
          n
          ((self ▸ slot_at i).put (g (self.get s).readers ((self.get s).slots i)) s)
        ≡ slots_put i (suc n) s
  slots_put-suc i n s =
      let b = self.get s in
      update-update self (λ c. record c { slots = with_slot i (g c.readers (c.slots i)) c.slots })
        (λ c. record c { slots = slots_from (i + 1) n (g c.readers) c.slots }) s
      ∙ (λ k. self.put (record b { slots = λ j. slots_from-suc i n (g b.readers) b.slots j k }) s)

  each_slot-alone : (n i : ℕ) (s : S) → each_slot self f i n [] s ≡ (tt, slots_put i n s, [])
  unfolding each_slot
  each_slot-alone zero i s = ap (λ s'. (tt, s', [])) (sym (slots_put-zero i s))
  each_slot-alone (suc n) i s =
      ap (λ r. each_slot self f (i + 1) n r.2 r.1) (f-alone i s)
      ∙ each_slot-alone n (i + 1)
          ((self ▸ slot_at i).put (g (self.get s).readers ((self.get s).slots i)) s)
      ∙ ap (λ s'. (tt, s', [])) (slots_put-suc i n s)

  pub for_slots-alone :
      (s : S) → for_slots self f [] s ≡ (tt, self.put (every_slot g (self.get s)) s, [])
  unfolding for_slots
  for_slots-alone s = each_slot-alone (self.get s).len 0 s

module _ {Q W T : Type 0} ⦃sq : SegQueue Q W⦄ where
  -- With one reader more, at the id `p`.
  abbrev pub joined : ℕ → MpmcCircularBuffer Q W T → MpmcCircularBuffer Q W T
  joined p b = every_slot (marked 0 p) (record b { readers = (b.readers + 1) % usize_mod })

  -- With one reader less, that was at the id `p`.
  abbrev pub left : ℕ → MpmcCircularBuffer Q W T → MpmcCircularBuffer Q W T
  left p b = every_slot released (record (every_slot (λ n. unread 0 p) b) {
    readers = (b.readers + usize_mod - 1) % usize_mod;
  })

module _ {S Q W T : Type 0} ⦃sq : SegQueue Q W⦄ (self : Ref S (MpmcCircularBuffer Q W T)) where
  mark-alone_buffer :
      (low high : ℕ) (s : S)
      → mark_read_in_range self low high [] s
        ≡ (tt, self.put (every_slot (marked low high) (self.get s)) s, [])
  unfolding mark_read_in_range
  mark-alone_buffer low high =
      for_slots-alone self _ (marked low high)
        (λ i s. mark-alone (self ▸ slot_at i) low high (self.get s).readers s)

  add_reader : S → S
  add_reader s = (self ▸ readers_field).put (((self.get s).readers + 1) % usize_mod) s

  mark-joined :
      (p : ℕ) (s : S)
      → mark_read_in_range self 0 p [] (add_reader s) ≡ (tt, self.put (joined p (self.get s)) s, [])
  unfolding add_reader
  mark-joined p s =
      mark-alone_buffer 0 p (add_reader s)
      ∙ ap (λ s'. (tt, s', []))
          (update-update self (λ b. record b { readers = (b.readers + 1) % usize_mod })
            (every_slot (marked 0 p)) s)

  pub clone_with-alone :
      (r : BufferReader) (s : S)
      → clone_with self r [] s ≡ (r, self.put (joined r.index (self.get s)) s, [])
  unfolding clone_with add_reader
  clone_with-alone r s = ap (λ t. (r, t.1, t.2)) (mark-joined r.index s)

  pub new_reader-alone :
      (s : S)
      → let b = self.get s in
        new_reader self [] s ≡ (record { index = b.head }, self.put (joined b.head b) s, [])
  unfolding new_reader add_reader
  new_reader-alone s =
      ap (λ t. (record { index = (self.get s).head }, t.1, t.2)) (mark-joined (self.get s).head s)

  unread-alone :
      (p : ℕ) (s : S)
      → for_slots self (λ i. decrement_read_in_range (self ▸ slot_at i) 0 p) [] s
        ≡ (tt, self.put (every_slot (λ n. unread 0 p) (self.get s)) s, [])
  unread-alone p =
      for_slots-alone self _ (λ n. unread 0 p) (λ i s. decrement-alone (self ▸ slot_at i) 0 p s)

  released-alone :
      (s : S)
      → for_slots self
          (λ i. notify_readers_decreased (self ▸ slot_at i) (self ▸ readers_field))
          []
          s
        ≡ (tt, self.put (every_slot released (self.get s)) s, [])
  released-alone =
      for_slots-alone self _ released
        (λ i s. notify_decreased-alone (self ▸ slot_at i) (self ▸ readers_field) s)

  -- What is left of `drop_with` after its first loop.
  abbrev drop_rest : M S (Unit {0})
  drop_rest = do
    fetch_sub (self ▸ readers_field) 1
    for_slots self (λ i. notify_readers_decreased (self ▸ slot_at i) (self ▸ readers_field))

  pub drop_with-alone :
      (r : BufferReader) (s : S)
      → drop_with self r [] s ≡ (tt, self.put (left r.index (self.get s)) s, [])
  unfolding drop_with
  drop_with-alone r s =
      let read : MpmcCircularBuffer Q W T → MpmcCircularBuffer Q W T =
        λ b. every_slot (λ n. unread 0 r.index) b in
      let gone : MpmcCircularBuffer Q W T → MpmcCircularBuffer Q W T =
        λ b. record b { readers = (b.readers + usize_mod - 1) % usize_mod } in
      let s1 = self.put (read (self.get s)) s in
      let s2 = self.put (gone (self.get s1)) s1 in
      ap (λ t. drop_rest t.2 t.1) (unread-alone r.index s)
      ∙ released-alone s2
      ∙ ap (λ s'. (tt, s', []))
          (update-update self gone (every_slot released) s1
            ∙ update-update self read (λ b. every_slot released (gone b)) s)
