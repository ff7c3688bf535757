-- ===== src/Sync/MpmcCircularBuffer/Slot/Maintenance.antt =====
-- What the coming and going of readers does to a slot, undisturbed.
use postage_rs.Prelude.{
  ℕ, ◌+◌, ◌-◌, ◌%◌, ◌≡◌, [], ltb, leb, eqb, ◌&&◌, if◌then◌else◌, arith, inl, inr, Bool-cases, true,
}
use postage_rs.Queues.{SegQueue}
use postage_rs.Concurrent.{Ref, ◌▸◌}
use postage_rs.Concurrent.Atomic.{usize_mod, usize_word}
use postage_rs.Concurrent.Loop.{break, retry-settled}
use postage_rs.Sync.Notifier.Alone.{notified, notify-alone}
use postage_rs.Sync.MpmcCircularBuffer.Slot.{
  Slot, is_awaited, notify_readers_decreased, mark_read_in_range, decrement_round,
  decrement_read_in_range, on_release_field,
}
use postage_rs.Sync.MpmcCircularBuffer.Slot.Alone.{read_by_one}

module _ {Q W T : Type 0} ⦃sq : SegQueue Q W⦄ where
  abbrev pub marked : ℕ → ℕ → ℕ → Slot Q W T → Slot Q W T
  marked low high n x = if leb low x.index && ltb x.index high then read_by_one n x else x

  abbrev pub unread : ℕ → ℕ → Slot Q W T → Slot Q W T
  unread low high x =
      if leb low x.index && ltb x.index high then record x { reads = x.reads - 1 } else x

  abbrev pub released : ℕ → Slot Q W T → Slot Q W T
  released n x = if ltb x.reads n then x else record x { on_release = notified x.on_release }

module _ {S Q W T : Type 0} ⦃sq : SegQueue Q W⦄ (self : Ref S (Slot Q W T)) where
  pub mark-alone :
      (low high n : ℕ) (s : S)
      → mark_read_in_range self low high n [] s
        ≡ (tt, self.put (marked low high n (self.get s)) s, [])
  unfolding mark_read_in_range
  mark-alone low high n s =
      let x = self.get s in
      let s' = self.put (record x { reads = (x.reads + 1) % usize_mod }) s in
      ground (
        arith,
        self.put-get s,
        notify-alone (self ▸ on_release_field) s',
        self.get-put (record x { reads = (x.reads + 1) % usize_mod }) s,
        self.put-put (read_by_one n x) (record x { reads = (x.reads + 1) % usize_mod }) s,
      )

  decrement_round-alone :
      (s : S)
      → let x = self.get s in
        decrement_round self tt [] s ≡ (break tt, self.put (record x { reads = x.reads - 1 }) s, [])
  unfolding decrement_round
  decrement_round-alone s = elim (Bool-cases (eqb (self.get s).reads 0)) [
    | inl e ↦ ground (arith, self.put-get s, unchanged e)
    | inr e ↦ ground arith
  ]
    where
      unchanged :
          eqb (self.get s).reads 0 ≡ true
          → record (self.get s) { reads = (self.get s).reads - 1 } ≡ self.get s
      unchanged e = ground (arith, e)

  pub decrement-alone :
      (low high : ℕ) (s : S)
      → decrement_read_in_range self low high [] s
        ≡ (tt, self.put (unread low high (self.get s)) s, [])
  unfolding decrement_read_in_range
  decrement-alone low high s = ground (
    arith,
    self.put-get s,
    retry-settled (decrement_round self) tt tt [] [] s _ (decrement_round-alone s),
  )

  pub notify_decreased-alone :
      (readers : Ref S ℕ) (s : S)
      → notify_readers_decreased self readers [] s
        ≡ (tt, self.put (released (readers.get s) (self.get s)) s, [])
  unfolding notify_readers_decreased is_awaited
  notify_decreased-alone readers s =
      ground (arith, self.put-get s, notify-alone (self ▸ on_release_field) s)
