-- ===== src/Sync/MpmcCircularBuffer/Slot/Alone.antt =====
-- The operations of a slot, undisturbed. `readers` and what the buffer does on a write concern other
-- parts of the state.
use postage_rs.Prelude.{
  ℕ, ◌+◌, ◌%◌, ◌<◌, ◌≤◌, ◌≡◌, ◌⊎◌, ap, ◌∙◌, some, none, [], leb, if◌then◌else◌, arith, inl, inr,
  Option-cases, Bool-cases, compare_self, false,
}
use postage_rs.Context.{Context}
use postage_rs.Queues.{SegQueue}
use postage_rs.Concurrent.{M, Ref, ◌▸◌}
use postage_rs.Concurrent.Atomic.{usize_mod, usize_word, compare_exchange, ok}
use postage_rs.Concurrent.Loop.{break, retry-settled}
use postage_rs.Sync.Notifier
use postage_rs.Sync.Notifier.{Notifier}
use postage_rs.Sync.Notifier.Alone.{notified, notify-alone}
use postage_rs.Sync.MpmcCircularBuffer.Slot.{
  Slot, SlotTryWrite, TryRead, is_awaited, is_occupied, write_wait, write_locked, write_exchanged,
  try_write_round, try_write, read_value, read_wait, read_locked, try_read_round, try_read,
  on_write_field, on_release_field, index_field,
}

module _ {Q W : Type 0} ⦃sq : SegQueue Q W⦄ where
  abbrev pub subscribed : Context W → Notifier Q W → Notifier Q W
  subscribed cx n = elim cx.waker [ none ↦ n | some w ↦ record n { wakers = sq.push w n.wakers } ]

module _ {Q W T : Type 0} ⦃sq : SegQueue Q W⦄ where
  abbrev pub filled : ℕ → T → Slot Q W T → Slot Q W T
  filled index v x = record {
    data_cell = some v;
    reads = 0;
    index = index;
    on_write = notified x.on_write;
    on_release = x.on_release;
  }

  abbrev pub release_subscribed : Context W → Slot Q W T → Slot Q W T
  release_subscribed cx x = record x { on_release = subscribed cx x.on_release }

  abbrev pub write_subscribed : Context W → Slot Q W T → Slot Q W T
  write_subscribed cx x = record x { on_write = subscribed cx x.on_write }

  -- The slot after one read more, of so many readers.
  abbrev pub read_by_one : ℕ → Slot Q W T → Slot Q W T
  read_by_one n x = record x {
    reads = (x.reads + 1) % usize_mod;
    on_release = if leb n (1 + x.reads) then notified x.on_release else x.on_release;
  }

  -- A slot that the writer of a later index need not wait for, with so many readers.
  abbrev pub IsFree : Slot Q W T → ℕ → Type 0
  IsFree x n = (x.index ≡ 0) ⊎ (n ≤ x.reads)

-- A write of `index`, whose `on_write` leaves the slot alone.
module _ {S Q W T : Type 0} ⦃sq : SegQueue Q W⦄ (self : Ref S (Slot Q W T)) (readers : Ref S ℕ)
    (apart : (x : Slot Q W T) (s : S) → readers.get (self.put x s) ≡ readers.get s)
    (on_write : M S (Unit {0})) (moved : S → S)
    (on_write-alone : (s : S) → on_write [] s ≡ (tt, moved s, []))
    (moved-put : (x : Slot Q W T) (s : S) → moved (self.put x s) ≡ self.put x (moved s)) where
  occupied_free :
      (s : S)
      → IsFree (self.get s) (readers.get s)
      → is_occupied self readers (self.get s).index [] s ≡ (false, s, [])
  unfolding is_occupied
  occupied_free s (inl e) = ground arith
  occupied_free s (inr h) = ground arith

  exchanged-alone :
      (v : T) (n : ℕ) (s : S)
      → write_exchanged self readers v on_write (ok n) [] s ≡ (
        break SlotTryWrite.ready,
        self.put (filled (self.get (moved s)).index v (self.get (moved s))) (moved s),
        [],
      )
  unfolding write_exchanged
  exchanged-alone v n s =
      rw (on_write-alone, self.get-put, notify-alone, self.get-put, self.put-put, self.put-put)

  exchange-same :
      (r : Ref S ℕ) (n : ℕ) (s : S)
      → compare_exchange r (r.get s) n [] s ≡ (ok (r.get s), r.put n s, [])
  exchange-same r n s = ground (arith, compare_self (r.get s))

  locked_free :
      (index : ℕ) (v : T) (s : S)
      → IsFree (self.get s) (readers.get s)
      → write_locked self readers (self.get s).index index v on_write [] s
        ≡ (break SlotTryWrite.ready, self.put (filled index v (self.get s)) (moved s), [])
  unfolding write_locked
  locked_free index v s h =
      let x = record (self.get s) { index = index } in
      rw (occupied_free s h) (
        ap (λ r. write_exchanged self readers v on_write r.0 r.2 r.1)
          (exchange-same (self ▸ index_field) index s)
        ∙ exchanged-alone v (self.get s).index (self.put x s)
        ∙ rw (moved-put, self.get-put, self.put-put))

  round_free :
      (index : ℕ) (v : T) (cx : Context W) (s : S)
      → (self.get s).index < index
      → IsFree (self.get s) (readers.get s)
      → try_write_round self readers index cx on_write v [] s
        ≡ (break SlotTryWrite.ready, self.put (filled index v (self.get s)) (moved s), [])
  unfolding try_write_round
  round_free index v cx s h free = ground (arith, occupied_free s free, locked_free index v s free)

  -- A write of a later index to a free slot fills it.
  pub write_free :
      (index : ℕ) (v : T) (cx : Context W) (s : S)
      → (self.get s).index < index
      → IsFree (self.get s) (readers.get s)
      → try_write self readers index v cx on_write [] s
        ≡ (some SlotTryWrite.ready, self.put (filled index v (self.get s)) (moved s), [])
  unfolding try_write
  write_free index v cx s h free =
      retry-settled (try_write_round self readers index cx on_write) v SlotTryWrite.ready [] [] s _
        (round_free index v cx s h free)

-- The same slot, when the operation does nothing else to the state.
module _ {S Q W T : Type 0} ⦃sq : SegQueue Q W⦄ (self : Ref S (Slot Q W T)) (readers : Ref S ℕ)
    (apart : (x : Slot Q W T) (s : S) → readers.get (self.put x s) ≡ readers.get s) where
  subscribe_release-alone :
      (cx : Context W) (s : S)
      → Notifier.subscribe (self ▸ on_release_field) cx [] s
        ≡ (tt, self.put (release_subscribed cx (self.get s)) s, [])
  unfolding Notifier.subscribe
  subscribe_release-alone cx s = elim (Option-cases cx.waker) [
    | inl e ↦ ground (arith, self.put-get s)
    | inr (w, e) ↦ rw e
  ]

  subscribe_write-alone :
      (cx : Context W) (s : S)
      → Notifier.subscribe (self ▸ on_write_field) cx [] s
        ≡ (tt, self.put (write_subscribed cx (self.get s)) s, [])
  unfolding Notifier.subscribe
  subscribe_write-alone cx s = elim (Option-cases cx.waker) [
    | inl e ↦ ground (arith, self.put-get s)
    | inr (w, e) ↦ rw e
  ]

  write_wait-alone :
      (v : T) (cx : Context W) (s : S)
      → (self.get s).reads < readers.get s
      → write_wait self readers (self.get s).index v cx [] s
        ≡ (break (SlotTryWrite.pending v), self.put (release_subscribed cx (self.get s)) s, [])
  unfolding write_wait is_awaited
  write_wait-alone v cx s h =
      let x = release_subscribed cx (self.get s) in
      ground (arith, subscribe_release-alone cx s, self.get-put x s, apart x s)

  round_waits :
      (index : ℕ) (v : T) (cx : Context W) (on_write : M S (Unit {0})) (s : S)
      → (self.get s).index < index
      → 0 < (self.get s).index
      → (self.get s).reads < readers.get s
      → try_write_round self readers index cx on_write v [] s
        ≡ (break (SlotTryWrite.pending v), self.put (release_subscribed cx (self.get s)) s, [])
  unfolding try_write_round is_occupied is_awaited
  round_waits index v cx on_write s h h' h'' = ground (arith, write_wait-alone v cx s h'')

  -- A write of a later index to a slot that is not free waits.
  pub write_waits :
      (index : ℕ) (v : T) (cx : Context W) (on_write : M S (Unit {0})) (s : S)
      → (self.get s).index < index
      → 0 < (self.get s).index
      → (self.get s).reads < readers.get s
      → try_write self readers index v cx on_write [] s
        ≡ (some (SlotTryWrite.pending v), self.put (release_subscribed cx (self.get s)) s, [])
  unfolding try_write
  write_waits index v cx on_write s h h' h'' =
      retry-settled (try_write_round self readers index cx on_write) v (SlotTryWrite.pending v) []
        [] s _ (round_waits index v cx on_write s h h' h'')

  read_wait-alone :
      (index : ℕ) (cx : Context W) (s : S)
      → (self.get s).index < index
      → read_wait self readers index cx [] s
        ≡ (break (some TryRead.pending), self.put (write_subscribed cx (self.get s)) s, [])
  unfolding read_wait
  read_wait-alone index cx s h =
      let x = write_subscribed cx (self.get s) in
      ground (arith, subscribe_write-alone cx s, self.get-put x s)

  round_behind :
      (index : ℕ) (cx : Context W) (s : S)
      → (self.get s).index < index
      → try_read_round self readers index cx tt [] s
        ≡ (break (some TryRead.pending), self.put (write_subscribed cx (self.get s)) s, [])
  unfolding try_read_round
  round_behind index cx s h = ground (arith, read_wait-alone index cx s h)

  -- A read of a later index than the slot's waits.
  pub read_waits :
      (index : ℕ) (cx : Context W) (s : S)
      → (self.get s).index < index
      → try_read self readers index cx [] s
        ≡ (some (some TryRead.pending), self.put (write_subscribed cx (self.get s)) s, [])
  unfolding try_read
  read_waits index cx s h =
      retry-settled (try_read_round self readers index cx) tt (some TryRead.pending) [] [] s _
        (round_behind index cx s h)

  read_value-alone :
      (v : T) (r : ℕ) (s : S)
      → (self.get s).data_cell ≡ some v
      → let x = self.get s in
        read_value self readers r [] s ≡ (
          some (TryRead.ready v),
          self.put
              (record x {
                on_release =
                    if leb (readers.get s) (1 + r) then notified x.on_release else x.on_release;
              })
              s,
          [],
        )
  unfolding read_value
  read_value-alone v r s e = elim (Bool-cases (leb (readers.get s) (1 + r))) [
    | inl h ↦ ground (arith, notify-alone (self ▸ on_release_field) s)
    | inr h ↦ ground (arith, self.put-get s)
  ]

  read_locked-alone :
      (v : T) (s : S)
      → (self.get s).data_cell ≡ some v
      → read_locked self readers [] s ≡ (
        break (some (TryRead.ready v)),
        self.put (read_by_one (readers.get s) (self.get s)) s,
        [],
      )
  unfolding read_locked
  read_locked-alone v s e =
      let x = record (self.get s) { reads = ((self.get s).reads + 1) % usize_mod } in
      rw (
        read_value-alone v (self.get s).reads (self.put x s) (rw (self.get-put) e),
        self.get-put,
        self.put-put,
        apart,
      )

  round_at :
      (v : T) (cx : Context W) (s : S)
      → (self.get s).data_cell ≡ some v
      → try_read_round self readers (self.get s).index cx tt [] s ≡ (
        break (some (TryRead.ready v)),
        self.put (read_by_one (readers.get s) (self.get s)) s,
        [],
      )
  unfolding try_read_round
  round_at v cx s e = ground (arith, read_locked-alone v s e)

  -- A read of the slot's own index gives its value, and counts.
  pub read_ready :
      (v : T) (cx : Context W) (s : S)
      → (self.get s).data_cell ≡ some v
      → try_read self readers (self.get s).index cx [] s
        ≡ (some (some (TryRead.ready v)), self.put (read_by_one (readers.get s) (self.get s)) s, [])
  unfolding try_read
  read_ready v cx s e =
      retry-settled (try_read_round self readers (self.get s).index cx) tt (some (TryRead.ready v))
        [] [] s _ (round_at v cx s e)
