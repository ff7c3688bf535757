-- ===== src/Sync/MpmcCircularBuffer.antt =====
-- src/sync/mpmc_circular_buffer.rs: a circular buffer whose every value each reader sees once. The
-- mutex `maintenance` is no part of the state: that one thread at a time adds, clones or drops a
-- reader is for the schedule to respect.
pub mod Slot
pub mod Invariant
pub mod Alone
pub mod Readers
pub mod Reading
pub mod Writing
pub mod Maintenance
use postage_rs.Prelude.{
  ℕ, zero, suc, ◌+◌, ◌%◌, ◌≡◌, refl, Bool, true, false, Bool-cases, inl, inr, eqb, eqb_iff, max,
  Option, none, some, if◌then◌else◌, arith,
}
use postage_rs.Context.{Context}
use postage_rs.Queues.{SegQueue}
use postage_rs.Concurrent.{M, Ref, ◌▸◌, pure, ◌>>=◌, ◌>>◌}
use postage_rs.Concurrent.Atomic.{
  Result, ok, err, usize_word, usize_mod, constant, load, fetch_add, fetch_sub, compare_exchange,
}
use postage_rs.Concurrent.Loop.{Control, continue, break, retry}
use postage_rs.Sync.MpmcCircularBuffer.Slot.{SlotTryWrite, TryRead}

-- The slots from 0 to `len`; those above are not there.
pub record MpmcCircularBuffer (Q W T : Type 0) : Type 0 where
  pub slots : ℕ → Slot.Slot Q W T
  pub len : ℕ
  pub head : ℕ
  pub readers : ℕ

pub record BufferReader : Type 0 where
  pub index : ℕ

pub data TryWrite (T : Type 0) : Type 0 where
  pending : T → TryWrite T
  ready : TryWrite T

module _ {Q W T : Type 0} where
  abbrev pub head_field : Ref (MpmcCircularBuffer Q W T) ℕ
  head_field = record {
    get = λ b. b.head;
    put = λ x b. record b { head = x };
    get-put = λ x b. refl;
    put-get = λ b. refl;
    put-put = λ x y b. refl;
  }

  abbrev pub readers_field : Ref (MpmcCircularBuffer Q W T) ℕ
  readers_field = record {
    get = λ b. b.readers;
    put = λ x b. record b { readers = x };
    get-put = λ x b. refl;
    put-get = λ b. refl;
    put-put = λ x y b. refl;
  }

  abbrev pub with_slot : ℕ → Slot.Slot Q W T → (ℕ → Slot.Slot Q W T) → ℕ → Slot.Slot Q W T
  with_slot i x slots j = if eqb j i then x else slots j

  pub get_slot-with_slot :
      (i : ℕ) (x : Slot.Slot Q W T) (slots : ℕ → Slot.Slot Q W T) → with_slot i x slots i ≡ x
  get_slot-with_slot i x slots = ground arith

  pub with_slot-same :
      (i j : ℕ) (slots : ℕ → Slot.Slot Q W T) → with_slot i (slots i) slots j ≡ slots j
  with_slot-same i j slots = elim (Bool-cases (eqb j i)) [
    | inl e ↦ ground (arith, e, (eqb_iff j i).0 e)
    | inr e ↦ ground (arith, e)
  ]

  pub with_slot-twice :
      (i j : ℕ) (x y : Slot.Slot Q W T) (slots : ℕ → Slot.Slot Q W T)
      → with_slot i x (with_slot i y slots) j ≡ with_slot i x slots j
  with_slot-twice i j x y slots = ground arith

  -- `&self.buffer[i]`
  abbrev pub slot_at : ℕ → Ref (MpmcCircularBuffer Q W T) (Slot.Slot Q W T)
  slot_at i = record {
    get = λ b. b.slots i;
    put = λ x b. record b { slots = with_slot i x b.slots };
    get-put = λ x b. get_slot-with_slot i x b.slots;
    put-get = λ b k. record b { slots = λ j. with_slot-same i j b.slots k };
    put-put = λ x y b k. record b { slots = λ j. with_slot-twice i j x y b.slots k };
  }

  unfoldable pub new : ⦃sq : SegQueue Q W⦄ → ℕ → MpmcCircularBuffer Q W T × BufferReader
  unfolding Slot.new
  new ⦃sq⦄ capacity = (
    record { slots = λ i. Slot.new 0; len = max 2 capacity; head = 1; readers = 1 },
    record { index = 1 },
  )

module _ {S Q W T : Type 0} ⦃sq : SegQueue Q W⦄ (self : Ref S (MpmcCircularBuffer Q W T)) where
  -- `id % self.len()`; the length never changes.
  unfoldable pub get_slot : ℕ → M S ℕ
  get_slot id = do n ← constant self (λ b. b.len); pure (id % n)

  -- The closure that a write of a slot runs, which ignores a failure of the exchange.
  unfoldable pub advance_head : ℕ → M S (Unit {0})
  advance_head head_id = do
    compare_exchange (self ▸ head_field) head_id ((head_id + 1) % usize_mod)
    pure tt

  -- The match on what the slot's write returns. To break with `none` is a slot's loop that ran out
  -- of rounds.
  unfoldable pub slot_tried : Option (SlotTryWrite T) → M S (Control T (Option (TryWrite T)))
  slot_tried none = pure (break none)
  slot_tried (some (SlotTryWrite.pending v)) = pure (break (some (TryWrite.pending v)))
  slot_tried (some SlotTryWrite.ready) = pure (break (some TryWrite.ready))
  slot_tried (some (SlotTryWrite.written v)) = pure (continue v)

  unfoldable pub try_write_round : Context W → T → M S (Control T (Option (TryWrite T)))
  unfolding get_slot advance_head slot_tried
  try_write_round cx value = do
    head_id ← load (self ▸ head_field)
    i ← get_slot head_id
    tried ←
        Slot.try_write (self ▸ slot_at i) (self ▸ readers_field) head_id value cx
          (advance_head head_id)
    slot_tried tried

  -- `none` means that the rounds ran out: a writer spins while another one has taken the slot at
  -- the head and has not moved the head yet.
  unfoldable pub try_write : T → Context W → M S (Option (Option (TryWrite T)))
  unfolding try_write_round
  try_write value cx = retry (try_write_round cx) value

  -- A `for` over the slots from `i`, of which `n` are left.
  unfoldable pub each_slot : (ℕ → M S (Unit {0})) → ℕ → ℕ → M S (Unit {0})
  each_slot f i zero = pure tt
  each_slot f i (suc n) = f i >> each_slot f (i + 1) n

  unfoldable pub for_slots : (ℕ → M S (Unit {0})) → M S (Unit {0})
  unfolding each_slot
  for_slots f = do n ← constant self (λ b. b.len); each_slot f 0 n

  unfoldable pub mark_read_in_range : ℕ → ℕ → M S (Unit {0})
  unfolding for_slots
  mark_read_in_range low high = for_slots (λ i. do
    readers ← load (self ▸ readers_field)
    Slot.mark_read_in_range (self ▸ slot_at i) low high readers)

  unfoldable pub new_reader : M S BufferReader
  unfolding mark_read_in_range
  new_reader = do
    index ← load (self ▸ head_field)
    fetch_add (self ▸ readers_field) 1
    mark_read_in_range 0 index
    pure (record { index = index })

  -- The match on what the slot's read returns, with the reader as it is left.
  unfoldable pub read_tried :
      BufferReader → Option (Option (TryRead T)) → M S (Option (Option (TryRead T)) × BufferReader)
  read_tried reader (some (some (TryRead.ready v))) =
      pure (some (some (TryRead.ready v)), record { index = (reader.index + 1) % usize_mod })
  read_tried reader other = pure (other, reader)

  -- The reader goes in and comes out.
  unfoldable pub try_read :
      Context W → BufferReader → M S (Option (Option (TryRead T)) × BufferReader)
  unfolding get_slot read_tried
  try_read cx reader = do
    i ← get_slot reader.index
    tried ← Slot.try_read (self ▸ slot_at i) (self ▸ readers_field) reader.index cx
    read_tried reader tried

  unfoldable pub clone_with : BufferReader → M S BufferReader
  unfolding mark_read_in_range
  clone_with reader = do
    fetch_add (self ▸ readers_field) 1
    mark_read_in_range 0 reader.index
    pure reader

  unfoldable pub drop_with : BufferReader → M S (Unit {0})
  unfolding for_slots
  drop_with reader = do
    for_slots (λ i. Slot.decrement_read_in_range (self ▸ slot_at i) 0 reader.index)
    fetch_sub (self ▸ readers_field) 1
    for_slots (λ i. Slot.notify_readers_decreased (self ▸ slot_at i) (self ▸ readers_field))
