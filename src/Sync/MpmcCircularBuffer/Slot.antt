-- ===== src/Sync/MpmcCircularBuffer/Slot.antt =====
-- src/sync/mpmc_circular_buffer.rs: a slot of the buffer. Its value is under a read-write lock, which
-- is no part of the state: that no other thread writes the value while it is held is for the
-- schedule to respect. Taking and releasing it are no accesses.
pub mod Alone
pub mod Maintenance
use postage_rs.Prelude.{
  ℕ, ◌+◌, ◌-◌, refl, Bool, false, ◌&&◌, Option, none, some, ltb, leb, eqb, if◌then◌else◌,
}
use postage_rs.Context.{Context}
use postage_rs.Queues.{SegQueue}
use postage_rs.Concurrent.{M, Ref, ◌▸◌, pure, ◌>>=◌, ◌>>◌}
use postage_rs.Concurrent.Atomic.{
  Result, ok, err, usize_word, load, store, fetch_add, compare_exchange,
}
use postage_rs.Concurrent.Loop.{Control, continue, break, retry}
use postage_rs.Sync.Notifier
use postage_rs.Sync.Notifier.{Notifier}

pub record Slot (Q W T : Type 0) : Type 0 where
  pub data_cell : Option T
  pub reads : ℕ
  pub index : ℕ
  pub on_write : Notifier Q W
  pub on_release : Notifier Q W

pub data SlotTryWrite (T : Type 0) : Type 0 where
  pending : T → SlotTryWrite T
  ready : SlotTryWrite T
  written : T → SlotTryWrite T

pub data TryRead (T : Type 0) : Type 0 where
  ready : T → TryRead T
  pending : TryRead T

module _ {Q W T : Type 0} where
  abbrev pub data_field : Ref (Slot Q W T) (Option T)
  data_field = record {
    get = λ s. s.data_cell;
    put = λ x s. record s { data_cell = x };
    get-put = λ x s. refl;
    put-get = λ s. refl;
    put-put = λ x y s. refl;
  }

  abbrev pub reads_field : Ref (Slot Q W T) ℕ
  reads_field = record {
    get = λ s. s.reads;
    put = λ x s. record s { reads = x };
    get-put = λ x s. refl;
    put-get = λ s. refl;
    put-put = λ x y s. refl;
  }

  abbrev pub index_field : Ref (Slot Q W T) ℕ
  index_field = record {
    get = λ s. s.index;
    put = λ x s. record s { index = x };
    get-put = λ x s. refl;
    put-get = λ s. refl;
    put-put = λ x y s. refl;
  }

  abbrev pub on_write_field : Ref (Slot Q W T) (Notifier Q W)
  on_write_field = record {
    get = λ s. s.on_write;
    put = λ x s. record s { on_write = x };
    get-put = λ x s. refl;
    put-get = λ s. refl;
    put-put = λ x y s. refl;
  }

  abbrev pub on_release_field : Ref (Slot Q W T) (Notifier Q W)
  on_release_field = record {
    get = λ s. s.on_release;
    put = λ x s. record s { on_release = x };
    get-put = λ x s. refl;
    put-get = λ s. refl;
    put-put = λ x y s. refl;
  }

  unfoldable pub new : ⦃sq : SegQueue Q W⦄ → ℕ → Slot Q W T
  unfolding Notifier.new
  new ⦃sq⦄ index = record {
    data_cell = none;
    reads = 0;
    index = index;
    on_write = Notifier.new;
    on_release = Notifier.new;
  }

-- `readers` is the buffer's count of readers.
module _ {S Q W T : Type 0} ⦃sq : SegQueue Q W⦄ (self : Ref S (Slot Q W T))
    (readers : Ref S ℕ) where
  -- `self.reads < readers`
  unfoldable pub is_awaited : M S Bool
  is_awaited = do r ← load (self ▸ reads_field); n ← load readers; pure (ltb r n)

  -- `prev_index != 0 && self.reads < readers`
  unfoldable pub is_occupied : ℕ → M S Bool
  unfolding is_awaited
  is_occupied prev_index = if eqb prev_index 0 then pure false else is_awaited

  -- The branch of a round that has found the slot occupied.
  unfoldable pub write_wait : ℕ → T → Context W → M S (Control T (SlotTryWrite T))
  unfolding is_awaited
  write_wait prev_index value cx = do
    Notifier.subscribe (self ▸ on_release_field) cx
    again ← load (self ▸ index_field)
    if ltb prev_index again then pure (continue value) else do
      awaited ← is_awaited
      if awaited then pure (break (SlotTryWrite.pending value)) else pure (continue value)

  -- The rest of it after the exchange. `on_write` is the closure of the buffer.
  unfoldable pub write_exchanged :
      T → M S (Unit {0}) → Result ℕ ℕ → M S (Control T (SlotTryWrite T))
  write_exchanged value on_write (err _) = pure (continue value)
  write_exchanged value on_write (ok _) = do
    on_write
    store (self ▸ data_field) (some value)
    store (self ▸ reads_field) 0
    Notifier.notify (self ▸ on_write_field)
    pure (break SlotTryWrite.ready)

  -- The other branch, under the lock.
  unfoldable pub write_locked : ℕ → ℕ → T → M S (Unit {0}) → M S (Control T (SlotTryWrite T))
  unfolding is_occupied write_exchanged
  write_locked prev_index index value on_write = do
    occupied ← is_occupied prev_index
    if occupied then pure (continue value) else do
      exchanged ← compare_exchange (self ▸ index_field) prev_index index
      write_exchanged value on_write exchanged

  unfoldable pub try_write_round :
      ℕ → Context W → M S (Unit {0}) → T → M S (Control T (SlotTryWrite T))
  unfolding is_occupied write_wait write_locked
  try_write_round index cx on_write value = do
    prev_index ← load (self ▸ index_field)
    if leb index prev_index then pure (break (SlotTryWrite.written value)) else do
      occupied ← is_occupied prev_index
      if occupied
          then write_wait prev_index value cx
          else write_locked prev_index index value on_write

  unfoldable pub try_write : ℕ → T → Context W → M S (Unit {0}) → M S (Option (SlotTryWrite T))
  unfolding try_write_round
  try_write index value cx on_write = retry (try_write_round index cx on_write) value

  -- The value that was read, once the count of reads is up; `none` is the panic of `unwrap`.
  unfoldable pub read_value : ℕ → M S (Option (TryRead T))
  read_value reads = do
    stored ← load (self ▸ data_field)
    elim stored [
      | none ↦ pure none
      | some v ↦ do
        n ← load readers
        if leb n (1 + reads)
            then Notifier.notify (self ▸ on_release_field) >> pure (some (TryRead.ready v))
            else pure (some (TryRead.ready v))
    ]

  -- The branch of a round that has found the slot behind the reader.
  unfoldable pub read_wait : ℕ → Context W → M S (Control (Unit {0}) (Option (TryRead T)))
  read_wait index cx = do
    Notifier.subscribe (self ▸ on_write_field) cx
    again ← load (self ▸ index_field)
    if leb index again then pure (continue tt) else pure (break (some TryRead.pending))

  -- The branch of a round that has found the reader's value, under the lock.
  unfoldable pub read_locked : M S (Control (Unit {0}) (Option (TryRead T)))
  unfolding read_value
  read_locked = do
    reads ← fetch_add (self ▸ reads_field) 1
    got ← read_value reads
    pure (break got)

  -- To break with `none` is a panic.
  unfoldable pub try_read_round :
      ℕ → Context W → Unit {0} → M S (Control (Unit {0}) (Option (TryRead T)))
  unfolding read_wait read_locked
  try_read_round index cx _ = do
    slot_index ← load (self ▸ index_field)
    if ltb slot_index index
        then read_wait index cx
        else if ltb index slot_index
        then pure (break (some TryRead.pending))
        else read_locked

  unfoldable pub try_read : ℕ → Context W → M S (Option (Option (TryRead T)))
  unfolding try_read_round
  try_read index cx = retry (try_read_round index cx) tt

  unfoldable pub notify_readers_decreased : M S (Unit {0})
  unfolding is_awaited
  notify_readers_decreased = do
    awaited ← is_awaited
    if awaited then pure tt else Notifier.notify (self ▸ on_release_field)

module _ {S Q W T : Type 0} ⦃sq : SegQueue Q W⦄ (self : Ref S (Slot Q W T)) where
  unfoldable pub mark_read_in_range : ℕ → ℕ → ℕ → M S (Unit {0})
  mark_read_in_range low high readers = do
    index ← load (self ▸ index_field)
    if leb low index && ltb index high
        then (do
          reads ← fetch_add (self ▸ reads_field) 1
          if leb readers (1 + reads) then Notifier.notify (self ▸ on_release_field) else pure tt)
        else pure tt

  unfoldable pub decrement_round : Unit {0} → M S (Control (Unit {0}) (Unit {0}))
  decrement_round _ = do
    reads ← load (self ▸ reads_field)
    if eqb reads 0 then pure (break tt) else do
      exchanged ← compare_exchange (self ▸ reads_field) reads (reads - 1)
      elim exchanged [ ok _ ↦ pure (break tt) | err _ ↦ pure (continue tt) ]

  unfoldable pub decrement_read_in_range : ℕ → ℕ → M S (Unit {0})
  unfolding decrement_round
  decrement_read_in_range low high = do
    index ← load (self ▸ index_field)
    if leb low index && ltb index high then retry decrement_round tt >> pure tt else pure tt
