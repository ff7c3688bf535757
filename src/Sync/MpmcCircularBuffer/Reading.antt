-- ===== src/Sync/MpmcCircularBuffer/Reading.antt =====
-- That a read of a buffer keeps what the slots hold.
use postage_rs.Prelude.{
  ℕ, zero, suc, ◌+◌, ◌-◌, ◌%◌, ◌<◌, ◌≤◌, ◌≡◌, ◌≢◌, ◌⊎◌, sym, ◌∙◌, some, List, [], ◌∷◌, eqb,
  if◌then◌else◌, arith, length, get_elem?, set, length-set, All-set, All-get_elem?, inl, inr,
}
use native.Mathlib.Nat.{add-mod_right}
use native.Mathlib.Decide.{dec_lt}
use postage_rs.Queues.{SegQueue}
use postage_rs.Concurrent.Atomic.{usize_mod}
use postage_rs.Sync.MpmcCircularBuffer.{MpmcCircularBuffer}
use postage_rs.Sync.MpmcCircularBuffer.Slot.Alone.{read_by_one}
use postage_rs.Sync.MpmcCircularBuffer.Alone.{slot_of, change_slot}
use postage_rs.Sync.MpmcCircularBuffer.Invariant.{past, Holds, Within, IsValid, mod-ne, past-le}

pub past-set :
    (k : ℕ) (ps : List ℕ) (i p : ℕ)
    → get_elem? ps i ≡ some p
    → past k (set ps i (p + 1)) ≡ past k ps + (if eqb k p then 1 else 0)
past-set k [] i p e = cc
past-set k (q ∷ ps) zero p e = ground (arith, e)
past-set k (q ∷ ps) (suc i) p e = ground (arith, past-set k ps i p e)

-- A position that is not past `k` is one fewer that is.
past-lt : (k : ℕ) (ps : List ℕ) (i p : ℕ) → get_elem? ps i ≡ some p → p ≤ k → past k ps < length ps
past-lt k [] i p e h = cc
past-lt k (q ∷ ps) zero p e h = ground (arith, past-le k ps)
past-lt k (q ∷ ps) (suc i) p e h = ground (arith, past-lt k ps i p e h)

module _ {Q W T : Type 0} ⦃sq : SegQueue Q W⦄ (b : MpmcCircularBuffer Q W T) (items : List T)
    (ps : List ℕ) (valid : IsValid b items ps) (i p : ℕ) (at : get_elem? ps i ≡ some p) where
  pub reader-Within : Within b p
  reader-Within = All-get_elem? (Within b) ps i p valid.within at

  -- The slot of the id that a reader is at, when the reader is not at the head.
  pub slot-at_reader : p < b.head → Holds (slot_of b p) items ps p
  slot-at_reader h = ground (
    arith,
    reader-Within,
    add-mod_right p b.len,
    valid.slot (p + b.len) (omega (arith, reader-Within)) (omega arith),
  )

  -- The ids that share a slot with the reader's, of those that the slots stand for.
  same_slot :
      (j : ℕ)
      → p < b.head
      → b.head ≤ j
      → j < b.head + b.len
      → (j ≡ p + b.len) ⊎ (j % b.len ≢ p % b.len)
  same_slot j hp h h' = elim (dec_lt j (p + b.len)) [
    | yes k ↦ inr (mod-ne b.len p j (omega (arith, valid.two)) (omega arith) k)
    | no k ↦ elim (dec_lt (p + b.len) j) [
      | yes k' ↦ inr (
          rw (← add-mod_right p b.len) (
            mod-ne b.len (p + b.len) j (omega (arith, valid.two)) k'
              (omega (arith, reader-Within))))
      | no k' ↦ inl (omega arith)
    ]
  ]

  read-slot :
      (j : ℕ)
      → length ps < usize_mod
      → p < b.head
      → b.head ≤ j
      → j < b.head + b.len
      → Holds
          ((change_slot b p (read_by_one b.readers)).slots (j % b.len))
          items
          (set ps i (p + 1))
          (j - b.len)
  read-slot j hm hp h h' = elim (same_slot j hp h h') [
    | inl e ↦ ground (
      arith,
      e,
      add-mod_right p b.len,
      slot-at_reader hp,
      reader-Within,
      past-set p ps i p at,
      past-lt p ps i p at (omega arith),
    )
    | inr e ↦ ground (
      arith,
      e,
      valid.slot j h h',
      past-set (j - b.len) ps i p at,
      reader-Within,
      add-mod_right p b.len,
    )
  ]

  pub read-IsValid :
      length ps < usize_mod
      → p < b.head
      → IsValid (change_slot b p (read_by_one b.readers)) items (set ps i (p + 1))
  read-IsValid hm h = record {
    two = valid.two;
    head = valid.head;
    readers = valid.readers ∙ sym (length-set ps i (p + 1));
    within =
        All-set (Within b) ps i (p + 1) valid.within
          (omega arith, omega arith, omega (arith, reader-Within));
    slot = λ j k k'. read-slot j hm h k k';
  }
