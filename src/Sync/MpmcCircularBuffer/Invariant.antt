-- ===== src/Sync/MpmcCircularBuffer/Invariant.antt =====
-- What the slots of a buffer hold: the last values of a log of all that were written, where each reader
-- has a position in the log. The value of an id stands at the id less 1, and is in the slot of the id
-- until the head has gone round to it.
use postage_rs.Prelude.{
  ℕ, ◌+◌, ◌-◌, ◌%◌, ◌<◌, ◌≤◌, ◌≡◌, ◌≢◌, refl, ap, ◌∙◌, List, [], ◌∷◌, ltb, eqb, if◌then◌else◌,
  arith, length, get_elem?, All, inl, inr, Bool-cases,
}
use native.Mathlib.Nat.{mod-add-mod, mod-eq_of_lt, mod-eq-sub-mod, mod-lt}
use native.Mathlib.Decide.{dec_lt}
use postage_rs.Queues.{SegQueue}
use postage_rs.Sync.MpmcCircularBuffer.{MpmcCircularBuffer}
use postage_rs.Sync.MpmcCircularBuffer.Slot.{Slot}
use postage_rs.Sync.MpmcCircularBuffer.Alone.{slot_of, change_slot}

-- How many of the positions are past `k`.
abbrev pub past : ℕ → List ℕ → ℕ
past k [] = 0
past k (p ∷ ps) = (if ltb k p then 1 else 0) + past k ps

module _ {Q W T : Type 0} where
  -- The slot holds the value of the id `k`, and counts the readers that are past it.
  abbrev pub Holds : Slot Q W T → List T → List ℕ → ℕ → Type 0
  Holds x items ps k =
      (x.index ≡ k) × (0 < k → (x.data_cell ≡ get_elem? items (k - 1)) × (x.reads ≡ past k ps))

  -- A reader is at an id that was written and is still there, or at the head.
  abbrev pub Within : MpmcCircularBuffer Q W T → ℕ → Type 0
  Within b p = (0 < p) × (p ≤ b.head) × (b.head ≤ p + b.len)

  pub record IsValid (b : MpmcCircularBuffer Q W T) (items : List T) (ps : List ℕ) : Type 0 where
    pub two : 2 ≤ b.len
    pub head : b.head ≡ length items + 1
    pub readers : b.readers ≡ length ps
    pub within : All (Within b) ps
    pub slot :
        (j : ℕ) → b.head ≤ j → j < b.head + b.len → Holds (b.slots (j % b.len)) items ps (j - b.len)

step-ne : (n r d : ℕ) → r < n → 0 < d → d < n → (r + d) % n ≢ r
step-ne n r d hr h h' = elim (dec_lt (r + d) n) [
  | yes k ↦ omega (arith, mod-eq_of_lt k)
  | no k ↦ omega (
    arith,
    mod-eq-sub-mod {n = r + d} {m = n} (omega arith),
    mod-eq_of_lt {n = r + d - n} {m = n} (omega arith),
  )
]

-- Fewer than `n` steps round the ring do not come back to the start.
pub mod-ne : (n h j : ℕ) → 0 < n → h < j → j < h + n → j % n ≢ h % n
mod-ne n h j hn hj hj' e =
    step-ne n (h % n) (j - h) (mod-lt h hn) (omega arith) (omega arith)
      (mod-add-mod h n (j - h) ∙ ap (λ k. k % n) (omega arith) ∙ e)

pub past-none : (k : ℕ) (ps : List ℕ) → All (λ p. p ≤ k) ps → past k ps ≡ 0
past-none k [] h = refl
past-none k (p ∷ ps) h = ground (arith, past-none k ps h.1)

pub past-le : (k : ℕ) (ps : List ℕ) → past k ps ≤ length ps
past-le k [] = omega arith
past-le k (p ∷ ps) = ground (arith, past-le k ps)

module _ {Q W T : Type 0} ⦃sq : SegQueue Q W⦄ (b : MpmcCircularBuffer Q W T) (items : List T)
    (ps : List ℕ) (valid : IsValid b items ps) where
  -- A change of the slot of `id` that keeps its value and its counts.
  abbrev Keeps : (Slot Q W T → Slot Q W T) → Type 0
  Keeps f =
      (x : Slot Q W T)
      → ((f x).index ≡ x.index) × ((f x).data_cell ≡ x.data_cell) × ((f x).reads ≡ x.reads)

  pub change_slot-IsValid :
      (id : ℕ) (f : Slot Q W T → Slot Q W T) → Keeps f → IsValid (change_slot b id f) items ps
  change_slot-IsValid id f keeps = record {
    two = valid.two;
    head = valid.head;
    readers = valid.readers;
    within = valid.within;
    slot = slot;
  }
    where
      slot :
          (j : ℕ)
          → b.head ≤ j
          → j < b.head + b.len
          → Holds ((change_slot b id f).slots (j % b.len)) items ps (j - b.len)
      slot j h h' = elim (Bool-cases (eqb (j % b.len) (id % b.len))) [
        | inl e ↦ ground (arith, keeps (slot_of b id), valid.slot j h h')
        | inr e ↦ ground (arith, valid.slot j h h')
      ]
