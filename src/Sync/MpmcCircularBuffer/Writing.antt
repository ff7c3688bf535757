-- ===== src/Sync/MpmcCircularBuffer/Writing.antt =====
-- When a write goes into a buffer, and that it keeps what the slots hold.
use postage_rs.Prelude.{
  ℕ, ◌+◌, ◌-◌, ◌%◌, ◌<◌, ◌≤◌, ◌≡◌, refl, List, [], ◌∷◌, ◌++◌, leb, if◌then◌else◌, Bool, true, false,
  arith, length, All, All-imp, length-append, get_elem?-append_left, get_elem?-append_last, inl,
  inr,
}
use native.Mathlib.Nat.{add-mod_right}
use native.Mathlib.Decide.{dec_lt}
use postage_rs.Queues.{SegQueue}
use postage_rs.Concurrent.Atomic.{usize_mod}
use postage_rs.Sync.MpmcCircularBuffer.{MpmcCircularBuffer}
use postage_rs.Sync.MpmcCircularBuffer.Slot.Alone.{IsFree}
use postage_rs.Sync.MpmcCircularBuffer.Alone.{slot_of, written}
use postage_rs.Sync.MpmcCircularBuffer.Invariant.{past, Holds, IsValid, mod-ne, past-none, past-le}

-- Whether a reader has yet to read the value that `n` slots hold from the id `h` on.
abbrev pub is_behind : ℕ → ℕ → List ℕ → Bool
is_behind n h [] = false
is_behind n h (p ∷ ps) = if leb (p + n) h then true else is_behind n h ps

is_behind-past :
    (n h : ℕ) (ps : List ℕ)
    → is_behind n h ps ≡ true
    → All (λ p. 0 < p) ps
    → (0 < h - n) × (past (h - n) ps < length ps)
is_behind-past n h [] e k = cc
is_behind-past n h (p ∷ ps) e (k, ks) =
    ground (arith, is_behind-past n h ps, ks, past-le (h - n) ps)

pub not-is_behind :
    (n h : ℕ) (ps : List ℕ)
    → is_behind n h ps ≡ false
    → All (λ p. (0 < p) × (p ≤ h)) ps
    → All (λ p. (0 < p) × (p ≤ h) × (h < p + n)) ps
not-is_behind n h [] e k = tt
not-is_behind n h (p ∷ ps) e ((k, k'), ks) = ground (arith, not-is_behind n h ps, ks, k, k')

pub past-All : (k : ℕ) (ps : List ℕ) → All (λ p. k < p) ps → past k ps ≡ length ps
past-All k [] h = refl
past-All k (p ∷ ps) h = ground (arith, past-All k ps h.1)

module _ {Q W T : Type 0} ⦃sq : SegQueue Q W⦄ (b : MpmcCircularBuffer Q W T) (items : List T)
    (ps : List ℕ) (valid : IsValid b items ps) where
  written-slot :
      (v : T) (j : ℕ)
      → b.head + 1 < usize_mod
      → b.head < j
      → j < b.head + 1 + b.len
      → past b.head ps ≡ 0
      → Holds ((written b v).slots (j % b.len)) (items ++ (v ∷ [])) ps (j - b.len)
  written-slot v j hm h h' e = elim (dec_lt j (b.head + b.len)) [
    | yes k ↦ ground (
      arith,
      mod-ne b.len b.head j (omega (arith, valid.two)) h k,
      valid.slot j (omega arith) k,
      valid.head,
      get_elem?-append_left items (v ∷ []) (j - b.len - 1),
    )
    | no k ↦ last (omega arith)
  ]
    where
      last :
          j ≡ b.head + b.len
          → Holds ((written b v).slots (j % b.len)) (items ++ (v ∷ [])) ps (j - b.len)
      last k =
          ground
            (arith, k, add-mod_right b.head b.len, valid.head, e, get_elem?-append_last items v)

  -- A write that no reader stands in the way of.
  pub written-IsValid :
      (v : T)
      → b.head + 1 < usize_mod
      → All (λ p. (0 < p) × (p ≤ b.head) × (b.head < p + b.len)) ps
      → IsValid (written b v) (items ++ (v ∷ [])) ps
  written-IsValid v hm within = record {
    two = valid.two;
    head = omega (arith, head, valid.head, length-append items (v ∷ []));
    readers = valid.readers;
    within = rw head (All-imp _ _ (λ p h. (h.0, omega (arith, h), omega (arith, h))) ps within);
    slot = λ j h h'.
        written-slot v j hm (omega (arith, head)) (omega (arith, head))
          (past-none b.head ps (All-imp _ _ (λ p h. h.1) ps within));
  }
    where
      head : (b.head + 1) % usize_mod ≡ b.head + 1
      head = omega (arith, hm)

  pub head-slot : Holds (slot_of b b.head) items ps (b.head - b.len)
  head-slot = valid.slot b.head (omega arith) (omega (arith, valid.two))

  -- A reader that is behind holds up the write to the slot at the head.
  pub head-IsAwaited :
      is_behind b.len b.head ps ≡ true
      → let x = slot_of b b.head in (x.index < b.head) × (0 < x.index) × (x.reads < b.readers)
  head-IsAwaited e = ground (
    arith,
    valid.two,
    valid.readers,
    head-slot,
    is_behind-past b.len b.head ps e (All-imp _ _ (λ p h. h.0) ps valid.within),
  )

  -- When none is, no reader stands in the way.
  pub readers-in_front :
      is_behind b.len b.head ps ≡ false
      → All (λ p. (0 < p) × (p ≤ b.head) × (b.head < p + b.len)) ps
  readers-in_front e =
      not-is_behind b.len b.head ps e (All-imp _ _ (λ p h. (h.0, h.1)) ps valid.within)

  pub head-IsFree :
      is_behind b.len b.head ps ≡ false
      → ((slot_of b b.head).index < b.head) × IsFree (slot_of b b.head) b.readers
  head-IsFree e = elim (dec_lt b.len b.head) [
    | yes h ↦ (
      omega (arith, head-slot, valid.two, valid.head),
      inr (omega (arith, head-slot.1 (omega arith), valid.readers, all_past)),
    )
    | no h ↦ (omega (arith, head-slot, valid.head), inl (omega (arith, head-slot)))
  ]
    where
      all_past : past (b.head - b.len) ps ≡ length ps
      all_past =
          past-All (b.head - b.len) ps
            (All-imp _ _ (λ p h. omega (arith, h)) ps (readers-in_front e))
