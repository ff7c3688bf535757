-- ===== src/Sync/MpmcCircularBuffer/Readers.antt =====
-- The coming and going of readers keeps what the slots hold.
use postage_rs.Prelude.{
  ℕ, zero, suc, ◌+◌, ◌-◌, ◌%◌, ◌<◌, ◌≤◌, ◌≡◌, some, List, [], ◌∷◌, ◌++◌, ltb, if◌then◌else◌, arith,
  length, get_elem?, All-append, All-remove_at, length-append, length-remove_at, remove_at,
  get_elem?-some_lt,
}
use native.Mathlib.Nat.{mod-lt}
use postage_rs.Queues.{SegQueue}
use postage_rs.Concurrent.Atomic.{usize_mod}
use postage_rs.Sync.MpmcCircularBuffer.{MpmcCircularBuffer}
use postage_rs.Sync.MpmcCircularBuffer.Maintenance.{joined, left}
use postage_rs.Sync.MpmcCircularBuffer.Invariant.{past, past-le, Holds, Within, IsValid}

past-append :
    (k : ℕ) (ps : List ℕ) (p : ℕ) → past k (ps ++ (p ∷ [])) ≡ past k ps + (if ltb k p then 1 else 0)
past-append k [] p = ground arith
past-append k (q ∷ ps) p = ground (arith, past-append k ps p)

past-remove_at :
    (k : ℕ) (ps : List ℕ) (i p : ℕ)
    → get_elem? ps i ≡ some p
    → past k (remove_at ps i) + (if ltb k p then 1 else 0) ≡ past k ps
past-remove_at k [] i p e = cc
past-remove_at k (q ∷ ps) zero p e = ground (arith, e)
past-remove_at k (q ∷ ps) (suc i) p e = ground (arith, past-remove_at k ps i p e)

module _ {Q W T : Type 0} ⦃sq : SegQueue Q W⦄ (b : MpmcCircularBuffer Q W T) (items : List T)
    (ps : List ℕ) (valid : IsValid b items ps) where
  joined-slot :
      (p j : ℕ)
      → length ps + 1 < usize_mod
      → b.head ≤ j
      → j < b.head + b.len
      → Holds ((joined p b).slots (j % b.len)) items (ps ++ (p ∷ [])) (j - b.len)
  joined-slot p j hm h h' = ground (
    arith,
    mod-lt j {m = b.len} (omega (arith, valid.two)),
    valid.slot j h h',
    past-append (j - b.len) ps p,
    past-le (j - b.len) ps,
  )

  -- A reader that comes at an id where a reader may be.
  pub joined-IsValid :
      (p : ℕ) → length ps + 1 < usize_mod → Within b p → IsValid (joined p b) items (ps ++ (p ∷ []))
  joined-IsValid p hm h = record {
    two = valid.two;
    head = valid.head;
    readers = omega (arith, valid.readers, length-append ps (p ∷ []));
    within = All-append (Within b) ps (p ∷ []) valid.within (h, tt);
    slot = λ j k k'. joined-slot p j hm k k';
  }

  left-slot :
      (i p j : ℕ)
      → get_elem? ps i ≡ some p
      → b.head ≤ j
      → j < b.head + b.len
      → Holds ((left p b).slots (j % b.len)) items (remove_at ps i) (j - b.len)
  left-slot i p j e h h' = ground (
    arith,
    mod-lt j {m = b.len} (omega (arith, valid.two)),
    valid.slot j h h',
    past-remove_at (j - b.len) ps i p e,
  )

  -- A reader that goes.
  pub left-IsValid :
      (i p : ℕ)
      → length ps < usize_mod
      → get_elem? ps i ≡ some p
      → IsValid (left p b) items (remove_at ps i)
  left-IsValid i p hm e = record {
    two = valid.two;
    head = valid.head;
    readers = omega (
      arith,
      valid.readers,
      length-remove_at ps i (get_elem?-some_lt ps i p e),
      get_elem?-some_lt ps i p e,
    );
    within = All-remove_at (Within b) ps i valid.within;
    slot = λ j k k'. left-slot i p j e k k';
  }
