-- ===== src/Concurrent/Atomic.antt =====
-- The operations of std's `AtomicUsize` and of `atomic::Atomic`, each a single access.
use postage_rs.Prelude.{ℕ, ◌+◌, ◌-◌, ◌%◌, ◌^◌, Bool, true, ◌≡◌, ◌↔◌, eqb, eqb_iff, if◌then◌else◌}
use postage_rs.Concurrent.{M, atomic, Ref}

-- `usize` is 64 bits wide.
abbrev pub usize_mod : ℕ
usize_mod = 2 ^ 64

pub data Result (A E : Type 0) : Type 0 where
  ok : A → Result A E
  err : E → Result A E

-- Bitwise equality of the value in an atomic cell.
pub record Word (A : Type 0) : Type 0 where
  pub beq : A → A → Bool
  pub beq_iff : (a b : A) → (beq a b ≡ true) ↔ (a ≡ b)

instance abbrev pub usize_word : Word ℕ
usize_word = record { beq = eqb; beq_iff = eqb_iff }

module _ {S : Type 0} where
  abbrev pub load : {F : Type 0} → Ref S F → M S F
  load r = atomic (λ s. (r.get s, s))

  abbrev pub store : {F : Type 0} → Ref S F → F → M S (Unit {0})
  store r x = atomic (λ s. (tt, r.put x s))

  -- An access of another kind, such as a call of a lock-free queue.
  abbrev pub access : {F A : Type 0} → Ref S F → (F → A × F) → M S A
  access r f = atomic (λ s. let (a, x) = f (r.get s) in (a, r.put x s))

  -- These return the value before the addition, which wraps.
  abbrev pub fetch_add : Ref S ℕ → ℕ → M S ℕ
  fetch_add r k = access r (λ n. (n, (n + k) % usize_mod))

  abbrev pub fetch_sub : Ref S ℕ → ℕ → M S ℕ
  fetch_sub r k = access r (λ n. (n, (n + usize_mod - k) % usize_mod))

  abbrev pub compare_exchange : {F : Type 0} ⦃w : Word F⦄ → Ref S F → F → F → M S (Result F F)
  compare_exchange ⦃w⦄ r current new =
      access r (λ x. if w.beq x current then (ok x, new) else (err x, x))

  -- A field that never changes, which is read without an access.
  abbrev pub constant : {F A : Type 0} → Ref S F → (F → A) → M S A
  constant r f es s = (f (r.get s), s, es)
