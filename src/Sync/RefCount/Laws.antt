-- ===== src/Sync/RefCount/Laws.antt =====
-- The reference count: a decrement ends under every schedule, and what it does undisturbed.
use postage_rs.Prelude.{
  ◌-◌, ◌≡◌, some, ltb, eqb, arith, if◌then◌else◌, ◌∷◌, [], Bool-cases, eqb_iff, ap, ◌∙◌, inl, inr,
}
use postage_rs.Concurrent.{Env, Ref}
use postage_rs.Concurrent.Atomic.{usize_word}
use postage_rs.Concurrent.Loop.{break, retry-break}
use postage_rs.Concurrent.Progress.{Accesses, Breaks, retry_total}
use postage_rs.Sync.RefCount.{RefCount, TryDecrement, alive, dead, decrement, decrement_round}

-- The count after an undisturbed decrement, and the answer.
unfoldable pub decremented : RefCount → RefCount
decremented c = record c { count = c.count - 1 }

unfoldable pub answer : RefCount → TryDecrement
answer c = if ltb 1 c.count then alive (c.count - 1) else dead

module _ {S : Type 0} (self : Ref S RefCount) where
  decrement_round-Accesses : (u : Unit {0}) → Accesses (decrement_round self u)
  unfolding decrement_round
  decrement_round-Accesses u [] s = ground arith
  decrement_round-Accesses u (e ∷ []) s = ground arith
  decrement_round-Accesses u (e ∷ f ∷ es) s = ground arith

  decrement_round-Breaks :
      (u : Unit {0}) (s : S) → Breaks (decrement_round self) (decrement_round self u [] s).0
  unfolding decrement_round
  decrement_round-Breaks u s = ground arith

  -- However the other threads interfere, `decrement` returns.
  pub decrement_total :
      (es : Env S) (s : S) → (d : TryDecrement) × ((decrement self es s).0 ≡ some d)
  unfolding decrement
  decrement_total =
      retry_total (decrement_round self) decrement_round-Accesses decrement_round-Breaks tt

  decremented_zero : (s : S) → (self.get s).count ≡ 0 → s ≡ self.put (decremented (self.get s)) s
  unfolding decremented
  decremented_zero s e = cc (self.put-get s, unchanged)
    where
      unchanged : decremented (self.get s) ≡ self.get s
      unchanged = ground arith

  decrement_round-alone :
      (s : S)
      → decrement_round self tt [] s
        ≡ (break (answer (self.get s)), self.put (decremented (self.get s)) s, [])
  unfolding decrement_round answer
  decrement_round-alone s = elim (Bool-cases (eqb (self.get s).count 0)) [
    | inl e ↦ ground (arith, decremented_zero s ((eqb_iff (self.get s).count 0).0 e))
    | inr e ↦ unfold decremented in ground arith
  ]

  pub decrement-alone :
      (s : S)
      → decrement self [] s
        ≡ (some (answer (self.get s)), self.put (decremented (self.get s)) s, [])
  unfolding decrement
  decrement-alone s =
      retry-break (decrement_round self) tt (answer (self.get s)) [] s
        (ap (λ r. r.0) (decrement_round-alone s))
      ∙ ap (λ r. (some (answer (self.get s)), r.1, r.2)) (decrement_round-alone s)
