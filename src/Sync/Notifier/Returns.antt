-- ===== src/Sync/Notifier/Returns.antt =====
-- The wake loop of `notify` ends, whatever the other threads do.
use postage_rs.Prelude.{ℕ, zero, suc, ◌<◌, ◌≡◌, refl, List, [], ◌∷◌, length, arith, inl, inr, some}
use postage_rs.Queues.{SegQueue}
use postage_rs.Concurrent.{Ref, Env}
use postage_rs.Concurrent.Loop.{
  break, continue, rounds, Control-cases, rounds-continue, rounds-break,
}
use postage_rs.Sync.Notifier.{Notifier, pop_and_wake, wake_round, wake_all}

module _ {Q W : Type 0} ⦃sq : SegQueue Q W⦄ where
  -- A pop that ends the loop has found the queue empty.
  pop-ended :
      (n : Notifier Q W) (ws : List W) (u : Unit {0})
      → sq.contents n.wakers ≡ ws
      → (pop_and_wake n).0 ≡ break u
      → sq.contents (pop_and_wake n).1.wakers ≡ []
  unfolding pop_and_wake
  pop-ended n [] u e h = ground (arith, sq.pop_empty n.wakers e)
  pop-ended n (w ∷ ws) u e h = ground (arith, sq.pop_first n.wakers w ws e)

  pop-went_on :
      (n : Notifier Q W) (ws : List W) (u : Unit {0})
      → sq.contents n.wakers ≡ ws
      → (pop_and_wake n).0 ≡ continue u
      → suc (length (sq.contents (pop_and_wake n).1.wakers)) ≡ length ws
  unfolding pop_and_wake
  pop-went_on n [] u e h = ground (arith, sq.pop_empty n.wakers e)
  pop-went_on n (w ∷ ws) u e h = ground (arith, sq.pop_first n.wakers w ws e)

module _ {S Q W : Type 0} ⦃sq : SegQueue Q W⦄ (self : Ref S (Notifier Q W)) where
  rounds-ends :
      (k : ℕ) (s : S)
      → length (sq.contents (self.get s).wakers) < k
      → let r = rounds (wake_round self) k tt [] s in
        (r.0 ≡ some tt) × (sq.contents (self.get r.1).wakers ≡ [])
  unfolding wake_round
  rounds-ends zero s h = absurd (omega (arith, h))
  rounds-ends (suc k) s h = elim (Control-cases (pop_and_wake (self.get s)).0) [
    | inl (u, e) ↦ rw (rounds-continue (wake_round self) k tt u [] s e) (
        rounds-ends k (self.put (pop_and_wake (self.get s)).1 s)
          (rw self.get-put (omega (arith, h, pop-went_on (self.get s) _ u refl e))))
    | inr (u, e) ↦
        rw (rounds-break (wake_round self) k tt u [] s e)
          (refl, rw self.get-put (pop-ended (self.get s) _ u refl e))
  ]

  -- The state after one pop.
  popped : S → S
  popped s = self.put (pop_and_wake (self.get s)).1 s

  wake_all-continue :
      (a : S → S) (es : Env S) (s : S) (u : Unit {0})
      → (pop_and_wake (self.get (a s))).0 ≡ continue u
      → wake_all self (a ∷ es) s ≡ wake_all self es (popped (a s))
  unfolding wake_all wake_round popped
  wake_all-continue a es s u e = λ i. elim (e i) [
    | continue _ ↦ wake_all self es (popped (a s))
    | break b ↦ (some b, popped (a s), es)
  ]

  wake_all-break :
      (a : S → S) (es : Env S) (s : S) (u : Unit {0})
      → (pop_and_wake (self.get (a s))).0 ≡ break u
      → wake_all self (a ∷ es) s ≡ (some u, popped (a s), es)
  unfolding wake_all wake_round popped
  wake_all-break a es s u e = λ i. elim (e i) [
    | continue _ ↦ wake_all self es (popped (a s))
    | break b ↦ (some b, popped (a s), es)
  ]

  -- Whatever the other threads do, the wake loop ends, and its last access has found no waker in the
  -- queue.
  pub wake_all_returns :
      (es : Env S) (s : S)
      → let r = wake_all self es s in (r.0 ≡ some tt) × (sq.contents (self.get r.1).wakers ≡ [])
  unfolding wake_all popped
  wake_all_returns [] s =
      rounds-ends (suc (length (sq.contents (self.get s).wakers))) s (omega arith)
  wake_all_returns (a ∷ es) s = elim (Control-cases (pop_and_wake (self.get (a s))).0) [
    | inl (u, e) ↦ rw (wake_all-continue a es s u e) (wake_all_returns es (popped (a s)))
    | inr (u, e) ↦
        rw (wake_all-break a es s u e)
          (refl, rw self.get-put (pop-ended (self.get (a s)) _ u refl e))
  ]
