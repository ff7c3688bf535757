-- ===== src/Sync/Advances.antt =====
-- The operations of the handles consume the schedule that they run under.
use postage_rs.Prelude.{suc, length, [], ◌∷◌, arith, inl, inr}
use postage_rs.Queues.{SegQueue}
use postage_rs.Concurrent.{Ref}
use postage_rs.Concurrent.Loop.{Control-cases}
use postage_rs.Concurrent.Progress.{Accesses, Advances, Advances-rounds}
use postage_rs.Sync.Notifier.{Notifier, wake_round, wake_all, notify}

module _ {S Q W : Type 0} ⦃sq : SegQueue Q W⦄ (self : Ref S (Notifier Q W)) where
  wake_round-Accesses : (u : Unit {0}) → Accesses (wake_round self u)
  unfolding wake_round
  wake_round-Accesses u [] s = omega arith
  wake_round-Accesses u (e ∷ es) s = omega arith

  wake_all-Advances : Advances (wake_all self)
  unfolding wake_all
  wake_all-Advances [] s =
      Advances-rounds (wake_round self) wake_round-Accesses
        (suc (length (sq.contents (self.get s).wakers))) tt [] s
  wake_all-Advances (e ∷ es) s = elim (Control-cases (wake_round self tt (e ∷ []) s).0) [
    | inl (u, q) ↦ ground (arith, q, wake_all-Advances es (wake_round self tt (e ∷ []) s).1)
    | inr (u, q) ↦ ground (arith, q)
  ]

  pub notify-Accesses : Accesses (notify self)
  unfolding notify
  notify-Accesses [] s = omega (arith, wake_all-Advances)
  notify-Accesses (e ∷ es) s = omega (arith, wake_all-Advances)
