-- ===== src/Tests/Schedules.antt =====
-- A schedule in which another thread makes an event happen after the poll, and then notifies.
use postage_rs.Prelude.{ℕ, ◌≡◌, refl, List, [], ◌∷◌}
use postage_rs.Concurrent.{Env}
use postage_rs.Concurrent.Fair.{Debt, clear, Fair, quiet, makes, notifies, done}
use postage_rs.Sync.Notifier.{Notifier}
use postage_rs.Sync.Notifier.Alone.{notified}
use postage_rs.Sync.Notifier.Steps.{
  waiter, untouched-Keeps, notified-Keeps, notified-Counts, notified-Wakes,
}
use postage_rs.Tests.Queues.{wakers}

-- The other threads do nothing during the accesses of the poll.
abbrev pub afterwards : {S : Type 0} → (S → S) → (S → S) → Env S
afterwards make notify = (λ s. s) ∷ (λ s. s) ∷ (λ s. s) ∷ (λ s. s) ∷ (λ s. s) ∷ make ∷ notify ∷ []

module _ {S : Type 0} (at : S → Notifier (List ℕ) ℕ) (ready : S → Type 0) (w : ℕ) where
  quietly :
      (d : Debt) (es : Env S)
      → Fair (waiter at ready w) d es
      → Fair (waiter at ready w) d ((λ s. s) ∷ es)
  quietly d es f = quiet (untouched-Keeps at ready w (λ s. s) (λ s. refl)) (λ s h. h) f

  pub afterwards-Fair :
      (make notify : S → S)
      → ((s : S) → at (make s) ≡ at s)
      → ((s : S) → at (notify s) ≡ notified (at s))
      → Fair (waiter at ready w) clear (afterwards make notify)
  afterwards-Fair make notify m n = quietly _ _ (
      quietly _ _ (
        quietly _ _ (
          quietly _ _ (
            quietly _ _ (
              makes (untouched-Keeps at ready w make m) (
                notifies (notified-Keeps at ready w notify n) (notified-Counts at ready w notify n)
                  (notified-Wakes at ready w notify n) done))))))
