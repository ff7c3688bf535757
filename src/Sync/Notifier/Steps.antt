-- ===== src/Sync/Notifier/Steps.antt =====
-- The steps of other threads, as a task sees them that waits at a notifier.
use postage_rs.Prelude.{◌+◌, ◌≡◌, ◌<◌, sym, ◌∙◌, inr, Elem, arith}
use mathlib.Core.Path.{subst}
use postage_rs.Queues.{SegQueue}
use postage_rs.Concurrent.Atomic.{usize_mod}
use postage_rs.Concurrent.Fair.{Waiter, Keeps, Counts, Wakes}
use postage_rs.Sync.Notifier.{Notifier}
use postage_rs.Sync.Notifier.Alone.{notified, notified_lem}
use postage_rs.Sync.Notifier.Waiting.{Known, notified-wakes}

module _ {S Q W : Type 0} ⦃sq : SegQueue Q W⦄ (at : S → Notifier Q W) (ready : S → Type 0)
    (w : W) where
  -- The task of waker `w`, which waits for `ready` at the notifier `at s`.
  abbrev pub waiter : Waiter S
  waiter = record {
    known = λ s. Known w (at s);
    woken = λ s. Elem w (at s).woken;
    generation = λ s. (at s).generation;
    ready = ready;
  }

  -- A step that leaves the notifier alone.
  pub untouched-Keeps : (e : S → S) → ((s : S) → at (e s) ≡ at s) → Keeps waiter e
  untouched-Keeps e h = record {
    keeps_known = λ s k. subst (Known w) (sym (h s)) k;
    keeps_woken = λ s k. subst (λ n. Elem w n.woken) (sym (h s)) k;
    grows = λ s b. rw (h s) (omega arith);
    by_one = λ s b. rw (h s) (omega arith);
  }

  -- A step that is a whole `notify`.
  module _ (e : S → S) (h : (s : S) → at (e s) ≡ notified (at s)) where
    counted :
        (s : S) → (at s).generation + 1 < usize_mod → (at (e s)).generation ≡ (at s).generation + 1
    counted s b = rw (h s) ((notified_lem (at s)).2 ∙ (omega (arith, b)))

    pub notified-Counts : Counts waiter e
    notified-Counts s b = omega (arith, counted s b)

    pub notified-Wakes : Wakes waiter e
    notified-Wakes s k = subst (λ n. Elem w n.woken) (sym (h s)) (notified-wakes w (at s) k)

    pub notified-Keeps : Keeps waiter e
    unfolding Known
    notified-Keeps = record {
      keeps_known = λ s k. inr (notified-Wakes s k);
      keeps_woken = λ s k. notified-Wakes s (inr k);
      grows = λ s b. omega (arith, counted s b);
      by_one = λ s b. omega (arith, counted s b);
    }
