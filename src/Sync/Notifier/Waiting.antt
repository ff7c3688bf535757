-- ===== src/Sync/Notifier/Waiting.antt =====
-- A task that has registered is not forgotten.
use postage_rs.Prelude.{
  refl, sym, ◌⊎◌, inl, inr, [], ◌∷◌, Elem, Elem-append_left, Elem-append_right,
}
use mathlib.Core.Path.{subst}
use postage_rs.Queues.{SegQueue}
use postage_rs.Sync.Notifier.{Notifier}
use postage_rs.Sync.Notifier.Alone.{notified, notified_lem}

-- What a task that receives waits for.
pub data Cause : Type 0 where
  value ended : Cause

module _ {Q W : Type 0} ⦃sq : SegQueue Q W⦄ where
  -- The waker is in the queue, to be woken by the next `notify`, or it has been woken.
  unfoldable pub Known : W → Notifier Q W → Type 0
  Known w n = Elem w (sq.contents n.wakers) ⊎ Elem w n.woken

  -- `subscribe` registers.
  pub Known-push : (w : W) (n : Notifier Q W) → Known w (record n { wakers = sq.push w n.wakers })
  unfolding Known
  Known-push w n = inl (
      subst (Elem w) (sym (sq.contents-push w n.wakers))
        (Elem-append_right w (sq.contents n.wakers) (w ∷ []) (inl refl)))

  -- Another task's registration keeps it.
  pub Known-push_other :
      (w w' : W) (n : Notifier Q W)
      → Known w n
      → Known w (record n { wakers = sq.push w' n.wakers })
  unfolding Known
  Known-push_other w w' n (inl h) = inl (
      subst (Elem w) (sym (sq.contents-push w' n.wakers))
        (Elem-append_left w (sq.contents n.wakers) (w' ∷ []) h))
  Known-push_other w w' n (inr h) = inr h

  -- `notify` wakes every task that is known.
  pub notified-wakes : (w : W) (n : Notifier Q W) → Known w n → Elem w (notified n).woken
  unfolding Known
  notified-wakes w n (inl h) =
      subst (Elem w) (sym (notified_lem n).1) (Elem-append_right w n.woken (sq.contents n.wakers) h)
  notified-wakes w n (inr h) =
      subst (Elem w) (sym (notified_lem n).1) (Elem-append_left w n.woken (sq.contents n.wakers) h)
