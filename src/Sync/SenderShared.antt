-- ===== src/Sync/SenderShared.antt =====
-- src/sync.rs: what a sender's handle does to the shared state. Every clone of a handle refers to
-- the same state, so a handle is no more than the right to these operations.
use postage_rs.Prelude.{Bool, not, none, some}
use postage_rs.Context.{Context}
use postage_rs.Queues.{SegQueue}
use postage_rs.Concurrent.{M, pure, ◌>>=◌}
use postage_rs.Sync.RefCount
use postage_rs.Sync.RefCount.{TryDecrement, alive, dead}
use postage_rs.Sync.Notifier
use postage_rs.Sync.Notifier.{NotificationGuard}
use postage_rs.Sync.Shared.{
  Shared, sender_notify_field, sender_count_field, receiver_notify_field, receiver_count_field,
}

module _ {Q W E : Type 0} ⦃sq : SegQueue Q W⦄ where
  unfoldable pub notify_receivers : M (Shared Q W E) (Unit {0})
  notify_receivers = Notifier.notify receiver_notify_field

  unfoldable pub notify_self : M (Shared Q W E) (Unit {0})
  notify_self = Notifier.notify sender_notify_field

  unfoldable pub subscribe_recv : Context W → M (Shared Q W E) (Unit {0})
  unfolding Notifier.subscribe
  subscribe_recv cx = Notifier.subscribe sender_notify_field cx

  unfoldable pub recv_guard : M (Shared Q W E) NotificationGuard
  unfolding Notifier.guard
  recv_guard = Notifier.guard sender_notify_field

  -- `guard.is_expired()` for a guard of `recv_guard`.
  unfoldable pub guard_is_expired : NotificationGuard → M (Shared Q W E) Bool
  unfolding Notifier.is_expired
  guard_is_expired g = Notifier.is_expired sender_notify_field g

module _ {Q W E : Type 0} where
  unfoldable pub is_alive : M (Shared Q W E) Bool
  unfolding RefCount.is_alive
  is_alive = RefCount.is_alive receiver_count_field

  unfoldable pub is_closed : M (Shared Q W E) Bool
  unfolding is_alive
  is_closed = do a ← is_alive; pure (not a)

  unfoldable pub clone_receiver : M (Shared Q W E) (Unit {0})
  unfolding RefCount.increment
  clone_receiver = RefCount.increment receiver_count_field

  unfoldable pub clone : M (Shared Q W E) (Unit {0})
  unfolding RefCount.increment
  clone = RefCount.increment sender_count_field

module _ {Q W E : Type 0} ⦃sq : SegQueue Q W⦄ where
  -- `none` is a `decrement` that ran out of rounds.
  unfoldable pub drop : M (Shared Q W E) (Unit {0})
  unfolding notify_receivers
  drop = do
    decremented ← RefCount.decrement sender_count_field
    elim decremented [ none ↦ pure tt | some (alive _) ↦ pure tt | some dead ↦ notify_receivers ]
