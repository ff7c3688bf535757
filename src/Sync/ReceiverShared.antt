-- ===== src/Sync/ReceiverShared.antt =====
-- src/sync.rs: what a receiver's handle does to the shared state.
use postage_rs.Prelude.{Bool, not, none, some}
use postage_rs.Context.{Context}
use postage_rs.Queues.{SegQueue}
use postage_rs.Concurrent.{M, pure, ◌>>=◌}
use postage_rs.Sync.RefCount
use postage_rs.Sync.RefCount.{TryDecrement, alive, dead}
use postage_rs.Sync.Notifier
use postage_rs.Sync.Notifier.{NotificationGuard}
use postage_rs.Sync.Shared.{
  Shared, sender_notify_field, sender_count_field, receiver_notify_field, receiver_count_field,
}

module _ {Q W E : Type 0} ⦃sq : SegQueue Q W⦄ where
  unfoldable pub notify_senders : M (Shared Q W E) (Unit {0})
  notify_senders = Notifier.notify sender_notify_field

  unfoldable pub subscribe_send : Context W → M (Shared Q W E) (Unit {0})
  unfolding Notifier.subscribe
  subscribe_send cx = Notifier.subscribe receiver_notify_field cx

  unfoldable pub send_guard : M (Shared Q W E) NotificationGuard
  unfolding Notifier.guard
  send_guard = Notifier.guard receiver_notify_field

  -- `guard.is_expired()` for a guard of `send_guard`.
  unfoldable pub guard_is_expired : NotificationGuard → M (Shared Q W E) Bool
  unfolding Notifier.is_expired
  guard_is_expired g = Notifier.is_expired receiver_notify_field g

module _ {Q W E : Type 0} where
  unfoldable pub is_alive : M (Shared Q W E) Bool
  unfolding RefCount.is_alive
  is_alive = RefCount.is_alive sender_count_field

  unfoldable pub is_closed : M (Shared Q W E) Bool
  unfolding is_alive
  is_closed = do a ← is_alive; pure (not a)

  unfoldable pub clone : M (Shared Q W E) (Unit {0})
  unfolding RefCount.increment
  clone = RefCount.increment receiver_count_field

module _ {Q W E : Type 0} ⦃sq : SegQueue Q W⦄ where
  -- `none` is a `decrement` that ran out of rounds.
  unfoldable pub drop : M (Shared Q W E) (Unit {0})
  unfolding notify_senders
  drop = do
    decremented ← RefCount.decrement receiver_count_field
    elim decremented [ none ↦ pure tt | some (alive _) ↦ pure tt | some dead ↦ notify_senders ]
