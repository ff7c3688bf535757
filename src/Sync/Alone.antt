-- ===== src/Sync/Alone.antt =====
-- The operations of the handles, undisturbed: what each makes of the shared state.
use postage_rs.Prelude.{◌-◌, ◌≡◌, refl, not, ltb, arith, []}
use postage_rs.Queues.{SegQueue}
use postage_rs.Sync.RefCount
use postage_rs.Sync.RefCount.{RefCount, TryDecrement, alive, dead}
use postage_rs.Sync.RefCount.Laws.{decremented, answer, decrement-alone}
use postage_rs.Sync.Notifier.Alone.{notified, notify-alone}
use postage_rs.Sync.Shared.{
  Shared, sender_notify_field, sender_count_field, receiver_notify_field, receiver_count_field,
}
use postage_rs.Sync.SenderShared
use postage_rs.Sync.ReceiverShared

module _ {Q W E : Type 0} ⦃sq : SegQueue Q W⦄ (s : Shared Q W E) where
  abbrev pub wake_receivers : Shared Q W E
  wake_receivers = record s { receiver_notify = notified s.receiver_notify }

  abbrev pub wake_senders : Shared Q W E
  wake_senders = record s { sender_notify = notified s.sender_notify }

  pub notify_receivers-alone : SenderShared.notify_receivers [] s ≡ (tt, wake_receivers, [])
  unfolding SenderShared.notify_receivers
  notify_receivers-alone = notify-alone receiver_notify_field s

  pub notify_self-alone : SenderShared.notify_self [] s ≡ (tt, wake_senders, [])
  unfolding SenderShared.notify_self
  notify_self-alone = notify-alone sender_notify_field s

  pub notify_senders-alone : ReceiverShared.notify_senders [] s ≡ (tt, wake_senders, [])
  unfolding ReceiverShared.notify_senders
  notify_senders-alone = notify-alone sender_notify_field s

  pub sender_is_closed-alone :
      SenderShared.is_closed [] s ≡ (not (ltb 0 s.receiver_count.count), s, [])
  unfolding SenderShared.is_closed RefCount.is_alive
  sender_is_closed-alone = refl

  pub receiver_is_closed-alone :
      ReceiverShared.is_closed [] s ≡ (not (ltb 0 s.sender_count.count), s, [])
  unfolding ReceiverShared.is_closed RefCount.is_alive
  receiver_is_closed-alone = refl

  -- The last handle of a half to go wakes the other half.
  unfoldable pub without_sender : Shared Q W E
  unfolding answer decremented
  without_sender =
      let s' : Shared Q W E = record s { sender_count = decremented s.sender_count } in
      elim (answer s.sender_count) [
        | alive _ ↦ s'
        | dead ↦ record s' { receiver_notify = notified s.receiver_notify }
      ]

  unfoldable pub without_receiver : Shared Q W E
  unfolding answer decremented
  without_receiver =
      let s' : Shared Q W E = record s { receiver_count = decremented s.receiver_count } in
      elim (answer s.receiver_count) [
        | alive _ ↦ s'
        | dead ↦ record s' { sender_notify = notified s.sender_notify }
      ]

module _ {Q W E : Type 0} ⦃sq : SegQueue Q W⦄ (s : Shared Q W E) where
  pub sender_drop-alone : SenderShared.drop [] s ≡ (tt, without_sender s, [])
  unfolding SenderShared.drop without_sender
  sender_drop-alone = ground (
    arith,
    decrement-alone sender_count_field s,
    notify_receivers-alone (record s { sender_count = decremented s.sender_count }),
  )

  pub receiver_drop-alone : ReceiverShared.drop [] s ≡ (tt, without_receiver s, [])
  unfolding ReceiverShared.drop without_receiver
  receiver_drop-alone = ground (
    arith,
    decrement-alone receiver_count_field s,
    notify_senders-alone (record s { receiver_count = decremented s.receiver_count }),
  )

module _ {Q W E : Type 0} ⦃sq : SegQueue Q W⦄ (s : Shared Q W E) where
  -- What a drop does to the counts, and that it leaves the channel's own state alone.
  pub without_receiver_lem :
      let s' = without_receiver s in
      (s'.extension ≡ s.extension)
      × (s'.sender_count ≡ s.sender_count)
      × (s'.receiver_count.count ≡ s.receiver_count.count - 1)
  unfolding without_receiver
  without_receiver_lem = ground arith

  pub without_sender_lem :
      let s' = without_sender s in
      (s'.extension ≡ s.extension)
      × (s'.receiver_count ≡ s.receiver_count)
      × (s'.sender_count.count ≡ s.sender_count.count - 1)
  unfolding without_sender
  without_sender_lem = ground arith
