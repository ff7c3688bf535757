-- ===== src/Channels/Broadcast/Counts.antt =====
-- What the coming and going of handles makes of a broadcast channel, undisturbed.
use postage_rs.Prelude.{◌+◌, ◌%◌, ◌≡◌, ap, ◌∙◌, []}
use postage_rs.Queues.{SegQueue}
use postage_rs.Concurrent.Atomic.{usize_mod}
use postage_rs.Sync.Shared.{extension_field}
use postage_rs.Sync.MpmcCircularBuffer.{BufferReader}
use postage_rs.Sync.RefCount
use postage_rs.Sync.RefCount.{TryDecrement, alive, dead}
use postage_rs.Sync.SenderShared
use postage_rs.Sync.ReceiverShared
use postage_rs.Sync.Notifier.Alone.{notified}
use postage_rs.Sync.Alone.{without_receiver, receiver_drop-alone, notify_self-alone}
use postage_rs.Sync.MpmcCircularBuffer.Maintenance.{
  joined, left, clone_with-alone, new_reader-alone, drop_with-alone,
}
use postage_rs.Channels.Broadcast.{Channel, subscribe, clone_receiver, drop_receiver}

module _ {Q W T : Type 0} ⦃sq : SegQueue Q W⦄ (s : Channel Q W T) where
  pub clone_receiver-alone :
      (r : BufferReader)
      → clone_receiver r [] s ≡ (
        r,
        record s {
          extension = joined r.index s.extension;
          receiver_count = record { count = (s.receiver_count.count + 1) % usize_mod };
        },
        [],
      )
  unfolding clone_receiver ReceiverShared.clone RefCount.increment
  clone_receiver-alone r =
      ap (λ t. let (u, s', es) = ReceiverShared.clone t.2 t.1 in (t.0, s', es))
        (clone_with-alone extension_field r s)

  -- With one receiver more, before its reader is there.
  abbrev pub counted : Channel Q W T
  counted = record s {
    receiver_count = record { count = (s.receiver_count.count + 1) % usize_mod };
  }

  pub subscribe-alone : subscribe [] s ≡ (
    record { index = s.extension.head },
    record counted {
      extension = joined s.extension.head s.extension;
      sender_notify = notified s.sender_notify;
    },
    [],
  )
  unfolding subscribe SenderShared.clone_receiver RefCount.increment
  subscribe-alone =
      ap (λ t. let (u, s', es) = SenderShared.notify_self t.2 t.1 in (t.0, s', es))
        (new_reader-alone extension_field counted)
      ∙ ap (λ t. (record { index = s.extension.head }, t.1, t.2))
          (notify_self-alone (record counted { extension = joined s.extension.head s.extension }))

  pub drop_receiver-alone :
      (r : BufferReader)
      → drop_receiver r [] s
        ≡ (tt, without_receiver (record s { extension = left r.index s.extension }), [])
  unfolding drop_receiver
  drop_receiver-alone r =
      ap (λ t. ReceiverShared.drop t.2 t.1) (drop_with-alone extension_field r s)
      ∙ receiver_drop-alone (record s { extension = left r.index s.extension })
