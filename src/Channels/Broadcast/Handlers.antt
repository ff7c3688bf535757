-- ===== src/Channels/Broadcast/Handlers.antt =====
-- The handlers of the broadcast channel, undisturbed, on a buffer that holds the last of a log.
use postage_rs.Prelude.{
  ℕ, ◌+◌, ◌-◌, ◌%◌, ◌<◌, ◌≡◌, ap, ◌∙◌, Option, some, List, [], true, false, eqb, lt→ltb,
  if◌then◌else◌, arith, get_elem?,
}
use postage_rs.Context.{Context}
use postage_rs.Queues.{SegQueue}
use postage_rs.Concurrent.Atomic.{usize_mod}
use postage_rs.Stream.{PollRecv}
use postage_rs.Sink.{PollSend}
use postage_rs.Sync.Shared.{extension_field}
use postage_rs.Sync.Notifier
use postage_rs.Sync.SenderShared
use postage_rs.Sync.ReceiverShared
use postage_rs.Sync.MpmcCircularBuffer
use postage_rs.Sync.MpmcCircularBuffer.{MpmcCircularBuffer, BufferReader, TryWrite}
use postage_rs.Sync.MpmcCircularBuffer.Slot.Alone.{
  subscribed, release_subscribed, write_subscribed, read_by_one,
}
use postage_rs.Sync.MpmcCircularBuffer.Alone.{
  slot_of, change_slot, written, try_write_free, try_write_waits, try_read_waits, try_read_ready,
}
use postage_rs.Sync.MpmcCircularBuffer.Invariant.{IsValid}
use postage_rs.Sync.MpmcCircularBuffer.Writing.{is_behind, head-slot, head-IsAwaited, head-IsFree}
use postage_rs.Sync.MpmcCircularBuffer.Reading.{slot-at_reader, reader-Within}
use postage_rs.Channels.Broadcast.{Channel, poll_send, poll_recv, send_tried, recv_tried, recv_wait}

module _ {Q W T : Type 0} ⦃sq : SegQueue Q W⦄ (cx : Context W) (s : Channel Q W T) where
  pub poll_send-closed :
      (v : T)
      → s.receiver_count.count ≡ 0
      → poll_send cx v [] s ≡ (some (PollSend.rejected v), s, [])
  unfolding poll_send SenderShared.is_closed
  poll_send-closed v e = ground arith

  pub poll_send-open :
      (v : T) (a : Option (Option (TryWrite T))) (s' : Channel Q W T)
      → 0 < s.receiver_count.count
      → MpmcCircularBuffer.try_write extension_field v cx [] s ≡ (a, s', [])
      → poll_send cx v [] s ≡ send_tried a [] s'
  unfolding poll_send SenderShared.is_closed
  poll_send-open v a s' h e =
      rw (lt→ltb 0 s.receiver_count.count h) (ap (λ t. send_tried t.0 t.2 t.1) e)

-- A buffer that holds the last of `items`, with readers at `ps`.
module _ {Q W T : Type 0} ⦃sq : SegQueue Q W⦄ (cx : Context W) (s : Channel Q W T) (items : List T)
    (ps : List ℕ) (valid : IsValid s.extension items ps) where
  pub poll_send-waits :
      (v : T)
      → 0 < s.receiver_count.count
      → is_behind s.extension.len s.extension.head ps ≡ true
      → let b = s.extension in
        poll_send cx v [] s ≡ (
          some (PollSend.pending v),
          record s { extension = change_slot b b.head (release_subscribed cx) },
          [],
        )
  unfolding send_tried
  poll_send-waits v h e =
      let (k, k', k'') = head-IsAwaited s.extension items ps valid e in
      poll_send-open cx s v _ _ h (try_write_waits extension_field v cx s k k' k'')

  pub poll_send-writes :
      (v : T)
      → 0 < s.receiver_count.count
      → is_behind s.extension.len s.extension.head ps ≡ false
      → poll_send cx v [] s
        ≡ (some PollSend.ready, record s { extension = written s.extension v }, [])
  unfolding send_tried
  poll_send-writes v h e =
      let (k, k') = head-IsFree s.extension items ps valid e in
      poll_send-open cx s v _ _ h (try_write_free extension_field v cx s k k')

  -- The state of a receiver's wait.
  abbrev pub waited : ℕ → Channel Q W T
  waited p = record s {
    extension = change_slot s.extension p (write_subscribed cx);
    receiver_notify = subscribed cx s.receiver_notify;
  }

  pub poll_recv-reads :
      (i : ℕ) (r : BufferReader) (v : T)
      → get_elem? ps i ≡ some r.index
      → r.index < s.extension.head
      → get_elem? items (r.index - 1) ≡ some v
      → let b = s.extension in
        poll_recv cx r [] s ≡ (
          (some (PollRecv.ready v), record { index = (r.index + 1) % usize_mod }),
          record s { extension = change_slot b r.index (read_by_one b.readers) },
          [],
        )
  unfolding poll_recv recv_tried
  poll_recv-reads i r v at h e =
      let holds = slot-at_reader s.extension items ps valid i r.index at h in
      ap (λ t. recv_tried cx t.0.1 t.0.0 t.2 t.1)
        (try_read_ready extension_field v cx r s holds.0 ((holds.1 (omega (arith, within))).0 ∙ e))
    where
      within : 0 < r.index
      within = (reader-Within s.extension items ps valid i r.index at).0

  recv_wait-alone :
      (r : BufferReader) (s' : Channel Q W T)
      → recv_wait cx r [] s' ≡ (
        (some (if eqb s'.sender_count.count 0 then PollRecv.closed else PollRecv.pending), r),
        record s' { receiver_notify = subscribed cx s'.receiver_notify },
        [],
      )
  unfolding recv_wait ReceiverShared.is_closed ReceiverShared.subscribe_send Notifier.subscribe
  recv_wait-alone r s' = ground arith

  pub poll_recv-waits :
      (r : BufferReader)
      → r.index ≡ s.extension.head
      → poll_recv cx r [] s ≡ (
        (some (if eqb s.sender_count.count 0 then PollRecv.closed else PollRecv.pending), r),
        waited r.index,
        [],
      )
  unfolding poll_recv recv_tried
  poll_recv-waits r e =
      ap (λ t. recv_tried cx t.0.1 t.0.0 t.2 t.1)
        (try_read_waits extension_field cx r s (
          omega (
            arith,
            head-slot s.extension items ps valid,
            valid.head,
            ap (λ k. (slot_of s.extension k).index) e,
            valid.two,
          )))
      ∙ recv_wait-alone r
          (record s { extension = change_slot s.extension r.index (write_subscribed cx) })
