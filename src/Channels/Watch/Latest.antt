-- ===== src/Channels/Watch/Latest.antt =====
-- What a receiver of a watch channel sees.
use postage_rs.Prelude.{ℕ, ◌+◌, ◌%◌, ◌<◌, ◌≤◌, ◌≡◌, refl, ap, arith, some, [], ltb, if◌then◌else◌}
use postage_rs.Context.{Context}
use postage_rs.Queues.{SegQueue}
use postage_rs.Concurrent.Atomic.{usize_mod}
use postage_rs.Concurrent.Loop.{break, retry-break}
use postage_rs.Stream.{PollRecv}
use postage_rs.Sink.{PollSend}
use postage_rs.Sync.Notifier.Alone.{notified}
use postage_rs.Sync.Alone.{notify_receivers-alone}
use postage_rs.Sync.SenderShared
use postage_rs.Channels.Watch.{Channel, poll_send, poll_recv, poll_recv_round}

next_generation : (g : ℕ) → g + 2 < usize_mod → (g + 1) % usize_mod ≡ g + 1
next_generation g h = omega arith

generation_after : (g : ℕ) → g + 2 < usize_mod → (g + 1 + 1) % usize_mod ≡ g + 2
generation_after g h = omega arith

module _ {Q W T : Type 0} ⦃sq : SegQueue Q W⦄ where
  round_fresh :
      (cx : Context W) (own : ℕ) (s : Channel Q W T)
      → own ≤ s.extension.generation
      → poll_recv_round cx own [] s ≡ (
        break (PollRecv.ready s.extension.value, (s.extension.generation + 1) % usize_mod),
        s,
        [],
      )
  unfolding poll_recv_round
  round_fresh cx own s h = ground arith

  pub recv_fresh :
      (cx : Context W) (own : ℕ) (s : Channel Q W T)
      → own ≤ s.extension.generation
      → poll_recv cx own [] s
        ≡ (some (PollRecv.ready s.extension.value, (s.extension.generation + 1) % usize_mod), s, [])
  unfolding poll_recv
  recv_fresh cx own s h =
      rw
        (
          retry-break (poll_recv_round cx) own _ [] s (ap (λ r. r.0) (round_fresh cx own s h)),
          round_fresh cx own s h,
        )
        refl

  round_stale :
      (cx : Context W) (own : ℕ) (s : Channel Q W T)
      → s.extension.generation < own
      → (poll_recv_round cx own [] s).0
        ≡ break (if ltb 0 s.sender_count.count then PollRecv.pending else PollRecv.closed, own)
  unfolding poll_recv_round
  round_stale cx own s h = ground arith

  recv_stale :
      (cx : Context W) (own : ℕ) (s : Channel Q W T)
      → s.extension.generation < own
      → (poll_recv cx own [] s).0
        ≡ some (if ltb 0 s.sender_count.count then PollRecv.pending else PollRecv.closed, own)
  unfolding poll_recv
  recv_stale cx own s h =
      ap (λ r. r.0) (retry-break (poll_recv_round cx) own _ [] s (round_stale cx own s h))

  abbrev pub sent : T → Channel Q W T → Channel Q W T
  sent v s = record s {
    extension = record { generation = (s.extension.generation + 1) % usize_mod; value = v };
    receiver_notify = notified s.receiver_notify;
  }

  pub send-alone :
      (cx : Context W) (v : T) (s : Channel Q W T)
      → 0 < s.receiver_count.count
      → poll_send cx v [] s ≡ (PollSend.ready, sent v s, [])
  unfolding poll_send SenderShared.is_closed
  send-alone cx v s h = ground (
    arith,
    notify_receivers-alone (record s {
      extension = record { generation = (s.extension.generation + 1) % usize_mod; value = v };
    }),
  )

  -- In a channel with receivers, whose generation is more than two below the width of `usize`: a
  -- send, undisturbed, is accepted; then a receiver whose own generation is at most one past the
  -- channel's sees exactly that value, whatever it has missed; and its next poll gives no value,
  -- but waits or reports the end, according to whether there are senders.
  pub watch_latest :
      (cx cx' cx'' : Context W) (v : T) (own : ℕ) (s : Channel Q W T)
      → 0 < s.receiver_count.count
      → own ≤ s.extension.generation + 1
      → s.extension.generation + 2 < usize_mod
      → let a = poll_send cx v [] s in
        let b = poll_recv cx' own [] a.1 in
        let seen = s.extension.generation + 2 in
        let c = poll_recv cx'' seen [] b.1 in
        (a.0 ≡ PollSend.ready)
        × (b.0 ≡ some (PollRecv.ready v, seen))
        × (c.0
            ≡ some (if ltb 0 s.sender_count.count then PollRecv.pending else PollRecv.closed, seen))
  watch_latest cx cx' cx'' v own s h h' h'' =
      let g = next_generation s.extension.generation h'' in
      let g' = generation_after s.extension.generation h'' in
      rw (send-alone cx v s h, recv_fresh cx' own (sent v s) (rw g h'), g, g')
        (
          refl,
          refl,
          rw g at (recv_stale cx'' (s.extension.generation + 2) (sent v s) (rw g (omega arith))),
        )
