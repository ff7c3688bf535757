-- ===== src/Tests/Watch.antt =====
-- The watch channel on concrete data.
use postage_rs.Prelude.{ℕ, ◌+◌, ◌≡◌, refl, some, List, [], ◌∷◌, ltb, if◌then◌else◌, arith, ap}
use postage_rs.Context.{empty, from_waker}
use postage_rs.Concurrent.{Env}
use postage_rs.Concurrent.Loop.{retry}
use postage_rs.Stream.{PollRecv}
use postage_rs.Sink.{PollSend}
use postage_rs.Sync.Notifier.Waiting.{Cause}
use postage_rs.Channels.Watch.{Channel, poll_send, poll_recv, recv_wait}
use postage_rs.Channels.Watch.Wakeup.{IsReady, receiving, watch_poll_recv_misses_nothing}
use postage_rs.Concurrent.Fair.{clear, Served}
use postage_rs.Sync.SenderShared.{notify_receivers}
use postage_rs.Sync.Alone.{notify_receivers-alone}
use postage_rs.Tests.Schedules.{afterwards, afterwards-Fair}
use postage_rs.Channels.Watch.Race.{send_and_drop, watch_poll_recv_ends_early}
use postage_rs.Channels.Watch.Latest.{watch_latest}
use postage_rs.Tests.Queues.{wakers, idle}

-- A channel whose receiver has missed four of five states.
abbrev busy : Channel (List ℕ) ℕ ℕ
busy = record {
  sender_notify = idle;
  sender_count = record { count = 1 };
  receiver_notify = idle;
  receiver_count = record { count = 1 };
  extension = record { generation = 5; value = 50 };
}

watch_latest_example :
    let a = poll_send empty 60 [] busy in
    let b = poll_recv empty 1 [] a.1 in
    let c = poll_recv empty 7 [] b.1 in
    (a.0 ≡ PollSend.ready)
    × (b.0 ≡ some (PollRecv.ready 60, 7))
    × (c.0 ≡ some (if ltb 0 1 then PollRecv.pending else PollRecv.closed, 7))
watch_latest_example =
    watch_latest empty empty empty 60 1 busy (omega arith) (omega arith) (omega arith)

-- A sender replaces the state, and notifies the receivers afterwards.
abbrev replace_state : Channel (List ℕ) ℕ ℕ → Channel (List ℕ) ℕ ℕ
replace_state s = record s { extension = record { generation = 6; value = 60 } }

abbrev send_later : Env (Channel (List ℕ) ℕ ℕ)
send_later = afterwards replace_state (λ s. (notify_receivers [] s).1)

recv_pending : (poll_recv (from_waker 8) 6 send_later busy).0 ≡ some (PollRecv.pending, 6)
unfolding poll_recv retry recv_wait
recv_pending = refl

watch_poll_recv_misses_nothing_example :
    let r = poll_recv (from_waker 8) 6 send_later busy in
    Served (receiving ℕ 8 6 Cause.value) r.2 r.1
watch_poll_recv_misses_nothing_example =
    watch_poll_recv_misses_nothing ℕ 8 6 Cause.value clear 6 send_later busy
      (afterwards-Fair (λ s. s.receiver_notify) (IsReady ℕ 8 6 Cause.value) 8 replace_state _
        (λ s. refl) (λ s. ap (λ r. r.1.receiver_notify) (notify_receivers-alone s)))
      (omega arith) recv_pending

watch_poll_recv_ends_early_example :
    let r =
      poll_recv (from_waker 8) (5 + 1) ((λ x. x) ∷ (λ x. x) ∷ send_and_drop empty 60 ∷ []) busy in
    (r.0 ≡ some (PollRecv.closed, 5 + 1))
    × ((poll_recv empty (5 + 1) [] r.1).0 ≡ some (PollRecv.ready 60, 5 + 2))
watch_poll_recv_ends_early_example =
    watch_poll_recv_ends_early (from_waker 8) empty 60 busy refl (omega arith) (omega arith) empty
