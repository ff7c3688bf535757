-- ===== src/Channels/Watch/Race.antt =====
-- The watch channel when its last sender sends and is dropped during a poll of a receiver.
use postage_rs.Prelude.{ℕ, ◌+◌, ◌-◌, ◌%◌, ◌<◌, ◌≡◌, refl, ap, some, [], ◌∷◌, arith}
use postage_rs.Context.{Context}
use postage_rs.Queues.{SegQueue}
use postage_rs.Concurrent.{Env}
use postage_rs.Concurrent.Atomic.{usize_mod}
use postage_rs.Concurrent.Loop.{break, retry-settled}
use postage_rs.Stream.{PollRecv}
use postage_rs.Sync.Alone.{without_sender_lem, sender_drop-alone}
use postage_rs.Channels.Watch.{Channel, poll_send, poll_recv, poll_recv_round, drop_sender}
use postage_rs.Channels.Watch.Latest.{sent, send-alone, recv_fresh}

module _ {Q W T : Type 0} ⦃sq : SegQueue Q W⦄ (cx : Context W) (v : T) where
  -- The sender's last value, and its end.
  unfoldable pub send_and_drop : Channel Q W T → Channel Q W T
  send_and_drop s = (drop_sender [] (poll_send cx v [] s).1).1

  send_and_drop_lem :
      (s : Channel Q W T)
      → 0 < s.receiver_count.count
      → let s' = send_and_drop s in
        (s'.extension.generation ≡ (s.extension.generation + 1) % usize_mod)
        × (s'.extension.value ≡ v)
        × (s'.sender_count.count ≡ s.sender_count.count - 1)
  unfolding send_and_drop drop_sender
  send_and_drop_lem s h =
      let kept = without_sender_lem (sent v s) in
      rw (send_and_drop, drop_sender, send-alone cx v s h, sender_drop-alone (sent v s))
        (ap (λ x. x.generation) kept.0, ap (λ x. x.value) kept.0, kept.2)

module _ {Q W T : Type 0} ⦃sq : SegQueue Q W⦄ (cx cx' : Context W) (v : T) (s : Channel Q W T)
    (one_sender : s.sender_count.count ≡ 1) (receiver : 0 < s.receiver_count.count)
    (bound : s.extension.generation + 2 < usize_mod) where
  -- The sender acts between the look at the generation and the look at the count of senders.
  abbrev early : Env (Channel Q W T)
  early = (λ x. x) ∷ (λ x. x) ∷ send_and_drop cx' v ∷ []

  -- The generation of a receiver that has seen the latest value.
  abbrev own : ℕ
  own = s.extension.generation + 1

  round-early :
      poll_recv_round cx own early s ≡ (break (PollRecv.closed, own), send_and_drop cx' v s, [])
  unfolding poll_recv_round
  round-early = ground (arith, one_sender, send_and_drop_lem cx' v s receiver)

  closed_early : poll_recv cx own early s ≡ (some (PollRecv.closed, own), send_and_drop cx' v s, [])
  unfolding poll_recv
  closed_early =
      retry-settled (poll_recv_round cx) own (PollRecv.closed, own) early [] s _ round-early

  -- In a channel with a receiver that has seen the latest value and one sender, whose generation is
  -- more than two below the width of `usize`: if the sender sends and is dropped between the look at
  -- the generation and the look at the count of senders, `poll_recv` returns `closed`, and the next
  -- `poll_recv` returns the value that was sent.
  pub watch_poll_recv_ends_early :
      (cx'' : Context W)
      → let g = s.extension.generation in
        let r = poll_recv cx (g + 1) ((λ x. x) ∷ (λ x. x) ∷ send_and_drop cx' v ∷ []) s in
        (r.0 ≡ some (PollRecv.closed, g + 1))
        × ((poll_recv cx'' (g + 1) [] r.1).0 ≡ some (PollRecv.ready v, g + 2))
  watch_poll_recv_ends_early cx'' =
      let last = send_and_drop_lem cx' v s receiver in
      rw
        (
          closed_early,
          recv_fresh cx'' own (send_and_drop cx' v s) (omega (arith, last.0, bound)),
          last.1,
        )
        (refl, ap (λ n. some (PollRecv.ready v, n)) (omega (arith, last.0, bound)))
