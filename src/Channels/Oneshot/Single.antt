-- ===== src/Channels/Oneshot/Single.antt =====
-- A oneshot channel carries its value once.
use postage_rs.Prelude.{◌≡◌, refl, ap, ◌∙◌, arith, none, some, []}
use postage_rs.Context.{Context}
use postage_rs.Queues.{SegQueue}
use postage_rs.Concurrent.Loop.{break, retry-break}
use postage_rs.Stream.{PollRecv}
use postage_rs.Sink.{PollSend}
use postage_rs.Sync.Notifier
use postage_rs.Sync.Notifier.Alone.{notified, notify-alone}
use postage_rs.Sync.StateCell
use postage_rs.Sync.OneshotCell
use postage_rs.Sync.OneshotCell.{none_yet, ready, taken}
use postage_rs.Sync.Transfer
use postage_rs.Sync.Transfer.{Transfer, alive, dead, notify_rx_field}
use postage_rs.Channels.Oneshot.{poll_send, poll_recv}

module _ {Q W T : Type 0} ⦃sq : SegQueue Q W⦄ where
  abbrev holding : T → Transfer Q W T → Transfer Q W T
  holding v s = record s {
    value = record { state = ready; data_cell = some v };
    notify_rx = notified s.notify_rx;
  }

  abbrev emptied : Transfer Q W T → Transfer Q W T
  emptied s = record s { value = record { state = taken; data_cell = none } }

  send-alone :
      (cx : Context W) (v : T) (s : Transfer Q W T)
      → s.receiver ≡ alive
      → s.value.state ≡ none_yet
      → poll_send cx v [] s ≡ (PollSend.ready, holding v s, [])
  unfolding poll_send OneshotCell.send StateCell.compare_store
  send-alone cx v s e e' = ground (
    arith,
    e,
    e',
    notify-alone notify_rx_field
        (record s { value = record { state = ready; data_cell = some v } }),
  )

  round_holding :
      (cx : Context W) (v : T) (s : Transfer Q W T)
      → Transfer.recv_round cx tt [] (holding v s)
        ≡ (break (some (PollRecv.ready v)), emptied (holding v s), [])
  unfolding Transfer.recv_round OneshotCell.try_recv StateCell.compare_take StateCell.take_exchanged
      Notifier.guard
  round_holding cx v s = refl

  recv_holding :
      (cx : Context W) (v : T) (s : Transfer Q W T)
      → poll_recv cx [] (holding v s) ≡ (some (some (PollRecv.ready v)), emptied (holding v s), [])
  unfolding poll_recv
  recv_holding cx v s =
      retry-break (Transfer.recv_round cx) tt (some (PollRecv.ready v)) [] (holding v s)
        (ap (λ r. r.0) (round_holding cx v s))
      ∙ ap (λ r. (some (some (PollRecv.ready v)), r.1, r.2)) (round_holding cx v s)

  round_emptied :
      (cx : Context W) (s : Transfer Q W T)
      → (Transfer.recv_round cx tt [] (emptied s)).0 ≡ break (some PollRecv.closed)
  unfolding Transfer.recv_round OneshotCell.try_recv StateCell.compare_take StateCell.take_exchanged
      Notifier.guard
  round_emptied cx s = refl

  recv_emptied :
      (cx : Context W) (s : Transfer Q W T)
      → (poll_recv cx [] (emptied s)).0 ≡ some (some PollRecv.closed)
  unfolding poll_recv
  recv_emptied cx s =
      ap (λ r. r.0)
        (retry-break (Transfer.recv_round cx) tt (some PollRecv.closed) [] (emptied s)
          (round_emptied cx s))

  send_emptied :
      (cx : Context W) (v : T) (s : Transfer Q W T)
      → (poll_send cx v [] (emptied s)).0 ≡ PollSend.rejected v
  unfolding poll_send OneshotCell.send StateCell.compare_store
  send_emptied cx v s = ground arith

  -- Undisturbed, in a channel with a receiver and no value yet: a send is accepted, the next receive
  -- delivers the value, the one after that reports the end, and a second send is rejected with the
  -- value that it was given.
  pub oneshot_delivers_once :
      (cx : Context W) (v u : T) (s : Transfer Q W T)
      → s.receiver ≡ alive
      → s.value.state ≡ none_yet
      → let a = poll_send cx v [] s in
        let b = poll_recv cx [] a.1 in
        (a.0 ≡ PollSend.ready)
        × (b.0 ≡ some (some (PollRecv.ready v)))
        × ((poll_recv cx [] b.1).0 ≡ some (some PollRecv.closed))
        × ((poll_send cx u [] b.1).0 ≡ PollSend.rejected u)
  oneshot_delivers_once cx v u s e e' =
      rw (send-alone cx v s e e', recv_holding cx v s)
        (refl, refl, recv_emptied cx (holding v s), send_emptied cx u (holding v s))
