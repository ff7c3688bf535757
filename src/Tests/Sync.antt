-- ===== src/Tests/Sync.antt =====
-- The synchronisation objects, the barrier and the oneshot channel on concrete data.
use postage_rs.Prelude.{
  ℕ, ◌+◌, ◌%◌, ◌≡◌, ◌<◌, refl, none, some, List, [], ◌∷◌, ◌++◌, arith, ap, inr,
}
use postage_rs.Context.{empty, from_waker}
use postage_rs.Concurrent.{Env, whole}
use postage_rs.Concurrent.Atomic.{usize_mod}
use postage_rs.Concurrent.Rely.{Relies}
use postage_rs.Stream.{PollRecv}
use postage_rs.Sink.{PollSend}
use postage_rs.Sync.Notifier.{Notifier, notify, wake_all}
use postage_rs.Sync.Notifier.Alone.{notify_wakes_all, notify-alone}
use postage_rs.Sync.Notifier.Returns.{wake_all_returns}
use postage_rs.Concurrent.Fair.{clear, Served}
use postage_rs.Tests.Schedules.{afterwards, afterwards-Fair}
use postage_rs.Sync.Notifier.Waiting.{Known, Known-push, Cause, notified-wakes}
use postage_rs.Sync.StateCell
use postage_rs.Sync.Notifier
use postage_rs.Sync.OneshotCell
use postage_rs.Sync.Transfer
use postage_rs.Sync.Transfer.Wakeup.{IsReady, receiving, transfer_recv_misses_nothing}
use postage_rs.Concurrent.Loop.{retry}
use postage_rs.Sync.Transfer.{State, Transfer, alive, dead, recv}
use postage_rs.Sync.Transfer.Recv
use postage_rs.Sync.Transfer.Recv.{IsSound, Promise, transfer_recv-Promise}
use postage_rs.Channels.Barrier
use postage_rs.Channels.Barrier.{Barrier}
use postage_rs.Channels.Barrier.Signal.{
  IsSignalled, barrier_poll_recv-Promise, barrier_drop_signals, barrier_send_signals,
}
use postage_rs.Channels.Barrier.Signal
use postage_rs.Tests.Queues.{wakers, idle}

abbrev busy : Notifier (List ℕ) ℕ
busy = record { generation = 3; wakers = 5 ∷ 4 ∷ []; woken = 1 ∷ [] }

-- Another thread registers two wakers during the wake loop.
abbrev registering : Env (Notifier (List ℕ) ℕ)
registering = (λ n. record n { wakers = n.wakers ++ (6 ∷ 7 ∷ []) }) ∷ []

wake_all_returns_example :
    let r = wake_all whole registering busy in (r.0 ≡ some tt) × (r.1.wakers ≡ [])
wake_all_returns_example = wake_all_returns whole registering busy

notify_wakes_all_example :
    let n = (notify whole [] busy).1 in
    (n.wakers ≡ []) × (n.woken ≡ (1 ∷ []) ++ (5 ∷ 4 ∷ [])) × (n.generation ≡ (3 + 1) % usize_mod)
notify_wakes_all_example = notify_wakes_all whole busy

abbrev waiting : Barrier (List ℕ) ℕ
waiting = record { state = Barrier.pending; notify_rx = busy }

nothing-IsAllowed : (s : Barrier (List ℕ) ℕ) → Signal.IsAllowed 4 s s
nothing-IsAllowed s = record { keeps_sent = λ h. h; keeps_known = λ h. h }

-- The other thread notifies once it has sent the signal, after the poll.
abbrev send_later : Env (Barrier (List ℕ) ℕ)
send_later =
    afterwards (λ b. record b { state = Barrier.sent })
      (λ b. (notify Barrier.notify_rx_field [] b).1)

notifying-IsAllowed :
    (b : Barrier (List ℕ) ℕ) → Signal.IsAllowed 4 b (notify Barrier.notify_rx_field [] b).1
unfolding Known
notifying-IsAllowed b =
    rw (notify-alone Barrier.notify_rx_field b)
      (record { keeps_sent = λ h. h; keeps_known = λ h. inr (notified-wakes 4 b.notify_rx h) })

sending-IsAllowed :
    (b : Barrier (List ℕ) ℕ) → Signal.IsAllowed 4 b (record b { state = Barrier.sent })
sending-IsAllowed b = record { keeps_sent = λ h. refl; keeps_known = λ h. h }

send_later-IsAllowed : Relies (Signal.IsAllowed 4) send_later
send_later-IsAllowed =
    let still = nothing-IsAllowed in
    (still, (still, (still, (still, (still, (sending-IsAllowed, (notifying-IsAllowed, tt)))))))

barrier_poll_recv-Promise_example :
    let r = Barrier.poll_recv (from_waker 4) send_later waiting in
    Signal.Promise 4 r.0 r.1 × (r.0 ≡ PollRecv.pending → Served (Signal.receiving 4) r.2 r.1)
barrier_poll_recv-Promise_example =
    barrier_poll_recv-Promise 4 clear send_later waiting send_later-IsAllowed (
      afterwards-Fair (λ b. b.notify_rx) (λ b. b.state ≡ Barrier.sent) 4 _ _ (λ b. refl)
        (λ b. ap (λ r. r.1.notify_rx) (notify-alone Barrier.notify_rx_field b)))

four-Known : Known 4 waiting.notify_rx
four-Known = Known-push 4 (record { generation = 3; wakers = 5 ∷ []; woken = 1 ∷ [] })

barrier_drop_signals_example : IsSignalled 4 (Barrier.drop_sender [] waiting).1
barrier_drop_signals_example = barrier_drop_signals 4 waiting four-Known

barrier_send_signals_example :
    ((Barrier.poll_send empty [] waiting).0 ≡ PollSend.ready)
    × IsSignalled 4 (Barrier.poll_send empty [] waiting).1
barrier_send_signals_example = barrier_send_signals 4 empty waiting refl four-Known

-- A transfer before its value.
abbrev without_value : Transfer (List ℕ) ℕ ℕ
without_value = record {
  sender = alive;
  receiver = alive;
  value = record { state = OneshotCell.none_yet; data_cell = none };
  notify_rx = idle;
}

-- The values that are sent here are less than 9.
abbrev Small : ℕ → Type 0
Small n = n < 9

-- The sender, unless it has ended or has sent, sends 8 and ends.
abbrev last_from : State → OneshotCell.State → Transfer (List ℕ) ℕ ℕ → Transfer (List ℕ) ℕ ℕ
last_from alive OneshotCell.none_yet s = record s {
  sender = dead;
  value = record { state = OneshotCell.ready; data_cell = some 8 };
}
last_from _ _ s = s

abbrev last_words : Transfer (List ℕ) ℕ ℕ → Transfer (List ℕ) ℕ ℕ
last_words s = last_from s.sender s.value.state s

unchanged-IsAllowed : (s : Transfer (List ℕ) ℕ ℕ) → Recv.IsAllowed Small 8 s s
unchanged-IsAllowed s = record {
  keeps_sound = λ h. h;
  keeps_taken = λ h. refl;
  keeps_dead = λ h. (h, refl);
  keeps_known = λ h. h;
}

last_from-IsAllowed :
    (st : State) (c : OneshotCell.State) (s : Transfer (List ℕ) ℕ ℕ)
    → s.sender ≡ st
    → s.value.state ≡ c
    → Recv.IsAllowed Small 8 s (last_from st c s)
last_from-IsAllowed dead c s e e' = unchanged-IsAllowed s
last_from-IsAllowed alive OneshotCell.writing s e e' = unchanged-IsAllowed s
last_from-IsAllowed alive OneshotCell.ready s e e' = unchanged-IsAllowed s
last_from-IsAllowed alive OneshotCell.taken s e e' = unchanged-IsAllowed s
last_from-IsAllowed alive OneshotCell.none_yet s e e' = record {
  keeps_sound = λ h q. (8, refl, omega arith);
  keeps_taken = λ h. absurd (ground arith);
  keeps_dead = λ h. absurd (ground arith);
  keeps_known = λ h. h;
}

transfer_recv-Promise_example :
    (r : PollRecv ℕ) × ((recv (from_waker 8) (last_words ∷ []) without_value).0 ≡ some (some r))
    × Promise Small 8 (some r) (recv (from_waker 8) (last_words ∷ []) without_value).1
transfer_recv-Promise_example =
    transfer_recv-Promise Small 8 (last_words ∷ []) without_value
      (λ s. last_from-IsAllowed s.sender s.value.state s refl refl, tt) (λ e. ground arith)

-- The sender stores 8 after the poll, and notifies afterwards.
abbrev store_eight : Transfer (List ℕ) ℕ ℕ → Transfer (List ℕ) ℕ ℕ
store_eight s = record s { value = record { state = OneshotCell.ready; data_cell = some 8 } }

abbrev transfer_later : Env (Transfer (List ℕ) ℕ ℕ)
transfer_later = afterwards store_eight (λ s. (notify Transfer.notify_rx_field [] s).1)

transfer_pending :
    (recv {T = ℕ} (from_waker 4) transfer_later without_value).0 ≡ some (some PollRecv.pending)
unfolding recv retry Transfer.recv_round Transfer.recv_tried Transfer.recv_without
    OneshotCell.try_recv OneshotCell.received OneshotCell.failed OneshotCell.to_error
    StateCell.compare_take StateCell.take_exchanged Notifier.guard Notifier.is_expired
    Notifier.subscribe
transfer_pending = refl

transfer_recv_misses_nothing_example :
    let r = recv {T = ℕ} (from_waker 4) transfer_later without_value in
    Served (receiving ℕ 4 Cause.value) r.2 r.1
transfer_recv_misses_nothing_example =
    transfer_recv_misses_nothing ℕ 4 Cause.value clear transfer_later without_value
      (afterwards-Fair (λ s. s.notify_rx) (IsReady ℕ 4 Cause.value) 4 store_eight _ (λ s. refl)
        (λ s. ap (λ r. r.1.notify_rx) (notify-alone Transfer.notify_rx_field s)))
      (omega arith) transfer_pending
