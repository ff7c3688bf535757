-- ===== src/Channels/BoundedQueue.antt =====
-- What the queue channels promise: a first-in first-out queue of fixed capacity, the number of
-- handles of each half, and the tasks of each half that wait and that were woken.
pub mod Run
pub mod Wakes
use postage_rs.Prelude.{
  ℕ, ◌+◌, ◌-◌, ◌%◌, List, [], ◌∷◌, ◌++◌, Option, none, some, length, ltb, eqb, if◌then◌else◌,
}
use postage_rs.Context.{Context}
use postage_rs.Queues.{SegQueue}
use postage_rs.Concurrent.Atomic.{usize_mod}
use postage_rs.Stream.{PollRecv}
use postage_rs.Sink.{PollSend}
use postage_rs.Sync.Notifier.{Notifier}

pub record WaitList (W : Type 0) : Type 0 where
  pub waiting : List W
  pub woken : List W

pub record BoundedQueue (W T : Type 0) : Type 0 where
  pub items : List T
  pub capacity : ℕ
  pub senders : ℕ
  pub receivers : ℕ
  pub sending : WaitList W
  pub receiving : WaitList W

abbrev pub wait_list : {Q W : Type 0} ⦃sq : SegQueue Q W⦄ → Notifier Q W → WaitList W
wait_list ⦃sq⦄ n = record { waiting = sq.contents n.wakers; woken = n.woken }

module _ {W : Type 0} where
  unfoldable pub wake_up : WaitList W → WaitList W
  wake_up l = record { waiting = []; woken = l.woken ++ l.waiting }

  unfoldable pub wait : Context W → WaitList W → WaitList W
  wait cx l = elim cx.waker [ none ↦ l | some w ↦ record l { waiting = l.waiting ++ (w ∷ []) } ]

module _ {W T : Type 0} where
  unfoldable pub send : Context W → T → BoundedQueue W T → PollSend T × BoundedQueue W T
  unfolding wake_up wait
  send cx v b =
      if eqb b.receivers 0
      then (PollSend.rejected v, b)
      else if ltb (length b.items) b.capacity
      then (
        PollSend.ready,
        record b { items = b.items ++ (v ∷ []); receiving = wake_up b.receiving },
      )
      else (PollSend.pending v, record b { sending = wait cx b.sending })

  unfoldable pub recv_from : Context W → List T → BoundedQueue W T → PollRecv T × BoundedQueue W T
  unfolding wake_up wait
  recv_from cx (v ∷ vs) b = (PollRecv.ready v, record b { items = vs; sending = wake_up b.sending })
  recv_from cx [] b =
      if eqb b.senders 0
      then (PollRecv.closed, b)
      else (PollRecv.pending, record b { receiving = wait cx b.receiving })

  unfoldable pub recv : Context W → BoundedQueue W T → PollRecv T × BoundedQueue W T
  unfolding recv_from
  recv cx b = recv_from cx b.items b

  -- A count of handles wraps at the width of `usize`, and stops at 0.
  unfoldable pub add_sender : BoundedQueue W T → BoundedQueue W T
  add_sender b = record b { senders = (b.senders + 1) % usize_mod }

  unfoldable pub add_receiver : BoundedQueue W T → BoundedQueue W T
  add_receiver b = record b { receivers = (b.receivers + 1) % usize_mod }

  -- The last handle to go wakes the other half.
  unfoldable pub remove_sender : BoundedQueue W T → BoundedQueue W T
  unfolding wake_up
  remove_sender b =
      if ltb 1 b.senders
      then record b { senders = b.senders - 1 }
      else record b { senders = 0; receiving = wake_up b.receiving }

  unfoldable pub remove_receiver : BoundedQueue W T → BoundedQueue W T
  unfolding wake_up
  remove_receiver b =
      if ltb 1 b.receivers
      then record b { receivers = b.receivers - 1 }
      else record b { receivers = 0; sending = wake_up b.sending }
