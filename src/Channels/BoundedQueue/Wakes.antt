-- ===== src/Channels/BoundedQueue/Wakes.antt =====
-- Which operations of the bounded queue wake whom.
use postage_rs.Prelude.{
  ◌≡◌, ◌≤◌, ◌⊎◌, inl, inr, Elem, Elem-append_left, Elem-append_right, List, [], ◌∷◌, Bool-cases,
  ltb, eqb, length, arith,
}
use postage_rs.Context.{Context}
use postage_rs.Stream.{PollRecv}
use postage_rs.Sink.{PollSend}
use postage_rs.Channels.BoundedQueue.{
  BoundedQueue, WaitList, wake_up, send, recv, recv_from, remove_sender,
}

module _ {W : Type 0} where
  -- The task waits, or it has been woken.
  abbrev pub IsListed : W → WaitList W → Type 0
  IsListed w l = Elem w l.waiting ⊎ Elem w l.woken

  pub wake_up-wakes : (w : W) (l : WaitList W) → IsListed w l → Elem w (wake_up l).woken
  unfolding wake_up
  wake_up-wakes w l (inl h) = Elem-append_right w l.woken l.waiting h
  wake_up-wakes w l (inr h) = Elem-append_left w l.woken l.waiting h

module _ {W T : Type 0} where
  pub send-wakes :
      (w : W) (cx : Context W) (v : T) (b : BoundedQueue W T)
      → (send cx v b).0 ≡ PollSend.ready
      → IsListed w b.receiving
      → Elem w (send cx v b).1.receiving.woken
  unfolding send
  send-wakes w cx v b e h = elim (Bool-cases (eqb b.receivers 0)) [
    | inl q ↦ absurd (ground arith)
    | inr q ↦ elim (Bool-cases (ltb (length b.items) b.capacity)) [
      | inl p ↦ rw (q, p) (wake_up-wakes w b.receiving h)
      | inr p ↦ absurd (ground arith)
    ]
  ]

  recv_from-wakes :
      (w : W) (cx : Context W) (items : List T) (v : T) (b : BoundedQueue W T)
      → (recv_from cx items b).0 ≡ PollRecv.ready v
      → IsListed w b.sending
      → Elem w (recv_from cx items b).1.sending.woken
  unfolding recv_from
  recv_from-wakes w cx [] v b e h = absurd (ground arith)
  recv_from-wakes w cx (x ∷ xs) v b e h = wake_up-wakes w b.sending h

  pub recv-wakes :
      (w : W) (cx : Context W) (v : T) (b : BoundedQueue W T)
      → (recv cx b).0 ≡ PollRecv.ready v
      → IsListed w b.sending
      → Elem w (recv cx b).1.sending.woken
  unfolding recv
  recv-wakes w cx v b e h = recv_from-wakes w cx b.items v b e h

  pub remove_sender-wakes :
      (w : W) (b : BoundedQueue W T)
      → b.senders ≤ 1
      → IsListed w b.receiving
      → Elem w (remove_sender b).receiving.woken
  unfolding remove_sender
  remove_sender-wakes w b e h = elim (Bool-cases (ltb 1 b.senders)) [
    | inl q ↦ absurd (ground arith)
    | inr q ↦ rw q (wake_up-wakes w b.receiving h)
  ]
