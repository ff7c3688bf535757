-- ===== src/Channels/BoundedQueue/Run.antt =====
-- Sequences of operations on the bounded queue, and what they do to the items.
use postage_rs.Prelude.{
  ◌≤◌, ◌≡◌, refl, ◌∙◌, ap, sym, Option, none, some, List, [], ◌∷◌, ◌++◌, arith, length,
  append_assoc, append-nil, length-append,
}
use postage_rs.Context.{Context}
use postage_rs.Stream.{PollRecv}
use postage_rs.Sink.{PollSend}
use postage_rs.Channels.BoundedQueue.{
  BoundedQueue, send, recv, add_sender, add_receiver, remove_sender, remove_receiver,
}

pub data Op (W T : Type 0) : Type 0 where
  send_op : Context W → T → Op W T
  recv_op : Context W → Op W T
  clone_sender_op clone_receiver_op drop_sender_op drop_receiver_op : Op W T

-- What a caller sees; `stuck` is an operation that does not return.
pub data Reply (T : Type 0) : Type 0 where
  sent : T → PollSend T → Reply T
  received : PollRecv T → Reply T
  done stuck : Reply T

module _ {W T : Type 0} where
  unfoldable pub step : Op W T → BoundedQueue W T → Reply T × BoundedQueue W T
  step (send_op cx v) b = let (r, b') = send cx v b in (sent v r, b')
  step (recv_op cx) b = let (r, b') = recv cx b in (received r, b')
  step clone_sender_op b = (done, add_sender b)
  step clone_receiver_op b = (done, add_receiver b)
  step drop_sender_op b = (done, remove_sender b)
  step drop_receiver_op b = (done, remove_receiver b)

  unfoldable pub run : List (Op W T) → BoundedQueue W T → List (Reply T) × BoundedQueue W T
  run [] b = ([], b)
  run (op ∷ ops) b = let (r, b') = step op b in let (rs, b'') = run ops b' in (r ∷ rs, b'')

module _ {T : Type 0} where
  -- The reply to a call of a handler, where `none` is a handler that does not return.
  unfoldable pub reply_send : T → Option (PollSend T) → Reply T
  reply_send v none = stuck
  reply_send v (some r) = sent v r

  unfoldable pub reply_recv : Option (PollRecv T) → Reply T
  reply_recv none = stuck
  reply_recv (some r) = received r

  -- The value that a reply accepts, and the value that it delivers.
  abbrev pub accepted_by : Reply T → List T
  accepted_by (sent v PollSend.ready) = v ∷ []
  accepted_by _ = []

  abbrev pub delivered_by : Reply T → List T
  delivered_by (received (PollRecv.ready v)) = v ∷ []
  delivered_by _ = []

  abbrev pub accepted : List (Reply T) → List T
  accepted [] = []
  accepted (r ∷ rs) = accepted_by r ++ accepted rs

  abbrev pub delivered : List (Reply T) → List T
  delivered [] = []
  delivered (r ∷ rs) = delivered_by r ++ delivered rs

module _ {W T : Type 0} where
  recv-fifo :
      (cx : Context W) (b : BoundedQueue W T) (items : List T)
      → b.items ≡ items
      → let r = recv cx b in items ≡ delivered_by (received r.0) ++ r.1.items
  unfolding recv
  recv-fifo cx b [] e = ground arith
  recv-fifo cx b (v ∷ vs) e = ground arith

  step-fifo :
      (op : Op W T) (b : BoundedQueue W T)
      → let r = step op b in b.items ++ accepted_by r.0 ≡ delivered_by r.0 ++ r.1.items
  unfolding step send add_sender add_receiver remove_sender remove_receiver
  step-fifo (send_op cx v) b = ground (arith, append-nil b.items)
  step-fifo (recv_op cx) b = append-nil b.items ∙ recv-fifo cx b b.items refl
  step-fifo op b = ground (arith, append-nil b.items)

  -- Nothing is lost, made up or reordered: the items at the start and those accepted since are
  -- those delivered and those still there.
  pub run-fifo :
      (ops : List (Op W T)) (b : BoundedQueue W T)
      → let r = run ops b in b.items ++ accepted r.0 ≡ delivered r.0 ++ r.1.items
  unfolding run
  run-fifo [] b = append-nil b.items
  run-fifo (op ∷ ops) b =
      let r = step op b in
      let rest = run ops r.1 in
      sym (append_assoc b.items (accepted_by r.0) (accepted rest.0))
      ∙ ap (λ l. l ++ accepted rest.0) (step-fifo op b)
      ∙ append_assoc (delivered_by r.0) r.1.items (accepted rest.0)
      ∙ ap (λ l. delivered_by r.0 ++ l) (run-fifo ops r.1)
      ∙ sym (append_assoc (delivered_by r.0) (delivered rest.0) rest.1.items)

  abbrev pub Fits : BoundedQueue W T → Type 0
  Fits b = length b.items ≤ b.capacity

  recv-Fits :
      (cx : Context W) (b : BoundedQueue W T) (items : List T)
      → b.items ≡ items
      → Fits b
      → Fits (recv cx b).1 × ((recv cx b).1.capacity ≡ b.capacity)
  unfolding recv
  recv-Fits cx b [] e h = ground arith
  recv-Fits cx b (v ∷ vs) e h = ground arith

  step-Fits :
      (op : Op W T) (b : BoundedQueue W T)
      → Fits b
      → Fits (step op b).1 × ((step op b).1.capacity ≡ b.capacity)
  unfolding step send add_sender add_receiver remove_sender remove_receiver
  step-Fits (send_op cx v) b h = ground (arith, length-append b.items (v ∷ []))
  step-Fits (recv_op cx) b h = recv-Fits cx b b.items refl h
  step-Fits op b h = ground arith

  -- The queue never holds more than its capacity, which never changes.
  pub run-Fits :
      (ops : List (Op W T)) (b : BoundedQueue W T)
      → Fits b
      → Fits (run ops b).1 × ((run ops b).1.capacity ≡ b.capacity)
  unfolding run
  run-Fits [] b h = (h, refl)
  run-Fits (op ∷ ops) b h =
      let (h', e) = step-Fits op b h in
      let (h'', e') = run-Fits ops (step op b).1 h' in (h'', e' ∙ e)
