-- ===== src/Channels/Broadcast/Run.antt =====
-- Sequences of calls on a broadcast channel, each of them undisturbed.
use postage_rs.Prelude.{ℕ, List, [], ◌∷◌, ◌++◌, Option, none, some, get_elem?, set, remove_at}
use postage_rs.Context.{Context}
use postage_rs.Queues.{SegQueue}
use postage_rs.Stream.{PollRecv}
use postage_rs.Sink.{PollSend}
use postage_rs.Sync.MpmcCircularBuffer.{BufferReader}
use postage_rs.Channels.Broadcast.{
  Channel, poll_send, poll_recv, subscribe, clone_receiver, drop_receiver, clone_sender,
  drop_sender,
}
use postage_rs.Channels.Broadcast.Log.{
  Call, send, recv, clone_rx, drop_rx, clone_tx, drop_tx, Reply, sent, received, done, absent,
  stuck,
}

-- The channel and the readers of its receivers.
pub record System (Q W T : Type 0) : Type 0 where
  pub channel : Channel Q W T
  pub readers : List BufferReader

module _ {T : Type 0} where
  unfoldable pub reply_send : T → Option (PollSend T) → Reply T
  reply_send v none = stuck
  reply_send v (some r) = sent v r

  unfoldable pub reply_recv : ℕ → Option (PollRecv T) → Reply T
  reply_recv i none = stuck
  reply_recv i (some r) = received i r

module _ {Q W T : Type 0} ⦃sq : SegQueue Q W⦄ where
  unfoldable pub recv_on :
      Context W → ℕ → Option BufferReader → System Q W T → Reply T × System Q W T
  unfolding reply_recv
  recv_on cx i none y = (absent, y)
  recv_on cx i (some r) y =
      let ((x, r'), s, es) = poll_recv cx r [] y.channel in
      (reply_recv i x, record { channel = s; readers = set y.readers i r' })

  unfoldable pub clone_on : Option BufferReader → System Q W T → Reply T × System Q W T
  clone_on none y = (absent, y)
  clone_on (some r) y =
      let (r', s, es) = clone_receiver r [] y.channel in
      (done, record { channel = s; readers = y.readers ++ (r' ∷ []) })

  unfoldable pub drop_on : ℕ → Option BufferReader → System Q W T → Reply T × System Q W T
  drop_on i none y = (absent, y)
  drop_on i (some r) y =
      let (u, s, es) = drop_receiver r [] y.channel in
      (done, record { channel = s; readers = remove_at y.readers i })

  unfoldable pub step : Call W T → System Q W T → Reply T × System Q W T
  unfolding reply_send recv_on clone_on drop_on
  step (send cx v) y =
      let (x, s, es) = poll_send cx v [] y.channel in (reply_send v x, record y { channel = s })
  step (recv cx i) y = recv_on cx i (get_elem? y.readers i) y
  step (clone_rx i) y = clone_on (get_elem? y.readers i) y
  step (drop_rx i) y = drop_on i (get_elem? y.readers i) y
  step Call.subscribe y =
      let (r, s, es) = subscribe [] y.channel in
      (done, record { channel = s; readers = y.readers ++ (r ∷ []) })
  step clone_tx y = let (u, s, es) = clone_sender [] y.channel in (done, record y { channel = s })
  step drop_tx y = let (u, s, es) = drop_sender [] y.channel in (done, record y { channel = s })

  unfoldable pub run : List (Call W T) → System Q W T → List (Reply T) × System Q W T
  unfolding step
  run [] y = ([], y)
  run (c ∷ calls) y = let (r, y') = step c y in let (rs, y'') = run calls y' in (r ∷ rs, y'')
