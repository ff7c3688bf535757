-- ===== src/Channels/Broadcast/Sends.antt =====
-- A send on the broadcast channel does to the channel what it does to the log.
use postage_rs.Prelude.{
  ◌<◌, ◌≡◌, refl, ap, ◌∙◌, [], ◌∷◌, ◌++◌, true, false, arith, length, inl, inr, Bool-cases,
}
use native.Mathlib.Decide.{dec_lt}
use postage_rs.Context.{Context}
use postage_rs.Queues.{SegQueue}
use postage_rs.Sink.{PollSend}
use postage_rs.Sync.MpmcCircularBuffer.Slot.Alone.{release_subscribed}
use postage_rs.Sync.MpmcCircularBuffer.Invariant.{change_slot-IsValid}
use postage_rs.Sync.MpmcCircularBuffer.Writing.{is_behind, readers-in_front, written-IsValid}
use postage_rs.Channels.Broadcast.Handlers.{poll_send-closed, poll_send-waits, poll_send-writes}
use postage_rs.Channels.Broadcast.Log.{BroadcastLog, send, sent, next_id, send_log, step_log}
use postage_rs.Channels.Broadcast.Run.{System, reply_send, step}
use postage_rs.Channels.Broadcast.Shows.{Shows, Room, Follows, Follows-eq}

module _ {Q W T : Type 0} ⦃sq : SegQueue Q W⦄ (y : System Q W T) (l : BroadcastLog T)
    (shows : Shows y l) where
  behind-eq :
      is_behind y.channel.extension.len y.channel.extension.head l.positions
      ≡ is_behind l.capacity (next_id l) l.positions
  behind-eq = rw (shows.capacity, shows.valid.head)

  send-closed :
      (cx : Context W) (v : T)
      → length l.positions ≡ 0
      → Follows (step (send cx v) y) (step_log (send cx v) l)
  unfolding step step_log send_log reply_send
  send-closed cx v h =
      Follows-eq _ (sent v (PollSend.rejected v), y) _ (sent v (PollSend.rejected v), l)
        (ap (λ t. (reply_send v t.0, record y { channel = t.1 }))
          (poll_send-closed cx y.channel v (omega (arith, shows.receivers))))
        (ground arith) (refl, shows)

  send-waits :
      (cx : Context W) (v : T)
      → 0 < length l.positions
      → is_behind l.capacity (next_id l) l.positions ≡ true
      → Follows (step (send cx v) y) (step_log (send cx v) l)
  unfolding step step_log send_log reply_send
  send-waits cx v h e =
      Follows-eq _ (sent v (PollSend.pending v), _) _ (sent v (PollSend.pending v), l)
        (ap (λ t. (reply_send v t.0, record y { channel = t.1 }))
          (poll_send-waits cx y.channel l.items l.positions shows.valid v
            (omega (arith, shows.receivers)) (behind-eq ∙ e)))
        (ground arith)
        (
          refl,
          record {
            valid =
                change_slot-IsValid y.channel.extension l.items l.positions shows.valid
                  y.channel.extension.head (release_subscribed cx) (λ x. (refl, refl, refl));
            capacity = shows.capacity;
            readers = shows.readers;
            senders = shows.senders;
            receivers = shows.receivers;
          },
        )

  send-writes :
      (cx : Context W) (v : T)
      → Room 1 l
      → 0 < length l.positions
      → is_behind l.capacity (next_id l) l.positions ≡ false
      → Follows (step (send cx v) y) (step_log (send cx v) l)
  unfolding step step_log send_log reply_send
  send-writes cx v room h e =
      Follows-eq _ (sent v PollSend.ready, _) _
        (sent v PollSend.ready, record l { items = l.items ++ (v ∷ []) })
        (ap (λ t. (reply_send v t.0, record y { channel = t.1 }))
          (poll_send-writes cx y.channel l.items l.positions shows.valid v
            (omega (arith, shows.receivers)) (behind-eq ∙ e)))
        (ground arith)
        (
          refl,
          record {
            valid =
                written-IsValid y.channel.extension l.items l.positions shows.valid v
                  (omega (arith, shows.valid.head))
                  (readers-in_front y.channel.extension l.items l.positions shows.valid
                    (behind-eq ∙ e));
            capacity = shows.capacity;
            readers = shows.readers;
            senders = shows.senders;
            receivers = shows.receivers;
          },
        )

  pub send-Follows :
      (cx : Context W) (v : T) → Room 1 l → Follows (step (send cx v) y) (step_log (send cx v) l)
  send-Follows cx v room = elim (dec_lt 0 (length l.positions)) [
    | yes h ↦ elim (Bool-cases (is_behind l.capacity (next_id l) l.positions)) [
      | inl e ↦ send-waits cx v h e
      | inr e ↦ send-writes cx v room h e
    ]
    | no h ↦ send-closed cx v (omega arith)
  ]
