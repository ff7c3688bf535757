-- ===== src/Channels/Broadcast/Receives.antt =====
-- A receive on the broadcast channel does to the channel what it does to the log.
use postage_rs.Prelude.{
  ℕ, ◌+◌, ◌-◌, ◌%◌, ◌<◌, ◌≡◌, refl, sym, ap, ◌∙◌, some, none, eqb, if◌then◌else◌, arith, get_elem?,
  set, inl, inr, Option-cases, get_elem?-none, length-set, set_self, get_elem?-some_lt,
}
use postage_rs.Context.{Context}
use postage_rs.Queues.{SegQueue}
use postage_rs.Concurrent.Atomic.{usize_mod}
use postage_rs.Stream.{PollRecv}
use postage_rs.Sync.MpmcCircularBuffer.{BufferReader}
use postage_rs.Sync.MpmcCircularBuffer.Slot.Alone.{write_subscribed}
use postage_rs.Sync.MpmcCircularBuffer.Invariant.{change_slot-IsValid}
use postage_rs.Sync.MpmcCircularBuffer.Reading.{read-IsValid, reader-Within}
use postage_rs.Channels.Broadcast.Handlers.{poll_recv-reads, poll_recv-waits, waited}
use postage_rs.Channels.Broadcast.Log.{
  BroadcastLog, recv, received, absent, recv_from, recv_at, step_log,
}
use postage_rs.Channels.Broadcast.Run.{System, reply_recv, recv_on, step}
use postage_rs.Channels.Broadcast.Shows.{
  position_some, position_none, Shows, Room, Follows, Follows-eq, positions-set,
}

module _ {Q W T : Type 0} ⦃sq : SegQueue Q W⦄ (y : System Q W T) (l : BroadcastLog T)
    (shows : Shows y l) where
  -- A receiver that is at the index.
  recv-reads :
      (cx : Context W) (i : ℕ) (r : BufferReader) (v : T)
      → Room 1 l
      → get_elem? l.positions i ≡ some r.index
      → get_elem? l.items (r.index - 1) ≡ some v
      → Follows (recv_on cx i (some r) y) (recv_at i (some r.index) l)
  unfolding recv_on recv_at reply_recv recv_from
  recv-reads cx i r v room at e =
      Follows-eq _ (received i (PollRecv.ready v), _) _
        (received i (PollRecv.ready v), record l { positions = set l.positions i (r.index + 1) })
        (ap (λ t. (reply_recv i t.0.0, record { channel = t.1; readers = set y.readers i t.0.1 }))
          (poll_recv-reads cx y.channel l.items l.positions shows.valid i r v at before e))
        (ground (arith, e))
        (
          refl,
          record {
            valid =
                read-IsValid y.channel.extension l.items l.positions shows.valid i r.index at
                  (omega arith) before;
            capacity = shows.capacity;
            readers = positions-set y.readers i _ ∙ rw (shows.readers, next) refl;
            senders = shows.senders;
            receivers = shows.receivers ∙ sym (length-set l.positions i (r.index + 1));
          },
        )
    where
      before : r.index < y.channel.extension.head
      before = omega (
        arith,
        get_elem?-some_lt l.items (r.index - 1) v e,
        shows.valid.head,
        reader-Within y.channel.extension l.items l.positions shows.valid i r.index at,
      )

      next : (r.index + 1) % usize_mod ≡ r.index + 1
      next = omega (arith, get_elem?-some_lt l.items (r.index - 1) v e)

  recv-waits :
      (cx : Context W) (i : ℕ) (r : BufferReader)
      → get_elem? l.positions i ≡ some r.index
      → get_elem? l.items (r.index - 1) ≡ none
      → Follows (recv_on cx i (some r) y) (recv_at i (some r.index) l)
  unfolding recv_on recv_at reply_recv recv_from
  recv-waits cx i r at e =
      let reply = if eqb l.senders 0 then PollRecv.closed else PollRecv.pending in
      Follows-eq _ (received i reply, after) _ (received i reply, l)
        (ap (λ t. (reply_recv i t.0.0, record { channel = t.1; readers = set y.readers i t.0.1 }))
            (poll_recv-waits cx y.channel l.items l.positions shows.valid r at_head)
          ∙ ap (λ k. (received i (if eqb k 0 then PollRecv.closed else PollRecv.pending), after))
              shows.senders)
        (ground (arith, e))
        (
          refl,
          record {
            valid =
                change_slot-IsValid y.channel.extension l.items l.positions shows.valid r.index
                  (write_subscribed cx) (λ x. (refl, refl, refl));
            capacity = shows.capacity;
            readers =
                positions-set y.readers i r
                ∙ ap (λ ps. set ps i r.index) shows.readers
                ∙ set_self l.positions i r.index at;
            senders = shows.senders;
            receivers = shows.receivers;
          },
        )
    where
      after : System Q W T
      after = record {
        channel = waited cx y.channel l.items l.positions shows.valid r.index;
        readers = set y.readers i r;
      }

      at_head : r.index ≡ y.channel.extension.head
      at_head = omega (
        arith,
        get_elem?-none l.items (r.index - 1) e,
        shows.valid.head,
        reader-Within y.channel.extension l.items l.positions shows.valid i r.index at,
      )

  recv_present :
      (cx : Context W) (i : ℕ) (r : BufferReader)
      → Room 1 l
      → get_elem? l.positions i ≡ some r.index
      → Follows (recv_on cx i (some r) y) (recv_at i (some r.index) l)
  recv_present cx i r room at = elim (Option-cases (get_elem? l.items (r.index - 1))) [
    | inl e ↦ recv-waits cx i r at e
    | inr (v, e) ↦ recv-reads cx i r v room at e
  ]

  pub recv-Follows :
      (cx : Context W) (i : ℕ) → Room 1 l → Follows (step (recv cx i) y) (step_log (recv cx i) l)
  unfolding step step_log
  recv-Follows cx i room = elim (Option-cases (get_elem? y.readers i)) [
    | inl e ↦
        Follows-eq _ (absent, y) _ (absent, l) (rw e (unfold recv_on in refl))
          (rw (position_none y l shows i e) (unfold recv_at in refl)) (refl, shows)
    | inr (r, e) ↦
        let at = position_some y l shows i r e in rw (e, at) (recv_present cx i r room at)
  ]
