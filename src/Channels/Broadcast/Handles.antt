-- ===== src/Channels/Broadcast/Handles.antt =====
-- The coming and going of handles of the broadcast channel does to it what it does to the log.
use postage_rs.Prelude.{
  ℕ, ◌+◌, ◌-◌, ◌%◌, ◌≡◌, refl, ap, ◌∙◌, some, [], ◌∷◌, ◌++◌, arith, get_elem?, remove_at, inl, inr,
  Option-cases, get_elem?-some_lt, length-append, length-remove_at,
}
use postage_rs.Queues.{SegQueue}
use postage_rs.Concurrent.Atomic.{usize_mod}
use postage_rs.Sync.MpmcCircularBuffer.{BufferReader}
use postage_rs.Sync.MpmcCircularBuffer.Reading.{reader-Within}
use postage_rs.Sync.RefCount
use postage_rs.Sync.RefCount.{TryDecrement, alive, dead}
use postage_rs.Sync.SenderShared
use postage_rs.Sync.Alone.{
  without_sender_lem, without_receiver_lem, without_sender, without_receiver, sender_drop-alone,
}
use postage_rs.Sync.MpmcCircularBuffer.Maintenance.{left}
use postage_rs.Sync.MpmcCircularBuffer.Readers.{joined-IsValid, left-IsValid}
use postage_rs.Channels.Broadcast.{clone_sender, drop_sender}
use postage_rs.Channels.Broadcast.Log.{
  BroadcastLog, Call, clone_rx, drop_rx, clone_tx, drop_tx, done, absent, next_id, clone_at,
  drop_at, step_log,
}
use postage_rs.Channels.Broadcast.Run.{System, clone_on, drop_on, step}
use postage_rs.Channels.Broadcast.Shows.{
  position_some, position_none, Shows, Room, Follows, Follows-eq, positions-remove_at,
  positions-append,
}
use postage_rs.Channels.Broadcast.Counts.{
  clone_receiver-alone, subscribe-alone, drop_receiver-alone,
}

module _ {Q W T : Type 0} ⦃sq : SegQueue Q W⦄ (y : System Q W T) (l : BroadcastLog T)
    (shows : Shows y l) where
  clone_present :
      (i : ℕ) (r : BufferReader)
      → Room 1 l
      → get_elem? l.positions i ≡ some r.index
      → Follows (clone_on (some r) y) (clone_at (some r.index) l)
  unfolding clone_on clone_at
  clone_present i r room at =
      Follows-eq _ _ _ (done, record l { positions = l.positions ++ (r.index ∷ []) })
        (ap (λ t. (done, record { channel = t.1; readers = y.readers ++ (t.0 ∷ []) }))
          (clone_receiver-alone y.channel r))
        refl
        (
          refl,
          record {
            valid =
                joined-IsValid y.channel.extension l.items l.positions shows.valid r.index
                  (omega arith)
                  (reader-Within y.channel.extension l.items l.positions shows.valid i r.index at);
            capacity = shows.capacity;
            readers = positions-append y.readers r ∙ ap (λ ps. ps ++ (r.index ∷ [])) shows.readers;
            senders = shows.senders;
            receivers = omega (arith, shows.receivers, length-append l.positions (r.index ∷ []));
          },
        )

  pub clone_rx-Follows :
      (i : ℕ) → Room 1 l → Follows (step (clone_rx i) y) (step_log {W = W} (clone_rx i) l)
  unfolding step step_log
  clone_rx-Follows i room = elim (Option-cases (get_elem? y.readers i)) [
    | inl e ↦
        Follows-eq _ (absent, y) _ (absent, l) (rw e (unfold clone_on in refl))
          (rw (position_none y l shows i e) (unfold clone_at in refl)) (refl, shows)
    | inr (r, e) ↦ let at = position_some y l shows i r e in rw (e, at) (clone_present i r room at)
  ]

  drop_present :
      (i : ℕ) (r : BufferReader)
      → Room 1 l
      → get_elem? l.positions i ≡ some r.index
      → Follows (drop_on i (some r) y) (drop_at i (some r.index) l)
  unfolding drop_on drop_at
  drop_present i r room at =
      let s' = record y.channel { extension = left r.index y.channel.extension } in
      let kept = without_receiver_lem s' in
      Follows-eq _ (done, record { channel = without_receiver s'; readers = remove_at y.readers i })
        _ (done, record l { positions = remove_at l.positions i })
        (ap (λ t. (done, record { channel = t.1; readers = remove_at y.readers i }))
          (drop_receiver-alone y.channel r))
        refl
        (
          refl,
          record {
            valid = rw kept.0 (
                left-IsValid y.channel.extension l.items l.positions shows.valid i r.index
                  (omega arith) at);
            capacity = ap (λ b. b.len) kept.0 ∙ shows.capacity;
            readers = positions-remove_at y.readers i ∙ ap (λ ps. remove_at ps i) shows.readers;
            senders = ap (λ c. c.count) kept.1 ∙ shows.senders;
            receivers = omega (
              arith,
              kept.2,
              shows.receivers,
              length-remove_at l.positions i (get_elem?-some_lt l.positions i r.index at),
            );
          },
        )

  pub drop_rx-Follows :
      (i : ℕ) → Room 1 l → Follows (step (drop_rx i) y) (step_log {W = W} (drop_rx i) l)
  unfolding step step_log
  drop_rx-Follows i room = elim (Option-cases (get_elem? y.readers i)) [
    | inl e ↦
        Follows-eq _ (absent, y) _ (absent, l) (rw e (unfold drop_on in refl))
          (rw (position_none y l shows i e) (unfold drop_at in refl)) (refl, shows)
    | inr (r, e) ↦ let at = position_some y l shows i r e in rw (e, at) (drop_present i r room at)
  ]

  pub subscribe-Follows :
      Room 1 l → Follows (step Call.subscribe y) (step_log {W = W} Call.subscribe l)
  unfolding step step_log
  subscribe-Follows room =
      Follows-eq _ _ _ (done, record l { positions = l.positions ++ (next_id l ∷ []) })
        (ap (λ t. (done, record { channel = t.1; readers = y.readers ++ (t.0 ∷ []) }))
          (subscribe-alone y.channel))
        refl
        (
          refl,
          record {
            valid = rw (← shows.valid.head) (
                joined-IsValid y.channel.extension l.items l.positions shows.valid
                  y.channel.extension.head (omega arith)
                  (omega (arith, shows.valid.head), omega arith, omega arith));
            capacity = shows.capacity;
            readers = positions-append y.readers _ ∙ rw (shows.readers, shows.valid.head) refl;
            senders = shows.senders;
            receivers = omega (arith, shows.receivers, length-append l.positions (next_id l ∷ []));
          },
        )

  pub clone_tx-Follows : Follows (step clone_tx y) (step_log {W = W} clone_tx l)
  unfolding step step_log clone_sender SenderShared.clone RefCount.increment
  clone_tx-Follows = (
    refl,
    record {
      valid = shows.valid;
      capacity = shows.capacity;
      readers = shows.readers;
      senders = ap (λ n. (n + 1) % usize_mod) shows.senders;
      receivers = shows.receivers;
    },
  )

  pub drop_tx-Follows : Follows (step drop_tx y) (step_log {W = W} drop_tx l)
  unfolding step step_log drop_sender
  drop_tx-Follows =
      let kept = without_sender_lem y.channel in
      Follows-eq _ (done, record y { channel = without_sender y.channel }) _ _
        (ap (λ t. (done, record y { channel = t.1 })) (sender_drop-alone y.channel)) refl
        (
          refl,
          record {
            valid = rw kept.0 shows.valid;
            capacity = ap (λ b. b.len) kept.0 ∙ shows.capacity;
            readers = shows.readers;
            senders = kept.2 ∙ ap (λ n. n - 1) shows.senders;
            receivers = ap (λ c. c.count) kept.1 ∙ shows.receivers;
          },
        )
