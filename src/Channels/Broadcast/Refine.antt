-- ===== src/Channels/Broadcast/Refine.antt =====
-- The broadcast channel behaves as a log, over sequences of undisturbed calls on a new channel.
use postage_rs.Prelude.{
  ℕ, suc, ◌+◌, ◌-◌, ◌<◌, ◌≡◌, refl, Option, some, none, List, [], ◌∷◌, max, arith, length,
  get_elem?, length-append, length-set, length-remove_at, get_elem?-some_lt, Option-cases, inl, inr,
}
use postage_rs.Queues.{SegQueue}
use postage_rs.Concurrent.Atomic.{usize_mod}
use postage_rs.Sync.Shared
use postage_rs.Sync.MpmcCircularBuffer
use postage_rs.Sync.MpmcCircularBuffer.Slot
use postage_rs.Sync.MpmcCircularBuffer.Invariant.{IsValid}
use postage_rs.Channels.Broadcast.{channel}
use postage_rs.Channels.Broadcast.Log.{
  BroadcastLog, next_id, Call, send, recv, clone_rx, drop_rx, clone_tx, drop_tx, send_log, recv_at,
  recv_from, clone_at, drop_at, step_log, run_log,
}
use postage_rs.Channels.Broadcast.Run.{System, step, run}
use postage_rs.Channels.Broadcast.Shows.{Shows, Room, Follows, positions}
use postage_rs.Channels.Broadcast.Sends.{send-Follows}
use postage_rs.Channels.Broadcast.Receives.{recv-Follows}
use postage_rs.Channels.Broadcast.Handles.{
  clone_rx-Follows, drop_rx-Follows, subscribe-Follows, clone_tx-Follows, drop_tx-Follows,
}

module _ {T : Type 0} where
  recv_at-Room :
      (i n : ℕ) (p : Option ℕ) (l : BroadcastLog T) → Room (suc n) l → Room n (recv_at i p l).1
  unfolding recv_at recv_from
  recv_at-Room i n none l h = omega arith
  recv_at-Room i n (some p) l h = elim (Option-cases (get_elem? l.items (p - 1))) [
    | inl e ↦ ground (arith, e)
    | inr (v, e) ↦ ground (arith, e, length-set l.positions i (p + 1))
  ]

  clone_at-Room :
      (n : ℕ) (p : Option ℕ) (l : BroadcastLog T) → Room (suc n) l → Room n (clone_at p l).1
  unfolding clone_at
  clone_at-Room n none l h = omega arith
  clone_at-Room n (some p) l h = omega (arith, length-append l.positions (p ∷ []))

  drop_at-Room :
      (i n : ℕ) (p : Option ℕ) (l : BroadcastLog T)
      → get_elem? l.positions i ≡ p
      → Room (suc n) l
      → Room n (drop_at i p l).1
  unfolding drop_at
  drop_at-Room i n none l e h = omega arith
  drop_at-Room i n (some p) l e h =
      omega (arith, length-remove_at l.positions i (get_elem?-some_lt l.positions i p e))

module _ {W T : Type 0} where
  -- A call needs room for no more than one value or receiver.
  pub step_log-Room :
      (c : Call W T) (n : ℕ) (l : BroadcastLog T) → Room (suc n) l → Room n (step_log c l).1
  unfolding step_log send_log
  step_log-Room (send cx v) n l h = ground (arith, length-append l.items (v ∷ []))
  step_log-Room (recv cx i) n l h = recv_at-Room i n (get_elem? l.positions i) l h
  step_log-Room (clone_rx i) n l h = clone_at-Room n (get_elem? l.positions i) l h
  step_log-Room (drop_rx i) n l h = drop_at-Room i n (get_elem? l.positions i) l refl h
  step_log-Room Call.subscribe n l h = omega (arith, length-append l.positions (next_id l ∷ []))
  step_log-Room clone_tx n l h = omega arith
  step_log-Room drop_tx n l h = omega arith

module _ {Q W T : Type 0} ⦃sq : SegQueue Q W⦄ where
  pub step-Follows :
      (c : Call W T) (y : System Q W T) (l : BroadcastLog T)
      → Shows y l
      → Room 1 l
      → Follows (step c y) (step_log c l)
  step-Follows (send cx v) y l shows room = send-Follows y l shows cx v room
  step-Follows (recv cx i) y l shows room = recv-Follows y l shows cx i room
  step-Follows (clone_rx i) y l shows room = clone_rx-Follows y l shows i room
  step-Follows (drop_rx i) y l shows room = drop_rx-Follows y l shows i room
  step-Follows Call.subscribe y l shows room = subscribe-Follows y l shows room
  step-Follows clone_tx y l shows room = clone_tx-Follows y l shows
  step-Follows drop_tx y l shows room = drop_tx-Follows y l shows

  pub run-Follows :
      (calls : List (Call W T)) (y : System Q W T) (l : BroadcastLog T)
      → Shows y l
      → Room (length calls) l
      → ((run calls y).0 ≡ (run_log calls l).0) × Shows (run calls y).1 (run_log calls l).1
  unfolding run run_log
  run-Follows [] y l shows room = (refl, shows)
  run-Follows (c ∷ calls) y l shows room =
      let (e, shows') = step-Follows c y l shows (omega arith) in
      let (e', shows'') =
        run-Follows calls (step c y).1 (step_log c l).1 shows'
          (step_log-Room c (length calls) l room) in
      (λ i. e i ∷ e' i, shows'')

  -- A new channel with its one receiver.
  unfoldable pub fresh : ℕ → System Q W T
  unfolding channel
  fresh capacity = let (s, r) = channel capacity in record { channel = s; readers = r ∷ [] }

module _ {T : Type 0} where
  unfoldable pub fresh_log : ℕ → BroadcastLog T
  fresh_log capacity = record {
    items = [];
    capacity = max 2 capacity;
    positions = 1 ∷ [];
    senders = 1;
  }

module _ {Q W T : Type 0} ⦃sq : SegQueue Q W⦄ where
  pub fresh-Shows :
      (capacity : ℕ) → Shows (fresh {Q = Q} {W = W} {T = T} capacity) (fresh_log capacity)
  unfolding fresh fresh_log Shared.new MpmcCircularBuffer.new Slot.new
  fresh-Shows capacity = record {
    valid = record {
      two = omega arith;
      head = refl;
      readers = refl;
      within = ((omega arith, omega arith, omega arith), tt);
      slot = λ j h h'. ground arith;
    };
    capacity = refl;
    readers = refl;
    senders = refl;
    receivers = refl;
  }

  run-fresh :
      (capacity : ℕ) (calls : List (Call W T))
      → length calls + 3 < usize_mod
      → let y = run calls (fresh {Q = Q} capacity) in
        let l = run_log calls (fresh_log capacity) in (y.0 ≡ l.0) × Shows y.1 l.1
  run-fresh capacity calls h =
      run-Follows calls (fresh capacity) (fresh_log capacity) (fresh-Shows capacity)
        (unfold fresh_log in omega arith)

module _ {W T : Type 0} (Q : Type 0) ⦃sq : SegQueue Q W⦄ where
  -- Any sequence of undisturbed calls on a new channel, 3 fewer than the values of `usize`, gets
  -- the replies that the log gives, whose capacity is the channel's but 2 at least.
  pub broadcast_refines :
      (capacity : ℕ) (calls : List (Call W T))
      → length calls + 3 < usize_mod
      → (run calls (fresh {Q = Q} capacity)).0 ≡ (run_log calls (fresh_log capacity)).0
  broadcast_refines capacity calls h = (run-fresh capacity calls h).0

  -- After such a sequence, the slots of the buffer hold the last values of the log and count the
  -- receivers that have read them, and the readers are at the positions of the log.
  pub broadcast_holds_log :
      (capacity : ℕ) (calls : List (Call W T))
      → length calls + 3 < usize_mod
      → let y = (run calls (fresh {Q = Q} capacity)).1 in
        let l = (run_log calls (fresh_log capacity)).1 in
        IsValid y.channel.extension l.items l.positions × (positions y.readers ≡ l.positions)
  broadcast_holds_log capacity calls h =
      let shows = (run-fresh capacity calls h).1 in (shows.valid, shows.readers)
