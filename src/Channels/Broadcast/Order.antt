-- ===== src/Channels/Broadcast/Order.antt =====
-- What a receiver of a broadcast channel gets: a stretch of the values sent, in order and without gaps.
use postage_rs.Prelude.{
  ℕ, ◌-◌, ◌≡◌, sym, ap, ◌∙◌, some, List, ◌++◌, length, get_elem?, take, All, All-get_elem?,
}
use postage_rs.Queues.{SegQueue}
use postage_rs.Sync.MpmcCircularBuffer.Invariant.{Within}
use postage_rs.Channels.Broadcast.Log.{BroadcastLog, Call}
use postage_rs.Channels.Broadcast.Run.{System, run}
use postage_rs.Channels.Broadcast.Shows.{Shows, Room, positions}
use postage_rs.Channels.Broadcast.Refine.{run-Follows}
use postage_rs.Channels.Broadcast.Gets.{KeepsReceivers, accepted, delivered_to, run_log-Gets}

module _ {Q W T : Type 0} ⦃sq : SegQueue Q W⦄ where
  -- On a channel that shows a log, with room for the calls, over any sequence of undisturbed calls of
  -- which none drops a receiver: the values before a receiver's position followed by those that it
  -- gets are the values before its position at the end, of the values that were in the log followed
  -- by those that `poll_send` has accepted.
  pub broadcast_in_order :
      (calls : List (Call W T)) (i p : ℕ) (y : System Q W T) (l : BroadcastLog T)
      → Shows y l
      → Room (length calls) l
      → All KeepsReceivers calls
      → get_elem? (positions y.readers) i ≡ some p
      → let r = run calls y in
        let all = l.items ++ accepted r.0 in
        (q : ℕ) × (get_elem? (positions r.1.readers) i ≡ some q)
        × (take (p - 1) all ++ delivered_to i r.0 ≡ take (q - 1) all)
  broadcast_in_order calls i p y l shows room keeps e =
      let at = ap (λ ps. get_elem? ps i) (sym shows.readers) ∙ e in
      let (e', shows') = run-Follows calls y l shows room in
      let (q, _, e'', got) =
        run_log-Gets calls i p l keeps
          (All-get_elem? (Within y.channel.extension) l.positions i p shows.valid.within at).0 at in
      (q, ap (λ ps. get_elem? ps i) shows'.readers ∙ e'', rw e' got)
