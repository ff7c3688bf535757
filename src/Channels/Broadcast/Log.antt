-- ===== src/Channels/Broadcast/Log.antt =====
-- What the broadcast channel promises: a log of every value that was sent, and for each receiver a
-- position in it, the id of the value to come, where ids count from 1. A value is taken when no
-- receiver is behind by the whole capacity.
use postage_rs.Prelude.{
  ℕ, ◌+◌, ◌-◌, ◌%◌, List, [], ◌∷◌, ◌++◌, Option, none, some, length, get_elem?, set, remove_at, eqb,
  if◌then◌else◌,
}
use postage_rs.Context.{Context}
use postage_rs.Concurrent.Atomic.{usize_mod}
use postage_rs.Stream.{PollRecv}
use postage_rs.Sink.{PollSend}
use postage_rs.Sync.MpmcCircularBuffer.Writing.{is_behind}

pub record BroadcastLog (T : Type 0) : Type 0 where
  pub items : List T
  pub capacity : ℕ
  pub positions : List ℕ
  pub senders : ℕ

-- A call on a sender, or on the receiver of an index.
pub data Call (W T : Type 0) : Type 0 where
  send : Context W → T → Call W T
  recv : Context W → ℕ → Call W T
  clone_rx drop_rx : ℕ → Call W T
  subscribe clone_tx drop_tx : Call W T

-- `absent` is a call on a receiver that is not there; `stuck` one that does not return.
pub data Reply (T : Type 0) : Type 0 where
  sent : T → PollSend T → Reply T
  received : ℕ → PollRecv T → Reply T
  done absent stuck : Reply T

module _ {T : Type 0} where
  -- The id of the value to be sent next.
  abbrev pub next_id : BroadcastLog T → ℕ
  next_id l = length l.items + 1

  unfoldable pub send_log : T → BroadcastLog T → PollSend T × BroadcastLog T
  send_log v l =
      if eqb (length l.positions) 0
      then (PollSend.rejected v, l)
      else if is_behind l.capacity (next_id l) l.positions
      then (PollSend.pending v, l)
      else (PollSend.ready, record l { items = l.items ++ (v ∷ []) })

  -- The receiver of index `i` is at `p`, where the log may have a value.
  unfoldable pub recv_from : ℕ → ℕ → Option T → BroadcastLog T → PollRecv T × BroadcastLog T
  recv_from i p (some v) l = (PollRecv.ready v, record l { positions = set l.positions i (p + 1) })
  recv_from i p none l = (if eqb l.senders 0 then PollRecv.closed else PollRecv.pending, l)

  unfoldable pub recv_at : ℕ → Option ℕ → BroadcastLog T → Reply T × BroadcastLog T
  unfolding recv_from
  recv_at i none l = (absent, l)
  recv_at i (some p) l =
      let (r, l') = recv_from i p (get_elem? l.items (p - 1)) l in (received i r, l')

  unfoldable pub clone_at : Option ℕ → BroadcastLog T → Reply T × BroadcastLog T
  clone_at none l = (absent, l)
  clone_at (some p) l = (done, record l { positions = l.positions ++ (p ∷ []) })

  unfoldable pub drop_at : ℕ → Option ℕ → BroadcastLog T → Reply T × BroadcastLog T
  drop_at i none l = (absent, l)
  drop_at i (some p) l = (done, record l { positions = remove_at l.positions i })

module _ {W T : Type 0} where
  unfoldable pub step_log : Call W T → BroadcastLog T → Reply T × BroadcastLog T
  unfolding send_log recv_at clone_at drop_at
  step_log (send cx v) l = let (r, l') = send_log v l in (sent v r, l')
  step_log (recv cx i) l = recv_at i (get_elem? l.positions i) l
  step_log (clone_rx i) l = clone_at (get_elem? l.positions i) l
  step_log (drop_rx i) l = drop_at i (get_elem? l.positions i) l
  step_log subscribe l = (done, record l { positions = l.positions ++ (next_id l ∷ []) })
  step_log clone_tx l = (done, record l { senders = (l.senders + 1) % usize_mod })
  step_log drop_tx l = (done, record l { senders = l.senders - 1 })

  unfoldable pub run_log : List (Call W T) → BroadcastLog T → List (Reply T) × BroadcastLog T
  run_log [] l = ([], l)
  run_log (c ∷ calls) l =
      let (r, l') = step_log c l in let (rs, l'') = run_log calls l' in (r ∷ rs, l'')
