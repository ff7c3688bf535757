-- ===== src/Sink/ChainSink.antt =====
-- src/sink/chain.rs: values go to one sink, and after its first rejection to another.
use postage_rs.Prelude.{◌≡◌, refl, ap, arith}
use postage_rs.Context.{Context}
use postage_rs.Sink.{PollSend, Sink}

pub data State : Type 0 where
  writing_left writing_right closed : State

-- The owner polls it by a unique reference, so no other thread interferes with the state.
pub record ChainSink (L R : Type 0) : Type 0 where
  pub state : State
  pub left : L
  pub right : R

unfoldable pub new : {L R : Type 0} → L → R → ChainSink L R
new l r = record { state = writing_left; left = l; right = r }

module _ {L R A W : Type 0} (to_left : Sink L A W) (to_right : Sink R A W) where
  -- The arms of the match on a poll of the right sink.
  unfoldable pub sent_right : PollSend A → ChainSink L R → PollSend A × ChainSink L R
  sent_right PollSend.ready s = (PollSend.ready, s)
  sent_right (PollSend.pending v) s = (PollSend.pending v, s)
  sent_right (PollSend.rejected v) s = (PollSend.rejected v, record s { state = closed })

  unfoldable pub send_right : Context W → A → ChainSink L R → PollSend A × ChainSink L R
  unfolding sent_right
  send_right cx value s =
      let (polled, r) = to_right.poll_send cx value s.right in
      sent_right polled (record s { right = r })

  -- The arms of the match on a poll of the left sink; a value that it rejects goes on to the right.
  unfoldable pub sent_left : Context W → PollSend A → ChainSink L R → PollSend A × ChainSink L R
  unfolding send_right
  sent_left cx PollSend.ready s = (PollSend.ready, s)
  sent_left cx (PollSend.pending v) s = (PollSend.pending v, s)
  sent_left cx (PollSend.rejected v) s = send_right cx v (record s { state = writing_right })

  unfoldable pub send_from : State → Context W → A → ChainSink L R → PollSend A × ChainSink L R
  unfolding sent_left
  send_from writing_left cx value s =
      let (polled, l) = to_left.poll_send cx value s.left in
      sent_left cx polled (record s { left = l })
  send_from writing_right cx value s = send_right cx value s
  send_from closed cx value s = (PollSend.rejected value, s)

  unfoldable pub poll_send : Context W → A → ChainSink L R → PollSend A × ChainSink L R
  unfolding send_from
  poll_send cx value s = send_from s.state cx value s

  abbrev pub chain_sink : Sink (ChainSink L R) A W
  chain_sink = record { poll_send = poll_send }

module _ {L R A W : Type 0} (to_left : Sink L A W) (to_right : Sink R A W) where
  sent_right-closes :
      (p : PollSend A) (s : ChainSink L R) (v : A)
      → (sent_right to_left to_right p s).0 ≡ PollSend.rejected v
      → (sent_right to_left to_right p s).1.state ≡ closed
  unfolding sent_right
  sent_right-closes PollSend.ready s v e = ground arith
  sent_right-closes (PollSend.pending v') s v e = ground arith
  sent_right-closes (PollSend.rejected v') s v e = refl

  sent_left-closes :
      (cx : Context W) (p : PollSend A) (s : ChainSink L R) (v : A)
      → (sent_left to_left to_right cx p s).0 ≡ PollSend.rejected v
      → (sent_left to_left to_right cx p s).1.state ≡ closed
  unfolding sent_left
  sent_left-closes cx PollSend.ready s v e = ground arith
  sent_left-closes cx (PollSend.pending v') s v e = ground arith
  sent_left-closes cx (PollSend.rejected v') s v e = sent_right-closes _ _ v e

  send_from-closes :
      (st : State) (cx : Context W) (s : ChainSink L R) (v v' : A)
      → s.state ≡ st
      → (send_from to_left to_right st cx v s).0 ≡ PollSend.rejected v'
      → (send_from to_left to_right st cx v s).1.state ≡ closed
  unfolding send_from
  send_from-closes writing_left cx s v v' q e = sent_left-closes cx _ _ v' e
  send_from-closes writing_right cx s v v' q e = sent_right-closes _ _ v' e
  send_from-closes closed cx s v v' q e = q

  -- Over any sinks, once the chain has rejected a value, it rejects every later one, and polls
  -- neither sink again.
  pub chain_stays_closed :
      (cx cx' : Context W) (s : ChainSink L R) (v v' u : A)
      → (poll_send to_left to_right cx v s).0 ≡ PollSend.rejected v'
      → poll_send to_left to_right cx' u (poll_send to_left to_right cx v s).1
        ≡ (PollSend.rejected u, (poll_send to_left to_right cx v s).1)
  unfolding poll_send
  chain_stays_closed cx cx' s v v' u e =
      ap (λ st. send_from to_left to_right st cx' u (poll_send to_left to_right cx v s).1)
        (send_from-closes s.state cx s v v' refl e)
