-- ===== src/Stream/FindStream.antt =====
-- src/stream/find.rs: a stream of the first item that meets a condition, and then the end.
use postage_rs.Prelude.{ℕ, zero, suc, ◌≡◌, ap, Bool, Option, none, some, arith, if◌then◌else◌}
use postage_rs.Context.{Context}
use postage_rs.Concurrent.Loop.{Control, continue, break}
use postage_rs.Stream.{PollRecv, Stream}

pub data State : Type 0 where
  reading closed : State

-- The owner polls it by a unique reference, so no other thread interferes with the state.
pub record FindStream (S : Type 0) : Type 0 where
  pub state : State
  pub from : S

unfoldable pub new : {S : Type 0} → S → FindStream S
new from = record { state = reading; from = from }

module _ {S A W : Type 0} (stream : Stream S A W) (condition : A → Bool) where
  -- The arms of the match on a poll of the source.
  unfoldable pub found : PollRecv A → FindStream S → Control (Unit {0}) (PollRecv A) × FindStream S
  found (PollRecv.ready v) s =
      if condition v
      then (break (PollRecv.ready v), record s { state = closed })
      else (continue tt, s)
  found PollRecv.pending s = (break PollRecv.pending, s)
  found PollRecv.closed s = (break PollRecv.closed, s)

  unfoldable pub poll_round :
      Context W → FindStream S → Control (Unit {0}) (PollRecv A) × FindStream S
  unfolding found
  poll_round cx s =
      let (polled, from) = stream.poll_recv cx s.from in found polled (record s { from = from })

  -- The loop for at most so many rounds; `none` is that they ran out.
  unfoldable pub poll_loop : ℕ → Context W → FindStream S → Option (PollRecv A) × FindStream S
  unfolding poll_round
  poll_loop zero cx s = (none, s)
  poll_loop (suc n) cx s =
      let (c, s') = poll_round cx s in
      elim c [ continue _ ↦ poll_loop n cx s' | break r ↦ (some r, s') ]

  unfoldable pub poll_from :
      State → ℕ → Context W → FindStream S → Option (PollRecv A) × FindStream S
  unfolding poll_loop
  poll_from closed n cx s = (some PollRecv.closed, s)
  poll_from reading n cx s = poll_loop n cx s

  unfoldable pub poll_recv : ℕ → Context W → FindStream S → Option (PollRecv A) × FindStream S
  unfolding poll_from
  poll_recv n cx s = poll_from s.state n cx s

  poll_loop_closes :
      (n : ℕ) (cx : Context W) (s : FindStream S) (v : A)
      → (poll_loop n cx s).0 ≡ some (PollRecv.ready v)
      → (poll_loop n cx s).1.state ≡ closed
  unfolding poll_loop
  poll_loop_closes zero cx s v e = ground arith
  poll_loop_closes (suc n) cx s v e = ground (arith, poll_loop_closes n cx (poll_round cx s).1 v)

  poll_from_closes :
      (st : State) (n : ℕ) (cx : Context W) (s : FindStream S) (v : A)
      → (poll_from st n cx s).0 ≡ some (PollRecv.ready v)
      → (poll_from st n cx s).1.state ≡ closed
  unfolding poll_from
  poll_from_closes reading n cx s v e = poll_loop_closes n cx s v e
  poll_from_closes closed n cx s v e = ground arith

  -- Over any source, once the stream has given an item, every later poll gives the end, and the
  -- source is not polled again.
  pub find_ends :
      (n n' : ℕ) (cx cx' : Context W) (s : FindStream S) (v : A)
      → (poll_recv n cx s).0 ≡ some (PollRecv.ready v)
      → poll_recv n' cx' (poll_recv n cx s).1 ≡ (some PollRecv.closed, (poll_recv n cx s).1)
  unfolding poll_recv
  find_ends n n' cx cx' s v e =
      ap (λ st. poll_from st n' cx' (poll_recv n cx s).1) (poll_from_closes s.state n cx s v e)
