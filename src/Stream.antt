-- ===== src/Stream.antt =====
-- src/stream.rs, src/stream/errors.rs: streams, and what is made of a poll.
pub mod Polls
pub mod Sources
pub mod MapStream
pub mod FilterStream
pub mod FindStream
pub mod ChainStream
pub mod MergeStream
pub mod OnceStream
pub mod RepeatStream
pub mod StreamLog
use postage_rs.Prelude.{Option, none, some}
use postage_rs.Context.{Context, empty}
use postage_rs.Concurrent.Atomic.{Result, ok, err}

pub data PollRecv (A : Type 0) : Type 0 where
  ready : A → PollRecv A
  pending : PollRecv A
  closed : PollRecv A

pub data TryRecvError : Type 0 where
  pending : TryRecvError
  closed : TryRecvError

-- `std::task::Poll`
pub data Poll (A : Type 0) : Type 0 where
  ready : A → Poll A
  pending : Poll A

-- A stream with state `S`, of items `A`, in tasks with wakers `W`.
pub record Stream (S A W : Type 0) : Type 0 where
  pub poll_recv : Context W → S → PollRecv A × S

-- The result of `try_recv`, from that of the poll.
unfoldable pub to_result : {A : Type 0} → PollRecv A → Result A TryRecvError
to_result (PollRecv.ready v) = ok v
to_result PollRecv.pending = err TryRecvError.pending
to_result PollRecv.closed = err TryRecvError.closed

-- The result of `RecvFuture::poll`, from that of the poll.
unfoldable pub to_future : {A : Type 0} → PollRecv A → Poll (Option A)
to_future (PollRecv.ready v) = Poll.ready (some v)
to_future PollRecv.pending = Poll.pending
to_future PollRecv.closed = Poll.ready none

module _ {S A W : Type 0} (stream : Stream S A W) where
  unfoldable pub try_recv : S → Result A TryRecvError × S
  unfolding to_result
  try_recv s = let (polled, s') = stream.poll_recv empty s in (to_result polled, s')

  -- `RecvFuture::poll`, whose context is a task's and has a waker.
  unfoldable pub recv_future : Context W → S → Poll (Option A) × S
  unfolding to_future
  recv_future cx s = let (polled, s') = stream.poll_recv cx s in (to_future polled, s')
