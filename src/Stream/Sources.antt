-- ===== src/Stream/Sources.antt =====
-- src/test/stream.rs: the streams that the unit tests poll. An iterator is the list of what it has left.
use postage_rs.Prelude.{List, [], ◌∷◌}
use postage_rs.Stream.{PollRecv, Stream}

pub record IterStream (A : Type 0) : Type 0 where
  pub iter : List A

pub record PollIterStream (A : Type 0) : Type 0 where
  pub iter : List (PollRecv A)

module _ {A : Type 0} where
  unfoldable pub next_value : List A → PollRecv A × IterStream A
  next_value [] = (PollRecv.closed, record { iter = [] })
  next_value (v ∷ vs) = (PollRecv.ready v, record { iter = vs })

  unfoldable pub next_poll : List (PollRecv A) → PollRecv A × PollIterStream A
  next_poll [] = (PollRecv.closed, record { iter = [] })
  next_poll (p ∷ ps) = (p, record { iter = ps })

module _ {A W : Type 0} where
  abbrev pub from_iter : Stream (IterStream A) A W
  from_iter = record { poll_recv = λ cx s. next_value s.iter }

  abbrev pub from_poll_iter : Stream (PollIterStream A) A W
  from_poll_iter = record { poll_recv = λ cx s. next_poll s.iter }

  -- `PendingStream` and `ClosedStream` have no state.
  abbrev pub pending_stream : Stream (Unit {0}) A W
  pending_stream = record { poll_recv = λ cx s. (PollRecv.pending, s) }

  abbrev pub closed_stream : Stream (Unit {0}) A W
  closed_stream = record { poll_recv = λ cx s. (PollRecv.closed, s) }
