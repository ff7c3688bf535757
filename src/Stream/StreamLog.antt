-- ===== src/Stream/StreamLog.antt =====
-- src/stream/stream_log.rs: a stream that logs its items. `log` is what the `log!` macro has been
-- given, oldest first; the level and the name of the type are constants of the stream.
use postage_rs.Prelude.{List, [], ◌∷◌, ◌++◌}
use postage_rs.Context.{Context}
use postage_rs.Stream.{PollRecv, Stream}

pub record StreamLog (S A : Type 0) : Type 0 where
  pub stream : S
  pub log : List A

module _ {S A : Type 0} where
  unfoldable pub logged : PollRecv A → StreamLog S A → PollRecv A × StreamLog S A
  logged (PollRecv.ready v) s = (PollRecv.ready v, record s { log = s.log ++ (v ∷ []) })
  logged PollRecv.pending s = (PollRecv.pending, s)
  logged PollRecv.closed s = (PollRecv.closed, s)

module _ {S A W : Type 0} (stream : Stream S A W) where
  unfoldable pub poll_recv : Context W → StreamLog S A → PollRecv A × StreamLog S A
  unfolding logged
  poll_recv cx s =
      let (polled, inner) = stream.poll_recv cx s.stream in
      logged polled (record s { stream = inner })
