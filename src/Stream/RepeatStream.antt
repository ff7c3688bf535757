-- ===== src/Stream/RepeatStream.antt =====
-- src/stream/repeat.rs: a stream of one item for ever. The clone of an item is the item.
use postage_rs.Context.{Context}
use postage_rs.Stream.{PollRecv, Stream}

pub record RepeatStream (A : Type 0) : Type 0 where
  pub data_item : A

module _ {A W : Type 0} where
  unfoldable pub poll_recv : Context W → RepeatStream A → PollRecv A × RepeatStream A
  poll_recv cx s = (PollRecv.ready s.data_item, s)

  abbrev pub repeat : Stream (RepeatStream A) A W
  repeat = record { poll_recv = poll_recv }
