-- ===== src/Sink/FilterSink.antt =====
-- src/sink/filter.rs: only the values that pass a filter reach the sink. The filter may keep a state `F`.
use postage_rs.Prelude.{Bool, not, if◌then◌else◌}
use postage_rs.Context.{Context}
use postage_rs.Sink.{PollSend, Sink}

pub record FilterSink (F S : Type 0) : Type 0 where
  pub filter : F
  pub into : S

module _ {F S A W : Type 0} (sink : Sink S A W) (test : A → F → Bool × F) where
  unfoldable pub poll_send : Context W → A → FilterSink F S → PollSend A × FilterSink F S
  poll_send cx value s =
      let (passed, f) = test value s.filter in
      if not passed
      then (PollSend.ready, record s { filter = f })
      else let (polled, inner) = sink.poll_send cx value s.into in
        (polled, record { filter = f; into = inner })
