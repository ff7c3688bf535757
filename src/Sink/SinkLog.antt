-- ===== src/Sink/SinkLog.antt =====
-- src/sink/sink_log.rs: a sink that logs the values that it accepts. `log` is what the `log!` macro has
-- been given, oldest first; the level and the name of the type are constants of the sink, and
-- `enabled` is what `log_enabled!` says of the level.
use postage_rs.Prelude.{Bool, Option, none, some, List, [], ◌∷◌, ◌++◌, if◌then◌else◌}
use postage_rs.Context.{Context}
use postage_rs.Sink.{PollSend, Sink}

pub record SinkLog (S A : Type 0) : Type 0 where
  pub sink : S
  pub log : List A

module _ {A : Type 0} where
  -- The log after a value that was accepted, where there is a message for it.
  abbrev pub written : Option A → List A → List A
  written none log = log
  written (some v) log = log ++ (v ∷ [])

module _ {S A : Type 0} where
  -- The arms of the match.
  unfoldable pub logged : Option A → PollSend A → SinkLog S A → PollSend A × SinkLog S A
  logged debug_repr PollSend.ready s = (PollSend.ready, record s { log = written debug_repr s.log })
  logged debug_repr (PollSend.pending v) s = (PollSend.pending v, s)
  logged debug_repr (PollSend.rejected v) s = (PollSend.rejected v, s)

module _ {S A W : Type 0} (sink : Sink S A W) (enabled : Bool) where
  unfoldable pub poll_send : Context W → A → SinkLog S A → PollSend A × SinkLog S A
  unfolding logged
  poll_send cx value s =
      let debug_repr = if enabled then some value else none in
      let (polled, inner) = sink.poll_send cx value s.sink in
      logged debug_repr polled (record s { sink = inner })
