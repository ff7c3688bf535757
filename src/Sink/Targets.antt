-- ===== src/Sink/Targets.antt =====
-- src/test/sink.rs: the sinks that the unit tests send to. An iterator is the list of what it has left.
use postage_rs.Prelude.{List, [], ◌∷◌, ◌++◌}
use postage_rs.Sink.{PollSend, Sink}

pub record TestSink (A : Type 0) : Type 0 where
  pub iter : List (PollSend A)
  pub values : List A

module _ {A : Type 0} where
  unfoldable pub new : List (PollSend A) → TestSink A
  new polls = record { iter = polls; values = [] }

  -- The value is kept when the poll to come is `Ready`.
  abbrev pub saved : PollSend A → A → List A → List A
  saved PollSend.ready v vs = vs ++ (v ∷ [])
  saved (PollSend.pending _) v vs = vs
  saved (PollSend.rejected _) v vs = vs

  unfoldable pub next_send : List (PollSend A) → A → List A → PollSend A × TestSink A
  next_send [] v vs = (PollSend.rejected v, record { iter = []; values = vs })
  next_send (p ∷ ps) v vs = (p, record { iter = ps; values = saved p v vs })

module _ {A W : Type 0} where
  abbrev pub test_sink : Sink (TestSink A) A W
  test_sink = record { poll_send = λ cx v s. next_send s.iter v s.values }

  -- `ReadySink`, `PendingSink` and `RejectedSink` have no state.
  abbrev pub ready_sink : Sink (Unit {0}) A W
  ready_sink = record { poll_send = λ cx v s. (PollSend.ready, s) }

  abbrev pub pending_sink : Sink (Unit {0}) A W
  pending_sink = record { poll_send = λ cx v s. (PollSend.pending v, s) }

  abbrev pub rejected_sink : Sink (Unit {0}) A W
  rejected_sink = record { poll_send = λ cx v s. (PollSend.rejected v, s) }
