-- ===== src/Sink.antt =====
-- src/sink.rs, src/sink/errors.rs: sinks, and what is made of a poll.
pub mod Targets
pub mod ChainSink
pub mod FilterSink
pub mod SinkLog
use postage_rs.Prelude.{◌≡◌, Option, none, some}
use postage_rs.Context.{Context, empty}
use postage_rs.Concurrent.Atomic.{Result, ok, err}
use postage_rs.Stream.{Poll}

pub data PollSend (A : Type 0) : Type 0 where
  ready : PollSend A
  pending : A → PollSend A
  rejected : A → PollSend A

pub data TrySendError (A : Type 0) : Type 0 where
  pending : A → TrySendError A
  rejected : A → TrySendError A

pub record SendError (A : Type 0) : Type 0 where
  pub value : A

-- A sink with state `S`, of items `A`, in tasks with wakers `W`.
pub record Sink (S A W : Type 0) : Type 0 where
  pub poll_send : Context W → A → S → PollSend A × S

-- `SendFuture`, with the state of the sink that it borrows.
pub record SendFuture (S A : Type 0) : Type 0 where
  pub send : S
  pub value : Option A

unfoldable pub to_result : {A : Type 0} → PollSend A → Result (Unit {0}) (TrySendError A)
to_result PollSend.ready = ok tt
to_result (PollSend.pending v) = err (TrySendError.pending v)
to_result (PollSend.rejected v) = err (TrySendError.rejected v)

-- The result of `SendFuture::poll`, and the value that it keeps, from the result of the poll.
unfoldable pub to_future :
    {A : Type 0} → PollSend A → Poll (Result (Unit {0}) (SendError A)) × Option A
to_future PollSend.ready = (Poll.ready (ok tt), none)
to_future (PollSend.pending v) = (Poll.pending, some v)
to_future (PollSend.rejected v) = (Poll.ready (err (record { value = v })), none)

module _ {S A W : Type 0} (sink : Sink S A W) where
  unfoldable pub try_send : A → S → Result (Unit {0}) (TrySendError A) × S
  unfolding to_result
  try_send v s = let (polled, s') = sink.poll_send empty v s in (to_result polled, s')

  unfoldable pub poll_value :
      Context W → Option A → S → Poll (Result (Unit {0}) (SendError A)) × SendFuture S A
  unfolding to_future
  poll_value cx none s = (Poll.ready (ok tt), record { send = s; value = none })
  poll_value cx (some v) s =
      let (polled, s') = sink.poll_send cx v s in
      let (out, kept) = to_future polled in (out, record { send = s'; value = kept })

  -- `SendFuture::poll`
  unfoldable pub send_future :
      Context W → SendFuture S A → Poll (Result (Unit {0}) (SendError A)) × SendFuture S A
  unfolding poll_value
  send_future cx f = poll_value cx f.value f.send

-- What a poll hands back is the value that was to be sent.
abbrev pub HandsBack : {A : Type 0} → A → PollSend A → Type 0
HandsBack v PollSend.ready = Unit
HandsBack v (PollSend.pending v') = v' ≡ v
HandsBack v (PollSend.rejected v') = v' ≡ v
