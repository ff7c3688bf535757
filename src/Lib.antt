-- ===== src/Lib.antt =====
-- A verification library for postage: channels for asynchronous code, and the traits and combinators
-- of streams and sinks.
--
-- The program. src/sync.rs and src/sync/ hold the objects that the channels share: a count of the
-- handles of each half, a notifier that keeps the wakers of the tasks that wait, cells for a single
-- value, and the circular buffer. src/channels/ builds six channels of them. Each half of a channel
-- is a handle of the shared state: `poll_send` and `poll_recv` look at the state, register the waker
-- of the task when there is nothing to do, and look once more at a count of events, so that an event
-- in between is not missed. src/stream/ and src/sink/ combine streams and sinks, one poll at a time.
--
-- Concurrency. A program is a sequence of atomic accesses to a state: `Concurrent` has the monad `M`,
-- whose argument is a schedule, a list that says what the other threads do to the state before each
-- access to come. A schedule is arbitrary, so a theorem over all schedules is one over all
-- interleavings of the atomic accesses; the empty schedule is an undisturbed run. Accesses are
-- sequentially consistent, whatever ordering the code gives them; weaker orderings are not modelled.
-- What a thread does under a lock is one access in `Channels.Watch`; in `Sync.MpmcCircularBuffer` it is
-- several, and what the lock forbids to others is for the schedule to respect. `Concurrent.Ref`
-- refers to an object inside the state, as `&self` does. `Concurrent.Progress` shows that loops end,
-- `Concurrent.Rely` what they leave when the other threads keep to a relation. In a schedule that is
-- `Fair` (`Concurrent.Fair`) whoever makes the event happen that a task waits for counts a notification
-- and runs the wake loop afterwards, in the schedule or in what is left of it after the poll; the wake
-- loop is one step of it. `Concurrent.Served` treats the loops of a task that waits, and
-- `Sync.Notifier.Steps` shows that a whole `notify` is such a step.
--
-- Loops and fuel. A `loop` of the code is `retry`, with one round more than the schedule is long. A
-- round of these loops continues only after another thread has interfered in it, so that is enough.
-- The writer's loop of the circular buffer is the exception: it spins while another writer has taken
-- the slot at the head and has not moved the head yet, and `none` is then a possible result. The wake
-- loop of `notify` goes on along the schedule, an access a round, until it finds the queue empty; when
-- the schedule is used up it has a round for each waker that is left, and one more. `FilterStream` and `FindStream` take their number of rounds as an argument,
-- since a source may give items that do not pass for ever. A handler's result is an `Option`, where
-- `none` says that the rounds ran out; for `Transfer` and `Channels.Broadcast` an inner `none` is a
-- panic.
--
-- Files, and the code that they model:
--   Context: src/context.rs. Stream, Sink: src/stream.rs, src/sink.rs and their errors.
--   Stream.MapStream, FilterStream, FindStream, ChainStream, MergeStream, OnceStream, RepeatStream,
--     StreamLog: the file of that name in src/stream/. Sink.ChainSink, FilterSink, SinkLog: the same in
--     src/sink/. Stream.Sources, Sink.Targets: src/test/stream.rs, src/test/sink.rs.
--   Sync.RefCount, Notifier, StateCell, OneshotCell, Transfer, MpmcCircularBuffer: the file of that name
--     in src/sync/. Sync.Shared, SenderShared, ReceiverShared: src/sync.rs.
--   Channels.Mpsc, Dispatch, Oneshot, Barrier, Watch, Broadcast: the file of that name in src/channels/.
--   Channels.BoundedQueue: what mpsc and dispatch promise; Channels.QueueChannel: what follows for
--     sequences of calls on a channel that refines it.
--   Channels.Broadcast.Log: what broadcast promises, a log with one position per receiver. Run plays a
--     sequence of calls on a channel and its receivers; Shows relates the buffer to the log; Sends,
--     Receives, Counts and Handles treat the calls one by one, and Refine puts them together.
--   Sync.MpmcCircularBuffer.Alone, Invariant, Maintenance, Writing, Reading, Readers: the buffer and
--     its slots, undisturbed, one operation at a time.
--   Futures: the streams of src/futures.rs. The sinks of that crate are in the channels.
--   UnitTests.Messages: src/test/test_messages.rs.
--   UnitTests: the tests of the modules `tests` of src/channels/ and of src/futures.rs, as lists of
--     calls and expected replies, each with a check that the model gives the replies.
--   Queues: the queues of crossbeam that the code uses, as interfaces with their documented behaviour.
--   Prelude: names and lemmas that all share. Tests: concrete instances and examples.
--
-- Names are those of the code. `State::None` of the oneshot cell is `none_yet`; a match on a result is a
-- function by clauses of its own beside the handler, as `send_pushed` beside `poll_send`. A clone of a
-- value is the value. The `wake` of a waker is recorded in `woken` of the notifier.
--
-- Not modelled: weak memory, pinning, the `blocking_` functions, the tests that spawn tasks on tokio
-- and async-std, debug output, the text that is logged, the derived traits, benches and examples. A
-- log is the list of the values that were logged. `poll_flush` and `poll_close` of the sinks do nothing.
pub mod Prelude
pub mod Concurrent
pub mod Queues
pub mod Context
pub mod Sync
pub mod Stream
pub mod Sink
pub mod Channels
pub mod Futures
mod Tests
mod UnitTests
