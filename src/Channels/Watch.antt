-- ===== src/Channels/Watch.antt =====
-- src/channels/watch.rs: the latest state, for receivers that may miss the states between.
pub mod Latest
pub mod Race
pub mod Wakeup
use postage_rs.Prelude.{ℕ, ◌+◌, ◌%◌, refl, Option, ltb, if◌then◌else◌}
use postage_rs.Context.{Context}
use postage_rs.Queues.{SegQueue}
use postage_rs.Concurrent.{M, Ref, ◌▸◌, pure, ◌>>=◌, ◌>>◌}
use postage_rs.Concurrent.Atomic.{Result, ok, err, load, access, fetch_add, usize_mod}
use postage_rs.Concurrent.Loop.{Control, continue, break, retry}
use postage_rs.Stream.{PollRecv, Poll}
use postage_rs.Sink.{PollSend, SendError}
use postage_rs.Sync.Notifier.{NotificationGuard}
use postage_rs.Sync.Shared
use postage_rs.Sync.Shared.{Shared, extension_field}
use postage_rs.Sync.SenderShared
use postage_rs.Sync.ReceiverShared

-- `value` is under a read-write lock, and so is every change of `generation`: what a thread does
-- while it holds the lock is a single access here.
pub record StateExtension (T : Type 0) : Type 0 where
  pub generation : ℕ
  pub value : T

abbrev pub Channel : Type 0 → Type 0 → Type 0 → Type 0
Channel Q W T = Shared Q W (StateExtension T)

abbrev pub generation_field : {T : Type 0} → Ref (StateExtension T) ℕ
generation_field = record {
  get = λ x. x.generation;
  put = λ g x. record x { generation = g };
  get-put = λ g x. refl;
  put-get = λ x. refl;
  put-put = λ g y x. refl;
}

pub data TryRecv (T : Type 0) : Type 0 where
  pending : TryRecv T
  ready : T → TryRecv T

-- What `push` does under the lock.
unfoldable pub pushed : {T : Type 0} → T → StateExtension T → Unit {0} × StateExtension T
pushed v x = (tt, record { generation = (x.generation + 1) % usize_mod; value = v })

module _ {Q W T : Type 0} where
  unfoldable pub push : T → M (Channel Q W T) (Unit {0})
  unfolding pushed
  push v = access extension_field (pushed v)

  unfoldable pub increment : M (Channel Q W T) (Unit {0})
  increment = do fetch_add (extension_field ▸ generation_field) 1; pure tt

  unfoldable pub generation : M (Channel Q W T) ℕ
  generation = load (extension_field ▸ generation_field)

  -- The lock is held from the read of the value to its copy, so value and generation are read
  -- together. The result is the value and the receiver's next generation.
  unfoldable pub read_value : M (Channel Q W T) (TryRecv T × ℕ)
  read_value = do
    borrow ← load extension_field
    pure (ready borrow.value, (borrow.generation + 1) % usize_mod)

  -- The receiver's own generation goes in and comes out.
  unfoldable pub try_recv_internal : ℕ → M (Channel Q W T) (TryRecv T × ℕ)
  unfolding generation read_value
  try_recv_internal own = do
    stored ← generation
    if ltb stored own then pure (pending, own) else read_value

module _ {Q W T : Type 0} ⦃sq : SegQueue Q W⦄ where
  -- The receiver of a new channel starts with generation 0, as `subscribe` and `clone` have it too.
  unfoldable pub channel_with : T → Channel Q W T × ℕ
  unfolding Shared.new
  channel_with v = (Shared.new (record { generation = 0; value = v }), 0)

  -- `channel`, where `initial` is `T::default()`.
  unfoldable pub channel : T → Channel Q W T × ℕ
  unfolding channel_with
  channel initial = channel_with initial

  unfoldable pub poll_send : Context W → T → M (Channel Q W T) (PollSend T)
  unfolding push
  poll_send cx value = do
    closed ← SenderShared.is_closed
    if closed
        then pure (PollSend.rejected value)
        else do push value; SenderShared.notify_receivers; pure PollSend.ready

  -- A borrow from `borrow_mut` to its drop, in which the caller applies `change` to the value. The
  -- lock is held until the generation is up; the borrow holds a clone of the sender's handle.
  unfoldable pub borrow_mut : (T → T) → M (Channel Q W T) (Unit {0})
  unfolding pushed
  borrow_mut change = do
    SenderShared.clone
    access extension_field (λ x. pushed (change x.value) x)
    SenderShared.notify_receivers
    SenderShared.drop

  unfoldable pub borrow : M (Channel Q W T) T
  borrow = do x ← load extension_field; pure x.value

  unfoldable pub subscribe : M (Channel Q W T) ℕ
  subscribe = SenderShared.clone_receiver >> pure 0

  unfoldable pub clone_receiver : M (Channel Q W T) ℕ
  clone_receiver = ReceiverShared.clone >> pure 0

  -- The end of a round that has found no new value and the channel open.
  unfoldable pub recv_wait :
      Context W → NotificationGuard → ℕ → M (Channel Q W T) (Control ℕ (PollRecv T × ℕ))
  unfolding ReceiverShared.subscribe_send ReceiverShared.guard_is_expired
  recv_wait cx guard own = do
    ReceiverShared.subscribe_send cx
    expired ← ReceiverShared.guard_is_expired guard
    pure (if expired then continue own else break (PollRecv.pending, own))

  -- The arms of the match.
  unfoldable pub recv_tried :
      Context W → NotificationGuard → TryRecv T × ℕ → M (Channel Q W T) (Control ℕ (PollRecv T × ℕ))
  unfolding ReceiverShared.is_closed recv_wait
  recv_tried cx guard (ready v, own) = pure (break (PollRecv.ready v, own))
  recv_tried cx guard (pending, own) = do
    closed ← ReceiverShared.is_closed
    if closed then pure (break (PollRecv.closed, own)) else recv_wait cx guard own

  unfoldable pub poll_recv_round : Context W → ℕ → M (Channel Q W T) (Control ℕ (PollRecv T × ℕ))
  unfolding ReceiverShared.send_guard try_recv_internal recv_tried
  poll_recv_round cx own = do
    guard ← ReceiverShared.send_guard
    tried ← try_recv_internal own
    recv_tried cx guard tried

  unfoldable pub poll_recv : Context W → ℕ → M (Channel Q W T) (Option (PollRecv T × ℕ))
  unfolding poll_recv_round
  poll_recv cx own = retry (poll_recv_round cx) own

  unfoldable pub drop_sender : M (Channel Q W T) (Unit {0})
  drop_sender = SenderShared.drop

  unfoldable pub drop_receiver : M (Channel Q W T) (Unit {0})
  drop_receiver = ReceiverShared.drop

  -- The `futures::Sink` of the sender, which is always ready.
  unfoldable pub poll_ready : Context W → M (Channel Q W T) (Poll (Result (Unit {0}) (SendError T)))
  poll_ready cx = pure (Poll.ready (ok tt))

  unfoldable pub start_send : T → M (Channel Q W T) (Result (Unit {0}) (SendError T))
  unfolding push
  start_send item = do
    closed ← SenderShared.is_closed
    if closed
        then pure (err (record { value = item }))
        else do push item; SenderShared.notify_receivers; pure (ok tt)
