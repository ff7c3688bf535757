-- ===== src/Sync/Transfer.antt =====
-- src/sync/transfer.rs: a value on its way from one sender to one receiver.
mod Total
pub mod Recv
pub mod Wakeup
use postage_rs.Prelude.{refl, Option, none, some, if◌then◌else◌}
use postage_rs.Context.{Context}
use postage_rs.Queues.{SegQueue}
use postage_rs.Concurrent.{M, Ref, pure, ◌>>=◌, ◌>>◌}
use postage_rs.Concurrent.Atomic.{Result, ok, err, load, store}
use postage_rs.Concurrent.Loop.{Control, continue, break, retry}
use postage_rs.Stream.{PollRecv}
use postage_rs.Sync.Notifier
use postage_rs.Sync.Notifier.{Notifier, NotificationGuard}
use postage_rs.Sync.OneshotCell
use postage_rs.Sync.OneshotCell.{OneshotCell, TryRecvError}

pub data State : Type 0 where
  alive dead : State

pub record Transfer (Q W T : Type 0) : Type 0 where
  pub sender : State
  pub receiver : State
  pub value : OneshotCell T
  pub notify_rx : Notifier Q W

module _ {Q W T : Type 0} where
  abbrev pub sender_field : Ref (Transfer Q W T) State
  sender_field = record {
    get = λ t. t.sender;
    put = λ x t. record t { sender = x };
    get-put = λ x t. refl;
    put-get = λ t. refl;
    put-put = λ x y t. refl;
  }

  abbrev pub receiver_field : Ref (Transfer Q W T) State
  receiver_field = record {
    get = λ t. t.receiver;
    put = λ x t. record t { receiver = x };
    get-put = λ x t. refl;
    put-get = λ t. refl;
    put-put = λ x y t. refl;
  }

  abbrev pub value_field : Ref (Transfer Q W T) (OneshotCell T)
  value_field = record {
    get = λ t. t.value;
    put = λ x t. record t { value = x };
    get-put = λ x t. refl;
    put-get = λ t. refl;
    put-put = λ x y t. refl;
  }

  abbrev pub notify_rx_field : Ref (Transfer Q W T) (Notifier Q W)
  notify_rx_field = record {
    get = λ t. t.notify_rx;
    put = λ x t. record t { notify_rx = x };
    get-put = λ x t. refl;
    put-get = λ t. refl;
    put-put = λ x y t. refl;
  }

module _ {T : Type 0} where
  -- What is made of the second `try_recv`; `none` is a panic.
  unfoldable pub last_received : Option (Result T TryRecvError) → Option (PollRecv T)
  last_received none = none
  last_received (some (ok v)) = some (PollRecv.ready v)
  last_received (some (err _)) = some PollRecv.closed

module _ {Q W T : Type 0} ⦃sq : SegQueue Q W⦄ where
  unfoldable pub new : Transfer Q W T
  unfolding OneshotCell.new Notifier.new
  new = record {
    sender = alive;
    receiver = alive;
    value = OneshotCell.new;
    notify_rx = Notifier.new;
  }

  unfoldable pub send : T → M (Transfer Q W T) (Result (Unit {0}) T)
  send value = do
    receiver ← load receiver_field
    elim receiver [
      | dead ↦ pure (err value)
      | alive ↦ do
        sent ← OneshotCell.send value_field value
        elim sent [ err v ↦ pure (err v) | ok _ ↦ Notifier.notify notify_rx_field >> pure (ok tt) ]
    ]

  -- The rest of a round that has found no value, from the state of the sender.
  unfoldable pub recv_without :
      Context W
      → NotificationGuard
      → State
      → M (Transfer Q W T) (Control (Unit {0}) (Option (PollRecv T)))
  unfolding last_received
  recv_without cx guard dead = do
    got ← OneshotCell.try_recv value_field
    pure (break (last_received got))
  recv_without cx guard alive = do
    Notifier.subscribe notify_rx_field cx
    expired ← Notifier.is_expired notify_rx_field guard
    pure (if expired then continue tt else break (some PollRecv.pending))

  -- The arms of the match on the first `try_recv`.
  unfoldable pub recv_tried :
      Context W
      → NotificationGuard
      → Option (Result T TryRecvError)
      → M (Transfer Q W T) (Control (Unit {0}) (Option (PollRecv T)))
  unfolding recv_without
  recv_tried cx guard none = pure (break none)
  recv_tried cx guard (some (ok v)) = pure (break (some (PollRecv.ready v)))
  recv_tried cx guard (some (err TryRecvError.closed)) = pure (break (some PollRecv.closed))
  recv_tried cx guard (some (err TryRecvError.pending)) = do
    sender ← load sender_field
    recv_without cx guard sender

  -- A round of `recv`; to break with `none` is a panic.
  unfoldable pub recv_round :
      Context W → Unit {0} → M (Transfer Q W T) (Control (Unit {0}) (Option (PollRecv T)))
  unfolding recv_tried
  recv_round cx _ = do
    guard ← Notifier.guard notify_rx_field
    got ← OneshotCell.try_recv value_field
    recv_tried cx guard got

  unfoldable pub recv : Context W → M (Transfer Q W T) (Option (Option (PollRecv T)))
  unfolding recv_round
  recv cx = retry (recv_round cx) tt

  unfoldable pub sender_disconnect : M (Transfer Q W T) (Unit {0})
  sender_disconnect = do store sender_field dead; Notifier.notify notify_rx_field

  unfoldable pub receiver_disconnect : M (Transfer Q W T) (Unit {0})
  receiver_disconnect = store receiver_field dead
