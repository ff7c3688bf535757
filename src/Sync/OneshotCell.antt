-- ===== src/Sync/OneshotCell.antt =====
-- src/sync/oneshot_cell.rs: a cell that is written once and taken once.
use postage_rs.Prelude.{◌≡◌, ◌↔◌, Bool, true, false, Option, none, some, arith}
use postage_rs.Concurrent.{M, Ref, pure, ◌>>=◌}
use postage_rs.Concurrent.Atomic.{Word, Result, ok, err}
use postage_rs.Sync.StateCell
use postage_rs.Sync.StateCell.{StateCell}

pub data State : Type 0 where
  none_yet writing ready taken : State

pub data TryRecvError : Type 0 where
  pending closed : TryRecvError

abbrev pub State-beq : State → State → Bool
State-beq none_yet none_yet = true
State-beq writing writing = true
State-beq ready ready = true
State-beq taken taken = true
State-beq _ _ = false

pub State-beq_iff : (a b : State) → (State-beq a b ≡ true) ↔ (a ≡ b)
State-beq_iff a b = ground arith

instance abbrev pub state_word : Word State
state_word = record { beq = State-beq; beq_iff = State-beq_iff }

abbrev pub OneshotCell : Type 0 → Type 0
OneshotCell T = StateCell State T

unfoldable pub new : {T : Type 0} → OneshotCell T
unfolding StateCell.new
new = StateCell.new none_yet

-- What the code makes of the state at which `compare_take` failed; `none` is `unreachable!`.
unfoldable pub to_error : State → Option TryRecvError
to_error none_yet = some pending
to_error writing = some pending
to_error ready = none
to_error taken = some closed

module _ {T : Type 0} where
  unfoldable pub failed : Option TryRecvError → Option (Result T TryRecvError)
  failed none = none
  failed (some e) = some (err e)

  -- The arms of the match of `try_recv`; `none` is a panic.
  unfoldable pub received : Result (Option T) State → Option (Result T TryRecvError)
  unfolding to_error failed
  received (ok none) = none
  received (ok (some v)) = some (ok v)
  received (err s) = failed (to_error s)

module _ {S T : Type 0} (self : Ref S (OneshotCell T)) where
  unfoldable pub send : T → M S (Result (Unit {0}) T)
  send value = do
    stored ← StateCell.compare_store self none_yet writing value ready
    elim stored [ ok _ ↦ pure (ok tt) | err (_, v) ↦ pure (err v) ]

  -- `none` is a panic.
  unfoldable pub try_recv : M S (Option (Result T TryRecvError))
  unfolding received
  try_recv = do got ← StateCell.compare_take self ready taken; pure (received got)
