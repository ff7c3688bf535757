-- ===== src/Context.antt =====
-- src/context.rs: the context of an asynchronous task, with a waker or without one.
use postage_rs.Prelude.{Option, none, some}

pub record Context (W : Type 0) : Type 0 where
  pub waker : Option W

-- A poll that registers no waker, as `try_send` and `try_recv` make it.
abbrev pub empty : {W : Type 0} → Context W
empty = record { waker = none }

abbrev pub from_waker : {W : Type 0} → W → Context W
from_waker w = record { waker = some w }
