-- ===== src/Sync/Transfer/Total.antt =====
-- The receive loop of a transfer, whatever the schedule.
use postage_rs.Prelude.{◌≡◌, Option, some, [], ◌∷◌, arith}
use postage_rs.Context.{Context}
use postage_rs.Queues.{SegQueue}
use postage_rs.Concurrent.{M, Env}
use postage_rs.Concurrent.Loop.{Control}
use postage_rs.Concurrent.Progress.{Accesses, Breaks, retry_total}
use postage_rs.Stream.{PollRecv}
use postage_rs.Sync.Notifier
use postage_rs.Sync.StateCell
use postage_rs.Sync.OneshotCell
use postage_rs.Sync.Transfer.{Transfer, recv_round, recv}

module _ {Q W T : Type 0} ⦃sq : SegQueue Q W⦄ (cx : Context W) where
  abbrev a_round : Unit {0} → M (Transfer Q W T) (Control (Unit {0}) (Option (PollRecv T)))
  a_round = recv_round cx

  recv_round-Accesses : (u : Unit {0}) → Accesses (a_round u)
  unfolding recv_round OneshotCell.try_recv StateCell.compare_take StateCell.take_exchanged
      Notifier.guard Notifier.is_expired Notifier.subscribe
  recv_round-Accesses u [] s = ground arith
  recv_round-Accesses u (a ∷ []) s = ground arith
  recv_round-Accesses u (a ∷ b ∷ []) s = ground arith
  recv_round-Accesses u (a ∷ b ∷ c ∷ []) s = ground arith
  recv_round-Accesses u (a ∷ b ∷ c ∷ d ∷ []) s = ground arith
  recv_round-Accesses u (a ∷ b ∷ c ∷ d ∷ e ∷ es) s = ground arith

  recv_round-Breaks : (u : Unit {0}) (s : Transfer Q W T) → Breaks a_round (a_round u [] s).0
  unfolding recv_round OneshotCell.try_recv StateCell.compare_take StateCell.take_exchanged
      Notifier.guard Notifier.is_expired Notifier.subscribe
  recv_round-Breaks u s = ground arith

  pub recv_total :
      (es : Env (Transfer Q W T)) (s : Transfer Q W T)
      → (p : Option (PollRecv T)) × ((recv cx es s).0 ≡ some p)
  unfolding recv
  recv_total es s = retry_total a_round recv_round-Accesses recv_round-Breaks tt es s
