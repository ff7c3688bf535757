-- ===== src/Channels/Dispatch/Schedules.antt =====
-- The handlers of the dispatch channel under every schedule of the other threads.
use postage_rs.Prelude.{◌≡◌, refl, sym, ◌∙◌, inl, inr, some, [], ◌∷◌, arith}
use mathlib.Core.Path.{subst}
use postage_rs.Context.{Context}
use postage_rs.Queues.{SegQueue, ArrayQueue}
use postage_rs.Concurrent.{M, Env}
use postage_rs.Concurrent.Atomic.{err}
use postage_rs.Concurrent.Loop.{Control, continue, break, retry}
use postage_rs.Concurrent.Progress.{Accesses, Breaks, retry_total}
use postage_rs.Concurrent.Rely.{After, Returned, Triple-retry, Anything, Relies-any}
use postage_rs.Stream.{PollRecv}
use postage_rs.Sink.{PollSend, HandsBack}
use postage_rs.Sync.SenderShared
use postage_rs.Sync.ReceiverShared
use postage_rs.Sync.Advances.{notify-Accesses}
use postage_rs.Channels.Dispatch.{
  Channel, poll_send, poll_send_round, poll_recv, poll_recv_round, recv_wait, send_wait,
}
use postage_rs.Channels.Dispatch.Refine.{poll_send_round-gives, poll_recv_round-gives, room_or_full}

module _ {Q W AQ T : Type 0} ⦃sq : SegQueue Q W⦄ ⦃aq : ArrayQueue AQ T⦄ (cx : Context W) where
  abbrev send_round : T → M (Channel Q W AQ) (Control T (PollSend T))
  send_round = poll_send_round cx

  send_round-Accesses : (v : T) → Accesses (send_round v)
  unfolding poll_send_round send_wait SenderShared.notify_receivers
  send_round-Accesses v [] s = grind (arith, notify-Accesses)
  send_round-Accesses v (a ∷ []) s = grind (arith, notify-Accesses)
  send_round-Accesses v (a ∷ b ∷ []) s = grind (arith, notify-Accesses)
  send_round-Accesses v (a ∷ b ∷ c ∷ []) s = grind (arith, notify-Accesses)
  send_round-Accesses v (a ∷ b ∷ c ∷ d ∷ []) s = grind (arith, notify-Accesses)
  send_round-Accesses v (a ∷ b ∷ c ∷ d ∷ e ∷ es) s = grind (arith, notify-Accesses)

  send_round-Breaks : (v : T) (s : Channel Q W AQ) → Breaks send_round (send_round v [] s).0
  send_round-Breaks v s = subst (Breaks send_round) (sym (poll_send_round-gives cx v s).0) tt

module _ {Q W AQ : Type 0} (T : Type 0) ⦃sq : SegQueue Q W⦄ ⦃aq : ArrayQueue AQ T⦄
    (cx : Context W) where
  abbrev recv_round : Unit {0} → M (Channel Q W AQ) (Control (Unit {0}) (PollRecv T))
  recv_round = poll_recv_round cx

  recv_round-Accesses : (u : Unit {0}) → Accesses (recv_round u)
  unfolding poll_recv_round recv_wait ReceiverShared.notify_senders
  recv_round-Accesses u [] s = grind (arith, notify-Accesses)
  recv_round-Accesses u (a ∷ []) s = grind (arith, notify-Accesses)
  recv_round-Accesses u (a ∷ b ∷ []) s = grind (arith, notify-Accesses)
  recv_round-Accesses u (a ∷ b ∷ c ∷ []) s = grind (arith, notify-Accesses)
  recv_round-Accesses u (a ∷ b ∷ c ∷ d ∷ []) s = grind (arith, notify-Accesses)
  recv_round-Accesses u (a ∷ b ∷ c ∷ d ∷ e ∷ es) s = grind (arith, notify-Accesses)

  recv_round-Breaks : (u : Unit {0}) (s : Channel Q W AQ) → Breaks recv_round (recv_round u [] s).0
  recv_round-Breaks u s =
      subst (Breaks recv_round)
        (sym (poll_recv_round-gives cx s (aq.contents s.extension.queue) refl).0) tt

module _ {AQ T : Type 0} ⦃aq : ArrayQueue AQ T⦄ where
  push-err : (v v' : T) (q : AQ) → (aq.push v q).0 ≡ err v' → v' ≡ v
  push-err v v' q e = elim (room_or_full T q) [
    | inl room ↦ ground (arith, aq.push_room v q)
    | inr full ↦ ground (arith, aq.push_full v q)
  ]

-- The value that a round carries on or hands back is the one that it was given.
abbrev CarriesOn : {T : Type 0} → T → Control T (PollSend T) → Type 0
CarriesOn v (continue v') = v' ≡ v
CarriesOn v (break r) = HandsBack v r

module _ {Q W AQ T : Type 0} ⦃sq : SegQueue Q W⦄ ⦃aq : ArrayQueue AQ T⦄ (cx : Context W) where
  send_round-CarriesOn :
      (v : T) (es : Env (Channel Q W AQ)) (s : Channel Q W AQ)
      → CarriesOn v (poll_send_round cx v es s).0
  unfolding poll_send_round send_wait
  send_round-CarriesOn v [] s = grind (arith, push-err)
  send_round-CarriesOn v (a ∷ []) s = grind (arith, push-err)
  send_round-CarriesOn v (a ∷ b ∷ []) s = grind (arith, push-err)
  send_round-CarriesOn v (a ∷ b ∷ c ∷ []) s = grind (arith, push-err)
  send_round-CarriesOn v (a ∷ b ∷ c ∷ d ∷ []) s = grind (arith, push-err)
  send_round-CarriesOn v (a ∷ b ∷ c ∷ d ∷ e ∷ es) s = grind (arith, push-err)

module _ {T : Type 0} (v : T) where
  -- A value carried from round to round stays the same.
  carries : (l : T) → l ≡ v → (c : Control T (PollSend T)) → CarriesOn l c → CarriesOn v c
  carries l e (continue l') h = h ∙ e
  carries l e (break PollSend.ready) h = tt
  carries l e (break (PollSend.pending v')) h = h ∙ e
  carries l e (break (PollSend.rejected v')) h = h ∙ e

  After-CarriesOn :
      {S : Type 0} (s : S) (c : Control T (PollSend T))
      → CarriesOn v c
      → After {S = S} (λ l _. l ≡ v) (λ r _. HandsBack v r) c s
  After-CarriesOn s (continue l) h = h
  After-CarriesOn s (break r) h = h

module _ {Q W AQ T : Type 0} ⦃sq : SegQueue Q W⦄ ⦃aq : ArrayQueue AQ T⦄ (cx : Context W) where
  -- However the other threads interfere, `poll_send` returns, and a value that it does not send it
  -- hands back unchanged.
  pub dispatch_poll_send_returns :
      (v : T) (es : Env (Channel Q W AQ)) (s : Channel Q W AQ)
      → (r : PollSend T) × ((poll_send cx v es s).0 ≡ some r) × HandsBack v r
  unfolding poll_send
  dispatch_poll_send_returns v es s =
      let (r, e) =
        retry_total (poll_send_round cx) (send_round-Accesses cx) (send_round-Breaks cx) v es s in
      (
        r,
        e,
        subst
            (λ o.
              Returned {S = Channel Q W AQ} (λ x _. HandsBack v x) o
                (retry (poll_send_round cx) v es s).1)
            e kept,
      )
    where
      kept :
          Returned {S = Channel Q W AQ}
            (λ x _. HandsBack v x)
            (retry (poll_send_round cx) v es s).0
            (retry (poll_send_round cx) v es s).1
      kept =
          (Triple-retry Anything (poll_send_round cx) (λ l _. l ≡ v) (λ x _. HandsBack v x)
            (λ l es' s' r' e'. (
              After-CarriesOn v _ _ (carries v l e' _ (send_round-CarriesOn cx l es' s')),
              Relies-any _,
            ))
            v es s (Relies-any es) refl).0

module _ {Q W AQ : Type 0} (T : Type 0) ⦃sq : SegQueue Q W⦄ ⦃aq : ArrayQueue AQ T⦄
    (cx : Context W) where
  -- However the other threads interfere, `poll_recv` returns.
  pub dispatch_poll_recv_returns :
      (es : Env (Channel Q W AQ)) (s : Channel Q W AQ)
      → (r : PollRecv T) × ((poll_recv cx es s).0 ≡ some r)
  unfolding poll_recv
  dispatch_poll_recv_returns es s =
      retry_total (recv_round T cx) (recv_round-Accesses T cx) (recv_round-Breaks T cx) tt es s
