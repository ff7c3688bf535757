-- ===== src/Sync/Transfer/Recv.antt =====
-- The receive loop of a transfer, whatever the sender does meanwhile.
use postage_rs.Prelude.{
  ◌≡◌, ◌≢◌, ◌⊎◌, inl, inr, refl, sym, ◌∙◌, ap, arith, Option, none, some, [], ◌∷◌, Bool, true,
  false, Bool-cases, if◌then◌else◌,
}
use mathlib.Core.Path.{subst}
use postage_rs.Context.{from_waker}
use postage_rs.Queues.{SegQueue}
use postage_rs.Concurrent.{M, Env, ◌▸◌, pure, ◌>>=◌}
use postage_rs.Concurrent.Atomic.{Result, ok, err, load, compare_exchange}
use postage_rs.Concurrent.Loop.{Control, continue, break}
use postage_rs.Concurrent.Rely.{
  Relies, Triple, After, Returned, Triple-atomic, Triple-bind, Triple-retry,
}
use postage_rs.Stream.{PollRecv}
use postage_rs.Sync.Notifier
use postage_rs.Sync.Notifier.{Notifier, NotificationGuard}
use postage_rs.Sync.Notifier.Waiting.{Known, Known-push}
use postage_rs.Sync.StateCell
use postage_rs.Sync.OneshotCell
use postage_rs.Sync.OneshotCell.{
  OneshotCell, State, none_yet, writing, ready, taken, TryRecvError, received, State-beq,
  State-beq_iff, state_word,
}
use postage_rs.Sync.Transfer.Total.{recv_total}
use postage_rs.Sync.Transfer.{
  State as TransferState, Transfer, alive, dead, value_field, sender_field, notify_rx_field,
  last_received, recv_without, recv_tried, recv_round, recv,
}

-- The cell has a value that was sent; `Offered` holds of the values that the sender sends.
abbrev pub HasValue : {T : Type 0} → (T → Type 0) → OneshotCell T → Type 0
HasValue {T} Offered c = (v : T) × (c.data_cell ≡ some v) × Offered v

-- `w` wakes the receiver's task.
module _ {Q W T : Type 0} ⦃sq : SegQueue Q W⦄ (Offered : T → Type 0) (w : W) where
  abbrev pub IsSound : Transfer Q W T → Type 0
  IsSound s = s.value.state ≡ ready → HasValue Offered s.value

  -- What the sender must respect: it marks the cell ready only with a value in it, it leaves a cell
  -- alone that was taken, it does nothing after its end, and it drops no waker unwoken.
  pub record IsAllowed (s t : Transfer Q W T) : Type 0 where
    pub keeps_sound : IsSound s → IsSound t
    pub keeps_taken : s.value.state ≡ taken → t.value ≡ s.value
    pub keeps_dead : s.sender ≡ dead → (t.sender ≡ dead) × (t.value ≡ s.value)
    pub keeps_known : Known w s.notify_rx → Known w t.notify_rx

  -- What the result of a poll says; `none` is a panic.
  abbrev pub Promise : Option (PollRecv T) → Transfer Q W T → Type 0
  Promise none s = ⊥
  Promise (some (PollRecv.ready v)) s = Offered v × (s.value.state ≡ taken)
  Promise (some PollRecv.pending) s = Known w s.notify_rx
  Promise (some PollRecv.closed) s =
      (s.value.state ≡ taken) ⊎ ((s.sender ≡ dead) × (s.value.state ≢ ready))

  -- What a receive on the cell says. `P` is what is known of the transfer beside it.
  Got : (Transfer Q W T → Type 0) → Option (Result T TryRecvError) → Transfer Q W T → Type 0
  Got P none s = ⊥
  Got P (some (ok v)) s = Offered v × (s.value.state ≡ taken)
  Got P (some (err TryRecvError.closed)) s = P s × (s.value.state ≡ taken)
  Got P (some (err TryRecvError.pending)) s = P s × IsSound s × (s.value.state ≢ ready)

  Exchanged : (Transfer Q W T → Type 0) → Result State State → Transfer Q W T → Type 0
  Exchanged P (ok _) s = HasValue Offered s.value × (s.value.state ≡ taken)
  Exchanged P (err st) s = P s × IsSound s × (s.value.state ≡ st) × (st ≢ ready)

  -- What is known of the transfer beside the cell, which other threads must keep.
  abbrev IsStable : (Transfer Q W T → Type 0) → Type 0
  IsStable P = (s t : Transfer Q W T) → IsAllowed s t → P s → P t

  abbrev exchange : M (Transfer Q W T) (Result State State)
  exchange = compare_exchange (value_field ▸ StateCell.state_field) ready taken

  exchanged : Transfer Q W T → Result State State × Transfer Q W T
  exchanged s =
      let (a, x) : Result State State × State =
        if State-beq s.value.state ready
        then (ok s.value.state, taken)
        else (err s.value.state, s.value.state) in
      (a, (value_field ▸ StateCell.state_field).put x s)

  exchange-Triple :
      (P : Transfer Q W T → Type 0)
      → IsStable P
      → Triple IsAllowed (λ s. P s × IsSound s) exchange (Exchanged P)
  unfolding Exchanged exchanged
  exchange-Triple P stable =
      Triple-atomic IsAllowed (λ s. P s × IsSound s) exchanged (Exchanged P)
        (λ s t a h. (stable s t a h.0, a.keeps_sound h.1))
        (λ s h. elim (Bool-cases (State-beq s.value.state ready)) [
          | inl e ↦ rw e (h.1 ((State-beq_iff s.value.state ready).0 e), refl)
          | inr e ↦ rw e (h.0, h.1, refl, λ q. ground arith)
        ])

  taken_value-Got :
      (P : Transfer Q W T → Type 0) (x : Option T) (s : Transfer Q W T) (v : T)
      → x ≡ some v
      → Offered v
      → s.value.state ≡ taken
      → Got P (received (ok x)) s
  unfolding Got received
  taken_value-Got P x s v e o h = subst (λ y. Got P (received (ok y)) s) (sym e) (o, h)

  failed_exchange-Got :
      (P : Transfer Q W T → Type 0) (st : State) (s : Transfer Q W T)
      → Exchanged P (err st) s
      → Got P (received (err st)) s
  unfolding Exchanged Got received
  failed_exchange-Got P none_yet s h = (h.0, h.1, λ e. ground arith)
  failed_exchange-Got P writing s h = (h.0, h.1, λ e. ground arith)
  failed_exchange-Got P ready s h = absurd (h.3 refl)
  failed_exchange-Got P taken s h = (h.0, h.2)

  abbrev take_and_see : Result State State → M (Transfer Q W T) (Option (Result T TryRecvError))
  take_and_see got = StateCell.take_exchanged value_field got >>= λ x. pure (received x)

  take-Triple :
      (P : Transfer Q W T → Type 0) (got : Result State State)
      → Triple IsAllowed (Exchanged P got) (take_and_see got) (Got P)
  unfolding Exchanged StateCell.take_exchanged
  take-Triple P (err st) es s r h = (failed_exchange-Got P st s h, r)
  take-Triple P (ok _) [] s r (h, t) = (taken_value-Got P s.value.data_cell _ h.0 h.1 h.2 t, r)
  take-Triple P (ok _) (a ∷ es) s r (h, t) =
      let same = (r.0 s).keeps_taken t in
      (
        taken_value-Got P (a s).value.data_cell _ h.0 (ap (λ c. c.data_cell) same ∙ h.1) h.2
            (ap (λ c. c.state) same ∙ t),
        r.1,
      )

  try_recv-Triple :
      (P : Transfer Q W T → Type 0)
      → IsStable P
      → Triple IsAllowed (λ s. P s × IsSound s) (OneshotCell.try_recv value_field) (Got P)
  unfolding OneshotCell.try_recv StateCell.compare_take StateCell.take_exchanged
  try_recv-Triple P stable =
      Triple-bind IsAllowed (λ s. P s × IsSound s) exchange take_and_see (Exchanged P) (Got P)
        (exchange-Triple P stable) (take-Triple P)

  abbrev Unknown : Transfer Q W T → Type 0
  Unknown s = Unit

  abbrev HasNoSender : Transfer Q W T → Type 0
  HasNoSender s = s.sender ≡ dead

  -- What a round leaves: the loop goes on with a sound transfer, or it keeps its promise.
  abbrev Left : Control (Unit {0}) (Option (PollRecv T)) → Transfer Q W T → Type 0
  Left = After (λ _ s. IsSound s) Promise

  last-Left :
      (got : Option (Result T TryRecvError)) (s : Transfer Q W T)
      → Got HasNoSender got s
      → Promise (last_received got) s
  unfolding Got last_received
  last-Left none s h = h
  last-Left (some (ok v)) s h = h
  last-Left (some (err TryRecvError.pending)) s h = inr (h.0, h.2)
  last-Left (some (err TryRecvError.closed)) s h = inl h.1

  expired_case :
      (expired : Bool) (s : Transfer Q W T)
      → IsSound s × Known w s.notify_rx
      → Left (if expired then continue tt else break (some PollRecv.pending)) s
  expired_case true s h = h.0
  expired_case false s h = h.1

  -- What the load of the sender's state says.
  SeenDead : TransferState → Transfer Q W T → Type 0
  SeenDead st s = IsSound s × (st ≡ dead → s.sender ≡ dead)

  recv_without-Triple :
      (g : NotificationGuard) (st : TransferState)
      → Triple IsAllowed (SeenDead st) (recv_without (from_waker w) g st) Left
  unfolding recv_without SeenDead Notifier.subscribe Notifier.is_expired
  recv_without-Triple g dead es s r h =
      let (k, r') =
        try_recv-Triple HasNoSender (λ s t a q. (a.keeps_dead q).0) es s r (h.1 refl, h.0) in
      (last-Left _ _ k, r')
  recv_without-Triple g alive [] s r h = (expired_case _ _ (h.0, Known-push w s.notify_rx), r)
  recv_without-Triple g alive (a ∷ []) s r h =
      (expired_case _ _ ((r.0 s).keeps_sound h.0, Known-push w (a s).notify_rx), r.1)
  recv_without-Triple g alive (a ∷ b ∷ es) s r h = (
    expired_case _ _ (
      (r.1.0 _).keeps_sound ((r.0 s).keeps_sound h.0),
      (r.1.0 _).keeps_known (Known-push w (a s).notify_rx),
    ),
    r.1.1,
  )

  recv_tried-Triple :
      (g : NotificationGuard) (got : Option (Result T TryRecvError))
      → Triple IsAllowed (Got Unknown got) (recv_tried (from_waker w) g got) Left
  unfolding recv_tried Got SeenDead
  recv_tried-Triple g none es s r h = (h, r)
  recv_tried-Triple g (some (ok v)) es s r h = (h, r)
  recv_tried-Triple g (some (err TryRecvError.closed)) es s r h = (inl h.1, r)
  recv_tried-Triple g (some (err TryRecvError.pending)) es s r h =
      Triple-bind IsAllowed IsSound (load sender_field) (recv_without (from_waker w) g) SeenDead
        Left
        (Triple-atomic IsAllowed IsSound (λ x. (x.sender, x)) SeenDead (λ x y a. a.keeps_sound)
          (λ x k. (k, λ e. e)))
        (recv_without-Triple g) es s r h.1

  recv_round-Triple : (u : Unit {0}) → Triple IsAllowed IsSound (recv_round (from_waker w) u) Left
  unfolding recv_round Notifier.guard
  recv_round-Triple u =
      Triple-bind IsAllowed IsSound (Notifier.guard notify_rx_field)
        (λ g. OneshotCell.try_recv value_field >>= recv_tried (from_waker w) g)
        (λ _ s. Unit × IsSound s) Left
        (Triple-atomic IsAllowed {A = NotificationGuard} IsSound
          (λ x. (record { generation = x.notify_rx.generation }, x)) (λ _ s. Unit × IsSound s)
          (λ x y a. a.keeps_sound) (λ x k. (tt, k)))
        (λ g.
          Triple-bind IsAllowed (λ s. Unit × IsSound s) (OneshotCell.try_recv value_field)
            (recv_tried (from_waker w) g) (Got Unknown) Left
            (try_recv-Triple Unknown (λ x y a k. tt)) (recv_tried-Triple g))

  recv-Promise :
      (es : Env (Transfer Q W T)) (s : Transfer Q W T)
      → Relies IsAllowed es
      → IsSound s
      → Returned Promise (recv (from_waker w) es s).0 (recv (from_waker w) es s).1
  unfolding recv
  recv-Promise es s r h =
      (Triple-retry IsAllowed (recv_round (from_waker w)) (λ _ s. IsSound s) Promise
        recv_round-Triple tt es s r h).0

module _ {Q W T : Type 0} ⦃sq : SegQueue Q W⦄ (Offered : T → Type 0) (w : W) where
  -- Whatever the sender does, as long as it marks the cell ready only with a value in it, leaves a
  -- taken cell alone and does nothing after its end, and no waker is dropped unwoken: `recv` of a
  -- sound transfer returns and does not panic. A value that it returns was offered, and the cell is
  -- taken; if it tells the task to wait, the task is registered or has been woken; and if it reports
  -- the end, the value was taken before, or the sender is gone and no value is left behind.
  pub transfer_recv-Promise :
      (es : Env (Transfer Q W T)) (s : Transfer Q W T)
      → Relies (IsAllowed Offered w) es
      → IsSound Offered w s
      → (r : PollRecv T) × ((recv (from_waker w) es s).0 ≡ some (some r))
        × Promise Offered w (some r) (recv (from_waker w) es s).1
  transfer_recv-Promise es s r h =
      let (p, e) = recv_total (from_waker w) es s in
      kept p e (
        subst (λ o. Returned (Promise Offered w) o (recv (from_waker w) es s).1) e
          (recv-Promise Offered w es s r h))
    where
      kept :
          (p : Option (PollRecv T))
          → (recv (from_waker w) es s).0 ≡ some p
          → Promise Offered w p (recv (from_waker w) es s).1
          → (v : PollRecv T) × ((recv (from_waker w) es s).0 ≡ some (some v))
            × Promise Offered w (some v) (recv (from_waker w) es s).1
      kept none e k = absurd k
      kept (some v) e k = (v, e, k)
