-- ===== src/Sync/Notifier.antt =====
-- src/sync/notifier.rs: the tasks that wait for an event, and a count of the events.
pub mod Alone
pub mod Waiting
pub mod Returns
pub mod Steps
use postage_rs.Prelude.{
  ℕ, suc, ◌+◌, ◌≡◌, refl, Bool, not, Option, none, some, List, [], ◌∷◌, ◌++◌, length, eqb,
}
use postage_rs.Context.{Context}
use postage_rs.Queues.{SegQueue}
use postage_rs.Concurrent.{M, Ref, ◌▸◌, pure, ◌>>=◌, ◌>>◌}
use postage_rs.Concurrent.Atomic.{load, access, fetch_add}
use postage_rs.Concurrent.Loop.{Control, continue, break, rounds}

-- `woken` is what `wake` has done outside the library: the wakers woken, in order.
pub record Notifier (Q W : Type 0) : Type 0 where
  pub generation : ℕ
  pub wakers : Q
  pub woken : List W

-- The event count at the time that the guard was taken.
pub record NotificationGuard : Type 0 where
  pub generation : ℕ

module _ {Q W : Type 0} where
  abbrev pub generation_field : Ref (Notifier Q W) ℕ
  generation_field = record {
    get = λ n. n.generation;
    put = λ g n. record n { generation = g };
    get-put = λ g n. refl;
    put-get = λ n. refl;
    put-put = λ g y n. refl;
  }

  abbrev pub wakers_field : Ref (Notifier Q W) Q
  wakers_field = record {
    get = λ n. n.wakers;
    put = λ q n. record n { wakers = q };
    get-put = λ q n. refl;
    put-get = λ n. refl;
    put-put = λ q y n. refl;
  }

  unfoldable pub new : ⦃sq : SegQueue Q W⦄ → Notifier Q W
  new ⦃sq⦄ = record { generation = 0; wakers = sq.new; woken = [] }

  -- `wakers.pop()`, and the `wake` of what it returns, which touches nothing of the library.
  unfoldable pub pop_and_wake :
      ⦃sq : SegQueue Q W⦄ → Notifier Q W → Control (Unit {0}) (Unit {0}) × Notifier Q W
  pop_and_wake ⦃sq⦄ n =
      let (popped, rest) = sq.pop n.wakers in
      elim popped [
        | none ↦ (break tt, record n { wakers = rest })
        | some w ↦ (continue tt, record n { wakers = rest; woken = n.woken ++ (w ∷ []) })
      ]

module _ {S Q W : Type 0} ⦃sq : SegQueue Q W⦄ (self : Ref S (Notifier Q W)) where
  unfoldable pub guard : M S NotificationGuard
  guard = do g ← load (self ▸ generation_field); pure (record { generation = g })

  unfoldable pub is_expired : NotificationGuard → M S Bool
  is_expired g = do stored ← load (self ▸ generation_field); pure (not (eqb stored g.generation))

  unfoldable pub wake_round : Unit {0} → M S (Control (Unit {0}) (Unit {0}))
  unfolding pop_and_wake
  wake_round _ = access self pop_and_wake

  -- The `while let` loop. Each of its rounds is one access, so that it goes on along the schedule.
  -- When the schedule is used up nobody adds a waker any more, and it has a round for each waker
  -- that is there and one for the end.
  unfoldable pub wake_all : M S (Option (Unit {0}))
  unfolding wake_round
  wake_all [] s = rounds wake_round (suc (length (sq.contents (self.get s).wakers))) tt [] s
  wake_all (e ∷ es) s =
      let (c, s', es') = wake_round tt (e ∷ []) s in
      elim c [ continue _ ↦ wake_all es s' | break a ↦ (some a, s', es) ]

  unfoldable pub notify : M S (Unit {0})
  unfolding wake_all
  notify = do fetch_add (self ▸ generation_field) 1; wake_all; pure tt

  unfoldable pub subscribe : Context W → M S (Unit {0})
  subscribe cx = elim cx.waker [
    | some w ↦ access (self ▸ wakers_field) (λ q. (tt, sq.push w q))
    | none ↦ pure tt
  ]
