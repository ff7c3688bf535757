-- ===== src/Sync/RefCount.antt =====
-- src/sync/ref_count.rs: the number of live handles of one half of a channel.
pub mod Laws
use postage_rs.Prelude.{
  ℕ, ◌+◌, ◌-◌, ◌%◌, ◌<◌, ◌≤◌, ◌≡◌, ◌≢◌, refl, Bool, true, false, not, Option, some, ltb, eqb, arith,
  if◌then◌else◌,
}
use postage_rs.Concurrent.{M, Ref, ◌▸◌, pure, ◌>>=◌, ◌>>◌}
use postage_rs.Concurrent.Atomic.{load, fetch_add, compare_exchange, usize_word, ok, err}
use postage_rs.Concurrent.Loop.{Control, continue, break, retry}

pub record RefCount : Type 0 where
  pub count : ℕ

pub data TryDecrement : Type 0 where
  alive : ℕ → TryDecrement
  dead : TryDecrement

abbrev pub count_field : Ref RefCount ℕ
count_field = record {
  get = λ c. c.count;
  put = λ n c. record c { count = n };
  get-put = λ n c. refl;
  put-get = λ c. refl;
  put-put = λ n y c. refl;
}

abbrev pub new : ℕ → RefCount
new n = record { count = n }

module _ {S : Type 0} (self : Ref S RefCount) where
  unfoldable pub is_alive : M S Bool
  is_alive = do n ← load (self ▸ count_field); pure (ltb 0 n)

  unfoldable pub increment : M S (Unit {0})
  increment = do fetch_add (self ▸ count_field) 1; pure tt

  unfoldable pub decrement_round : Unit {0} → M S (Control (Unit {0}) TryDecrement)
  decrement_round _ = do
    state ← load (self ▸ count_field)
    if eqb state 0 then pure (break dead) else do
      exchanged ← compare_exchange (self ▸ count_field) state (state - 1)
      elim exchanged [
        | ok _ ↦ if eqb state 1 then pure (break dead) else pure (break (alive (state - 1)))
        | err _ ↦ pure (continue tt)
      ]

  unfoldable pub decrement : M S (Option TryDecrement)
  unfolding decrement_round
  decrement = retry decrement_round tt
