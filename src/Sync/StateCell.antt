-- ===== src/Sync/StateCell.antt =====
-- src/sync/state_cell.rs: a value guarded by an atomic state. Only the thread whose exchange of the
-- state has succeeded touches the value.
pub mod Locking
use postage_rs.Prelude.{refl, Option, none, some}
use postage_rs.Concurrent.{M, Ref, ◌▸◌, pure, ◌>>=◌, ◌>>◌}
use postage_rs.Concurrent.Atomic.{Word, Result, ok, err, store, access, compare_exchange}

pub record StateCell (St T : Type 0) : Type 0 where
  pub state : St
  pub data_cell : Option T

module _ {St T : Type 0} where
  abbrev pub state_field : Ref (StateCell St T) St
  state_field = record {
    get = λ c. c.state;
    put = λ x c. record c { state = x };
    get-put = λ x c. refl;
    put-get = λ c. refl;
    put-put = λ x y c. refl;
  }

  abbrev pub data_field : Ref (StateCell St T) (Option T)
  data_field = record {
    get = λ c. c.data_cell;
    put = λ x c. record c { data_cell = x };
    get-put = λ x c. refl;
    put-get = λ c. refl;
    put-put = λ x y c. refl;
  }

  unfoldable pub new : St → StateCell St T
  new s = record { state = s; data_cell = none }

-- `Option::take`
abbrev pub take {ℓ} : {T : Type ℓ} → Option T → Option T × Option T
take x = (x, none)

module _ {S St T : Type 0} ⦃w : Word St⦄ (self : Ref S (StateCell St T)) where
  -- The arms of the match on the exchange of `compare_store`.
  unfoldable pub store_exchanged : T → St → Result St St → M S (Result St (St × T))
  store_exchanged value complete (ok s) = do
    store (self ▸ data_field) (some value)
    store (self ▸ state_field) complete
    pure (ok s)
  store_exchanged value complete (err s) = pure (err (s, value))

  unfoldable pub compare_store : St → St → T → St → M S (Result St (St × T))
  unfolding store_exchanged
  compare_store current locked value complete = do
    exchanged ← compare_exchange (self ▸ state_field) current locked
    store_exchanged value complete exchanged

  -- `none` is the panic of `unwrap`.
  unfoldable pub take_internal : M S (Option T)
  take_internal = access (self ▸ data_field) take

  -- The arms of the match on the exchange of `compare_take`.
  unfoldable pub take_exchanged : Result St St → M S (Result (Option T) St)
  unfolding take_internal
  take_exchanged (ok _) = do taken ← take_internal; pure (ok taken)
  take_exchanged (err s) = pure (err s)

  unfoldable pub compare_take : St → St → M S (Result (Option T) St)
  unfolding take_exchanged
  compare_take current new_state = do
    exchanged ← compare_exchange (self ▸ state_field) current new_state
    take_exchanged exchanged
