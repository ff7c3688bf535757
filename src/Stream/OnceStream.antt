-- ===== src/Stream/OnceStream.antt =====
-- src/stream/once.rs: a stream of a single item.
use postage_rs.Prelude.{◌≡◌, refl, ap, Option, none, some, List, [], ◌∷◌, map}
use postage_rs.Context.{Context}
use postage_rs.Stream.{PollRecv}

pub data State : Type 0 where
  ready taken : State

-- The owner polls it by a unique reference, so no other thread interferes with the exchange.
pub record OnceStream (A : Type 0) : Type 0 where
  pub state : State
  pub data_cell : Option A

unfoldable pub new : {A : Type 0} → A → OnceStream A
new v = record { state = ready; data_cell = some v }

module _ {A : Type 0} where
  -- `none` is the panic of `unwrap`.
  unfoldable pub take_item : OnceStream A → Option A × OnceStream A
  take_item s = (s.data_cell, record s { state = taken; data_cell = none })

  unfoldable pub poll_from : State → OnceStream A → Option (PollRecv A) × OnceStream A
  unfolding take_item
  poll_from ready s =
      let (v, s') = take_item s in
      elim v [ none ↦ (none, s') | some x ↦ (some (PollRecv.ready x), s') ]
  poll_from taken s = (some PollRecv.closed, s)

  unfoldable pub poll_recv :
      {W : Type 0} → Context W → OnceStream A → Option (PollRecv A) × OnceStream A
  unfolding poll_from
  poll_recv cx s = poll_from s.state s

  abbrev pub results : {W : Type 0} → List (Context W) → OnceStream A → List (Option (PollRecv A))
  results [] s = []
  results (cx ∷ cxs) s = let (r, s') = poll_recv cx s in r ∷ results cxs s'

  results_taken :
      {W : Type 0} (cxs : List (Context W)) (s : OnceStream A)
      → s.state ≡ taken
      → results cxs s ≡ map (λ _. some PollRecv.closed) cxs
  unfolding poll_recv
  results_taken [] s e = refl
  results_taken (cx ∷ cxs) s e = cc (results_taken cxs s e, e)

  -- The first poll of a new stream gives the item, every later one the end, and none panics.
  pub once_polls :
      {W : Type 0} (v : A) (cx : Context W) (cxs : List (Context W))
      → results (cx ∷ cxs) (new v) ≡ some (PollRecv.ready v) ∷ map (λ _. some PollRecv.closed) cxs
  unfolding poll_recv new
  once_polls v cx cxs =
      ap (λ l. some (PollRecv.ready v) ∷ l)
        (results_taken cxs (record { state = taken; data_cell = none }) refl)
