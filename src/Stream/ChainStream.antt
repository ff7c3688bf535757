-- ===== src/Stream/ChainStream.antt =====
-- src/stream/chain.rs: the items of one stream, and after its end those of another.
use postage_rs.Prelude.{◌≡◌, refl, ap, List, [], ◌∷◌, ◌++◌}
use postage_rs.Context.{Context}
use postage_rs.Stream.{PollRecv, Stream}
use postage_rs.Stream.Sources.{PollIterStream, from_poll_iter, next_poll}
use postage_rs.Stream.Polls.{polls, padded}

pub data State : Type 0 where
  left right closed : State

-- The owner polls it by a unique reference, so no other thread interferes with the state.
pub record ChainStream (L R : Type 0) : Type 0 where
  pub state : State
  pub left : L
  pub right : R

unfoldable pub new : {L R : Type 0} → L → R → ChainStream L R
new l r = record { state = left; left = l; right = r }

module _ {L R A W : Type 0} (on_left : Stream L A W) (on_right : Stream R A W) where
  -- The arms of the match on a poll of the right stream.
  unfoldable pub polled_right : PollRecv A → ChainStream L R → PollRecv A × ChainStream L R
  polled_right (PollRecv.ready v) s = (PollRecv.ready v, s)
  polled_right PollRecv.pending s = (PollRecv.pending, s)
  polled_right PollRecv.closed s = (PollRecv.closed, record s { state = closed })

  unfoldable pub poll_right : Context W → ChainStream L R → PollRecv A × ChainStream L R
  unfolding polled_right
  poll_right cx s =
      let (polled, r) = on_right.poll_recv cx s.right in
      polled_right polled (record s { right = r })

  -- The arms of the match on a poll of the left stream; its end goes on to the right stream.
  unfoldable pub polled_left :
      Context W → PollRecv A → ChainStream L R → PollRecv A × ChainStream L R
  unfolding poll_right
  polled_left cx (PollRecv.ready v) s = (PollRecv.ready v, s)
  polled_left cx PollRecv.pending s = (PollRecv.pending, s)
  polled_left cx PollRecv.closed s = poll_right cx (record s { state = right })

  unfoldable pub poll_from : State → Context W → ChainStream L R → PollRecv A × ChainStream L R
  unfolding polled_left
  poll_from left cx s =
      let (polled, l) = on_left.poll_recv cx s.left in polled_left cx polled (record s { left = l })
  poll_from right cx s = poll_right cx s
  poll_from closed cx s = (PollRecv.closed, s)

  unfoldable pub poll_recv : Context W → ChainStream L R → PollRecv A × ChainStream L R
  unfolding poll_from
  poll_recv cx s = poll_from s.state cx s

  abbrev pub chain_stream : Stream (ChainStream L R) A W
  chain_stream = record { poll_recv = poll_recv }

module _ {A : Type 0} where
  -- The results of a stream before its end.
  abbrev pub until_closed : List (PollRecv A) → List (PollRecv A)
  until_closed [] = []
  until_closed (PollRecv.closed ∷ ps) = []
  until_closed (p ∷ ps) = p ∷ until_closed ps

  -- The results of the one stream before its end, and then those of the other.
  abbrev pub chained : List (PollRecv A) → List (PollRecv A) → List (PollRecv A)
  chained ps qs = until_closed ps ++ until_closed qs

  abbrev at :
      State
      → List (PollRecv A)
      → List (PollRecv A)
      → ChainStream (PollIterStream A) (PollIterStream A)
  at st ps qs = record { state = st; left = record { iter = ps }; right = record { iter = qs } }

module _ {A W : Type 0} where
  abbrev chain_lists : Stream (ChainStream (PollIterStream A) (PollIterStream A)) A W
  chain_lists = chain_stream from_poll_iter from_poll_iter

  closed_polls :
      (cxs : List (Context W)) (ps qs : List (PollRecv A))
      → (polls chain_lists cxs (at closed ps qs)).0 ≡ padded cxs []
  unfolding poll_recv
  closed_polls [] ps qs = refl
  closed_polls (cx ∷ cxs) ps qs = ap (λ l. PollRecv.closed ∷ l) (closed_polls cxs ps qs)

  right_polls :
      (cxs : List (Context W)) (ps qs : List (PollRecv A))
      → (polls chain_lists cxs (at right ps qs)).0 ≡ padded cxs (until_closed qs)
  unfolding poll_recv next_poll
  right_polls [] ps qs = refl
  right_polls (cx ∷ cxs) ps [] = ap (λ l. PollRecv.closed ∷ l) (closed_polls cxs ps [])
  right_polls (cx ∷ cxs) ps (PollRecv.closed ∷ qs) =
      ap (λ l. PollRecv.closed ∷ l) (closed_polls cxs ps qs)
  right_polls (cx ∷ cxs) ps (PollRecv.pending ∷ qs) =
      ap (λ l. PollRecv.pending ∷ l) (right_polls cxs ps qs)
  right_polls (cx ∷ cxs) ps (PollRecv.ready v ∷ qs) =
      ap (λ l. PollRecv.ready v ∷ l) (right_polls cxs ps qs)

  -- However often it is polled, the chain of two streams gives what the left one gives before its
  -- end, then what the right one gives before its end, and then the end, with no poll in between
  -- that gives neither. The streams are arbitrary sequences of results.
  pub chain_polls :
      (cxs : List (Context W)) (ps qs : List (PollRecv A))
      → (polls chain_lists cxs (new (record { iter = ps }) (record { iter = qs }))).0
        ≡ padded cxs (chained ps qs)
  unfolding poll_recv next_poll new
  chain_polls [] ps qs = refl
  chain_polls (cx ∷ cxs) [] qs = right_polls (cx ∷ cxs) [] qs
  chain_polls (cx ∷ cxs) (PollRecv.closed ∷ ps) qs = right_polls (cx ∷ cxs) ps qs
  chain_polls (cx ∷ cxs) (PollRecv.pending ∷ ps) qs =
      ap (λ l. PollRecv.pending ∷ l) (chain_polls cxs ps qs)
  chain_polls (cx ∷ cxs) (PollRecv.ready v ∷ ps) qs =
      ap (λ l. PollRecv.ready v ∷ l) (chain_polls cxs ps qs)
