-- ===== src/Stream/Polls.antt =====
-- Successive polls of a stream.
use postage_rs.Prelude.{List, [], ◌∷◌}
use postage_rs.Context.{Context}
use postage_rs.Stream.{PollRecv, Stream}

module _ {S A W : Type 0} (stream : Stream S A W) where
  -- The results of one poll for each of the contexts, and the state that they leave.
  abbrev pub polls : List (Context W) → S → List (PollRecv A) × S
  polls [] s = ([], s)
  polls (cx ∷ cxs) s =
      let (r, s') = stream.poll_recv cx s in let (rs, s'') = polls cxs s' in (r ∷ rs, s'')

module _ {A : Type 0} where
  -- The items among the results.
  abbrev pub item : PollRecv A → List A
  item (PollRecv.ready v) = v ∷ []
  item PollRecv.pending = []
  item PollRecv.closed = []

  -- A stream that gives the results of the list, and then ends: what each of the polls gives.
  abbrev pub padded : {W : Type 0} → List (Context W) → List (PollRecv A) → List (PollRecv A)
  padded [] ps = []
  padded (cx ∷ cxs) [] = PollRecv.closed ∷ padded cxs []
  padded (cx ∷ cxs) (p ∷ ps) = p ∷ padded cxs ps
