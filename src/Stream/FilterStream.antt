-- ===== src/Stream/FilterStream.antt =====
-- src/stream/filter.rs: a stream of the items that pass a filter. The filter may keep a state `F`.
use postage_rs.Prelude.{
  ℕ, zero, suc, ◌<◌, ◌≡◌, refl, Bool, true, false, Option, none, some, List, [], ◌∷◌, length, arith,
  if◌then◌else◌,
}
use postage_rs.Context.{Context}
use postage_rs.Concurrent.Loop.{Control, continue, break}
use postage_rs.Stream.{PollRecv, Stream}
use postage_rs.Stream.Sources.{IterStream, from_iter, next_value}

pub record FilterStream (S F : Type 0) : Type 0 where
  pub from : S
  pub filter : F

module _ {S A F W : Type 0} (stream : Stream S A W) (test : A → F → Bool × F) where
  -- The arms of the match on a poll of the source.
  unfoldable pub filtered :
      PollRecv A → FilterStream S F → Control (Unit {0}) (PollRecv A) × FilterStream S F
  filtered (PollRecv.ready v) s =
      let (passed, f) = test v s.filter in
      let s' = record s { filter = f } in
      if passed then (break (PollRecv.ready v), s') else (continue tt, s')
  filtered PollRecv.pending s = (break PollRecv.pending, s)
  filtered PollRecv.closed s = (break PollRecv.closed, s)

  unfoldable pub poll_round :
      Context W → FilterStream S F → Control (Unit {0}) (PollRecv A) × FilterStream S F
  unfolding filtered
  poll_round cx s =
      let (polled, from) = stream.poll_recv cx s.from in filtered polled (record s { from = from })

  -- The loop for at most so many rounds; `none` is that they ran out. Nothing bounds it in general:
  -- a source may give items that do not pass for ever.
  unfoldable pub poll_recv :
      ℕ → Context W → FilterStream S F → Option (PollRecv A) × FilterStream S F
  unfolding poll_round
  poll_recv zero cx s = (none, s)
  poll_recv (suc n) cx s =
      let (c, s') = poll_round cx s in
      elim c [ continue _ ↦ poll_recv n cx s' | break r ↦ (some r, s') ]

module _ {A F : Type 0} (test : A → F → Bool × F) where
  -- The items that pass, where the filter sees all of them in order.
  abbrev pub passing : F → List A → List A
  passing f [] = []
  passing f (v ∷ vs) =
      let (passed, f') = test v f in if passed then v ∷ passing f' vs else passing f' vs

module _ {A F : Type 0} where
  abbrev of_list : F → List A → FilterStream (IterStream A) F
  of_list f vs = record { from = record { iter = vs }; filter = f }

module _ {A F W : Type 0} (test : A → F → Bool × F) where
  abbrev poll_list :
      ℕ
      → Context W
      → FilterStream (IterStream A) F
      → Option (PollRecv A) × FilterStream (IterStream A) F
  poll_list = poll_recv from_iter test

  -- The items of at most so many polls, up to the first that gives none, and whether that one has
  -- reported the end.
  abbrev pub drain : ℕ → ℕ → Context W → FilterStream (IterStream A) F → List A × Bool
  drain zero k cx s = ([], false)
  drain (suc n) k cx s =
      let (r, s') = poll_list k cx s in
      let (rest, ended) = drain n k cx s' in
      elim r [
        | some (PollRecv.ready v) ↦ (v ∷ rest, ended)
        | some PollRecv.pending ↦ ([], false)
        | some PollRecv.closed ↦ ([], true)
        | none ↦ ([], false)
      ]

  more_fuel :
      (k : ℕ) (cx : Context W) (f : F) (vs : List A)
      → length vs < k
      → poll_list (suc k) cx (of_list f vs) ≡ poll_list k cx (of_list f vs)
  unfolding poll_recv next_value
  more_fuel zero cx f vs h = absurd (omega arith)
  more_fuel (suc k) cx f [] h = refl
  more_fuel (suc k) cx f (v ∷ vs) h = ground (arith, more_fuel k cx (test v f).1 vs (omega arith))

  -- A filtered list gives exactly the items that pass, in order, and then ends, if there are more
  -- polls, and more rounds in each poll, than there are items.
  pub filter_items :
      (n k : ℕ) (cx : Context W) (f : F) (vs : List A)
      → length vs < n
      → length vs < k
      → drain n k cx (record { from = record { iter = vs }; filter = f })
        ≡ (passing test f vs, true)
  unfolding poll_recv next_value
  filter_items zero k cx f vs h h' = absurd (omega arith)
  filter_items (suc n) zero cx f vs h h' = absurd (omega arith)
  filter_items (suc n) (suc k) cx f [] h h' = refl
  filter_items (suc n) (suc k) cx f (v ∷ vs) h h' = ground (
    arith,
    more_fuel k cx (test v f).1 vs (omega arith),
    filter_items n (suc k) cx (test v f).1 vs (omega arith) (omega arith),
    filter_items (suc n) (suc k) cx (test v f).1 vs (omega arith) (omega arith),
  )
