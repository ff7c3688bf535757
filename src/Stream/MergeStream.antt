-- ===== src/Stream/MergeStream.antt =====
-- src/stream/merge.rs: the items of two streams, polled in turn.
use postage_rs.Prelude.{◌≡◌, refl, ap, map, arith, Bool, true, false, List, [], ◌∷◌, if◌then◌else◌}
use postage_rs.Context.{Context}
use postage_rs.Stream.{PollRecv, Stream}
use postage_rs.Stream.Sources.{
  IterStream, PollIterStream, from_iter, from_poll_iter, next_value, next_poll,
}
use postage_rs.Stream.Polls.{polls, padded}

pub data State : Type 0 where
  left right : State

unfoldable pub swapped : State → State
swapped left = right
swapped right = left

pub record MergeStream (L R : Type 0) : Type 0 where
  pub state : State
  pub left : L
  pub right : R

unfoldable pub new : {L R : Type 0} → L → R → MergeStream L R
new l r = record { state = left; left = l; right = r }

pub data MergePoll (A : Type 0) : Type 0 where
  first second : PollRecv A → MergePoll A

module _ {A : Type 0} where
  unfoldable pub into_recv : MergePoll A → PollRecv A
  into_recv (first p) = p
  into_recv (second p) = p

  unfoldable pub swap : MergePoll A → Bool
  swap (first p) = true
  swap (second (PollRecv.ready v)) = true
  swap (second PollRecv.pending) = true
  swap (second PollRecv.closed) = false

module _ {X Y A W : Type 0} (on_first : Stream X A W) (on_second : Stream Y A W) where
  -- The arms of the match on a poll of the first stream.
  unfoldable pub polled_first : Context W → PollRecv A → X → Y → MergePoll A × X × Y
  polled_first cx (PollRecv.ready v) x y = (first (PollRecv.ready v), x, y)
  polled_first cx PollRecv.pending x y = let (p, y') = on_second.poll_recv cx y in (second p, x, y')
  polled_first cx PollRecv.closed x y = let (p, y') = on_second.poll_recv cx y in (second p, x, y')

  unfoldable pub poll : Context W → X → Y → MergePoll A × X × Y
  unfolding polled_first
  poll cx x y = let (p, x') = on_first.poll_recv cx x in polled_first cx p x' y

module _ {L R A W : Type 0} (on_left : Stream L A W) (on_right : Stream R A W) where
  -- The poll of both in the order that the state says.
  unfoldable pub poll_both : State → Context W → L → R → MergePoll A × L × R
  unfolding poll
  poll_both left cx l r = poll on_left on_right cx l r
  poll_both right cx l r = let (p, r', l') = poll on_right on_left cx r l in (p, l', r')

  unfoldable pub poll_recv : Context W → MergeStream L R → PollRecv A × MergeStream L R
  unfolding poll_both swap swapped into_recv
  poll_recv cx s =
      let (p, l, r) = poll_both s.state cx s.left s.right in
      (
        into_recv p,
        record { state = if swap p then swapped s.state else s.state; left = l; right = r },
      )

  abbrev pub merge_stream : Stream (MergeStream L R) A W
  merge_stream = record { poll_recv = poll_recv }

module _ {A : Type 0} where
  -- The lists in turn, until one ends; then the rest of the other.
  abbrev pub alternate : List A → List A → List A
  alternate [] ys = ys
  alternate (x ∷ xs) [] = x ∷ xs
  alternate (x ∷ xs) (y ∷ ys) = x ∷ y ∷ alternate xs ys

  alternate-cons : (x : A) (xs ys : List A) → alternate (x ∷ xs) ys ≡ x ∷ alternate ys xs
  alternate-cons x xs [] = refl
  alternate-cons x [] (y ∷ ys) = refl
  alternate-cons x (z ∷ xs) (y ∷ ys) = ap (λ l. x ∷ y ∷ l) (alternate-cons z xs ys)

  alternate-nil : (xs : List A) → alternate xs [] ≡ xs
  alternate-nil [] = refl
  alternate-nil (x ∷ xs) = refl

  abbrev at : State → List A → List A → MergeStream (IterStream A) (IterStream A)
  at st xs ys = record { state = st; left = record { iter = xs }; right = record { iter = ys } }

  -- What the streams still give, the one whose turn it is first.
  abbrev in_turn : State → List A → List A → List A
  in_turn left xs ys = alternate xs ys
  in_turn right xs ys = alternate ys xs

module _ {A W : Type 0} where
  abbrev merge_lists : Stream (MergeStream (IterStream A) (IterStream A)) A W
  merge_lists = merge_stream from_iter from_iter

  merge_list_polls :
      (cxs : List (Context W)) (st : State) (xs ys : List A)
      → (polls merge_lists cxs (at st xs ys)).0 ≡ padded cxs (map PollRecv.ready (in_turn st xs ys))
  unfolding poll_recv next_value
  merge_list_polls [] st xs ys = refl
  merge_list_polls (cx ∷ cxs) left [] [] =
      ap (λ l. PollRecv.closed ∷ l) (merge_list_polls cxs left [] [])
  merge_list_polls (cx ∷ cxs) left [] (y ∷ ys) =
      ground (arith, merge_list_polls cxs right [] ys, alternate-nil ys)
  merge_list_polls (cx ∷ cxs) left (x ∷ xs) ys =
      ground (arith, merge_list_polls cxs right xs ys, alternate-cons x xs ys)
  merge_list_polls (cx ∷ cxs) right [] [] =
      ap (λ l. PollRecv.closed ∷ l) (merge_list_polls cxs right [] [])
  merge_list_polls (cx ∷ cxs) right (x ∷ xs) [] =
      ground (arith, merge_list_polls cxs left xs [], alternate-nil xs)
  merge_list_polls (cx ∷ cxs) right xs (y ∷ ys) =
      ground (arith, merge_list_polls cxs left xs ys, alternate-cons y ys xs)

  -- However often it is polled, the merge of two lists gives their items in turn, the left one's
  -- first, then the rest of the longer list, and then the end: no item is lost, and none waits for
  -- more than one of the other list.
  pub merge_polls :
      (cxs : List (Context W)) (xs ys : List A)
      → (polls merge_lists cxs (new (record { iter = xs }) (record { iter = ys }))).0
        ≡ padded cxs (map PollRecv.ready (alternate xs ys))
  unfolding new
  merge_polls cxs xs ys = merge_list_polls cxs left xs ys

module _ {A : Type 0} where
  -- A merge of which the stream whose turn it is gives `ps`, and the other has ended.
  abbrev pub other_ended :
      State → List (PollRecv A) → MergeStream (PollIterStream A) (PollIterStream A)
  other_ended left ps = record {
    state = left;
    left = record { iter = ps };
    right = record { iter = [] };
  }
  other_ended right ps = record {
    state = right;
    left = record { iter = [] };
    right = record { iter = ps };
  }

module _ {A W : Type 0} where
  -- If the stream whose turn it is pends and the other has ended, the merge reports the end although
  -- the first stream goes on, and the next poll gives the value that the first stream then has.
  pub merge_ends_early :
      (cx cx' : Context W) (st : State) (v : A) (ps : List (PollRecv A))
      → (polls
          (merge_stream from_poll_iter from_poll_iter)
          (cx ∷ cx' ∷ [])
          (other_ended st (PollRecv.pending ∷ PollRecv.ready v ∷ ps))).0
        ≡ PollRecv.closed ∷ PollRecv.ready v ∷ []
  unfolding poll_recv next_poll
  merge_ends_early cx cx' left v ps = refl
  merge_ends_early cx cx' right v ps = refl
