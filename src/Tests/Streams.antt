-- ===== src/Tests/Streams.antt =====
-- The combinators of streams and sinks on concrete data.
use postage_rs.Prelude.{ℕ, ◌≡◌, refl, Bool, true, not, some, List, [], ◌∷◌, map, ltb, eqb, arith}
use postage_rs.Context.{Context, empty}
use postage_rs.Stream.{PollRecv, Stream}
use postage_rs.Stream.Polls.{polls, padded}
use postage_rs.Stream.Sources.{PollIterStream, from_iter, from_poll_iter, next_poll}
use postage_rs.Stream.MapStream.{MapStream}
use postage_rs.Stream.FilterStream.{drain, passing, filter_items}
use postage_rs.Stream.FindStream
use postage_rs.Stream.FindStream.{FindStream, find_ends}
use postage_rs.Stream.ChainStream
use postage_rs.Stream.ChainStream.{chain_stream, chained, chain_polls}
use postage_rs.Stream.MergeStream as Merge
use postage_rs.Stream.MergeStream.{
  right, merge_stream, alternate, merge_polls, other_ended, merge_ends_early,
}
use postage_rs.Sink.{PollSend}
use postage_rs.Sink.Targets.{rejected_sink}
use postage_rs.Sink.ChainSink
use postage_rs.Sink.ChainSink.{ChainSink, writing_left, chain_stays_closed}

abbrev cx : Context ℕ
cx = empty

abbrev thrice : List (Context ℕ)
thrice = cx ∷ cx ∷ cx ∷ []

abbrev some_polls : List (PollRecv ℕ)
some_polls = PollRecv.ready 1 ∷ PollRecv.pending ∷ PollRecv.ready 2 ∷ []

-- Which of the items are greater than 1.
abbrev large : MapStream (PollIterStream ℕ) ℕ Bool
large = record { from = record { iter = some_polls }; fn = ltb 1 }

-- A filter that lets every other item pass.
abbrev every_other : ℕ → Bool → Bool × Bool
every_other v b = (b, not b)

filter_items_example :
    drain every_other 4 4 cx (record { from = record { iter = 7 ∷ 8 ∷ 9 ∷ [] }; filter = true })
    ≡ (passing every_other true (7 ∷ 8 ∷ 9 ∷ []), true)
filter_items_example =
    filter_items every_other 4 4 cx true (7 ∷ 8 ∷ 9 ∷ []) (omega arith) (omega arith)

abbrev finding : FindStream (PollIterStream ℕ)
finding = record { state = FindStream.State.reading; from = record { iter = some_polls } }

found_one : (FindStream.poll_recv from_poll_iter (eqb 1) 2 cx finding).0 ≡ some (PollRecv.ready 1)
unfolding FindStream.poll_recv next_poll
found_one = refl

find_ends_example :
    let r = FindStream.poll_recv from_poll_iter (eqb 1) 2 cx finding in
    FindStream.poll_recv from_poll_iter (eqb 1) 2 cx r.1 ≡ (some PollRecv.closed, r.1)
find_ends_example = find_ends from_poll_iter (eqb 1) 2 2 cx cx finding 1 found_one

chain_polls_example :
    (polls
      (chain_stream from_poll_iter from_poll_iter)
      thrice
      (ChainStream.new (record { iter = some_polls }) (record { iter = some_polls }))).0
    ≡ padded thrice (chained some_polls some_polls)
chain_polls_example = chain_polls thrice some_polls some_polls

merge_polls_example :
    (polls
      (merge_stream from_iter from_iter)
      thrice
      (Merge.new (record { iter = 1 ∷ 3 ∷ [] }) (record { iter = 2 ∷ [] }))).0
    ≡ padded {A = ℕ} thrice (map PollRecv.ready (alternate (1 ∷ 3 ∷ []) (2 ∷ [])))
merge_polls_example = merge_polls {A = ℕ} thrice (1 ∷ 3 ∷ []) (2 ∷ [])

abbrev polls_of : Stream (PollIterStream ℕ) ℕ ℕ
polls_of = from_poll_iter

abbrev waiting : PollIterStream ℕ
waiting = record { iter = PollRecv.pending ∷ PollRecv.ready 1 ∷ [] }

merge_ends_early_example :
    (polls {A = ℕ}
      (merge_stream from_poll_iter from_poll_iter)
      (cx ∷ cx ∷ [])
      (other_ended right (PollRecv.pending ∷ PollRecv.ready 4 ∷ []))).0
    ≡ PollRecv.closed ∷ PollRecv.ready 4 ∷ []
merge_ends_early_example = merge_ends_early cx cx right 4 []

abbrev both_sinks : ChainSink (Unit {0}) (Unit {0})
both_sinks = record { state = writing_left; left = tt; right = tt }

both_reject :
    (ChainSink.poll_send {A = ℕ} rejected_sink rejected_sink cx 4 both_sinks).0
    ≡ PollSend.rejected 4
unfolding ChainSink.poll_send
both_reject = refl
