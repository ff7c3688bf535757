-- ===== src/Stream/MapStream.antt =====
-- src/stream/map.rs: a stream whose items go through a function.
use postage_rs.Prelude.{◌≡◌, refl, ap, List, [], ◌∷◌, map}
use postage_rs.Context.{Context}
use postage_rs.Stream.{PollRecv, Stream}
use postage_rs.Stream.Polls.{polls}

pub record MapStream (S A B : Type 0) : Type 0 where
  pub from : S
  pub fn : A → B

module _ {A B : Type 0} where
  -- The arms of the match.
  unfoldable pub mapped : (A → B) → PollRecv A → PollRecv B
  mapped f (PollRecv.ready v) = PollRecv.ready (f v)
  mapped f PollRecv.pending = PollRecv.pending
  mapped f PollRecv.closed = PollRecv.closed

module _ {S A B W : Type 0} (stream : Stream S A W) where
  unfoldable pub poll_recv : Context W → MapStream S A B → PollRecv B × MapStream S A B
  unfolding mapped
  poll_recv cx s =
      let (polled, from) = stream.poll_recv cx s.from in
      (mapped s.fn polled, record s { from = from })

  abbrev pub map_stream : Stream (MapStream S A B) B W
  map_stream = record { poll_recv = poll_recv }

  -- However often it is polled, the stream gives what its source gives, each item through the
  -- function, and it polls the source as often.
  pub map-polls :
      (cxs : List (Context W)) (s : MapStream S A B)
      → let r = polls map_stream cxs s in
        let r' = polls stream cxs s.from in
        (r.0 ≡ map (mapped s.fn) r'.0) × (r.1 ≡ record s { from = r'.1 })
  unfolding poll_recv
  map-polls [] s = (refl, refl)
  map-polls (cx ∷ cxs) s =
      let (h, h') = map-polls cxs (poll_recv cx s).1 in (ap (λ l. (poll_recv cx s).0 ∷ l) h, h')
