-- ===== src/Tests/Sinks.antt =====
-- The sinks of the futures crate and the state cell on concrete data.
use postage_rs.Prelude.{ℕ, ◌≡◌, refl, some, none, List, [], ◌∷◌, arith, eqb, if◌then◌else◌}
use postage_rs.Context.{from_waker}
use postage_rs.Concurrent.{whole}
use postage_rs.Concurrent.Atomic.{ok, usize_word}
use postage_rs.Sync.StateCell.{StateCell, compare_store, compare_take}
use postage_rs.Sync.StateCell.Locking.{
  Respects, Stored, store_take_round_trip, compare_store_excludes,
}
use postage_rs.Channels.Mpsc.{Channel, poll_send}
use postage_rs.Channels.Mpsc.Refine.{view}
use postage_rs.Channels.Mpsc.Sinks.{sink_send, mpsc_sink_agrees}
use postage_rs.Tests.Queues.{Bounded, wakers, bounded, idle}

-- A channel for two values that is full.
abbrev full : Channel (List ℕ) ℕ Bounded
full = record {
  sender_notify = idle;
  sender_count = record { count = 1 };
  receiver_notify = idle;
  receiver_count = record { count = 1 };
  extension = record { queue = record { items = 4 ∷ 5 ∷ []; room = 2 } };
}

mpsc_sink_agrees_example :
    let r = sink_send {T = ℕ} (from_waker 7) 3 [] full in
    let p = poll_send {T = ℕ} (from_waker 7) 3 [] full in
    (r.0 ≡ p.0) × (view {T = ℕ} r.1 ≡ view p.1)
mpsc_sink_agrees_example = mpsc_sink_agrees (from_waker 7) 3 full

-- A cell that holds nothing; its states are numbers.
abbrev nothing : StateCell ℕ ℕ
nothing = record { state = 0; data_cell = none }

store_take_round_trip_example :
    let a = compare_store whole 0 1 9 2 [] nothing in
    let b = compare_take whole 2 3 [] a.1 in
    (a.0 ≡ ok 0) × (b.0 ≡ ok (some 9)) × (b.1 ≡ record { state = 3; data_cell = none })
store_take_round_trip_example = store_take_round_trip whole 0 1 2 3 9 nothing refl

-- Another thread completes the cell with 8 if it holds nothing.
abbrev rival : StateCell ℕ ℕ → StateCell ℕ ℕ
rival c = if eqb c.state 0 then record { state = 2; data_cell = some 8 } else c

rival-Respects : (c : StateCell ℕ ℕ) → Respects whole 1 c (rival c)
rival-Respects c h = ground (arith, h)

compare_store_excludes_example :
    let r = compare_store whole 0 1 9 2 ((λ c. c) ∷ rival ∷ rival ∷ []) nothing in
    Stored whole 2 9 r.0 r.1
compare_store_excludes_example =
    compare_store_excludes whole 0 1 2 9 ((λ c. c) ∷ rival ∷ rival ∷ []) nothing
      (λ c h. refl, (rival-Respects, (rival-Respects, tt)))
