-- ===== src/Tests/Queues.antt =====
-- Concrete queues with the behaviour that the library relies on: lists.
use postage_rs.Prelude.{
  ℕ, ◌≤◌, ◌<◌, ◌≡◌, ◌↔◌, refl, true, Option, none, some, List, [], ◌∷◌, ◌++◌, length, ltb, leb,
  if◌then◌else◌, arith,
}
use postage_rs.Queues.{SegQueue, ArrayQueue}
use postage_rs.Concurrent.Atomic.{Result, ok, err}
use postage_rs.Sync.Notifier.{Notifier}

abbrev pop_list : List ℕ → Option ℕ × List ℕ
pop_list [] = (none, [])
pop_list (x ∷ xs) = (some x, xs)

pub pop_list_empty : (q : List ℕ) → q ≡ [] → pop_list q ≡ (none, q)
pop_list_empty [] e = refl
pop_list_empty (x ∷ xs) e = ground arith

pub pop_list_first :
    (q : List ℕ) (w : ℕ) (ws : List ℕ)
    → q ≡ w ∷ ws
    → ((pop_list q).0 ≡ some w) × ((pop_list q).1 ≡ ws)
pop_list_first [] w ws e = ground arith
pop_list_first (x ∷ xs) w ws e = ground arith

instance abbrev pub wakers : SegQueue (List ℕ) ℕ
wakers = record {
  new = [];
  push = λ w q. q ++ (w ∷ []);
  pop = pop_list;
  contents = λ q. q;
  contents-new = refl;
  contents-push = λ w q. refl;
  pop_empty = pop_list_empty;
  pop_first = pop_list_first;
}

pub record Bounded : Type 0 where
  pub items : List ℕ
  pub room : ℕ

abbrev new_bounded : ℕ → Option Bounded
new_bounded n = if ltb 0 n then some (record { items = []; room = n }) else none

abbrev pub push_bounded : ℕ → Bounded → Result (Unit {0}) ℕ × Bounded
push_bounded v q =
    if ltb (length q.items) q.room
    then (ok tt, record q { items = q.items ++ (v ∷ []) })
    else (err v, q)

abbrev pub pop_bounded : Bounded → Option ℕ × Bounded
pop_bounded q = let (v, rest) = pop_list q.items in (v, record q { items = rest })

pub new_bounded-some :
    (n : ℕ) → 0 < n → (q : Bounded) × (new_bounded n ≡ some q) × (q.items ≡ []) × (q.room ≡ n)
new_bounded-some n h = (record { items = []; room = n }, ground arith, refl, refl)

pub push_bounded_room :
    (v : ℕ) (q : Bounded)
    → length q.items < q.room
    → ((push_bounded v q).0 ≡ ok tt)
      × ((push_bounded v q).1.items ≡ q.items ++ (v ∷ []))
      × ((push_bounded v q).1.room ≡ q.room)
push_bounded_room v q h = ground arith

pub push_bounded_full :
    (v : ℕ) (q : Bounded) → q.room ≤ length q.items → push_bounded v q ≡ (err v, q)
push_bounded_full v q h = ground arith

pub pop_bounded_empty : (q : Bounded) → q.items ≡ [] → pop_bounded q ≡ (none, q)
pop_bounded_empty q e = ground (arith, pop_list_empty q.items e)

pub pop_bounded_first :
    (q : Bounded) (v : ℕ) (vs : List ℕ)
    → q.items ≡ v ∷ vs
    → ((pop_bounded q).0 ≡ some v)
      × ((pop_bounded q).1.items ≡ vs)
      × ((pop_bounded q).1.room ≡ q.room)
pop_bounded_first q v vs e = ground (arith, pop_list_first q.items v vs e)

pub leb_iff : (q : Bounded) → (leb q.room (length q.items) ≡ true) ↔ (q.room ≤ length q.items)
leb_iff q = ground arith

instance abbrev pub bounded : ArrayQueue Bounded ℕ
bounded = record {
  new = new_bounded;
  push = push_bounded;
  pop = pop_bounded;
  is_full = λ q. leb q.room (length q.items);
  contents = λ q. q.items;
  capacity = λ q. q.room;
  new_zero = refl;
  new_some = new_bounded-some;
  push_room = push_bounded_room;
  push_full = push_bounded_full;
  pop_empty = pop_bounded_empty;
  pop_first = pop_bounded_first;
  is_full_iff = leb_iff;
}

abbrev pub idle : Notifier (List ℕ) ℕ
idle = record { generation = 0; wakers = []; woken = [] }
