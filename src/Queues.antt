-- ===== src/Queues.antt =====
-- What the library uses of crossbeam's queues: the operations, and the documented behaviour of them
-- in terms of the contents, oldest first. They are parameters of everything that uses them.
use postage_rs.Prelude.{
  ℕ, ◌<◌, ◌≤◌, Bool, true, ◌≡◌, ◌↔◌, Option, none, some, List, [], ◌∷◌, ◌++◌, length,
}
use postage_rs.Concurrent.Atomic.{Result, ok, err}

-- `crossbeam_queue::SegQueue<W>`, an unbounded queue.
pub record SegQueue (Q W : Type 0) : Type 0 where
  pub new : Q
  pub push : W → Q → Q
  pub pop : Q → Option W × Q
  pub contents : Q → List W
  pub contents-new : contents new ≡ []
  pub contents-push : (w : W) (q : Q) → contents (push w q) ≡ contents q ++ (w ∷ [])
  pub pop_empty : (q : Q) → contents q ≡ [] → pop q ≡ (none, q)
  pub pop_first :
      (q : Q) (w : W) (ws : List W)
      → contents q ≡ w ∷ ws
      → ((pop q).0 ≡ some w) × (contents (pop q).1 ≡ ws)

-- `crossbeam_queue::ArrayQueue<T>`, a queue of fixed capacity.
pub record ArrayQueue (Q T : Type 0) : Type 0 where
  -- `none` is the panic at capacity 0.
  pub new : ℕ → Option Q
  pub push : T → Q → Result (Unit {0}) T × Q
  pub pop : Q → Option T × Q
  pub is_full : Q → Bool
  pub contents : Q → List T
  pub capacity : Q → ℕ
  pub new_zero : new 0 ≡ none
  pub new_some : (n : ℕ) → 0 < n → (q : Q) × (new n ≡ some q) × (contents q ≡ []) × (capacity q ≡ n)
  pub push_room :
      (v : T) (q : Q)
      → length (contents q) < capacity q
      → ((push v q).0 ≡ ok tt)
        × (contents (push v q).1 ≡ contents q ++ (v ∷ []))
        × (capacity (push v q).1 ≡ capacity q)
  pub push_full : (v : T) (q : Q) → capacity q ≤ length (contents q) → push v q ≡ (err v, q)
  pub pop_empty : (q : Q) → contents q ≡ [] → pop q ≡ (none, q)
  pub pop_first :
      (q : Q) (v : T) (vs : List T)
      → contents q ≡ v ∷ vs
      → ((pop q).0 ≡ some v) × (contents (pop q).1 ≡ vs) × (capacity (pop q).1 ≡ capacity q)
  pub is_full_iff : (q : Q) → (is_full q ≡ true) ↔ (capacity q ≤ length (contents q))
