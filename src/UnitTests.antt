-- ===== src/UnitTests.antt =====
-- The unit tests of the repository as data: the calls that a test makes and what it asserts of
-- them, to be run on the model. A test that passes says that the model does what the code is
-- tested for.
pub mod Broadcast
pub mod Mpsc
pub mod Dispatch
pub mod Oneshot
pub mod Barrier
pub mod Watch
pub mod Futures
pub mod Messages
use postage_rs.Prelude.{ℕ, suc, ◌≡◌, List, [], ◌∷◌, eqb, if◌then◌else◌}
use postage_rs.Context.{Context, from_waker}

-- `expect` is an `assert_eq` of a call, `call` a call whose result is not looked at, and `woken` an
-- `assert_eq` of how often a waker has been woken.
pub data Line (C R : Type 0) : Type 0 where
  expect : R → C → Line C R
  call : C → Line C R
  woken : ℕ → ℕ → Line C R

-- How to make a call, and the wakers woken so far.
pub record Driver (C R S : Type 0) : Type 0 where
  pub step : C → S → R × S
  pub wakes : S → List ℕ

pub record UnitTest (C R S : Type 0) : Type 0 where
  pub start : S
  pub lines : List (Line C R)

pub data Seen (R : Type 0) : Type 0 where
  reply : R → Seen R
  count : ℕ → Seen R

-- The waker of `panic_context`, which must not be woken.
abbrev panicking : ℕ
panicking = 0

abbrev pub panic_context : Context ℕ
panic_context = from_waker panicking

abbrev times : ℕ → List ℕ → ℕ
times w [] = 0
times w (x ∷ xs) = if eqb x w then suc (times w xs) else times w xs

module _ {C R : Type 0} where
  abbrev expected : List (Line C R) → List (Seen R)
  expected [] = count 0 ∷ []
  expected (expect r c ∷ ls) = reply r ∷ expected ls
  expected (call c ∷ ls) = expected ls
  expected (woken n w ∷ ls) = count n ∷ expected ls

module _ {C R S : Type 0} (d : Driver C R S) where
  abbrev seen : List (Line C R) → S → List (Seen R)
  seen [] s = count (times panicking (d.wakes s)) ∷ []
  seen (expect r c ∷ ls) s = let (r', s') = d.step c s in reply r' ∷ seen ls s'
  seen (call c ∷ ls) s = let (r', s') = d.step c s in seen ls s'
  seen (woken n w ∷ ls) s = count (times w (d.wakes s)) ∷ seen ls s

  -- Every assertion holds, and no `panic_context` is woken.
  abbrev pub Passes : UnitTest C R S → Type 0
  Passes t = seen t.lines t.start ≡ expected t.lines
