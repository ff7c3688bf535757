-- ===== src/Concurrent/Served.antt =====
-- A loop under a schedule in which whoever makes the task's event happen notifies afterwards.
use mathlib.Core.Path.{subst}
use mathlib.Core.Option.{some-injective}
use postage_rs.Prelude.{
  ℕ, zero, suc, ◌≡◌, refl, Option, none, some, length, arith, sym, Bool, true, false, not, eqb,
  eqb_iff, if◌then◌else◌,
}
use postage_rs.Concurrent.{M, Env}
use postage_rs.Concurrent.Loop.{Control, continue, break, rounds, retry}
use postage_rs.Concurrent.Fair.{Waiter, Fit, Watched, Served, Watched-Served}

-- Variables of which nothing need be known.
abbrev pub Always : {L : Type 0} → L → Type 0
Always l = Unit

-- What a loop returns.
module _ {S A : Type 0} (x : Waiter S) (IsWaiting : A → Type 0) where
  abbrev pub Returns : Option A × S × Env S → Type 0
  Returns (none, s, es) = Unit
  Returns (some a, s, es) = IsWaiting a → Served x es s

-- A loop that hands a fair schedule, and variables of which `Carried` holds, from round to round, until
-- it tells its task to wait.
module _ {S L A : Type 0} (x : Waiter S) (Carried : L → Type 0) (IsWaiting : A → Type 0) where
  abbrev pub Leaves : Control L A × S × Env S → Type 0
  Leaves (continue l, s, es) = Carried l × Fit x 0 es s
  Leaves (break a, s, es) = IsWaiting a → Served x es s

  rounds-Leaves :
      (body : L → M S (Control L A))
      → ((l : L) (es : Env S) (s : S) → Carried l → Fit x 0 es s → Leaves (body l es s))
      → (n : ℕ) (l : L) (es : Env S) (s : S) → Carried l
      → Fit x 0 es s
      → Returns x IsWaiting (rounds body n l es s)
  unfolding rounds
  rounds-Leaves body h zero l es s i r = tt
  rounds-Leaves body h (suc n) l es s i r =
      next (body l es s) (h l es s i r) (λ l' es' s'. rounds-Leaves body h n l' es' s')
    where
      next :
          (y : Control L A × S × Env S)
          → Leaves y
          → ((l' : L) (es' : Env S) (s' : S)
              → Carried l'
              → Fit x 0 es' s'
              → Returns x IsWaiting (rounds body n l' es' s'))
          → Returns x IsWaiting
              (elim y.0 [ continue l' ↦ rounds body n l' y.2 y.1 | break a ↦ (some a, y.1, y.2) ])
      next (continue l', s', es') (i', r') again = again l' es' s' i' r'
      next (break a, s', es') q again = q

  -- A loop whose rounds leave this serves the task that it tells to wait.
  pub retry-Served :
      (body : L → M S (Control L A))
      → ((l : L) (es : Env S) (s : S) → Carried l → Fit x 0 es s → Leaves (body l es s))
      → (l : L) (es : Env S) (s : S) (a : A) → Carried l
      → Fit x 0 es s
      → (retry body l es s).0 ≡ some a
      → IsWaiting a
      → Served x (retry body l es s).2 (retry body l es s).1
  unfolding retry
  retry-Served body h l es s a i r e w =
      given (rounds body (suc (length es)) l es s)
        (rounds-Leaves body h (suc (length es)) l es s i r) e
    where
      given : (y : Option A × S × Env S) → Returns x IsWaiting y → y.0 ≡ some a → Served x y.2 y.1
      given (none, s', es') q e' = cc
      given (some b, s', es') q e' = q (subst IsWaiting (sym (some-injective b a e')) w)

  -- The end of a round: the guard's count is compared once more, and the task waits when it is the
  -- same.
  pub compared :
      (g : ℕ) (l : L) (a : A) (es : Env S) (s : S)
      → Carried l
      → Watched x g es s
      → x.known s
      → Leaves (if not (eqb (x.generation s) g) then continue l else break a, s, es)
  compared g l a es s i h k = go (eqb (x.generation s) g) refl
    where
      go :
          (b : Bool)
          → eqb (x.generation s) g ≡ b
          → Leaves (if not b then continue l else break a, s, es)
      go true e = λ w. Watched-Served x g es s h k ((eqb_iff (x.generation s) g).0 e)
      go false e = let (d, f, le, b, r) = h in (i, (d, f, omega arith, b))
