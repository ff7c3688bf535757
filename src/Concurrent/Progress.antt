-- ===== src/Concurrent/Progress.antt =====
-- Loops that end: a round consumes the schedule, and a round that nothing disturbs does not continue.
use postage_rs.Prelude.{
  if◌then◌else◌, Bool, true, false, ℕ, zero, suc, ◌-◌, ◌≤◌, ◌<◌, ◌≡◌, inl, inr, some, length, [],
  ◌∷◌, arith,
}
use postage_rs.Concurrent.{M, Env, atomic, pure, ◌>>=◌}
use postage_rs.Concurrent.Loop.{
  Control, continue, break, rounds, retry, Control-cases, rounds-continue, rounds-break,
}

module _ {S : Type 0} where
  -- The program makes at least one access.
  abbrev pub Accesses : {A : Type 0} → M S A → Type 0
  Accesses m = (es : Env S) (s : S) → length (m es s).2 ≤ length es - 1

  -- The program adds nothing to the schedule.
  abbrev pub Advances : {A : Type 0} → M S A → Type 0
  Advances m = (es : Env S) (s : S) → length (m es s).2 ≤ length es

  pub Accesses-atomic : {A : Type 0} (f : S → A × S) → Accesses (atomic f)
  Accesses-atomic f [] s = omega arith
  Accesses-atomic f (e ∷ es) s = omega arith

  pub Advances-pure : {A : Type 0} (a : A) → Advances (pure {S = S} a)
  Advances-pure a es s = omega arith

  pub Advances-of_Accesses : {A : Type 0} (m : M S A) → Accesses m → Advances m
  Advances-of_Accesses m h es s = omega (arith, h es s)

  pub Accesses-bind :
      {A B : Type 0} (m : M S A) (f : A → M S B)
      → Accesses m
      → ((a : A) → Advances (f a))
      → Accesses (m >>= f)
  Accesses-bind m f h k es s = omega (arith, h es s, k (m es s).0 (m es s).2 (m es s).1)

  pub Advances-bind :
      {A B : Type 0} (m : M S A) (f : A → M S B)
      → Advances m
      → ((a : A) → Advances (f a))
      → Advances (m >>= f)
  Advances-bind m f h k es s = omega (arith, h es s, k (m es s).0 (m es s).2 (m es s).1)

module _ {S L A : Type 0} (body : L → M S (Control L A)) where
  abbrev pub Breaks : Control L A → Type 0
  Breaks (continue l) = ⊥
  Breaks (break a) = Unit

  pub rounds_total :
      ((l : L) → Accesses (body l))
      → ((l : L) (s : S) → Breaks (body l [] s).0)
      → (n : ℕ) (l : L) (es : Env S) (s : S) → length es < n
      → (a : A) × ((rounds body n l es s).0 ≡ some a)
  unfolding rounds
  rounds_total acc quiet zero l es s h = absurd (omega arith)
  rounds_total acc quiet (suc n) l [] s h = elim (Control-cases (body l [] s).0) [
    | inl (l', e) ↦ absurd (rw e at (quiet l s))
    | inr (a, e) ↦ (a, ground arith)
  ]
  rounds_total acc quiet (suc n) l (e ∷ es) s h = elim (Control-cases (body l (e ∷ es) s).0) [
    | inl (l', q) ↦
        let (a, r) =
          rounds_total acc quiet n l' (body l (e ∷ es) s).2 (body l (e ∷ es) s).1
            (omega (arith, acc l (e ∷ es) s)) in
        (a, ground arith)
    | inr (a, q) ↦ (a, ground arith)
  ]

  -- `retry` always ends by a `break`.
  pub retry_total :
      ((l : L) → Accesses (body l))
      → ((l : L) (s : S) → Breaks (body l [] s).0)
      → (l : L) (es : Env S) (s : S) → (a : A) × ((retry body l es s).0 ≡ some a)
  unfolding retry
  retry_total acc quiet l es s = rounds_total acc quiet (suc (length es)) l es s (omega arith)

  pub Advances-rounds : ((l : L) → Accesses (body l)) → (n : ℕ) (l : L) → Advances (rounds body n l)
  unfolding rounds
  Advances-rounds acc zero l es s = omega arith
  Advances-rounds acc (suc n) l es s = elim (Control-cases (body l es s).0) [
    | inl (l', q) ↦
        rw (rounds-continue body n l l' es s q)
          (omega (arith, acc l es s, Advances-rounds acc n l' (body l es s).2 (body l es s).1))
    | inr (a, q) ↦ rw (rounds-break body n l a es s q) (omega (arith, acc l es s))
  ]

module _ {S A : Type 0} where
  pub Advances-if :
      (b : Bool) (m k : M S A) → Advances m → Advances k → Advances (if b then m else k)
  Advances-if true m k h h' = h
  Advances-if false m k h h' = h'
