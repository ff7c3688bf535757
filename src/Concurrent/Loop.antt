-- ===== src/Concurrent/Loop.antt =====
-- The `loop` of a lock-free routine.
use postage_rs.Prelude.{ℕ, zero, suc, ◌≡◌, refl, ap, ◌∙◌, ◌⊎◌, inl, inr, Option, none, some, length}
use postage_rs.Concurrent.{M, Env}

-- How one round of a loop ends; `continue` hands its variables to the next round.
pub data Control (L A : Type 0) : Type 0 where
  continue : L → Control L A
  break : A → Control L A

pub Control-cases :
    {L A : Type 0} (c : Control L A) → ((l : L) × (c ≡ continue l)) ⊎ ((a : A) × (c ≡ break a))
Control-cases (continue l) = inl (l, refl)
Control-cases (break a) = inr (a, refl)

module _ {S L A : Type 0} (body : L → M S (Control L A)) where
  -- `none` means that the rounds ran out.
  unfoldable pub rounds : ℕ → L → M S (Option A)
  rounds zero l es s = (none, s, es)
  rounds (suc n) l es s =
      let (c, s', es') = body l es s in
      elim c [ continue l' ↦ rounds n l' es' s' | break a ↦ (some a, s', es') ]

  -- One round more than the schedule is long.
  unfoldable pub retry : L → M S (Option A)
  unfolding rounds
  retry l es s = rounds (suc (length es)) l es s

module _ {S L A : Type 0} (body : L → M S (Control L A)) where
  pub rounds-continue :
      (n : ℕ) (l l' : L) (es : Env S) (s : S)
      → (body l es s).0 ≡ continue l'
      → rounds body (suc n) l es s ≡ rounds body n l' (body l es s).2 (body l es s).1
  unfolding rounds
  rounds-continue n l l' es s e = λ i. elim (e i) [
    | continue k ↦ rounds body n k (body l es s).2 (body l es s).1
    | break a ↦ (some a, (body l es s).1, (body l es s).2)
  ]

  pub rounds-break :
      (n : ℕ) (l : L) (a : A) (es : Env S) (s : S)
      → (body l es s).0 ≡ break a
      → rounds body (suc n) l es s ≡ (some a, (body l es s).1, (body l es s).2)
  unfolding rounds
  rounds-break n l a es s e = λ i. elim (e i) [
    | continue k ↦ rounds body n k (body l es s).2 (body l es s).1
    | break b ↦ (some b, (body l es s).1, (body l es s).2)
  ]

  -- A round that breaks settles the loop.
  pub retry-break :
      (l : L) (a : A) (es : Env S) (s : S)
      → (body l es s).0 ≡ break a
      → retry body l es s ≡ (some a, (body l es s).1, (body l es s).2)
  unfolding retry
  retry-break l a es s e = rounds-break (length es) l a es s e

  -- The same as one equation.
  pub retry-settled :
      (l : L) (a : A) (es es' : Env S) (s s' : S)
      → body l es s ≡ (break a, s', es')
      → retry body l es s ≡ (some a, s', es')
  retry-settled l a es es' s s' e =
      retry-break l a es s (ap (λ r. r.0) e) ∙ ap (λ r. (some a, r.1, r.2)) e
