-- ===== src/Concurrent/Rely.antt =====
-- Rely reasoning: a postcondition that holds whatever the other threads do, within a relation.
use postage_rs.Prelude.{ℕ, zero, suc, Option, none, some, length, [], ◌∷◌, All}
use postage_rs.Concurrent.{M, Env, atomic, pure, ◌>>=◌}
use postage_rs.Concurrent.Loop.{Control, continue, break, rounds, retry}

module _ {S L A : Type 0} where
  -- What a round leaves: the loop's invariant, or the postcondition.
  abbrev pub After : (L → S → Type 0) → (A → S → Type 0) → Control L A → S → Type 0
  After I Q (continue l) s = I l s
  After I Q (break a) s = Q a s

module _ {S A : Type 0} where
  abbrev pub Returned : (A → S → Type 0) → Option A → S → Type 0
  Returned Q none s = Unit
  Returned Q (some a) s = Q a s

module _ {S : Type 0} (R : S → S → Type 0) where
  -- Everything that the other threads still do lies in `R`.
  abbrev pub Relies : Env S → Type 0
  Relies = All (λ (e : S → S). (s : S) → R s (e s))

  -- The other threads keep `P`.
  abbrev pub Stable : (S → Type 0) → Type 0
  Stable P = (s t : S) → R s t → P s → P t

  -- Started where `P` holds, the program ends where `Q` holds of its result and the state.
  abbrev pub Triple : {A : Type 0} → (S → Type 0) → M S A → (A → S → Type 0) → Type 0
  Triple P m Q =
      (es : Env S) (s : S) → Relies es → P s → Q (m es s).0 (m es s).1 × Relies (m es s).2

  pub Triple-atomic :
      {A : Type 0} (P : S → Type 0) (f : S → A × S) (Q : A → S → Type 0)
      → Stable P
      → ((s : S) → P s → Q (f s).0 (f s).1)
      → Triple P (atomic f) Q
  Triple-atomic P f Q st h [] s r p = (h s p, tt)
  Triple-atomic P f Q st h (e ∷ es) s r p = (h (e s) (st s (e s) (r.0 s) p), r.1)

  pub Triple-pure :
      {A : Type 0} (P : S → Type 0) (a : A) (Q : A → S → Type 0)
      → ((s : S) → P s → Q a s)
      → Triple P (pure a) Q
  Triple-pure P a Q h es s r p = (h s p, r)

  pub Triple-bind :
      {A B : Type 0} (P : S → Type 0) (m : M S A) (f : A → M S B) (Q : A → S → Type 0)
      (Z : B → S → Type 0)
      → Triple P m Q
      → ((a : A) → Triple (Q a) (f a) Z)
      → Triple P (m >>= f) Z
  Triple-bind P m f Q Z h k es s r p =
      let (q, r') = h es s r p in k (m es s).0 (m es s).2 (m es s).1 r' q

  module _ {L A : Type 0} (body : L → M S (Control L A)) where
    pub Triple-rounds :
        (I : L → S → Type 0) (Q : A → S → Type 0)
        → ((l : L) → Triple (I l) (body l) (After I Q))
        → (n : ℕ) (l : L) → Triple (I l) (rounds body n l) (Returned Q)
    unfolding rounds
    Triple-rounds I Q h zero l es s r p = (tt, r)
    Triple-rounds I Q h (suc n) l es s r p =
        next (body l es s).0 (h l es s r p)
          (λ l'. Triple-rounds I Q h n l' (body l es s).2 (body l es s).1)
      where
        next :
            (c : Control L A)
            → After I Q c (body l es s).1 × Relies (body l es s).2
            → ((l' : L)
                → Relies (body l es s).2
                → I l' (body l es s).1
                → let x : Option A × S × Env S = rounds body n l' (body l es s).2 (body l es s).1 in
                  Returned Q x.0 x.1 × Relies x.2)
            → let x : Option A × S × Env S = elim c [
              | continue l' ↦ rounds body n l' (body l es s).2 (body l es s).1
              | break a ↦ (some a, (body l es s).1, (body l es s).2)
            ] in
              Returned Q x.0 x.1 × Relies x.2
        next (continue l') (i, r') again = again l' r' i
        next (break a) q again = q

    pub Triple-retry :
        (I : L → S → Type 0) (Q : A → S → Type 0)
        → ((l : L) → Triple (I l) (body l) (After I Q))
        → (l : L) → Triple (I l) (retry body l) (Returned Q)
    unfolding retry
    Triple-retry I Q h l es s r p = Triple-rounds I Q h (suc (length es)) l es s r p

-- The relation that allows everything.
abbrev pub Anything : {S : Type 0} → S → S → Type 0
Anything s t = Unit

pub Relies-any : {S : Type 0} (es : Env S) → Relies Anything es
Relies-any [] = tt
Relies-any (e ∷ es) = (λ s. tt, Relies-any es)
