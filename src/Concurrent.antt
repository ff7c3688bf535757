-- ===== src/Concurrent.antt =====
-- Shared memory: a program is a sequence of atomic accesses, and a schedule says what the other
-- threads do before each of them. Atomic accesses are sequentially consistent.
pub mod Atomic
pub mod Loop
pub mod Progress
pub mod Rely
pub mod Fair
pub mod Served
use postage_rs.Prelude.{List, [], ◌∷◌, ◌≡◌, refl}

-- What the other threads do to the state before each of the accesses to come. When the list is
-- used up, the other threads are silent.
abbrev pub Env : Type 0 → Type 0
Env S = List (S → S)

-- A program over the state `S`: its result, the state that it leaves, and the rest of the schedule.
abbrev pub M : Type 0 → Type 0 → Type 0
M S A = Env S → S → A × S × Env S

module _ {S : Type 0} where
  abbrev pub interfere : Env S → S → S × Env S
  interfere [] s = (s, [])
  interfere (e ∷ es) s = (e s, es)

  abbrev pub atomic : {A : Type 0} → (S → A × S) → M S A
  atomic f es s = let (s', es') = interfere es s in let (a, s'') = f s' in (a, s'', es')

  abbrev pub pure : {A : Type 0} → A → M S A
  pure a es s = (a, s, es)

  infixl 5 ◌>>=◌ ◌>>◌
  abbrev pub ◌>>=◌ : {A B : Type 0} → M S A → (A → M S B) → M S B
  ◌>>=◌ m f es s = let (a, s', es') = m es s in f a es' s'

  abbrev pub ◌>>◌ : {A B : Type 0} → M S A → M S B → M S B
  m >> k = m >>= λ _. k

-- A run that no other thread disturbs.
abbrev pub alone : {S A : Type 0} → M S A → S → A × S
alone m s = let (a, s', es) = m [] s in (a, s')

-- A reference to an object of type `F` that lives in the state, as `&self` is.
pub record Ref (S F : Type 0) : Type 0 where
  pub get : S → F
  pub put : F → S → S
  pub get-put : (x : F) (s : S) → get (put x s) ≡ x
  pub put-get : (s : S) → put (get s) s ≡ s
  pub put-put : (x y : F) (s : S) → put x (put y s) ≡ put x s

-- The whole state.
abbrev pub whole : {S : Type 0} → Ref S S
whole = record {
  get = λ s. s;
  put = λ x s. x;
  get-put = λ x s. refl;
  put-get = λ s. refl;
  put-put = λ x y s. refl;
}

-- The reference to a field of the object that `r` refers to.
module _ {S F G : Type 0} (r : Ref S F) (f : Ref F G) where
  pub get-put_field : (x : G) (s : S) → f.get (r.get (r.put (f.put x (r.get s)) s)) ≡ x
  get-put_field x s = rw (r.get-put) (f.get-put x (r.get s))

  pub put-get_field : (s : S) → r.put (f.put (f.get (r.get s)) (r.get s)) s ≡ s
  put-get_field s = rw (f.put-get) (r.put-get s)

  pub put-put_field :
      (x y : G) (s : S)
      → r.put (f.put x (r.get (r.put (f.put y (r.get s)) s))) (r.put (f.put y (r.get s)) s)
        ≡ r.put (f.put x (r.get s)) s
  put-put_field x y s = rw (r.get-put, r.put-put, f.put-put)

infixl 60 ◌▸◌
abbrev pub ◌▸◌ : {S F G : Type 0} → Ref S F → Ref F G → Ref S G
r ▸ f = record {
  get = λ s. f.get (r.get s);
  put = λ x s. r.put (f.put x (r.get s)) s;
  get-put = get-put_field r f;
  put-get = put-get_field r f;
  put-put = put-put_field r f;
}

-- Two changes of the object that `r` refers to are one.
pub update-update :
    {S F : Type 0} (r : Ref S F) (f g : F → F) (s : S)
    → let s' = r.put (f (r.get s)) s in r.put (g (r.get s')) s' ≡ r.put (g (f (r.get s))) s
update-update r f g s = rw (r.get-put, r.put-put)
