-- ===== src/Concurrent/Fair.antt =====
-- Schedules in which whoever makes a waiting task's event happen notifies afterwards.
use postage_rs.Prelude.{ℕ, ◌+◌, ◌≤◌, ◌<◌, ◌≡◌, refl, ◌⊎◌, inl, inr, [], ◌∷◌, length, arith}
use postage_rs.Concurrent.{Env, interfere}
use postage_rs.Concurrent.Atomic.{usize_mod}

-- A task that waits for `ready`: whether it is registered or has been woken, and the count of
-- notifications of the notifier that it waits at.
pub record Waiter (S : Type 0) : Type 1 where
  pub known : S → Type 0
  pub woken : S → Type 0
  pub generation : S → ℕ
  pub ready : S → Type 0

-- What the other threads have still to do after they have made the event happen: to count a
-- notification, and then to wake.
pub data Debt : Type 0 where
  clear owed waking : Debt

-- The state after the rest of a schedule.
unfoldable pub settle : {S : Type 0} → Env S → S → S
settle [] s = s
settle (e ∷ es) s = settle es (e s)

module _ {S : Type 0} (x : Waiter S) where
  -- A step forgets no waker, and counts at most one notification.
  pub record Keeps (e : S → S) : Type 0 where
    pub keeps_known : (s : S) → x.known s → x.known (e s)
    pub keeps_woken : (s : S) → x.woken s → x.woken (e s)
    pub grows : (s : S) → x.generation s + 1 < usize_mod → x.generation s ≤ x.generation (e s)
    pub by_one : (s : S) → x.generation s + 1 < usize_mod → x.generation (e s) ≤ x.generation s + 1

  abbrev pub IsQuiet : (S → S) → Type 0
  IsQuiet e = (s : S) → x.ready (e s) → x.ready s

  abbrev pub Counts : (S → S) → Type 0
  Counts e = (s : S) → x.generation s + 1 < usize_mod → x.generation s < x.generation (e s)

  abbrev pub Wakes : (S → S) → Type 0
  Wakes e = (s : S) → x.known s → x.woken (e s)

  -- `makes` is any step, which may make the event happen, `counts` is the increment of the
  -- notification that follows it, `wakes` the wake loop of the notification, and `notifies` all of
  -- these at once. At the end nothing is owed.
  pub data Fair : Debt → Env S → Type 0 where
    done : Fair clear []
    quiet : {d : Debt} {e : S → S} {es : Env S} → Keeps e → IsQuiet e → Fair d es → Fair d (e ∷ es)
    makes : {d : Debt} {e : S → S} {es : Env S} → Keeps e → Fair owed es → Fair d (e ∷ es)
    counts :
        {e : S → S} {es : Env S}
        → Keeps e
        → IsQuiet e
        → Counts e
        → Fair waking es
        → Fair owed (e ∷ es)
    wakes :
        {e : S → S} {es : Env S}
        → Keeps e
        → IsQuiet e
        → Wakes e
        → Fair clear es
        → Fair waking (e ∷ es)
    notifies :
        {d : Debt} {e : S → S} {es : Env S}
        → Keeps e
        → Counts e
        → Wakes e
        → Fair clear es
        → Fair d (e ∷ es)

  -- A fair schedule, too short for the count of notifications to wrap, whose count has reached `g`.
  abbrev pub Fit : ℕ → Env S → S → Type 0
  Fit g es s =
      (d : Debt) × Fair d es × (g ≤ x.generation s) × (x.generation s + length es < usize_mod)

  -- The event had not happened when the count was `g`, unless a notification is still owed.
  abbrev pub Watched : ℕ → Env S → S → Type 0
  Watched g es s =
      (d : Debt) × Fair d es
      × (g ≤ x.generation s)
      × (x.generation s + length es < usize_mod)
      × ((g < x.generation s) ⊎ (x.ready s → d ≡ owed))

  -- The task is not forgotten: once the schedule is over it has been woken, if the event has happened.
  abbrev pub Served : Env S → S → Type 0
  Served es s = x.known (settle es s) × (x.ready (settle es s) → x.woken (settle es s))

  pub Fit-interfere :
      (g : ℕ) (es : Env S) (s : S) → Fit g es s → Fit g (interfere es s).1 (interfere es s).0
  Fit-interfere g [] s h = h
  Fit-interfere g (e ∷ es) s (d, f, le, b) = next d f
    where
      kept : Keeps e → (g ≤ x.generation (e s)) × (x.generation (e s) + length es < usize_mod)
      kept k =
          let step : x.generation s + 1 < usize_mod = omega (arith, b) in
          (omega (arith, le, k.grows s step), omega (arith, b, k.by_one s step))

      next : (d' : Debt) → Fair d' (e ∷ es) → Fit g es (e s)
      next d' (quiet k q f') = (d', f', (kept k).0, (kept k).1)
      next d' (makes k f') = (owed, f', (kept k).0, (kept k).1)
      next owed (counts k q c f') = (waking, f', (kept k).0, (kept k).1)
      next waking (wakes k q w f') = (clear, f', (kept k).0, (kept k).1)
      next d' (notifies k c w f') = (clear, f', (kept k).0, (kept k).1)

  -- An event that has not happened is watched from there on.
  pub Watched-start : (g : ℕ) (es : Env S) (s : S) → Fit g es s → ¬ x.ready s → Watched g es s
  Watched-start g es s (d, f, le, b) h = (d, f, le, b, inr (λ r. absurd (h r)))

  pub Watched-interfere :
      (g : ℕ) (es : Env S) (s : S)
      → Watched g es s
      → Watched g (interfere es s).1 (interfere es s).0
  Watched-interfere g [] s h = h
  Watched-interfere g (e ∷ es) s (d, f, le, b, h) = next d f h
    where
      step : x.generation s + 1 < usize_mod
      step = omega (arith, b)

      low : Keeps e → g ≤ x.generation (e s)
      low k = omega (arith, le, k.grows s step)

      room : Keeps e → x.generation (e s) + length es < usize_mod
      room k = omega (arith, b, k.by_one s step)

      still :
          (d' d2 : Debt)
          → Keeps e
          → IsQuiet e
          → (d' ≡ owed → d2 ≡ owed)
          → (g < x.generation s) ⊎ (x.ready s → d' ≡ owed)
          → (g < x.generation (e s)) ⊎ (x.ready (e s) → d2 ≡ owed)
      still d' d2 k q t (inl l) = inl (omega (arith, l, k.grows s step))
      still d' d2 k q t (inr r) = inr (λ y. t (r (q s y)))

      next :
          (d' : Debt)
          → Fair d' (e ∷ es)
          → (g < x.generation s) ⊎ (x.ready s → d' ≡ owed)
          → Watched g es (e s)
      next d' (quiet k q f') r = (d', f', low k, room k, still d' d' k q (λ y. y) r)
      next d' (makes k f') r = (owed, f', low k, room k, inr (λ y. refl))
      next owed (counts k q c f') r = (waking, f', low k, room k, inl (omega (arith, le, c s step)))
      next waking (wakes k q w f') r = (clear, f', low k, room k, still waking clear k q clash r)
        where
          clash : waking ≡ owed → clear ≡ owed
          clash p = cc
      next d' (notifies k c w f') r = (clear, f', low k, room k, inl (omega (arith, le, c s step)))

  -- A registered task, of which the event has not happened unless a notification is still owed.
  abbrev pub Told : Debt → S → Type 0
  Told d s = x.known s × (x.ready s → (¬ (d ≡ clear)) ⊎ x.woken s)

  Told-Served : (d : Debt) (es : Env S) (s : S) → Fair d es → Told d s → Served es s
  unfolding settle
  Told-Served d [] s done (k, r) = (k, λ y. told (r y))
    where
      told : (¬ (clear ≡ clear)) ⊎ x.woken s → x.woken s
      told (inl n) = absurd (n refl)
      told (inr w) = w
  Told-Served d (e ∷ es) s (quiet k q f) (h, r) =
      Told-Served d es (e s) f (k.keeps_known s h, λ y. keep (r (q s y)))
    where
      keep : (¬ (d ≡ clear)) ⊎ x.woken s → (¬ (d ≡ clear)) ⊎ x.woken (e s)
      keep (inl n) = inl n
      keep (inr w) = inr (k.keeps_woken s w)
  Told-Served d (e ∷ es) s (makes k f) (h, r) =
      Told-Served owed es (e s) f (k.keeps_known s h, λ y. inl (λ p. cc))
  Told-Served d (e ∷ es) s (counts k q c f) (h, r) =
      Told-Served waking es (e s) f (k.keeps_known s h, λ y. inl (λ p. cc))
  Told-Served d (e ∷ es) s (wakes k q w f) (h, r) =
      Told-Served clear es (e s) f (k.keeps_known s h, λ y. inr (w s h))
  Told-Served d (e ∷ es) s (notifies k c w f) (h, r) =
      Told-Served clear es (e s) f (k.keeps_known s h, λ y. inr (w s h))

  -- A task that is registered and finds the count unchanged is served.
  pub Watched-Served :
      (g : ℕ) (es : Env S) (s : S) → Watched g es s → x.known s → x.generation s ≡ g → Served es s
  Watched-Served g es s (d, f, le, b, inl l) k e = absurd (omega (arith, l, e))
  Watched-Served g es s (d, f, le, b, inr r) k e =
      Told-Served d es s f (k, λ y. inl (λ p. unlike d (r y) p))
    where
      unlike : (d' : Debt) → d' ≡ owed → d' ≡ clear → ⊥
      unlike d' p q = cc

  first-Keeps : (d : Debt) (e : S → S) (es : Env S) → Fair d (e ∷ es) → Keeps e
  first-Keeps d e es (quiet k q f) = k
  first-Keeps d e es (makes k f) = k
  first-Keeps d e es (counts k q c f) = k
  first-Keeps d e es (wakes k q w f) = k
  first-Keeps d e es (notifies k c w f) = k

  pub known-interfere :
      (g : ℕ) (es : Env S) (s : S) → Watched g es s → x.known s → x.known (interfere es s).0
  known-interfere g [] s h k = k
  known-interfere g (e ∷ es) s (d, f, le, b, r) k = (first-Keeps d e es f).keeps_known s k

  -- A step of the task's own that counts nothing and does not make the event happen.
  pub Watched-own :
      (g : ℕ) (es : Env S) (s t : S)
      → x.generation t ≡ x.generation s
      → (x.ready t → x.ready s)
      → Watched g es s
      → Watched g es t
  Watched-own g es s t e q (d, f, le, b, inl l) =
      (d, f, omega (arith, le, e), omega (arith, b, e), inl (omega (arith, l, e)))
  Watched-own g es s t e q (d, f, le, b, inr r) =
      (d, f, omega (arith, le, e), omega (arith, b, e), inr (λ y. r (q y)))

  pub Fair-interfere :
      (d : Debt) (es : Env S) (s : S) → Fair d es → (d' : Debt) × Fair d' (interfere es s).1
  Fair-interfere d [] s f = (d, f)
  Fair-interfere d (e ∷ es) s (quiet k q f) = (d, f)
  Fair-interfere d (e ∷ es) s (makes k f) = (owed, f)
  Fair-interfere d (e ∷ es) s (counts k q c f) = (waking, f)
  Fair-interfere d (e ∷ es) s (wakes k q w f) = (clear, f)
  Fair-interfere d (e ∷ es) s (notifies k c w f) = (clear, f)

  pub known-Fair :
      (d : Debt) (es : Env S) (s : S) → Fair d es → x.known s → x.known (interfere es s).0
  known-Fair d [] s f k = k
  known-Fair d (e ∷ es) s f k = (first-Keeps d e es f).keeps_known s k

  -- A registered task whose event has not happened is served.
  pub unready-Served :
      (d : Debt) (es : Env S) (s : S) → Fair d es → x.known s → ¬ x.ready s → Served es s
  unready-Served d es s f k n = Told-Served d es s f (k, λ y. absurd (n y))
