-- ===== src/Sync/StateCell/Locking.antt =====
-- What a state cell keeps between the exchanges of its state.
use postage_rs.Prelude.{
  ◌≡◌, refl, Option, none, some, [], ◌∷◌, ap, ◌∙◌, Bool, true, false, if◌then◌else◌,
}
use postage_rs.Concurrent.{Ref, Env, ◌▸◌}
use postage_rs.Concurrent.Rely.{Relies}
use postage_rs.Concurrent.Atomic.{Word, Result, ok, err, compare_exchange}
use postage_rs.Sync.StateCell.{
  state_field, StateCell, compare_store, store_exchanged, compare_take, take_internal,
}

module _ {S St T : Type 0} ⦃w : Word St⦄ (self : Ref S (StateCell St T)) where
  store-alone :
      (current locked complete : St) (v : T) (s : S)
      → (self.get s).state ≡ current
      → compare_store self current locked v complete [] s
        ≡ (ok current, self.put (record { state = complete; data_cell = some v }) s, [])
  unfolding compare_store store_exchanged
  store-alone current locked complete v s e =
      rw ((w.beq_iff (self.get s).state current).1 e, self.get-put, self.put-put, self.put-put, e)
        refl

  take-alone :
      (current new_state : St) (x : Option T) (s : S)
      → self.get s ≡ record { state = current; data_cell = x }
      → compare_take self current new_state [] s
        ≡ (ok x, self.put (record { state = new_state; data_cell = none }) s, [])
  unfolding compare_take take_internal
  take-alone current new_state x s e =
      rw
        (
          (w.beq_iff (self.get s).state current).1 (ap (λ c. c.state) e),
          self.get-put,
          self.put-put,
          e,
        )
        refl

  -- A value that `compare_store` accepts is the one that a `compare_take` of the completed state
  -- gets, with no other thread in between, and the cell is empty in the new state after it.
  pub store_take_round_trip :
      (current locked complete new_state : St) (v : T) (s : S)
      → (self.get s).state ≡ current
      → let a = compare_store self current locked v complete [] s in
        let b = compare_take self complete new_state [] a.1 in
        (a.0 ≡ ok current)
        × (b.0 ≡ ok (some v))
        × (self.get b.1 ≡ record { state = new_state; data_cell = none })
  store_take_round_trip current locked complete new_state v s e =
      let cell : StateCell St T = record { state = complete; data_cell = some v } in
      rw
        (
          store-alone current locked complete v s e,
          take-alone complete new_state (some v) (self.put cell s) (self.get-put cell s),
        )
        (refl, refl, self.get-put _ _)

  -- What the other threads must respect: they leave a locked cell alone.
  abbrev pub Respects : St → S → S → Type 0
  Respects locked s t = (self.get s).state ≡ locked → self.get t ≡ self.get s

  -- What `compare_store` leaves when it returns.
  abbrev pub Stored : St → T → Result St (St × T) → StateCell St T → Type 0
  Stored complete v (ok s) c = c ≡ record { state = complete; data_cell = some v }
  Stored complete v (err r) c = r.1 ≡ v

  -- The cell is locked after an exchange that succeeded.
  abbrev Held : St → Result St St → S → Type 0
  Held locked (ok _) s = (self.get s).state ≡ locked
  Held locked (err _) s = Unit

  store_exchanged-Stored :
      (locked complete : St) (v : T) (x : Result St St) (es : Env S) (s : S)
      → Relies (Respects locked) es
      → Held locked x s
      → let r = store_exchanged self v complete x es s in Stored complete v r.0 (self.get r.1)
  unfolding store_exchanged
  store_exchanged-Stored locked complete v (err y) es s r h = refl
  store_exchanged-Stored locked complete v (ok y) [] s r h = rw (self.get-put, self.get-put) refl
  store_exchanged-Stored locked complete v (ok y) (a ∷ []) s r h =
      rw (self.get-put, self.get-put) refl
  store_exchanged-Stored locked complete v (ok y) (a ∷ b ∷ es) s r h =
      let c : StateCell St T = record (self.get (a s)) { data_cell = some v } in
      let written : self.get (self.put c (a s)) ≡ c = self.get-put c (a s) in
      let held : (self.get (self.put c (a s))).state ≡ locked =
        ap (λ d. d.state) written ∙ ap (λ d. d.state) (r.0 s h) ∙ h in
      rw (self.get-put, r.1.0 (self.put c (a s)) held, written) refl

  exchanged-Held :
      (b : Bool) (locked : St) (s : S)
      → let c = self.get s in
        let r : Result St St × St = if b then (ok c.state, locked) else (err c.state, c.state) in
        Held locked r.0 (self.put (record c { state = r.1 }) s)
  exchanged-Held true locked s = rw self.get-put refl
  exchanged-Held false locked s = tt

  compare_exchange-Held :
      (current locked : St) (es : Env S) (s : S)
      → let r = compare_exchange (self ▸ state_field) current locked es s in
        Held locked r.0 r.1 × (Relies (Respects locked) es → Relies (Respects locked) r.2)
  compare_exchange-Held current locked [] s = (exchanged-Held _ locked s, λ r. r)
  compare_exchange-Held current locked (a ∷ es) s = (exchanged-Held _ locked (a s), λ r. r.1)

  -- Under every schedule in which the other threads leave a locked cell alone, a `compare_store`
  -- that succeeds leaves the cell complete with its value, and one that fails hands the value back.
  pub compare_store_excludes :
      (current locked complete : St) (v : T) (es : Env S) (s : S)
      → Relies (Respects locked) es
      → let r = compare_store self current locked v complete es s in
        Stored complete v r.0 (self.get r.1)
  unfolding compare_store
  compare_store_excludes current locked complete v es s r =
      let (held, rest) = compare_exchange-Held current locked es s in
      store_exchanged-Stored locked complete v _ _ _ (rest r) held
