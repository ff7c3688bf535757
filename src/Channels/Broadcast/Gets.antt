-- ===== src/Channels/Broadcast/Gets.antt =====
-- What a log delivers to a receiver: a stretch of the values sent, in order and without gaps.
use postage_rs.Prelude.{
  ◌⊎◌, ℕ, suc, ◌+◌, ◌-◌, ◌<◌, ◌≡◌, refl, sym, ap, ◌∙◌, Option, some, none, List, [], ◌∷◌, ◌++◌,
  arith, eqb, if◌then◌else◌, get_elem?, set, take, All, inl, inr, Option-cases,
  get_elem?-append_left, get_elem?-some_lt, append_assoc, append-nil, take-suc, get_elem?-set_ne,
  get_elem?-set_eq, Bool-cases, eqb_self, eqb_iff,
}
use postage_rs.Stream.{PollRecv}
use postage_rs.Sink.{PollSend}
use postage_rs.Channels.Broadcast.Log.{
  BroadcastLog, Call, send, recv, clone_rx, drop_rx, clone_tx, drop_tx, Reply, sent, received,
  send_log, recv_at, recv_from, clone_at, drop_at, step_log, run_log,
}

module _ {W T : Type 0} where
  -- The call drops no receiver, so that the others keep their indices.
  abbrev pub KeepsReceivers : Call W T → Type 0
  KeepsReceivers (drop_rx i) = ⊥
  KeepsReceivers c = Unit

module _ {T : Type 0} where
  abbrev pub accepted_by : Reply T → List T
  accepted_by (sent v PollSend.ready) = v ∷ []
  accepted_by r = []

  -- The values that `poll_send` has accepted.
  abbrev pub accepted : List (Reply T) → List T
  accepted [] = []
  accepted (r ∷ rs) = accepted_by r ++ accepted rs

  abbrev pub delivered_by : ℕ → Reply T → List T
  delivered_by i (received j (PollRecv.ready v)) = if eqb j i then v ∷ [] else []
  delivered_by i r = []

  -- The values that the receiver of index `i` has got.
  abbrev pub delivered_to : ℕ → List (Reply T) → List T
  delivered_to i [] = []
  delivered_to i (r ∷ rs) = delivered_by i r ++ delivered_to i rs

  -- The receiver of index `i`, at `p`, gets `got` and is then where `ps` has it, out of a log
  -- that holds `all` at the end.
  abbrev pub Gets : ℕ → ℕ → List T → List T → List ℕ → Type 0
  Gets i p got all ps =
      (q : ℕ) × (0 < q) × (get_elem? ps i ≡ some q) × (take (p - 1) all ++ got ≡ take (q - 1) all)

  Gets-none :
      (i p : ℕ) (got all : List T) (ps : List ℕ)
      → got ≡ []
      → 0 < p
      → get_elem? ps i ≡ some p
      → Gets i p got all ps
  Gets-none i p got all ps h k e = (p, k, e, rw h (append-nil (take (p - 1) all)))

  Gets-value :
      (i p : ℕ) (v : T) (l : BroadcastLog T) (rest : List T)
      → 0 < p
      → get_elem? l.positions i ≡ some p
      → get_elem? l.items (p - 1) ≡ some v
      → Gets i p (v ∷ []) (l.items ++ rest) (set l.positions i (p + 1))
  Gets-value i p v l rest h e e' = (
    p + 1,
    omega arith,
    get_elem?-set_eq l.positions i p (p + 1) e,
    take-suc (p - 1) (l.items ++ rest) v
          (get_elem?-append_left l.items rest (p - 1) (get_elem?-some_lt l.items (p - 1) v e') ∙ e')
        ∙ ap (λ k. take k (l.items ++ rest)) next,
  )
    where
      next : suc (p - 1) ≡ p + 1 - 1
      next = omega arith

  -- A read, of any receiver, accepts nothing.
  recv_at-items :
      (j : ℕ) (at : Option ℕ) (l : BroadcastLog T)
      → let r = recv_at j at l in l.items ++ accepted_by r.0 ≡ r.1.items
  unfolding recv_at recv_from
  recv_at-items j none l = append-nil l.items
  recv_at-items j (some k) l = elim (Option-cases (get_elem? l.items (k - 1))) [
    | inl e ↦ ground (arith, e, append-nil l.items)
    | inr (v, e) ↦ ground (arith, e, append-nil l.items)
  ]

  recv_at-other :
      (i j p : ℕ) (at : Option ℕ) (l : BroadcastLog T)
      → ¬ (j ≡ i)
      → get_elem? l.positions i ≡ some p
      → let r = recv_at j at l in (get_elem? r.1.positions i ≡ some p) × (delivered_by i r.0 ≡ [])
  unfolding recv_at recv_from
  recv_at-other i j p none l h e = (e, refl)
  recv_at-other i j p (some k) l h e = elim (Option-cases (get_elem? l.items (k - 1))) [
    | inl e' ↦ ground (arith, e')
    | inr (v, e') ↦ ground (arith, e', get_elem?-set_ne l.positions i j (k + 1) h)
  ]

  recv_at-Gets :
      (i j p : ℕ) (l : BroadcastLog T) (rest : List T)
      → 0 < p
      → get_elem? l.positions i ≡ some p
      → let r = recv_at j (get_elem? l.positions j) l in
        Gets i p (delivered_by i r.0) (r.1.items ++ rest) r.1.positions
  recv_at-Gets i j p l rest h e = elim (Bool-cases (eqb j i)) [
    | inr h' ↦
        let (e', e'') =
          recv_at-other i j p (get_elem? l.positions j) l (λ eq. absurd (ground (arith, eq, h')))
            e in
        Gets-none i p _ _ _ e'' h e'
    | inl eq ↦ rw ((eqb_iff j i).0 eq, e) (own (Option-cases (get_elem? l.items (p - 1))))
  ]
    where
      own :
          (get_elem? l.items (p - 1) ≡ none) ⊎ ((v : T) × (get_elem? l.items (p - 1) ≡ some v))
          → let r = recv_at i (some p) l in
            Gets i p (delivered_by i r.0) (r.1.items ++ rest) r.1.positions
      own (inl e') =
          unfold recv_at recv_from in rw e' (Gets-none i p _ _ l.positions (ground arith) h e)
      own (inr (v, e')) =
          unfold recv_at recv_from in rw (e', eqb_self i) (Gets-value i p v l rest h e e')

  grown :
      (i : ℕ) (ps : List ℕ) (p : ℕ) (l : BroadcastLog T)
      → get_elem? l.positions i ≡ some p
      → get_elem? (l.positions ++ ps) i ≡ some p
  grown i ps p l e =
      get_elem?-append_left l.positions ps i (get_elem?-some_lt l.positions i p e) ∙ e

  clone_at-Gets :
      (i p : ℕ) (at : Option ℕ) (l : BroadcastLog T) (rest : List T)
      → 0 < p
      → get_elem? l.positions i ≡ some p
      → let r = clone_at at l in Gets i p (delivered_by i r.0) (r.1.items ++ rest) r.1.positions
  unfolding clone_at
  clone_at-Gets i p none l rest h e = Gets-none i p [] _ _ refl h e
  clone_at-Gets i p (some k) l rest h e = Gets-none i p [] _ _ refl h (grown i (k ∷ []) p l e)

  send_log-positions : (v : T) (l : BroadcastLog T) → (send_log v l).1.positions ≡ l.positions
  unfolding send_log
  send_log-positions v l = ground arith

module _ {W T : Type 0} where
  step_log-items :
      (c : Call W T) (l : BroadcastLog T)
      → let r = step_log c l in l.items ++ accepted_by r.0 ≡ r.1.items
  unfolding step_log send_log clone_at drop_at
  step_log-items (send cx v) l = ground (arith, append-nil l.items)
  step_log-items (recv cx j) l = recv_at-items j (get_elem? l.positions j) l
  step_log-items (clone_rx j) l = ground (arith, append-nil l.items)
  step_log-items (drop_rx j) l = ground (arith, append-nil l.items)
  step_log-items c l = append-nil l.items

  step_log-Gets :
      (c : Call W T) (i p : ℕ) (l : BroadcastLog T) (rest : List T)
      → KeepsReceivers c
      → 0 < p
      → get_elem? l.positions i ≡ some p
      → let r = step_log c l in Gets i p (delivered_by i r.0) (r.1.items ++ rest) r.1.positions
  unfolding step_log
  step_log-Gets (send cx v) i p l rest k h e =
      Gets-none i p [] _ (send_log v l).1.positions refl h
        (ap (λ ps. get_elem? ps i) (send_log-positions v l) ∙ e)
  step_log-Gets (recv cx j) i p l rest k h e = recv_at-Gets i j p l rest h e
  step_log-Gets (clone_rx j) i p l rest k h e =
      clone_at-Gets i p (get_elem? l.positions j) l rest h e
  step_log-Gets (drop_rx j) i p l rest k h e = elim k [ ]
  step_log-Gets Call.subscribe i p l rest k h e = Gets-none i p [] _ _ refl h (grown i _ p l e)
  step_log-Gets clone_tx i p l rest k h e = Gets-none i p [] _ _ refl h e
  step_log-Gets drop_tx i p l rest k h e = Gets-none i p [] _ _ refl h e

  all_got :
      (c : Call W T) (l : BroadcastLog T) (i : ℕ) (got later : List T) (p q q' : ℕ)
      → let r = step_log c l in
        let all = r.1.items ++ later in
        take (p - 1) all ++ delivered_by i r.0 ≡ take (q - 1) all
        → take (q - 1) all ++ got ≡ take (q' - 1) all
        → let all' = l.items ++ (accepted_by r.0 ++ later) in
          take (p - 1) all' ++ (delivered_by i r.0 ++ got) ≡ take (q' - 1) all'
  all_got c l i got later p q q' e e' =
      rw (← append_assoc l.items (accepted_by (step_log c l).0) later, step_log-items c l)
        (sym (append_assoc _ (delivered_by i (step_log c l).0) got) ∙ ap (λ xs. xs ++ got) e ∙ e')

  pub run_log-Gets :
      (calls : List (Call W T)) (i p : ℕ) (l : BroadcastLog T)
      → All KeepsReceivers calls
      → 0 < p
      → get_elem? l.positions i ≡ some p
      → let r = run_log calls l in
        Gets i p (delivered_to i r.0) (l.items ++ accepted r.0) r.1.positions
  unfolding run_log
  run_log-Gets [] i p l k h e = Gets-none i p [] _ _ refl h e
  run_log-Gets (c ∷ calls) i p l (k, ks) h e =
      let r = step_log c l in
      let rs = run_log calls r.1 in
      let (q, hq, at, got) = step_log-Gets c i p l (accepted rs.0) k h e in
      let (q', hq', at', got') = run_log-Gets calls i q r.1 ks hq at in
      (q', hq', at', all_got c l i (delivered_to i rs.0) (accepted rs.0) p q q' got got')
