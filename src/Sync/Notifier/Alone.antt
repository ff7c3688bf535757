-- ===== src/Sync/Notifier/Alone.antt =====
-- `notify` without interference: every waker is woken, in the order of registration.
use postage_rs.Prelude.{
  ℕ, zero, suc, ◌+◌, ◌%◌, ◌<◌, ◌≡◌, refl, sym, ◌∙◌, inl, inr, List, [], ◌∷◌, ◌++◌, length, arith,
  append-nil, append_assoc,
}
use postage_rs.Queues.{SegQueue}
use postage_rs.Concurrent.{Ref}
use postage_rs.Concurrent.Atomic.{usize_mod}
use postage_rs.Concurrent.Loop.{
  continue, break, rounds, Control-cases, rounds-continue, rounds-break,
}
use postage_rs.Sync.Notifier.{Notifier, pop_and_wake, wake_round, wake_all, notify}

module _ {Q W : Type 0} ⦃sq : SegQueue Q W⦄ where
  -- The first `k` rounds of the wake loop.
  drained : ℕ → Notifier Q W → Notifier Q W
  drained zero n = n
  drained (suc k) n =
      let (c, n') = pop_and_wake n in elim c [ continue _ ↦ drained k n' | break _ ↦ n' ]

  drained-continue :
      (k : ℕ) (n : Notifier Q W) (u : Unit {0})
      → (pop_and_wake n).0 ≡ continue u
      → drained (suc k) n ≡ drained k (pop_and_wake n).1
  unfolding drained
  drained-continue k n u e =
      λ i. elim (e i) [ continue _ ↦ drained k (pop_and_wake n).1 | break _ ↦ (pop_and_wake n).1 ]

  drained-break :
      (k : ℕ) (n : Notifier Q W) (u : Unit {0})
      → (pop_and_wake n).0 ≡ break u
      → drained (suc k) n ≡ (pop_and_wake n).1
  unfolding drained
  drained-break k n u e =
      λ i. elim (e i) [ continue _ ↦ drained k (pop_and_wake n).1 | break _ ↦ (pop_and_wake n).1 ]

  drained_lem :
      (k : ℕ) (n : Notifier Q W) (ws : List W)
      → sq.contents n.wakers ≡ ws
      → length ws < k
      → (sq.contents (drained k n).wakers ≡ [])
        × ((drained k n).woken ≡ n.woken ++ ws)
        × ((drained k n).generation ≡ n.generation)
  unfolding drained pop_and_wake
  drained_lem zero n ws e h = absurd (omega arith)
  drained_lem (suc k) n [] e h = ground (arith, sq.pop_empty n.wakers e, append-nil n.woken)
  drained_lem (suc k) n (w ∷ ws) e h = ground (
    arith,
    sq.pop_first n.wakers w ws e,
    append_assoc n.woken (w ∷ []) ws,
    drained_lem k (record n { wakers = (sq.pop n.wakers).1; woken = n.woken ++ (w ∷ []) }) ws
        (sq.pop_first n.wakers w ws e).1 (omega arith),
  )

  -- The notifier after `notify`.
  pub notified : Notifier Q W → Notifier Q W
  notified n =
      drained (suc (length (sq.contents n.wakers)))
        (record n { generation = (n.generation + 1) % usize_mod })

  pub notified_lem :
      (n : Notifier Q W)
      → (sq.contents (notified n).wakers ≡ [])
        × ((notified n).woken ≡ n.woken ++ sq.contents n.wakers)
        × ((notified n).generation ≡ (n.generation + 1) % usize_mod)
  unfolding notified
  notified_lem n =
      drained_lem (suc (length (sq.contents n.wakers)))
        (record n { generation = (n.generation + 1) % usize_mod }) (sq.contents n.wakers) refl
        (omega arith)

module _ {S Q W : Type 0} ⦃sq : SegQueue Q W⦄ (self : Ref S (Notifier Q W)) where
  -- The loop leaves the notifier that `drained` describes, and an empty schedule.
  rounds-drained :
      (k : ℕ) (s : S)
      → let r = rounds (wake_round self) k tt [] s in
        (r.1 ≡ self.put (drained k (self.get s)) s) × (r.2 ≡ [])
  unfolding wake_round
  rounds-drained zero s = unfold rounds drained in (sym (self.put-get s), refl)
  rounds-drained (suc k) s = elim (Control-cases (pop_and_wake (self.get s)).0) [
    | inl (u, e) ↦
        rw (rounds-continue (wake_round self) k tt u [] s e, drained-continue k (self.get s) u e)
          (let n' = (pop_and_wake (self.get s)).1 in
            let (h, h') = rounds-drained k (self.put n' s) in
            (cc (self.get-put n' s, self.put-put (drained k n') n' s), h'))
    | inr (u, e) ↦
        rw (rounds-break (wake_round self) k tt u [] s e, drained-break k (self.get s) u e)
          (refl, refl)
  ]

  wake_all-alone :
      (s : S)
      → let r = wake_all self [] s in
        (r.1 ≡ self.put (drained (suc (length (sq.contents (self.get s).wakers))) (self.get s)) s)
        × (r.2 ≡ [])
  unfolding wake_all
  wake_all-alone s = rounds-drained (suc (length (sq.contents (self.get s).wakers))) s

  -- The generation after the `fetch_add`.
  advanced : S → S
  advanced s =
      self.put (record (self.get s) { generation = ((self.get s).generation + 1) % usize_mod }) s

  wake_all-advanced :
      (s : S) → (wake_all self [] (advanced s)).1 ≡ self.put (notified (self.get s)) s
  unfolding advanced notified
  wake_all-advanced s = (wake_all-alone (advanced s)).0 ∙ rw (self.get-put) (self.put-put _ _ s)

  pub notify-alone : (s : S) → notify self [] s ≡ (tt, self.put (notified (self.get s)) s, [])
  unfolding notify advanced
  notify-alone s = λ i. (tt, wake_all-advanced s i, (wake_all-alone (advanced s)).1 i)

  -- `notify`, undisturbed, wakes every task that was registered, in the order of registration, leaves
  -- no task registered, and makes the next generation.
  pub notify_wakes_all :
      (s : S)
      → let n = self.get (notify self [] s).1 in
        (sq.contents n.wakers ≡ [])
        × (n.woken ≡ (self.get s).woken ++ sq.contents (self.get s).wakers)
        × (n.generation ≡ ((self.get s).generation + 1) % usize_mod)
  notify_wakes_all s = rw (notify-alone s, self.get-put) (notified_lem (self.get s))
