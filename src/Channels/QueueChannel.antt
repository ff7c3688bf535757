-- ===== src/Channels/QueueChannel.antt =====
-- What a channel over a bounded queue provides: its operations, one handler each, and the bounded
-- queue that they refine. The theorems on sequences of operations are proved once, from this.
use postage_rs.Prelude.{◌≤◌, ◌≡◌, refl, ap, ◌∙◌, List, [], ◌∷◌, ◌++◌, map, length}
use postage_rs.Channels.BoundedQueue.{BoundedQueue}
use postage_rs.Channels.BoundedQueue.Run
use postage_rs.Channels.BoundedQueue.Run.{Op, Reply, accepted, delivered, run-fifo, run-Fits}

-- `O` is the type of the channel's operations, `S` its state.
pub record QueueChannel (O S W T : Type 0) : Type 0 where
  pub view : S → BoundedQueue W T
  pub to_op : O → Op W T
  pub step : O → S → Reply T × S
  pub step_refines :
      (o : O) (s : S)
      → ((step o s).0 ≡ (Run.step (to_op o) (view s)).0)
        × (view (step o s).1 ≡ (Run.step (to_op o) (view s)).1)

module _ {O S W T : Type 0} (c : QueueChannel O S W T) where
  -- The operations one after another, each undisturbed.
  unfoldable pub run : List O → S → List (Reply T) × S
  run [] s = ([], s)
  run (o ∷ os) s = let (r, s') = c.step o s in let (rs, s'') = run os s' in (r ∷ rs, s'')

  -- Every caller sees what the bounded queue shows it.
  pub run_refines_queue :
      (os : List O) (s : S)
      → let b = Run.run (map c.to_op os) (c.view s) in
        ((run os s).0 ≡ b.0) × (c.view (run os s).1 ≡ b.1)
  unfolding run Run.run
  run_refines_queue [] s = (refl, refl)
  run_refines_queue (o ∷ os) s =
      let (h, h') = c.step_refines o s in
      let (k, k') = run_refines_queue os (c.step o s).1 in
      let later = λ (b : BoundedQueue W T). Run.run (map c.to_op os) b in
      ((λ i. h i ∷ (k ∙ ap (λ b. (later b).0) h') i), k' ∙ ap (λ b. (later b).1) h')

  pub run-fifo_queue :
      (os : List O) (s : S)
      → (c.view s).items ++ accepted (run os s).0
        ≡ delivered (run os s).0 ++ (c.view (run os s).1).items
  run-fifo_queue os s =
      let (h, h') = run_refines_queue os s in rw (h, h') (run-fifo (map c.to_op os) (c.view s))

  pub run-Fits_queue :
      (os : List O) (s : S)
      → length (c.view s).items ≤ (c.view s).capacity
      → (length (c.view (run os s).1).items ≤ (c.view (run os s).1).capacity)
        × ((c.view (run os s).1).capacity ≡ (c.view s).capacity)
  run-Fits_queue os s h =
      let (k, k') = run_refines_queue os s in rw k' (run-Fits (map c.to_op os) (c.view s) h)
