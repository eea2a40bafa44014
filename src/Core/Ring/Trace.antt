-- ===== src/Core/Ring/Trace.antt =====
-- include/sensorforge/core/spsc_ring.hpp: sequences of calls against the bounded queue.
use av_hil_validation_platfo.Base.Lists.{length}
use av_hil_validation_platfo.Core.Ring.{
  SpscRing, empty_ring, try_push, try_pop, force_push_overwrite, size_approx,
}
use av_hil_validation_platfo.Core.Ring.Bounded.{enqueue, dequeue, enqueue_newest}
use av_hil_validation_platfo.Core.Ring.Slots.{Queues, empty_ring-Queues}
use av_hil_validation_platfo.Core.Ring.Refinement.{
  try_push_lem, try_pop_lem, force_push_overwrite_lem, size_approx_lem,
}
use av_hil_validation_platfo.Base.{
  ℕ, suc, ◌-◌, ◌*◌, ◌^◌, ◌≤◌, ◌≡◌, refl, ap₂, Bool, true, Option, List, [], ◌∷◌, arith,
}

pub data Call {ℓ} (A : Type ℓ) : Type ℓ where
  push : A → Call A
  pop : Call A
  overwrite : A → Call A
  ask_size : Call A

pub data Answer {ℓ} (A : Type ℓ) : Type ℓ where
  stored : Bool → Answer A
  popped : Option A → Answer A
  counted : ℕ → Answer A

module _ {ℓ} {A : Type ℓ} (size : ℕ) (slot : A) where
  pub answers : SpscRing size slot → List (Call A) → List (Answer A)
  answers r [] = []
  answers r (push x ∷ calls) =
      let (ok, after) = try_push size slot r x in stored ok ∷ answers after calls
  answers r (pop ∷ calls) =
      let (taken, after) = try_pop size slot r in popped taken ∷ answers after calls
  answers r (overwrite x ∷ calls) =
      let (ok, after) = force_push_overwrite size slot r x in stored ok ∷ answers after calls
  answers r (ask_size ∷ calls) = counted (size_approx size slot r) ∷ answers r calls

  -- The same calls on a queue of at most `size - 1` items.
  abbrev pub promised : List A → List (Call A) → List (Answer A)
  promised q [] = []
  promised q (push x ∷ calls) =
      let (ok, after) = enqueue (size - 1) q x in stored ok ∷ promised after calls
  promised q (pop ∷ calls) = let (taken, after) = dequeue q in popped taken ∷ promised after calls
  promised q (overwrite x ∷ calls) = stored true ∷ promised (enqueue_newest (size - 1) q x) calls
  promised q (ask_size ∷ calls) = counted (length q) ∷ promised q calls

  module _ (d : ℕ) (divides : 2 ^ 64 ≡ size * suc d) (two : 2 ≤ size) where
    answers-Queues :
        (calls : List (Call A)) (r : SpscRing size slot) (q : List A)
        → Queues size slot r q
        → answers r calls ≡ promised q calls
    unfolding answers
    answers-Queues [] r q h = refl
    answers-Queues (push x ∷ calls) r q h =
        let step = try_push_lem size slot r q x h in
        ap₂ (λ b rest. stored b ∷ rest) step.0 (answers-Queues calls _ _ step.1)
    answers-Queues (pop ∷ calls) r q h =
        let step = try_pop_lem size slot r q h in
        ap₂ (λ t rest. popped t ∷ rest) step.0 (answers-Queues calls _ _ step.1)
    answers-Queues (overwrite x ∷ calls) r q h =
        let step = force_push_overwrite_lem size slot r q x two h in
        ap₂ (λ b rest. stored b ∷ rest) step.0 (answers-Queues calls _ _ step.1)
    answers-Queues (ask_size ∷ calls) r q h =
        ap₂ (λ n rest. counted n ∷ rest) (size_approx_lem size slot r q d divides h)
          (answers-Queues calls r q h)

    -- With a capacity of at least two that divides the range of an index, any sequence of pushes,
    -- pops, overwriting pushes and size queries on a new ring, one at a time, gives the answers of a
    -- first-in first-out queue that holds at most `size - 1` items.
    pub answers-empty_ring :
        (calls : List (Call A)) → answers (empty_ring size slot) calls ≡ promised [] calls
    answers-empty_ring calls =
        answers-Queues calls (empty_ring size slot) [] (empty_ring-Queues size slot (omega arith))
