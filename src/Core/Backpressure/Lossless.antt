-- ===== src/Core/Backpressure/Lossless.antt =====
-- What each policy keeps and what it loses.
use native.Mathlib.Decide.{dec_lt}
use av_hil_validation_platfo.Base.Lists.{length}
use av_hil_validation_platfo.Base.Tests.{Bool-cases, ltb, ltb_of_lt, ltb_of_le, if◌then◌else◌}
use av_hil_validation_platfo.Core.Ring.{try_push, SpscRing, try_pop, force_push_overwrite}
use av_hil_validation_platfo.Core.Ring.Bounded.{dequeue}
use av_hil_validation_platfo.Core.Ring.Slots.{Queues, length_below}
use av_hil_validation_platfo.Core.Ring.Refinement.{
  try_push_room, try_push_full, try_pop_lem, force_push_overwrite_lem,
}
use av_hil_validation_platfo.Core.Backpressure.{
  BackpressurePolicy, PushResult, enqueued, dropped_newest, overwrote, blocked_then_enqueued,
  overwrite_oldest, never_drop_block, Outcome, consume, block_until_stored, apply_policy,
}
use av_hil_validation_platfo.Base.{
  ℕ, zero, suc, ◌-◌, ◌≤◌, ◌<◌, ◌≡◌, refl, sym, ap, ◌∙◌, Option, none, some, inl, inr, List, [], ◌∷◌,
  ◌++◌, append_assoc, arith,
}

-- What there is of `q` and `x`, in order, after a call with that result.
abbrev pub survivors {ℓ} : {A : Type ℓ} → Option PushResult → List A → A → List A
survivors none q x = q
survivors (some dropped_newest) q x = q
survivors (some overwrote) q x = (dequeue q).1 ++ (x ∷ [])
survivors (some _) q x = q ++ (x ∷ [])

-- The result that is due: `full` says that the queue had no room.
abbrev pub blocked_result : List ℕ → Option PushResult
blocked_result [] = none
blocked_result (zero ∷ waits) = blocked_result waits
blocked_result (suc n ∷ waits) = some blocked_then_enqueued

abbrev pub result_when_full : BackpressurePolicy → List ℕ → Option PushResult
result_when_full overwrite_oldest waits = some overwrote
result_when_full never_drop_block waits = blocked_result waits
result_when_full _ waits = some dropped_newest

module _ {ℓ} {A : Type ℓ} (size : ℕ) (slot : A) where
  consume_lem :
      (n : ℕ) (r : SpscRing size slot) (q : List A)
      → Queues size slot r q
      → (kept : List A) × Queues size slot (consume size slot n r).1 kept
        × ((consume size slot n r).0 ++ kept ≡ q)
        × (length kept ≡ length q - n)
  unfolding consume
  consume_lem zero r q h = (q, h, refl, omega arith)
  consume_lem (suc n) r [] h =
      let step = try_pop_lem size slot r [] h in
      rw (step.0, consume) ([], step.1, refl, omega arith)
  consume_lem (suc n) r (x ∷ q) h =
      let step = try_pop_lem size slot r (x ∷ q) h in
      let (kept, queues, exact, count) = consume_lem n (try_pop size slot r).1 q step.1 in
      rw (step.0, consume) (kept, queues, ap (λ (l : List A). x ∷ l) exact, omega (arith, count))

  -- The outcome has this result, and nothing else is lost or reordered.
  pub record Comes (q : List A) (x : A) (result : Option PushResult) (o : Outcome size slot)
      : Type ℓ where
    pub result_is : o.result ≡ result
    pub kept : List A
    pub queues : Queues size slot o.ring kept
    pub exact : o.taken ++ kept ≡ survivors result q x

  block_until_stored_lem :
      (waits : List ℕ) (r : SpscRing size slot) (q : List A) (x : A)
      → 2 ≤ size
      → Queues size slot r q
      → size ≤ suc (length q)
      → Comes q x (blocked_result waits) (block_until_stored size slot r x waits)
  unfolding block_until_stored
  block_until_stored_lem [] r q x two h full = record {
    result_is = refl;
    kept = q;
    queues = h;
    exact = refl;
  }
  block_until_stored_lem (zero ∷ waits) r q x two h full =
      let rest = block_until_stored_lem waits r q x two h full in
      rw (try_push_full size slot r q x h full) (record {
        result_is = rest.result_is;
        kept = rest.kept;
        queues = rest.queues;
        exact = rest.exact;
      })
  block_until_stored_lem (suc n ∷ waits) r q x two h full =
      let (kept, queues, exact, count) = consume_lem (suc n) r q h in
      let pushed =
        try_push_room size slot (consume size slot (suc n) r).1 kept x queues
          (let b = length_below size slot r q h in omega (arith, count)) in
      rw pushed.0 (record {
        result_is = refl;
        kept = kept ++ (x ∷ []);
        queues = pushed.1;
        exact = sym (append_assoc _ kept (x ∷ [])) ∙ ap (λ (l : List A). l ++ (x ∷ [])) exact;
      })

  with_room :
      (policy : BackpressurePolicy) (waits : List ℕ) (r : SpscRing size slot) (q : List A) (x : A)
      → Queues size slot r q
      → suc (length q) < size
      → Comes q x (some enqueued) (apply_policy size slot r x policy waits)
  unfolding apply_policy
  with_room overwrite_oldest waits r q x h room =
      let pushed = try_push_room size slot r q x h room in
      rw pushed.0
        (record { result_is = refl; kept = q ++ (x ∷ []); queues = pushed.1; exact = refl })
  with_room never_drop_block waits r q x h room =
      let pushed = try_push_room size slot r q x h room in
      rw pushed.0
        (record { result_is = refl; kept = q ++ (x ∷ []); queues = pushed.1; exact = refl })
  with_room _ waits r q x h room =
      let pushed = try_push_room size slot r q x h room in
      rw pushed.0
        (record { result_is = refl; kept = q ++ (x ∷ []); queues = pushed.1; exact = refl })

  when_full :
      (policy : BackpressurePolicy) (waits : List ℕ) (r : SpscRing size slot) (q : List A) (x : A)
      → 2 ≤ size
      → Queues size slot r q
      → size ≤ suc (length q)
      → Comes q x (result_when_full policy waits) (apply_policy size slot r x policy waits)
  unfolding apply_policy
  when_full overwrite_oldest waits r q x two h full =
      let forced : Queues size slot (force_push_overwrite size slot r x).1
          ((dequeue q).1 ++ (x ∷ [])) =
        rw (ltb_of_le (length q) (size - 1) (omega arith)) at
          (force_push_overwrite_lem size slot r q x two h).1 in
      rw (try_push_full size slot r q x h full) (record {
        result_is = refl;
        kept = (dequeue q).1 ++ (x ∷ []);
        queues = forced;
        exact = refl;
      })
  when_full never_drop_block waits r q x two h full =
      rw (try_push_full size slot r q x h full) (block_until_stored_lem waits r q x two h full)
  when_full _ waits r q x two h full =
      rw (try_push_full size slot r q x h full)
        (record { result_is = refl; kept = q; queues = h; exact = refl })

  -- For each policy, on a ring of at least two slots that holds the queue `q`: with room the item is
  -- enqueued behind `q`. On a full ring, the overwriting policy drops the oldest item and enqueues
  -- this one, two policies drop this one, and the blocking one returns exactly if the consumer takes
  -- an item in one of the waits, and then `q` and this item, in order, are what the consumer took and
  -- what the ring holds. Nothing else is lost, and nothing is reordered.
  pub apply_policy_lem :
      (policy : BackpressurePolicy) (waits : List ℕ) (r : SpscRing size slot) (q : List A) (x : A)
      → 2 ≤ size
      → Queues size slot r q
      → Comes q x
          (if ltb (length q) (size - 1) then some enqueued else result_when_full policy waits)
          (apply_policy size slot r x policy waits)
  apply_policy_lem policy waits r q x two h = elim (dec_lt (length q) (size - 1)) [
    | yes p ↦ rw (ltb_of_lt (length q) (size - 1) p) (with_room policy waits r q x h (omega arith))
    | no p ↦
        rw (ltb_of_le (length q) (size - 1) (omega arith))
          (when_full policy waits r q x two h (omega arith))
  ]

  -- A call in which nobody else runs takes nothing out.
  pub apply_policy_alone :
      (policy : BackpressurePolicy) (r : SpscRing size slot) (x : A)
      → (apply_policy size slot r x policy []).taken ≡ []
  unfolding apply_policy block_until_stored
  apply_policy_alone overwrite_oldest r x = elim (Bool-cases (try_push size slot r x).0) [
    | inl e ↦ rw e refl
    | inr e ↦ rw e refl
  ]
  apply_policy_alone never_drop_block r x = elim (Bool-cases (try_push size slot r x).0) [
    | inl e ↦ rw e refl
    | inr e ↦ rw e refl
  ]
  apply_policy_alone _ r x = refl
