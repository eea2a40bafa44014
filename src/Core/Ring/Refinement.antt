-- ===== src/Core/Ring/Refinement.antt =====
-- include/sensorforge/core/spsc_ring.hpp: the calls of the ring against the bounded queue.
use native.Mathlib.Decide.{dec_lt}
use native.Mathlib.Nat.{mod-eq_of_lt, add-mul-mod_self_left}
use av_hil_validation_platfo.Base.Lists.{length, set}
use av_hil_validation_platfo.Base.Tests.{==_of_ne, ==_self, ltb_of_lt, ltb_of_le, ◌==◌}
use av_hil_validation_platfo.Core.Ring.{
  SpscRing, next, try_push, try_pop, force_push_overwrite, size_approx,
}
use av_hil_validation_platfo.Core.Ring.Slots.{
  Queues, length_below, write_slot, publish_slot, next-ne-tail, next-tail, drop_oldest,
}
use av_hil_validation_platfo.Core.Ring.Bounded.{enqueue, dequeue, enqueue_newest}
use av_hil_validation_platfo.Base.{
  ℕ, suc, ◌+◌, ◌-◌, ◌*◌, ◌%◌, ◌^◌, ◌≤◌, ◌<◌, ◌≡◌, ◌≢◌, refl, ap, ◌∙◌, true, false, some, List, [],
  ◌∷◌, ◌++◌, arith,
}

module _ {ℓ} {A : Type ℓ} (size : ℕ) (slot : A) where
  -- What pushing one item does when there is room, and when there is none.
  pub try_push_room :
      (r : SpscRing size slot) (q : List A) (x : A)
      → Queues size slot r q
      → suc (length q) < size
      → ((try_push size slot r x).0 ≡ true)
        × Queues size slot (try_push size slot r x).1 (q ++ (x ∷ []))
  unfolding try_push
  try_push_room r q x h room =
      let written = write_slot size slot r q x h in
      rw (==_of_ne (next size r.head) r.tail (next-ne-tail size slot r q h room)) (
        refl,
        publish_slot size slot (record r { buffer = set r.buffer r.head x }) q x written.0 room
            written.1,
      )

  pub try_push_full :
      (r : SpscRing size slot) (q : List A) (x : A)
      → Queues size slot r q
      → size ≤ suc (length q)
      → try_push size slot r x ≡ (false, r)
  unfolding try_push
  try_push_full r q x h full = rw (next-tail size slot r q h full, ==_self r.tail) refl

  pub try_pop_lem :
      (r : SpscRing size slot) (q : List A)
      → Queues size slot r q
      → ((try_pop size slot r).0 ≡ (dequeue q).0)
        × Queues size slot (try_pop size slot r).1 (dequeue q).1
  unfolding try_pop
  try_pop_lem r [] h =
      let a = h.head_inside in
      let b = h.tail_inside in
      let c = h.count in let e : (r.tail == r.head) ≡ true = ground (arith, c) in rw e (refl, h)
  try_pop_lem r (x ∷ q) h =
      let c = h.count in
      let apart : r.tail ≢ r.head = λ e. ground (arith, e, c) in
      rw (==_of_ne r.tail r.head apart) (ap some h.items.0, drop_oldest size slot r x q h)

  pub try_push_lem :
      (r : SpscRing size slot) (q : List A) (x : A)
      → Queues size slot r q
      → ((try_push size slot r x).0 ≡ (enqueue (size - 1) q x).0)
        × Queues size slot (try_push size slot r x).1 (enqueue (size - 1) q x).1
  try_push_lem r q x h = elim (dec_lt (length q) (size - 1)) [
    | yes p ↦ rw (ltb_of_lt (length q) (size - 1) p) (try_push_room r q x h (omega arith))
    | no p ↦
        rw (ltb_of_le (length q) (size - 1) (omega arith), try_push_full r q x h (omega arith))
          (refl, h)
  ]

  overwrite_full :
      (r : SpscRing size slot) (q : List A) (x : A)
      → 2 ≤ size
      → Queues size slot r q
      → size ≤ suc (length q)
      → let after = try_push size slot (record r { tail = next size r.tail }) x in
        (after.0 ≡ true) × Queues size slot after.1 ((dequeue q).1 ++ (x ∷ []))
  overwrite_full r [] x two h full = absurd (omega arith)
  overwrite_full r (y ∷ q) x two h full =
      try_push_room (record r { tail = next size r.tail }) q x (drop_oldest size slot r y q h)
        (let a = h.head_inside in let b = h.tail_inside in let c = h.count in ground (arith, c))

  pub force_push_overwrite_lem :
      (r : SpscRing size slot) (q : List A) (x : A)
      → 2 ≤ size
      → Queues size slot r q
      → ((force_push_overwrite size slot r x).0 ≡ true)
        × Queues size slot (force_push_overwrite size slot r x).1 (enqueue_newest (size - 1) q x)
  unfolding force_push_overwrite
  force_push_overwrite_lem r q x two h = elim (dec_lt (length q) (size - 1)) [
    | yes p ↦
        let pushed = try_push_room r q x h (omega arith) in
        rw (ltb_of_lt (length q) (size - 1) p, pushed.0) (refl, pushed.1)
    | no p ↦
        let e : try_push size slot r x ≡ (false, r) = try_push_full r q x h (omega arith) in
        rw (ltb_of_le (length q) (size - 1) (omega arith), e)
          (overwrite_full r q x two h (omega arith))
  ]

  -- The count that `size_approx` gives, where the capacity divides the range of an index.
  pub size_approx_lem :
      (r : SpscRing size slot) (q : List A) (d : ℕ)
      → 2 ^ 64 ≡ size * suc d
      → Queues size slot r q
      → size_approx size slot r ≡ length q
  unfolding size_approx
  size_approx_lem r q d e h =
      let a = h.head_inside in
      let b = h.tail_inside in
      let c = h.count in
      let below : length q < size = length_below size slot r q h in
      elim (dec_lt r.head r.tail) [
        | yes p ↦
            let word : (r.head + 2 ^ 64 - r.tail) % 2 ^ 64 ≡ length q + size * d =
              ground (arith, c, e) in
            ap (λ (k : ℕ). k % size) word
            ∙ add-mul-mod_self_left (length q) size d
            ∙ mod-eq_of_lt below
        | no p ↦
            let word : (r.head + 2 ^ 64 - r.tail) % 2 ^ 64 ≡ length q = ground (arith, c, e) in
            ap (λ (k : ℕ). k % size) word ∙ mod-eq_of_lt below
      ]
