-- ===== src/Core/Ring.antt =====
-- include/sensorforge/core/spsc_ring.hpp: the ring of one producer and one consumer, one call at a
-- time. The capacity is a power of two, so that `x & kMask` is the remainder by the capacity.
pub mod Bounded
pub mod Slots
pub mod Refinement
pub mod Trace
pub mod Threads
use av_hil_validation_platfo.Base.Lists.{get_or, set, replicate}
use av_hil_validation_platfo.Base.Tests.{◌==◌, if◌then◌else◌}
use av_hil_validation_platfo.Base.{
  ℕ, ◌+◌, ◌-◌, ◌%◌, ◌^◌, Bool, true, false, Option, none, some, List,
}

-- `(i + 1) & kMask`
abbrev pub next : ℕ → ℕ → ℕ
next size i = (i + 1) % size

-- `slot` is what a slot holds from the start.
module _ {ℓ} {A : Type ℓ} (size : ℕ) (slot : A) where
  pub record SpscRing : Type ℓ where
    pub head : ℕ
    pub tail : ℕ
    pub buffer : List A

  abbrev pub empty_ring : SpscRing
  empty_ring = record { head = 0; tail = 0; buffer = replicate size slot }

  abbrev pub capacity : ℕ
  capacity = size - 1

  -- Both overloads: whether the item was stored.
  pub try_push : SpscRing → A → Bool × SpscRing
  try_push r item =
      let after = next size r.head in
      if after == r.tail
      then (false, r)
      else (true, record r { buffer = set r.buffer r.head item; head = after })

  -- What was taken out; `none` is the return value false. A slot moved from keeps a value.
  pub try_pop : SpscRing → Option A × SpscRing
  try_pop r =
      if r.tail == r.head
      then (none, r)
      else (some (get_or r.buffer r.tail slot), record r { tail = next size r.tail })

  pub force_push_overwrite : SpscRing → A → Bool × SpscRing
  unfolding try_push
  force_push_overwrite r item =
      let (stored, r1) = try_push r item in
      if stored then (true, r1) else try_push (record r1 { tail = next size r1.tail }) item

  -- The difference is one of 64-bit words.
  pub size_approx : SpscRing → ℕ
  size_approx r = ((r.head + 2 ^ 64 - r.tail) % 2 ^ 64) % size

  pub empty_approx : SpscRing → Bool
  empty_approx r = size_approx r == 0
