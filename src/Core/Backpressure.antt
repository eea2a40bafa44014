-- ===== src/Core/Backpressure.antt =====
-- include/sensorforge/core/backpressure_policy.hpp: what to do when the ring of a stream is full.
pub mod Lossless
use av_hil_validation_platfo.Base.Tests.{if◌then◌else◌}
use av_hil_validation_platfo.Protocol.Frame.{SensorType}
use av_hil_validation_platfo.Core.Ring.{SpscRing, try_push, try_pop, force_push_overwrite}
use av_hil_validation_platfo.Base.{
  ℕ, zero, suc, Bool, true, false, Option, none, some, List, [], ◌∷◌, ◌++◌,
}

pub data BackpressurePolicy : Type 0 where
  overwrite_oldest drop_newest batch_accumulate never_drop_block : BackpressurePolicy

unfoldable pub default_policy_for : SensorType → BackpressurePolicy
default_policy_for SensorType.camera = overwrite_oldest
default_policy_for SensorType.lidar = drop_newest
default_policy_for SensorType.imu = batch_accumulate
default_policy_for SensorType.gps = drop_newest
default_policy_for SensorType.can = never_drop_block
default_policy_for _ = drop_newest

pub data PushResult : Type 0 where
  enqueued dropped_newest overwrote blocked_then_enqueued : PushResult

module _ {ℓ} {A : Type ℓ} (size : ℕ) (slot : A) where
  -- The consumer, while the producer waits: it takes up to this many items.
  pub consume : ℕ → SpscRing size slot → List A × SpscRing size slot
  consume zero r = ([], r)
  consume (suc n) r =
      let (x, after) = try_pop size slot r in
      let rest = consume n after in elim x [ none ↦ ([], after) | some y ↦ (y ∷ rest.0, rest.1) ]

  -- How the call came out, `none` where the producer is blocked after the last of the waits; the ring;
  -- and what the consumer took meanwhile.
  pub record Outcome : Type ℓ where
    pub result : Option PushResult
    pub ring : SpscRing size slot
    pub taken : List A

  -- The loop. The list says how many items the consumer takes before each new attempt.
  pub block_until_stored : SpscRing size slot → A → List ℕ → Outcome
  unfolding consume
  block_until_stored r item [] = record { result = none; ring = r; taken = [] }
  block_until_stored r item (n ∷ waits) =
      let (xs, r1) = consume n r in
      let (stored, r2) = try_push size slot r1 item in
      let rest = block_until_stored r1 item waits in
      if stored
      then record { result = some blocked_then_enqueued; ring = r2; taken = xs }
      else record rest { taken = xs ++ rest.taken }

  -- `waits` matters to the blocking policy only.
  pub apply_policy : SpscRing size slot → A → BackpressurePolicy → List ℕ → Outcome
  unfolding block_until_stored
  apply_policy r item overwrite_oldest waits =
      let (stored, r1) = try_push size slot r item in
      if stored then record { result = some enqueued; ring = r1; taken = [] } else record {
        result = some overwrote;
        ring = (force_push_overwrite size slot r1 item).1;
        taken = [];
      }
  apply_policy r item never_drop_block waits =
      let (stored, r1) = try_push size slot r item in
      if stored
      then record { result = some enqueued; ring = r1; taken = [] }
      else block_until_stored r1 item waits
  apply_policy r item _ waits =
      let (stored, r1) = try_push size slot r item in
      record { result = some (if stored then enqueued else dropped_newest); ring = r1; taken = [] }
