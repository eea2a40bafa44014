-- ===== src/Faults/Tests.antt =====
-- Runs of the fault engine, with times in whole units.
use mathlib.Core.List.{Perm}
use av_hil_validation_platfo.Faults.Engine.Process.Places.{
  present, passing_given, handle_all-present,
}
use av_hil_validation_platfo.Base.Double.{Double}
use av_hil_validation_platfo.Faults.Engine.Process.Unchanged.{handle_all_unchanged}
use av_hil_validation_platfo.Base.Lists.{All, length}
use av_hil_validation_platfo.Base.Tests.{ltb, leb, ◌==◌}
use av_hil_validation_platfo.Base.Text.{Text, same}
use av_hil_validation_platfo.Faults.Rule.{
  FaultRule, FaultKind, drop, reorder, ecu_disconnect, duplicate, delay,
}
use av_hil_validation_platfo.Faults.Engine.{
  FaultEngine, Delayed, Random, new_engine, add_rule, flush,
}
use av_hil_validation_platfo.Faults.Engine.Process.Conservation.{accounted}
use av_hil_validation_platfo.Faults.Engine.Process.Run.{
  Event, given, worker_wakes, worker_emits, flushed, given_count, handle_all, flush_drains,
}
use av_hil_validation_platfo.Base.{
  ℕ, ◌+◌, ◌-◌, ◌*◌, ◌/◌, ◌≡◌, ◌≤◌, refl, Bool, true, List, [], ◌∷◌, map,
}

-- The laws of a `double` that the theorems name hold of natural numbers.
instance abbrev whole : Double ℕ
whole = record {
  of_nat = λ n. n;
  lt = ltb;
  le = leb;
  eq = ◌==◌;
  add = ◌+◌;
  sub = ◌-◌;
  mul = ◌*◌;
  div = ◌/◌;
}

-- A generator that counts.
abbrev counting : Random ℕ ℕ
counting = record { uniform = λ r. (0, r + 1); position = λ n r. (n, r + 1); bit = λ r. (3, r + 1) }

abbrev ticks : ℕ → ℕ
ticks n = n

abbrev imu : Text
imu = 105 ∷ 109 ∷ 117 ∷ []

abbrev rule : FaultKind → ℕ → ℕ → FaultRule ℕ
rule kind start duration = record {
  kind = kind;
  stream = imu;
  start_s = start;
  duration_s = duration;
  delay_ms = 2;
  drop_rate = 1;
  bandwidth_kbps = 0;
  corrupt_bits = 4;
  seed = 1;
}

abbrev rules : List (FaultRule ℕ)
rules =
    rule duplicate 0 10
    ∷ rule reorder 10 10
    ∷ rule delay 20 10
    ∷ rule ecu_disconnect 30 10
    ∷ rule drop 40 10
    ∷ []

abbrev events : List (Event ℕ)
events =
    given (1 ∷ []) 5 imu
    ∷ given (2 ∷ []) 15 imu
    ∷ given (3 ∷ []) 16 imu
    ∷ given (4 ∷ []) 25 imu
    ∷ worker_wakes 0
    ∷ worker_wakes 9_000_000
    ∷ worker_emits
    ∷ given (5 ∷ []) 35 imu
    ∷ given (6 ∷ []) 45 imu
    ∷ flushed
    ∷ []

abbrev is_two : List ℕ → Bool
is_two bytes = same bytes (2 ∷ [])

handle_all-present_example :
    let e = handle_all counting ticks (record (new_engine 0) { rules = rules }) events in
    (present is_two e ≤ passing_given is_two events + e.duplicated)
    × (passing_given is_two events ≤ present is_two e + e.dropped)
    × (accounted e ≡ given_count events + e.duplicated)
handle_all-present_example = handle_all-present is_two counting ticks rules 0 events refl

abbrev cut_off : FaultEngine ℕ ℕ
cut_off = add_rule (new_engine 0) (rule ecu_disconnect 30 10)

abbrev waiting : FaultEngine ℕ ℕ
waiting = record (new_engine 0) {
  has_held = true;
  held = 7 ∷ [];
  delayed = record { due_ns = 9; bytes = 1 ∷ [] } ∷ record { due_ns = 4; bytes = 2 ∷ [] } ∷ [];
}

flush_drains_example :
    ((flush waiting).delayed ≡ [])
    × ((flush waiting).forwarded ≡ 2)
    × ((flush waiting).has_held ≡ true)
    × ((flush waiting).held ≡ 7 ∷ [])
    × (order : List (Delayed ℕ)) × Perm order waiting.delayed
    × ((flush waiting).written ≡ map (λ x. x.bytes) order)
flush_drains_example = flush_drains waiting

-- Without the swap of bits every frame that is written is one that was given.
abbrev IsGiven : List ℕ → Type 0
IsGiven bytes = length bytes ≡ 1

handle_all_unchanged_example :
    All IsGiven (handle_all counting ticks (record (new_engine 0) { rules = rules }) events).written
handle_all_unchanged_example =
    handle_all_unchanged IsGiven counting ticks rules 0 events refl
      (refl, (refl, (refl, (refl, (refl, (refl, tt))))))
