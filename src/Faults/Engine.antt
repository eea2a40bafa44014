-- ===== src/Faults/Engine.antt =====
-- faults/fault_engine.cpp: the engine that each outgoing frame goes through.
pub mod Process
use av_hil_validation_platfo.Base.Double.{Double, max, min}
use av_hil_validation_platfo.Base.Lists.{length, get_or, set}
use av_hil_validation_platfo.Base.Tests.{if◌then◌else◌}
use av_hil_validation_platfo.Base.Text.{Text}
use av_hil_validation_platfo.Faults.Rule.{FaultRule, is_kind, delay}
use av_hil_validation_platfo.Base.{
  ℕ, zero, suc, ◌+◌, ◌-◌, ◌%◌, ◌^◌, bit_xor, Bool, true, false, Option, none, some, List, [], ◌∷◌,
  ◌++◌,
}

-- `std::mt19937_64` with the distributions that the engine draws from: a number in [0, 1), a position
-- up to a largest one, and a bit of a byte.
pub record Random (D R : Type 0) : Type 0 where
  pub uniform : R → D × R
  pub position : ℕ → R → ℕ × R
  pub bit : R → ℕ × R

pub record Delayed (D : Type 0) : Type 0 where
  pub due_ns : D
  pub bytes : List ℕ

-- The engine. `written` are the calls of `write_`, `restarts` those of `restart_hook_`; `releasing` are
-- the frames that were taken out of the queue and are not emitted yet; `readings` counts the readings
-- of the clock.
pub record FaultEngine (D R : Type 0) : Type 0 where
  pub rules : List (FaultRule D)
  pub has_restart_hook : Bool
  pub rng : R
  pub has_held : Bool
  pub held : List ℕ
  pub tokens_bytes : D
  pub last_refill_ns : D
  pub restarted_this_window : List Text
  pub delayed : List (Delayed D)
  pub releasing : List (List ℕ)
  pub stop : Bool
  pub forwarded : ℕ
  pub dropped : ℕ
  pub duplicated : ℕ
  pub corrupted : ℕ
  pub reordered : ℕ
  pub delayed_count : ℕ
  pub written : List (List ℕ)
  pub restarts : List Text
  pub readings : ℕ

module _ {D : Type 0} ⦃d : Double D⦄ where
  -- The largest delay of the rules in force.
  pub max_delay : List (FaultRule D) → D → D
  max_delay [] delay_ms = delay_ms
  max_delay (r ∷ active) delay_ms =
      max_delay active (if is_kind r.kind delay then max delay_ms r.delay_ms else delay_ms)

  -- The first of the entries that are due before all others.
  pub pop_top : Delayed D → List (Delayed D) → Delayed D × List (Delayed D)
  pop_top x [] = (x, [])
  pop_top x (y ∷ ys) =
      if d.lt y.due_ns x.due_ns
      then (let (top, rest) = pop_top y ys in (top, x ∷ rest))
      else (let (top, rest) = pop_top x ys in (top, y ∷ rest))

module _ {D R : Type 0} ⦃d : Double D⦄ where
  abbrev pub new_engine : R → FaultEngine D R
  new_engine seeded = record {
    rules = [];
    has_restart_hook = false;
    rng = seeded;
    has_held = false;
    held = [];
    tokens_bytes = d.of_nat 0;
    last_refill_ns = d.of_nat 0;
    restarted_this_window = [];
    delayed = [];
    releasing = [];
    stop = false;
    forwarded = 0;
    dropped = 0;
    duplicated = 0;
    corrupted = 0;
    reordered = 0;
    delayed_count = 0;
    written = [];
    restarts = [];
    readings = 0;
  }

  abbrev pub add_rule : FaultEngine D R → FaultRule D → FaultEngine D R
  add_rule e r = record e { rules = e.rules ++ (r ∷ []) }

  pub emit : FaultEngine D R → List ℕ → FaultEngine D R
  emit e bytes = record e { written = e.written ++ (bytes ∷ []); forwarded = e.forwarded + 1 }

  -- `delayed_.top()` and `delayed_.pop()`, under the lock.
  pub take_top : FaultEngine D R → FaultEngine D R
  unfolding pop_top
  take_top e = elim e.delayed [
    | [] ↦ e
    | x ∷ xs ↦
        let (top, rest) = pop_top x xs in
        record e { delayed = rest; releasing = e.releasing ++ (top.bytes ∷ []) }
  ]

  -- `emit(d.bytes)`, after the lock was given back.
  pub emit_taken : FaultEngine D R → FaultEngine D R
  unfolding emit
  emit_taken e = elim e.releasing [ [] ↦ e | x ∷ xs ↦ emit (record e { releasing = xs }) x ]

  -- One turn of `worker_loop` with the lock; it waits if nothing is due.
  pub worker_turn : D → FaultEngine D R → FaultEngine D R
  unfolding take_top pop_top
  worker_turn now e = if e.stop then e else elim e.delayed [
    | [] ↦ e
    | x ∷ xs ↦ if d.lt now (pop_top x xs).0.due_ns then e else take_top e
  ]

  -- One round of `flush`: the frame that is due first is emitted.
  pub flush_round : FaultEngine D R → FaultEngine D R
  unfolding pop_top emit
  flush_round e = elim e.delayed [
    | [] ↦ e
    | x ∷ xs ↦ let (top, rest) = pop_top x xs in emit (record e { delayed = rest }) top.bytes
  ]

  -- The loop of `flush`, with a bound on its rounds.
  pub flush_loop : ℕ → FaultEngine D R → FaultEngine D R
  unfolding flush_round
  flush_loop zero e = e
  flush_loop (suc n) e = flush_loop n (flush_round e)

  pub flush : FaultEngine D R → FaultEngine D R
  unfolding flush_loop
  flush e = flush_loop (length e.delayed) e

  module _ (clock : ℕ → D) where
    abbrev pub now_ns : FaultEngine D R → D × FaultEngine D R
    now_ns e = (clock e.readings, record e { readings = e.readings + 1 })

    pub dispatch_or_delay : FaultEngine D R → List ℕ → List (FaultRule D) → FaultEngine D R
    unfolding max_delay emit
    dispatch_or_delay e payload active =
        let delay_ms = max_delay active (d.of_nat 0) in
        if d.le delay_ms (d.of_nat 0)
        then emit e payload
        else let (now, e) = now_ns e in
          record e {
            delayed =
                e.delayed
                ++ (record {
                  due_ns = d.add now (d.mul delay_ms (d.of_nat 1_000_000));
                  bytes = payload;
                }
                    ∷ []);
            delayed_count = e.delayed_count + 1;
          }
