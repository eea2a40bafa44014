-- ===== src/Faults/Engine/Process/Conservation.antt =====
-- faults/fault_engine.cpp: where the frames are that the engine was given.
use av_hil_validation_platfo.Base.Double.{Double}
use av_hil_validation_platfo.Base.Lists.{length, length-append}
use av_hil_validation_platfo.Base.Text.{Text}
use av_hil_validation_platfo.Faults.Rule.{FaultRule}
use av_hil_validation_platfo.Faults.Engine.{
  FaultEngine, Delayed, Random, max_delay, pop_top, emit, dispatch_or_delay,
}
use av_hil_validation_platfo.Faults.Engine.Process.{
  active_rules, fire_restarts, clear_restarts, refill, fire_restart, send_copy, drop_loop,
  limit_loop, flip_bits, corrupt_loop, swap_held, duplicate_loop, send, process,
}
use av_hil_validation_platfo.Base.{ℕ, ◌+◌, ◌≡◌, refl, Bool, true, false, List, [], ◌∷◌, arith}

abbrev pub count : Bool → ℕ
count true = 1
count false = 0

module _ {D R : Type 0} where
  -- The frames that were written, are waiting or held, or were dropped.
  abbrev pub accounted : FaultEngine D R → ℕ
  accounted e = e.forwarded + length e.delayed + length e.releasing + count e.has_held + e.dropped

  -- From `e` to `e'`, with `n` frames given to the engine; each duplicate is one frame more.
  abbrev pub Moves : ℕ → FaultEngine D R → FaultEngine D R → Type 0
  Moves n e e' = accounted e' + e.duplicated ≡ accounted e + n + e'.duplicated

module _ {D : Type 0} ⦃d : Double D⦄ where
  pub length-pop_top : (x : Delayed D) (xs : List (Delayed D)) → length (pop_top x xs).1 ≡ length xs
  unfolding pop_top
  length-pop_top x [] = refl
  length-pop_top x (y ∷ ys) = ground (arith, length-pop_top x ys, length-pop_top y ys)

module _ {D R : Type 0} ⦃d : Double D⦄ where
  fire_restart-Moves :
      (r : FaultRule D) (stream : Text) (e : FaultEngine D R) → Moves 0 e (fire_restart r stream e)
  unfolding fire_restart
  fire_restart-Moves r stream e = ground arith

  fire_restarts-Moves :
      (active : List (FaultRule D)) (stream : Text) (e : FaultEngine D R)
      → Moves 0 e (fire_restarts active stream e)
  unfolding fire_restarts
  fire_restarts-Moves [] stream e = omega arith
  fire_restarts-Moves (r ∷ active) stream e = omega (
    arith,
    fire_restarts-Moves active stream (fire_restart r stream e),
    fire_restart-Moves r stream e,
  )

  clear_restarts-Moves :
      (active : List (FaultRule D)) (stream : Text) (e : FaultEngine D R)
      → Moves 0 e (clear_restarts active stream e)
  unfolding clear_restarts
  clear_restarts-Moves [] stream e = omega arith
  clear_restarts-Moves (r ∷ active) stream e = omega arith

  refill-Moves : (r : FaultRule D) (now : D) (e : FaultEngine D R) → Moves 0 e (refill r now e)
  unfolding refill
  refill-Moves r now e = ground arith

  module _ (random : Random D R) where
    drop_loop-Moves :
        (active : List (FaultRule D)) (e : FaultEngine D R)
        → let (hit, e') = drop_loop random active e in Moves (count hit) e e'
    unfolding drop_loop
    drop_loop-Moves [] e = omega arith
    drop_loop-Moves (r ∷ active) e = ground (
      arith,
      drop_loop-Moves active e,
      drop_loop-Moves active (record e { rng = (random.uniform e.rng).1 }),
    )

    corrupt_loop-Moves :
        (active : List (FaultRule D)) (payload : List ℕ) (e : FaultEngine D R)
        → Moves 0 e (corrupt_loop random active payload e).1
    unfolding corrupt_loop
    corrupt_loop-Moves [] payload e = omega arith
    corrupt_loop-Moves (r ∷ active) [] e = corrupt_loop-Moves active [] e
    corrupt_loop-Moves (r ∷ active) (b ∷ payload) e =
        let (payload', rng) = flip_bits random r.corrupt_bits (b ∷ payload) e.rng in
        ground (
          arith,
          corrupt_loop-Moves active (b ∷ payload) e,
          corrupt_loop-Moves active payload' (record e { rng = rng; corrupted = e.corrupted + 1 }),
        )

  module _ (clock : ℕ → D) where
    limit_loop-Moves :
        (active : List (FaultRule D)) (size : ℕ) (e : FaultEngine D R)
        → let (over, e') = limit_loop clock active size e in Moves (count over) e e'
    unfolding limit_loop
    limit_loop-Moves [] size e = omega arith
    limit_loop-Moves (r ∷ active) size e =
        let e1 : FaultEngine D R = record e { readings = e.readings + 1 } in
        let e2 = refill r (clock e.readings) e1 in
        let spent : FaultEngine D R = record e2 {
          tokens_bytes = d.sub e2.tokens_bytes (d.of_nat size);
        } in
        ground (
          arith,
          limit_loop-Moves active size e,
          limit_loop-Moves active size spent,
          refill-Moves r (clock e.readings) e1,
        )

    dispatch_or_delay-Moves :
        (e : FaultEngine D R) (payload : List ℕ) (active : List (FaultRule D))
        → Moves 1 e (dispatch_or_delay clock e payload active)
    unfolding dispatch_or_delay emit
    dispatch_or_delay-Moves e payload active =
        let due =
          d.add (clock e.readings) (d.mul (max_delay active (d.of_nat 0)) (d.of_nat 1_000_000)) in
        ground (arith, length-append e.delayed (record { due_ns = due; bytes = payload } ∷ []))

    swap_held-Moves :
        (payload : List ℕ) (active : List (FaultRule D)) (e : FaultEngine D R)
        → Moves 1 e (swap_held clock payload active e)
    unfolding swap_held
    swap_held-Moves payload active e =
        let e0 : FaultEngine D R = record e { has_held = false; held = [] } in
        let e1 = dispatch_or_delay clock e0 payload active in
        ground (
          arith,
          dispatch_or_delay-Moves e0 payload active,
          dispatch_or_delay-Moves e1 e.held active,
        )

    send_copy-Moves :
        (r : FaultRule D) (payload : List ℕ) (active : List (FaultRule D)) (e : FaultEngine D R)
        → Moves 0 e (send_copy clock r payload active e)
    unfolding send_copy
    send_copy-Moves r payload active e = ground (arith, dispatch_or_delay-Moves e payload active)

    duplicate_loop-Moves :
        (rs : List (FaultRule D)) (payload : List ℕ) (active : List (FaultRule D))
        (e : FaultEngine D R)
        → Moves 0 e (duplicate_loop clock rs payload active e)
    unfolding duplicate_loop
    duplicate_loop-Moves [] payload active e = omega arith
    duplicate_loop-Moves (r ∷ rs) payload active e = omega (
      arith,
      send_copy-Moves r payload active e,
      duplicate_loop-Moves rs payload active (send_copy clock r payload active e),
    )

  module _ (random : Random D R) (clock : ℕ → D) where
    send-Moves :
        (bytes : List ℕ) (active : List (FaultRule D)) (e : FaultEngine D R)
        → Moves 1 e (send random clock bytes active e)
    unfolding send
    send-Moves bytes active e =
        let (payload, e1) = corrupt_loop random active bytes e in
        let e2 = dispatch_or_delay clock e1 payload active in
        ground (
          arith,
          corrupt_loop-Moves random active bytes e,
          swap_held-Moves clock payload active e1,
          dispatch_or_delay-Moves clock e1 payload active,
          duplicate_loop-Moves clock active payload active e2,
        )

    pub process-Moves :
        (e : FaultEngine D R) (bytes : List ℕ) (t_s : D) (stream : Text)
        → Moves 1 e (process random clock e bytes t_s stream)
    unfolding process
    process-Moves e bytes t_s stream =
        let active = active_rules e.rules stream t_s in
        let e0 = fire_restarts active stream e in
        let e1 = clear_restarts active stream e0 in
        let (hit, e2) = drop_loop random active e1 in
        let (over, e3) = limit_loop clock active (length bytes) e2 in
        ground (
          arith,
          fire_restarts-Moves active stream e,
          clear_restarts-Moves active stream e0,
          drop_loop-Moves random active e1,
          limit_loop-Moves clock active (length bytes) e2,
          send-Moves bytes active e3,
        )
