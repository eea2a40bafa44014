-- ===== src/Faults/Engine/Process/Run.antt =====
-- faults/fault_engine.cpp: the engine over any sequence of calls and worker turns.
use mathlib.Core.List.{Perm, map, append-nil, append_assoc}
use mathlib.Core.List.Perm
use av_hil_validation_platfo.Base.Tests.{Bool-cases}
use av_hil_validation_platfo.Base.Double.{Double}
use av_hil_validation_platfo.Base.Lists.{length, length-append}
use av_hil_validation_platfo.Base.Text.{Text}
use av_hil_validation_platfo.Faults.Rule.{FaultRule}
use av_hil_validation_platfo.Faults.Engine.{
  FaultEngine, Delayed, Random, new_engine, pop_top, emit, dispatch_or_delay, max_delay, take_top,
  emit_taken, worker_turn, flush_round, flush_loop, flush,
}
use av_hil_validation_platfo.Faults.Engine.Process.{
  active_rules, fire_restart, fire_restarts, clear_restarts, without, suppressed, drop_loop,
  limit_loop, corrupt_loop, duplicate_loop, send, process,
}
use av_hil_validation_platfo.Faults.Engine.Process.Conservation.{
  accounted, Moves, process-Moves, length-pop_top,
}
use av_hil_validation_platfo.Base.{
  ℕ, zero, suc, ◌+◌, ◌≡◌, refl, sym, inl, inr, ◌∙◌, true, List, [], ◌∷◌, ◌++◌, arith,
}

pub data Event (D : Type 0) : Type 0 where
  given : List ℕ → D → Text → Event D
  worker_wakes : D → Event D
  worker_emits : Event D
  flushed : Event D

abbrev pub given_count : {D : Type 0} → List (Event D) → ℕ
given_count [] = 0
given_count (given bytes t_s stream ∷ events) = suc (given_count events)
given_count (_ ∷ events) = given_count events

module _ {D : Type 0} ⦃d : Double D⦄ where
  pop_top-perm :
      (x : Delayed D) (xs : List (Delayed D)) → Perm ((pop_top x xs).0 ∷ (pop_top x xs).1) (x ∷ xs)
  unfolding pop_top
  pop_top-perm x [] = Perm.refl _
  pop_top-perm x (y ∷ ys) = elim (Bool-cases (d.lt y.due_ns x.due_ns)) [
    | inl e ↦ rw e (Perm.trans (Perm.swap _ _ _) (Perm.cons x (pop_top-perm y ys)))
    | inr e ↦ rw e (
        Perm.trans (Perm.swap _ _ _)
          (Perm.trans (Perm.cons y (pop_top-perm x ys)) (Perm.swap _ _ _)))
  ]

module _ {D R : Type 0} ⦃d : Double D⦄ where
  take_top-Moves :
      (e : FaultEngine D R) (l : List (Delayed D)) → e.delayed ≡ l → Moves 0 e (take_top e)
  unfolding take_top
  take_top-Moves e [] h = ground (arith, h)
  take_top-Moves e (x ∷ xs) h =
      ground
        (arith, h, length-pop_top x xs, length-append e.releasing ((pop_top x xs).0.bytes ∷ []))

  emit_taken-Moves :
      (e : FaultEngine D R) (l : List (List ℕ)) → e.releasing ≡ l → Moves 0 e (emit_taken e)
  unfolding emit_taken emit
  emit_taken-Moves e [] h = ground (arith, h)
  emit_taken-Moves e (x ∷ xs) h = ground (arith, h)

  flush_round-Moves :
      (e : FaultEngine D R) (l : List (Delayed D)) → e.delayed ≡ l → Moves 0 e (flush_round e)
  unfolding flush_round emit
  flush_round-Moves e [] h = ground (arith, h)
  flush_round-Moves e (x ∷ xs) h = ground (arith, h, length-pop_top x xs)

  worker_turn-Moves :
      (now : D) (e : FaultEngine D R) (l : List (Delayed D))
      → e.delayed ≡ l
      → Moves 0 e (worker_turn now e)
  unfolding worker_turn
  worker_turn-Moves now e [] h = ground (arith, h)
  worker_turn-Moves now e (x ∷ xs) h = ground (arith, h, take_top-Moves e (x ∷ xs) h)

  flush_loop-Moves : (n : ℕ) (e : FaultEngine D R) → Moves 0 e (flush_loop n e)
  unfolding flush_loop
  flush_loop-Moves zero e = omega arith
  flush_loop-Moves (suc n) e =
      omega (arith, flush_round-Moves e e.delayed refl, flush_loop-Moves n (flush_round e))

  flush_loop_lem :
      (n : ℕ) (e : FaultEngine D R) (l : List (Delayed D))
      → e.delayed ≡ l
      → length l ≡ n
      → ((flush_loop n e).delayed ≡ [])
        × ((flush_loop n e).forwarded ≡ e.forwarded + n)
        × ((flush_loop n e).has_held ≡ e.has_held)
        × ((flush_loop n e).held ≡ e.held)
        × (order : List (Delayed D)) × Perm order l
        × ((flush_loop n e).written ≡ e.written ++ map (λ x. x.bytes) order)
  unfolding flush_loop flush_round emit
  flush_loop_lem zero e [] h k =
      (h, omega arith, refl, refl, [], Perm.refl _, sym (append-nil e.written))
  flush_loop_lem zero e (x ∷ l) h k = absurd (omega (arith, k))
  flush_loop_lem (suc n) e [] h k = absurd (omega (arith, k))
  flush_loop_lem (suc n) e (x ∷ l) h k =
      let (top, rest) = pop_top x l in
      let e' : FaultEngine D R = emit (record e { delayed = rest }) top.bytes in
      let ih = flush_loop_lem n e' rest refl (omega (arith, length-pop_top x l, k)) in
      let (empty, count, has, held, order, same, out) = ih in
      rw (h, flush_loop)
        (
          empty,
          omega (arith, count),
          has,
          held,
          top ∷ order,
          Perm.trans (Perm.cons top same) (pop_top-perm x l),
          out ∙ append_assoc e.written (top.bytes ∷ []) (map (λ y. y.bytes) order),
        )

  -- `flush` ends with the queue empty; the frames of the queue, each once, in some order and unchanged, are
  -- written after those that were written before, and counted as forwarded; a frame that is held for a
  -- swap stays held.
  pub flush_drains :
      (e : FaultEngine D R)
      → ((flush e).delayed ≡ [])
        × ((flush e).forwarded ≡ e.forwarded + length e.delayed)
        × ((flush e).has_held ≡ e.has_held)
        × ((flush e).held ≡ e.held)
        × (order : List (Delayed D)) × Perm order e.delayed
        × ((flush e).written ≡ e.written ++ map (λ x. x.bytes) order)
  unfolding flush
  flush_drains e = flush_loop_lem (length e.delayed) e e.delayed refl refl

  -- The restart hook does not touch the frames.
  abbrev SameFrames : FaultEngine D R → FaultEngine D R → Type 0
  SameFrames e e' =
      (e'.dropped ≡ e.dropped)
      × (e'.written ≡ e.written)
      × (e'.delayed ≡ e.delayed)
      × (e'.has_held ≡ e.has_held)

  fire_restart-SameFrames :
      (r : FaultRule D) (stream : Text) (e : FaultEngine D R)
      → SameFrames e (fire_restart r stream e)
  unfolding fire_restart
  fire_restart-SameFrames r stream e = ground arith

  fire_restarts-SameFrames :
      (active : List (FaultRule D)) (stream : Text) (e : FaultEngine D R)
      → SameFrames e (fire_restarts active stream e)
  unfolding fire_restarts
  fire_restarts-SameFrames [] stream e = (refl, refl, refl, refl)
  fire_restarts-SameFrames (r ∷ active) stream e =
      let once = fire_restart-SameFrames r stream e in
      let rest = fire_restarts-SameFrames active stream (fire_restart r stream e) in
      (rest.0 ∙ once.0, rest.1 ∙ once.1, rest.2 ∙ once.2, rest.3 ∙ once.3)

  clear_restarts-SameFrames :
      (active : List (FaultRule D)) (stream : Text) (e : FaultEngine D R)
      → SameFrames e (clear_restarts active stream e)
  unfolding clear_restarts
  clear_restarts-SameFrames [] stream e = (refl, refl, refl, refl)
  clear_restarts-SameFrames (r ∷ active) stream e = (refl, refl, refl, refl)

  module _ (random : Random D R) (clock : ℕ → D) where
    abbrev pub handle : FaultEngine D R → Event D → FaultEngine D R
    handle e (given bytes t_s stream) = process random clock e bytes t_s stream
    handle e (worker_wakes now) = worker_turn now e
    handle e worker_emits = emit_taken e
    handle e flushed = flush e

    abbrev pub handle_all : FaultEngine D R → List (Event D) → FaultEngine D R
    handle_all e [] = e
    handle_all e (event ∷ events) = handle_all (handle e event) events

    handle-Moves :
        (e : FaultEngine D R) (event : Event D)
        → Moves (given_count (event ∷ [])) e (handle e event)
    unfolding flush
    handle-Moves e (given bytes t_s stream) = process-Moves random clock e bytes t_s stream
    handle-Moves e (worker_wakes now) = worker_turn-Moves now e e.delayed refl
    handle-Moves e worker_emits = emit_taken-Moves e e.releasing refl
    handle-Moves e flushed = flush_loop-Moves (length e.delayed) e

    handle_all-Moves :
        (events : List (Event D)) (e : FaultEngine D R)
        → Moves (given_count events) e (handle_all e events)
    handle_all-Moves [] e = omega arith
    handle_all-Moves (given bytes t_s stream ∷ events) e = omega (
      arith,
      handle-Moves e (given bytes t_s stream),
      handle_all-Moves events (handle e (given bytes t_s stream)),
    )
    handle_all-Moves (worker_wakes now ∷ events) e = omega (
      arith,
      handle-Moves e (worker_wakes now),
      handle_all-Moves events (handle e (worker_wakes now)),
    )
    handle_all-Moves (worker_emits ∷ events) e =
        omega (arith, handle-Moves e worker_emits, handle_all-Moves events (handle e worker_emits))
    handle_all-Moves (flushed ∷ events) e =
        omega (arith, handle-Moves e flushed, handle_all-Moves events (handle e flushed))

    -- No frame is lost uncounted. After any sequence of calls of `process` and `flush` and of worker
    -- turns on an engine that has had none, with any rules, the frames forwarded, waiting in the
    -- queue, on their way out of it, held for a swap or counted as dropped are as many as were given
    -- to the engine and were counted as duplicated.
    pub handle_all-accounted :
        (rules : List (FaultRule D)) (seeded : R) (events : List (Event D))
        → let e = handle_all (record (new_engine seeded) { rules = rules }) events in
          accounted e ≡ given_count events + e.duplicated
    handle_all-accounted rules seeded events =
        omega (arith, handle_all-Moves events (record (new_engine seeded) { rules = rules }))

    -- With no rule in force for the stream at that time, and with `0.0 <= 0.0` true, the frame is written
    -- at once as it is, and nothing else changes but that the stream is no longer marked as restarted.
    pub process_transparent :
        (e : FaultEngine D R) (bytes : List ℕ) (t_s : D) (stream : Text)
        → d.le (d.of_nat 0) (d.of_nat 0) ≡ true
        → active_rules e.rules stream t_s ≡ []
        → process random clock e bytes t_s stream ≡ record e {
          restarted_this_window = without stream e.restarted_this_window;
          written = e.written ++ (bytes ∷ []);
          forwarded = e.forwarded + 1;
        }
    unfolding process fire_restarts clear_restarts drop_loop limit_loop send corrupt_loop
        duplicate_loop dispatch_or_delay max_delay emit
    process_transparent e bytes t_s stream z none_active = rw (none_active, z) refl

    -- While a disconnect or a burst loss is in force for the stream, the frame is counted as dropped
    -- and nothing is written, queued or held.
    pub process-suppressed :
        (e : FaultEngine D R) (bytes : List ℕ) (t_s : D) (stream : Text)
        → suppressed (active_rules e.rules stream t_s) ≡ true
        → let e' = process random clock e bytes t_s stream in
          (e'.dropped ≡ e.dropped + 1)
          × (e'.written ≡ e.written)
          × (e'.delayed ≡ e.delayed)
          × (e'.has_held ≡ e.has_held)
    unfolding process
    process-suppressed e bytes t_s stream on =
        let active = active_rules e.rules stream t_s in
        let fired = fire_restarts-SameFrames active stream e in
        let cleared = clear_restarts-SameFrames active stream (fire_restarts active stream e) in
        rw on (
          omega (arith, cleared.0, fired.0),
          cleared.1 ∙ fired.1,
          cleared.2 ∙ fired.2,
          cleared.3 ∙ fired.3,
        )
