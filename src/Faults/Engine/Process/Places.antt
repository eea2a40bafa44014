-- ===== src/Faults/Engine/Process/Places.antt =====
-- faults/fault_engine.cpp: where the frames of a kind are, over any sequence of calls and worker turns.
use av_hil_validation_platfo.Base.Double.{Double}
use av_hil_validation_platfo.Base.Lists.{length}
use av_hil_validation_platfo.Base.Tests.{Bool-cases, if◌then◌else◌}
use av_hil_validation_platfo.Base.Text.{Text}
use av_hil_validation_platfo.Faults.Rule.{FaultRule, corrupt, reorder}
use av_hil_validation_platfo.Faults.Engine.{
  FaultEngine, Delayed, Random, new_engine, pop_top, emit, dispatch_or_delay, max_delay, take_top,
  emit_taken, worker_turn, flush_round, flush_loop, flush,
}
use av_hil_validation_platfo.Faults.Engine.Process.{
  active_rules, any_kind, fire_restart, fire_restarts, clear_restarts, refill, drop_loop,
  limit_loop, swap_held, send_copy, duplicate_loop, send, process,
}
use av_hil_validation_platfo.Faults.Engine.Process.Conservation.{count, accounted}
use av_hil_validation_platfo.Faults.Engine.Process.Run.{
  Event, given, worker_wakes, worker_emits, flushed, given_count, handle, handle_all,
  handle_all-accounted,
}
use av_hil_validation_platfo.Faults.Engine.Process.Unchanged.{
  IsKept, AllGiven, handle-IsKept, any_kind-active_rules, corrupt_loop-unchanged,
}
use av_hil_validation_platfo.Base.{
  ℕ, zero, suc, ◌+◌, ◌≤◌, ◌≡◌, refl, Bool, false, inl, inr, List, [], ◌∷◌, ◌++◌, arith,
}

-- The frames that pass a test.
module _ (p : List ℕ → Bool) where
  abbrev pub passing : List (List ℕ) → ℕ
  passing [] = 0
  passing (x ∷ xs) = count (p x) + passing xs

  abbrev pub passing_delayed : {D : Type 0} → List (Delayed D) → ℕ
  passing_delayed [] = 0
  passing_delayed (x ∷ xs) = count (p x.bytes) + passing_delayed xs

  -- Those that were written, wait in the queue, are on their way out of it, or are held.
  abbrev pub present : {D R : Type 0} → FaultEngine D R → ℕ
  present e =
      passing e.written
      + passing_delayed e.delayed
      + passing e.releasing
      + (if e.has_held then count (p e.held) else 0)

  abbrev pub passing_given : {D : Type 0} → List (Event D) → ℕ
  passing_given [] = 0
  passing_given (given bytes t_s stream ∷ events) = count (p bytes) + passing_given events
  passing_given (_ ∷ events) = passing_given events

  passing-append :
      (xs : List (List ℕ)) (y : List ℕ) → passing (xs ++ y ∷ []) ≡ passing xs + count (p y)
  passing-append [] y = omega arith
  passing-append (x ∷ xs) y = omega (arith, passing-append xs y)

  passing_delayed-append :
      {D : Type 0} (xs : List (Delayed D)) (y : Delayed D)
      → passing_delayed (xs ++ y ∷ []) ≡ passing_delayed xs + count (p y.bytes)
  passing_delayed-append [] y = omega arith
  passing_delayed-append (x ∷ xs) y = omega (arith, passing_delayed-append xs y)

  -- From `e` to `e'`, with `n` of them given to the engine: no more than that come in but for the copies that
  -- are counted, and no more go than are counted as dropped.
  abbrev Moves : {D R : Type 0} → ℕ → FaultEngine D R → FaultEngine D R → Type 0
  Moves n e e' =
      (present e' + e.duplicated ≤ present e + n + e'.duplicated)
      × (present e + n + e.dropped ≤ present e' + e'.dropped)

  -- Only the number of dropped frames changes.
  abbrev Drops : {D R : Type 0} → ℕ → FaultEngine D R → FaultEngine D R → Type 0
  Drops n e e' =
      (present e' ≡ present e) × ((e'.dropped ≡ e.dropped + n) × (e'.duplicated ≡ e.duplicated))

module _ {D : Type 0} ⦃d : Double D⦄ (p : List ℕ → Bool) where
  passing-pop_top :
      (x : Delayed D) (xs : List (Delayed D))
      → count (p (pop_top x xs).0.bytes) + passing_delayed p (pop_top x xs).1
        ≡ passing_delayed p (x ∷ xs)
  unfolding pop_top
  passing-pop_top x [] = refl
  passing-pop_top x (y ∷ ys) = elim (Bool-cases (d.lt y.due_ns x.due_ns)) [
    | inl e ↦ rw e (omega (arith, passing-pop_top y ys))
    | inr e ↦ rw e (omega (arith, passing-pop_top x ys))
  ]

module _ {D R : Type 0} ⦃d : Double D⦄ (p : List ℕ → Bool) where
  take_top-Moves :
      (e : FaultEngine D R) (l : List (Delayed D)) → e.delayed ≡ l → Moves p 0 e (take_top e)
  unfolding take_top
  take_top-Moves e [] q =
      let empty : passing_delayed p e.delayed ≡ 0 = rw q refl in
      rw (q, take_top) (omega (arith, empty), omega (arith, empty))
  take_top-Moves e (x ∷ xs) q =
      let popped = passing-pop_top p x xs in
      let added = passing-append p e.releasing (pop_top x xs).0.bytes in
      rw (q, take_top) (omega (arith, popped, added), omega (arith, popped, added))

  emit_taken-Moves :
      (e : FaultEngine D R) (l : List (List ℕ)) → e.releasing ≡ l → Moves p 0 e (emit_taken e)
  unfolding emit_taken emit
  emit_taken-Moves e [] q =
      let empty : passing p e.releasing ≡ 0 = rw q refl in
      rw (q, emit_taken) (omega (arith, empty), omega (arith, empty))
  emit_taken-Moves e (x ∷ xs) q =
      let added = passing-append p e.written x in
      rw (q, emit_taken) (omega (arith, added), omega (arith, added))

  flush_round-Moves :
      (e : FaultEngine D R) (l : List (Delayed D)) → e.delayed ≡ l → Moves p 0 e (flush_round e)
  unfolding flush_round emit
  flush_round-Moves e [] q =
      let empty : passing_delayed p e.delayed ≡ 0 = rw q refl in
      rw (q, flush_round) (omega (arith, empty), omega (arith, empty))
  flush_round-Moves e (x ∷ xs) q =
      let popped = passing-pop_top p x xs in
      let added = passing-append p e.written (pop_top x xs).0.bytes in
      rw (q, flush_round) (omega (arith, popped, added), omega (arith, popped, added))

  flush_loop-Moves : (n : ℕ) (e : FaultEngine D R) → Moves p 0 e (flush_loop n e)
  unfolding flush_loop
  flush_loop-Moves zero e = (omega arith, omega arith)
  flush_loop-Moves (suc n) e =
      let once = flush_round-Moves e e.delayed refl in
      let rest = flush_loop-Moves n (flush_round e) in
      (omega (arith, once.0, rest.0), omega (arith, once.1, rest.1))

  worker_turn-Moves :
      (now : D) (e : FaultEngine D R) (l : List (Delayed D))
      → e.delayed ≡ l
      → Moves p 0 e (worker_turn now e)
  unfolding worker_turn
  worker_turn-Moves now e [] q = ground (arith, q)
  worker_turn-Moves now e (x ∷ xs) q = ground (arith, q, take_top-Moves e (x ∷ xs) q)

  fire_restart-Drops :
      (r : FaultRule D) (stream : Text) (e : FaultEngine D R)
      → Drops p 0 e (fire_restart r stream e)
  unfolding fire_restart
  fire_restart-Drops r stream e = ground arith

  fire_restarts-Drops :
      (active : List (FaultRule D)) (stream : Text) (e : FaultEngine D R)
      → Drops p 0 e (fire_restarts active stream e)
  unfolding fire_restarts
  fire_restarts-Drops [] stream e = ground arith
  fire_restarts-Drops (r ∷ active) stream e = ground (
    arith,
    fire_restarts-Drops active stream (fire_restart r stream e),
    fire_restart-Drops r stream e,
  )

  clear_restarts-Drops :
      (active : List (FaultRule D)) (stream : Text) (e : FaultEngine D R)
      → Drops p 0 e (clear_restarts active stream e)
  unfolding clear_restarts
  clear_restarts-Drops [] stream e = ground arith
  clear_restarts-Drops (r ∷ active) stream e = ground arith

  refill-Drops : (r : FaultRule D) (now : D) (e : FaultEngine D R) → Drops p 0 e (refill r now e)
  unfolding refill
  refill-Drops r now e = ground arith

  drop_loop-Drops :
      (random : Random D R) (active : List (FaultRule D)) (e : FaultEngine D R)
      → let (hit, e') = drop_loop random active e in Drops p (count hit) e e'
  unfolding drop_loop
  drop_loop-Drops random [] e = ground arith
  drop_loop-Drops random (r ∷ active) e = ground (
    arith,
    drop_loop-Drops random active e,
    drop_loop-Drops random active (record e { rng = (random.uniform e.rng).1 }),
  )

  module _ (clock : ℕ → D) where
    limit_loop-Drops :
        (active : List (FaultRule D)) (size : ℕ) (e : FaultEngine D R)
        → let (over, e') = limit_loop clock active size e in Drops p (count over) e e'
    unfolding limit_loop
    limit_loop-Drops [] size e = ground arith
    limit_loop-Drops (r ∷ active) size e =
        let e1 : FaultEngine D R = record e { readings = e.readings + 1 } in
        let e2 = refill r (clock e.readings) e1 in
        let spent : FaultEngine D R = record e2 {
          tokens_bytes = d.sub e2.tokens_bytes (d.of_nat size);
        } in
        ground (
          arith,
          limit_loop-Drops active size e,
          limit_loop-Drops active size spent,
          refill-Drops r (clock e.readings) e1,
        )

    -- One frame comes in.
    abbrev Adds : List ℕ → FaultEngine D R → FaultEngine D R → Type 0
    Adds bytes e e' =
        (present p e' ≡ present p e + count (p bytes))
        × ((e'.dropped ≡ e.dropped) × (e'.duplicated ≡ e.duplicated))

    dispatch_or_delay-Adds :
        (e : FaultEngine D R) (payload : List ℕ) (active : List (FaultRule D))
        → Adds payload e (dispatch_or_delay clock e payload active)
    unfolding dispatch_or_delay emit
    dispatch_or_delay-Adds e payload active =
        let delay_ms = max_delay active (d.of_nat 0) in
        let due = d.add (clock e.readings) (d.mul delay_ms (d.of_nat 1_000_000)) in
        let queued =
          passing_delayed-append p e.delayed (record { due_ns = due; bytes = payload }) in
        let sent = passing-append p e.written payload in
        elim (Bool-cases (d.le delay_ms (d.of_nat 0))) [
          | inl now ↦ rw now (omega (arith, sent), (refl, refl))
          | inr later ↦ rw later (omega (arith, queued), (refl, refl))
        ]

    swap_held-Adds :
        (payload : List ℕ) (active : List (FaultRule D)) (e : FaultEngine D R)
        → Adds payload e (swap_held clock payload active e)
    unfolding swap_held
    swap_held-Adds payload active e =
        let e0 : FaultEngine D R = record e { has_held = false; held = [] } in
        let e1 = dispatch_or_delay clock e0 payload active in
        ground
          (arith, dispatch_or_delay-Adds e0 payload active, dispatch_or_delay-Adds e1 e.held active)

    send_copy-Moves :
        (r : FaultRule D) (payload : List ℕ) (active : List (FaultRule D)) (e : FaultEngine D R)
        → Moves p 0 e (send_copy clock r payload active e)
    unfolding send_copy
    send_copy-Moves r payload active e = ground (arith, dispatch_or_delay-Adds e payload active)

    duplicate_loop-Moves :
        (rs : List (FaultRule D)) (payload : List ℕ) (active : List (FaultRule D))
        (e : FaultEngine D R)
        → Moves p 0 e (duplicate_loop clock rs payload active e)
    unfolding duplicate_loop
    duplicate_loop-Moves [] payload active e = (omega arith, omega arith)
    duplicate_loop-Moves (r ∷ rs) payload active e =
        let once = send_copy-Moves r payload active e in
        let rest = duplicate_loop-Moves rs payload active (send_copy clock r payload active e) in
        (omega (arith, once.0, rest.0), omega (arith, once.1, rest.1))

  module _ (random : Random D R) (clock : ℕ → D) where
    send-Moves :
        (bytes : List ℕ) (active : List (FaultRule D)) (e : FaultEngine D R)
        → any_kind corrupt active ≡ false
        → Moves p (count (p bytes)) e (send random clock bytes active e)
    unfolding send
    send-Moves bytes active e none_corrupts =
        let sent = dispatch_or_delay-Adds clock e bytes active in
        let swapped = swap_held-Adds clock bytes active e in
        let copied =
          duplicate_loop-Moves clock active bytes active (dispatch_or_delay clock e bytes active) in
        rw (corrupt_loop-unchanged (λ _. Unit) random active bytes e none_corrupts)
          (elim (Bool-cases (any_kind reorder active)) [
            | inl on ↦ rw on (ground (arith, swapped))
            | inr off ↦ rw off (ground (arith, sent, copied))
          ])

    process-Moves :
        (e : FaultEngine D R) (bytes : List ℕ) (t_s : D) (stream : Text)
        → any_kind corrupt e.rules ≡ false
        → Moves p (count (p bytes)) e (process random clock e bytes t_s stream)
    unfolding process
    process-Moves e bytes t_s stream none_corrupts =
        let active = active_rules e.rules stream t_s in
        let e0 = fire_restarts active stream e in
        let e1 = clear_restarts active stream e0 in
        let (hit, e2) = drop_loop random active e1 in
        let (over, e3) = limit_loop clock active (length bytes) e2 in
        let at_most_one : count (p bytes) ≤ 1 = ground arith in
        ground (
          arith,
          at_most_one,
          fire_restarts-Drops active stream e,
          clear_restarts-Drops active stream e0,
          drop_loop-Drops random active e1,
          limit_loop-Drops clock active (length bytes) e2,
          send-Moves bytes active e3 (any_kind-active_rules e.rules stream t_s none_corrupts),
        )

    handle-Moves :
        (e : FaultEngine D R) (event : Event D)
        → any_kind corrupt e.rules ≡ false
        → Moves p (passing_given p (event ∷ [])) e (handle random clock e event)
    unfolding flush
    handle-Moves e (given bytes t_s stream) none_corrupts =
        let moved = process-Moves e bytes t_s stream none_corrupts in
        (omega (arith, moved.0), omega (arith, moved.1))
    handle-Moves e (worker_wakes now) none_corrupts = worker_turn-Moves now e e.delayed refl
    handle-Moves e worker_emits none_corrupts = emit_taken-Moves e e.releasing refl
    handle-Moves e flushed none_corrupts = flush_loop-Moves (length e.delayed) e

    passing_given-cons :
        (event : Event D) (events : List (Event D))
        → passing_given p (event ∷ events) ≡ passing_given p (event ∷ []) + passing_given p events
    passing_given-cons (given bytes t_s stream) events = omega arith
    passing_given-cons (worker_wakes now) events = omega arith
    passing_given-cons worker_emits events = omega arith
    passing_given-cons flushed events = omega arith

    all_given : (event : Event D) → AllGiven (λ _. Unit) random clock (event ∷ [])
    all_given (given bytes t_s stream) = (tt, tt)
    all_given (worker_wakes now) = tt
    all_given worker_emits = tt
    all_given flushed = tt

    handle_all-Moves :
        (events : List (Event D)) (e : FaultEngine D R)
        → IsKept (λ _. Unit) e
        → Moves p (passing_given p events) e (handle_all random clock e events)
    handle_all-Moves [] e h = (omega arith, omega arith)
    handle_all-Moves (event ∷ events) e h =
        let once = handle-Moves e event h.1.1.1.1 in
        let kept = handle-IsKept (λ _. Unit) random clock e event (all_given event) h in
        let rest = handle_all-Moves events (handle random clock e event) kept in
        let given_in_all = passing_given-cons event events in
        (omega (arith, once.0, rest.0, given_in_all), omega (arith, once.1, rest.1, given_in_all))

    -- For an engine with no rule of kind corrupt, and any test of frames: after any sequence of calls of
    -- `process` and `flush` and of worker turns, of the frames that pass the test no more are written, in the
    -- queue, on their way out of it or held than were given to the engine and counted as duplicated, and
    -- no more of those given are in none of these places than were counted as dropped. The frames of
    -- any kind forwarded, in the queue, on their way, held and dropped are exactly as many as were given
    -- and duplicated.
    pub handle_all-present :
        (rules : List (FaultRule D)) (seeded : R) (events : List (Event D))
        → any_kind corrupt rules ≡ false
        → let e = handle_all random clock (record (new_engine seeded) { rules = rules }) events in
          (present p e ≤ passing_given p events + e.duplicated)
          × (passing_given p events ≤ present p e + e.dropped)
          × (accounted e ≡ given_count events + e.duplicated)
    handle_all-present rules seeded events none_corrupts =
        let moved =
          handle_all-Moves events (record (new_engine seeded) { rules = rules })
            (tt, (tt, (tt, ((λ q. tt), none_corrupts)))) in
        (
          omega (arith, moved.0),
          omega (arith, moved.1),
          handle_all-accounted random clock rules seeded events,
        )
