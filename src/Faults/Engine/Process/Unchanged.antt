-- ===== src/Faults/Engine/Process/Unchanged.antt =====
-- faults/fault_engine.cpp: which frames the engine writes, over any sequence of calls and worker turns.
use av_hil_validation_platfo.Base.Double.{Double}
use av_hil_validation_platfo.Base.Lists.{All, All-append, length}
use av_hil_validation_platfo.Base.Tests.{Bool-cases}
use av_hil_validation_platfo.Base.Text.{Text}
use av_hil_validation_platfo.Faults.Rule.{FaultRule, is_kind, corrupt, reorder}
use av_hil_validation_platfo.Faults.Engine.{
  FaultEngine, Delayed, Random, new_engine, pop_top, emit, dispatch_or_delay, max_delay, take_top,
  emit_taken, worker_turn, flush_round, flush_loop, flush,
}
use av_hil_validation_platfo.Faults.Engine.Process.{
  active_rules, any_kind, fire_restart, fire_restarts, clear_restarts, refill, drop_loop,
  limit_loop, corrupt_loop, swap_held, send_copy, duplicate_loop, send, process,
}
use av_hil_validation_platfo.Faults.Engine.Process.Run.{
  Event, given, worker_wakes, worker_emits, flushed, handle, handle_all,
}
use av_hil_validation_platfo.Base.{
  ℕ, zero, suc, ◌+◌, ◌≡◌, refl, true, false, inl, inr, List, [], ◌∷◌, arith,
}

module _ (P : List ℕ → Type 0) where
  -- Every frame that the engine has written or still has satisfies `P`, and no rule corrupts.
  abbrev pub IsKept : {D R : Type 0} → FaultEngine D R → Type 0
  IsKept e =
      All P e.written
      × (All (λ x. P x.bytes) e.delayed
          × (All P e.releasing
              × ((e.has_held ≡ true → P e.held) × (any_kind corrupt e.rules ≡ false))))

module _ {D : Type 0} ⦃d : Double D⦄ where
  pub any_kind-active_rules :
      (rules : List (FaultRule D)) (stream : Text) (t_s : D)
      → any_kind corrupt rules ≡ false
      → any_kind corrupt (active_rules rules stream t_s) ≡ false
  unfolding active_rules
  any_kind-active_rules [] stream t_s h = refl
  any_kind-active_rules (r ∷ rules) stream t_s h =
      ground (arith, h, any_kind-active_rules rules stream t_s)

module _ {D : Type 0} ⦃d : Double D⦄ (P : List ℕ → Type 0) where
  pop_top-All :
      (x : Delayed D) (xs : List (Delayed D))
      → P x.bytes
      → All (λ y. P y.bytes) xs
      → P (pop_top x xs).0.bytes × All (λ y. P y.bytes) (pop_top x xs).1
  unfolding pop_top
  pop_top-All x [] p h = (p, tt)
  pop_top-All x (y ∷ ys) p (q, h) = elim (Bool-cases (d.lt y.due_ns x.due_ns)) [
    | inl e ↦ let (a, b) = pop_top-All y ys q h in rw e (a, (p, b))
    | inr e ↦ let (a, b) = pop_top-All x ys p h in rw e (a, (q, b))
  ]

module _ {D R : Type 0} ⦃d : Double D⦄ (P : List ℕ → Type 0) where
  fire_restart-IsKept :
      (r : FaultRule D) (stream : Text) (e : FaultEngine D R)
      → IsKept P e
      → IsKept P (fire_restart r stream e)
  unfolding fire_restart
  fire_restart-IsKept r stream e h = ground (arith, h)

  fire_restarts-IsKept :
      (active : List (FaultRule D)) (stream : Text) (e : FaultEngine D R)
      → IsKept P e
      → IsKept P (fire_restarts active stream e)
  unfolding fire_restarts
  fire_restarts-IsKept [] stream e h = h
  fire_restarts-IsKept (r ∷ active) stream e h =
      fire_restarts-IsKept active stream (fire_restart r stream e)
        (fire_restart-IsKept r stream e h)

  clear_restarts-IsKept :
      (active : List (FaultRule D)) (stream : Text) (e : FaultEngine D R)
      → IsKept P e
      → IsKept P (clear_restarts active stream e)
  unfolding clear_restarts
  clear_restarts-IsKept [] stream e h = h
  clear_restarts-IsKept (r ∷ active) stream e h = h

  refill-IsKept :
      (r : FaultRule D) (now : D) (e : FaultEngine D R) → IsKept P e → IsKept P (refill r now e)
  unfolding refill
  refill-IsKept r now e h = ground (arith, h)

  emit-IsKept :
      (e : FaultEngine D R) (bytes : List ℕ) → P bytes → IsKept P e → IsKept P (emit e bytes)
  unfolding emit
  emit-IsKept e bytes p (w, rest) = (All-append P e.written (bytes ∷ []) w (p, tt), rest)

  flush_round-IsKept :
      (e : FaultEngine D R) (l : List (Delayed D))
      → e.delayed ≡ l
      → IsKept P e
      → IsKept P (flush_round e)
  unfolding flush_round
  flush_round-IsKept e [] q h = rw q (h.0, (tt, h.1.1))
  flush_round-IsKept e (x ∷ xs) q (w, (dl, rest)) =
      let both : All (λ y. P y.bytes) (x ∷ xs) = rw q at dl in
      let (top, others) = pop_top-All P x xs both.0 both.1 in
      rw q (
        emit-IsKept (record e { delayed = (pop_top x xs).1 }) (pop_top x xs).0.bytes top
          (w, (others, rest)))

  flush_loop-IsKept : (n : ℕ) (e : FaultEngine D R) → IsKept P e → IsKept P (flush_loop n e)
  unfolding flush_loop
  flush_loop-IsKept zero e h = h
  flush_loop-IsKept (suc n) e h =
      flush_loop-IsKept n (flush_round e) (flush_round-IsKept e e.delayed refl h)

  pub flush-IsKept : (e : FaultEngine D R) → IsKept P e → IsKept P (flush e)
  unfolding flush
  flush-IsKept e h = flush_loop-IsKept (length e.delayed) e h

  take_top-IsKept :
      (e : FaultEngine D R) (l : List (Delayed D))
      → e.delayed ≡ l
      → IsKept P e
      → IsKept P (take_top e)
  unfolding take_top
  take_top-IsKept e [] q h = rw q (h.0, (tt, h.1.1))
  take_top-IsKept e (x ∷ xs) q (w, (dl, (rl, held))) =
      let both : All (λ y. P y.bytes) (x ∷ xs) = rw q at dl in
      let (top, others) = pop_top-All P x xs both.0 both.1 in
      rw q
        (w, (others, (All-append P e.releasing ((pop_top x xs).0.bytes ∷ []) rl (top, tt), held)))

  pub worker_turn-IsKept :
      (now : D) (e : FaultEngine D R) (l : List (Delayed D))
      → e.delayed ≡ l
      → IsKept P e
      → IsKept P (worker_turn now e)
  unfolding worker_turn
  worker_turn-IsKept now e [] q h = elim (Bool-cases e.stop) [
    | inl s ↦ rw s h
    | inr s ↦ rw (s, q) h
  ]
  worker_turn-IsKept now e (x ∷ xs) q h = elim (Bool-cases e.stop) [
    | inl s ↦ rw s h
    | inr s ↦ elim (Bool-cases (d.lt now (pop_top x xs).0.due_ns)) [
      | inl w ↦ rw (s, q, w) h
      | inr w ↦ rw (s, q, w) (take_top-IsKept e (x ∷ xs) q h)
    ]
  ]

  pub emit_taken-IsKept :
      (e : FaultEngine D R) (l : List (List ℕ))
      → e.releasing ≡ l
      → IsKept P e
      → IsKept P (emit_taken e)
  unfolding emit_taken
  emit_taken-IsKept e [] q h = rw q (h.0, (h.1.0, (tt, h.1.1.1)))
  emit_taken-IsKept e (x ∷ xs) q (w, (dl, (rl, held))) =
      let both : All P (x ∷ xs) = rw q at rl in
      rw q (emit-IsKept (record e { releasing = xs }) x both.0 (w, (dl, (both.1, held))))

  module _ (random : Random D R) where
    drop_loop-IsKept :
        (active : List (FaultRule D)) (e : FaultEngine D R)
        → IsKept P e
        → IsKept P (drop_loop random active e).1
    unfolding drop_loop
    drop_loop-IsKept [] e h = h
    drop_loop-IsKept (r ∷ active) e h = ground (
      arith,
      h,
      drop_loop-IsKept active e h,
      drop_loop-IsKept active (record e { rng = (random.uniform e.rng).1 }) h,
    )

    -- Without a rule of kind corrupt the payload stays as it is.
    pub corrupt_loop-unchanged :
        (active : List (FaultRule D)) (payload : List ℕ) (e : FaultEngine D R)
        → any_kind corrupt active ≡ false
        → corrupt_loop random active payload e ≡ (payload, e)
    unfolding corrupt_loop
    corrupt_loop-unchanged [] payload e h = refl
    corrupt_loop-unchanged (r ∷ active) [] e h =
        corrupt_loop-unchanged active [] e (ground (arith, h))
    corrupt_loop-unchanged (r ∷ active) (b ∷ payload) e h =
        let other : is_kind r.kind corrupt ≡ false = ground (arith, h) in
        rw other (corrupt_loop-unchanged active (b ∷ payload) e (ground (arith, h)))

  module _ (clock : ℕ → D) where
    limit_loop-IsKept :
        (active : List (FaultRule D)) (size : ℕ) (e : FaultEngine D R)
        → IsKept P e
        → IsKept P (limit_loop clock active size e).1
    unfolding limit_loop
    limit_loop-IsKept [] size e h = h
    limit_loop-IsKept (r ∷ active) size e h =
        let e1 : FaultEngine D R = record e { readings = e.readings + 1 } in
        let e2 = refill r (clock e.readings) e1 in
        let h2 = refill-IsKept r (clock e.readings) e1 h in
        let spent : FaultEngine D R = record e2 {
          tokens_bytes = d.sub e2.tokens_bytes (d.of_nat size);
        } in
        ground
          (arith, h2, limit_loop-IsKept active size e h, limit_loop-IsKept active size spent h2)

    dispatch_or_delay-IsKept :
        (e : FaultEngine D R) (payload : List ℕ) (active : List (FaultRule D))
        → P payload
        → IsKept P e
        → IsKept P (dispatch_or_delay clock e payload active)
    unfolding dispatch_or_delay
    dispatch_or_delay-IsKept e payload active p h =
        let delay_ms = max_delay active (d.of_nat 0) in
        let waiting : Delayed D = record {
          due_ns = d.add (clock e.readings) (d.mul delay_ms (d.of_nat 1_000_000));
          bytes = payload;
        } in
        elim (Bool-cases (d.le delay_ms (d.of_nat 0))) [
          | inl now ↦ rw now (emit-IsKept e payload p h)
          | inr later ↦
              rw later
                (h.0, (All-append (λ x. P x.bytes) e.delayed (waiting ∷ []) h.1.0 (p, tt), h.1.1))
        ]

    swap_held-IsKept :
        (payload : List ℕ) (active : List (FaultRule D)) (e : FaultEngine D R)
        → P payload
        → IsKept P e
        → IsKept P (swap_held clock payload active e)
    unfolding swap_held
    swap_held-IsKept payload active e p (w, (dl, (rl, held))) =
        let e0 : FaultEngine D R = record e { has_held = false; held = [] } in
        let e1 = dispatch_or_delay clock e0 payload active in
        elim (Bool-cases e.has_held) [
          | inl has ↦
              let h1 =
                dispatch_or_delay-IsKept e0 payload active p
                  (w, (dl, (rl, ((λ q. absurd (cc)), held.1)))) in
              rw has (dispatch_or_delay-IsKept e1 e.held active (held.0 has) h1)
          | inr no_frame ↦ rw no_frame (w, (dl, (rl, ((λ _. p), held.1))))
        ]

    send_copy-IsKept :
        (r : FaultRule D) (payload : List ℕ) (active : List (FaultRule D)) (e : FaultEngine D R)
        → P payload
        → IsKept P e
        → IsKept P (send_copy clock r payload active e)
    unfolding send_copy
    send_copy-IsKept r payload active e p h =
        ground (arith, h, dispatch_or_delay-IsKept e payload active p h)

    duplicate_loop-IsKept :
        (rs : List (FaultRule D)) (payload : List ℕ) (active : List (FaultRule D))
        (e : FaultEngine D R)
        → P payload
        → IsKept P e
        → IsKept P (duplicate_loop clock rs payload active e)
    unfolding duplicate_loop
    duplicate_loop-IsKept [] payload active e p h = h
    duplicate_loop-IsKept (r ∷ rs) payload active e p h =
        duplicate_loop-IsKept rs payload active (send_copy clock r payload active e) p
          (send_copy-IsKept r payload active e p h)

  module _ (random : Random D R) (clock : ℕ → D) where
    send-IsKept :
        (bytes : List ℕ) (active : List (FaultRule D)) (e : FaultEngine D R)
        → any_kind corrupt active ≡ false
        → P bytes
        → IsKept P e
        → IsKept P (send random clock bytes active e)
    unfolding send
    send-IsKept bytes active e none_corrupts p h =
        let sent = dispatch_or_delay-IsKept clock e bytes active p h in
        rw (corrupt_loop-unchanged random active bytes e none_corrupts)
          (elim (Bool-cases (any_kind reorder active)) [
            | inl on ↦ rw on (swap_held-IsKept clock bytes active e p h)
            | inr off ↦ rw off (
                duplicate_loop-IsKept clock active bytes active
                  (dispatch_or_delay clock e bytes active) p sent)
          ])

    pub process-IsKept :
        (e : FaultEngine D R) (bytes : List ℕ) (t_s : D) (stream : Text)
        → P bytes
        → IsKept P e
        → IsKept P (process random clock e bytes t_s stream)
    unfolding process
    process-IsKept e bytes t_s stream p h =
        let active = active_rules e.rules stream t_s in
        let none_corrupts = any_kind-active_rules e.rules stream t_s h.1.1.1.1 in
        let e1 = clear_restarts active stream (fire_restarts active stream e) in
        let h1 =
          clear_restarts-IsKept active stream (fire_restarts active stream e)
            (fire_restarts-IsKept active stream e h) in
        let e2 = (drop_loop random active e1).1 in
        let h2 = drop_loop-IsKept random active e1 h1 in
        let h3 = limit_loop-IsKept clock active (length bytes) e2 h2 in
        ground (
          arith,
          h1,
          h2,
          h3,
          send-IsKept bytes active (limit_loop clock active (length bytes) e2).1 none_corrupts p h3,
        )

    -- What the events give to the engine.
    abbrev pub AllGiven : List (Event D) → Type 0
    AllGiven [] = Unit
    AllGiven (given bytes t_s stream ∷ events) = P bytes × AllGiven events
    AllGiven (_ ∷ events) = AllGiven events

    pub handle-IsKept :
        (e : FaultEngine D R) (event : Event D)
        → AllGiven (event ∷ [])
        → IsKept P e
        → IsKept P (handle random clock e event)
    handle-IsKept e (given bytes t_s stream) p h = process-IsKept e bytes t_s stream p.0 h
    handle-IsKept e (worker_wakes now) p h = worker_turn-IsKept now e e.delayed refl h
    handle-IsKept e worker_emits p h = emit_taken-IsKept e e.releasing refl h
    handle-IsKept e flushed p h = flush-IsKept e h

    handle_all-IsKept :
        (events : List (Event D)) (e : FaultEngine D R)
        → AllGiven events
        → IsKept P e
        → IsKept P (handle_all random clock e events)
    handle_all-IsKept [] e p h = h
    handle_all-IsKept (given bytes t_s stream ∷ events) e (p, ps) h =
        handle_all-IsKept events (handle random clock e (given bytes t_s stream)) ps
          (handle-IsKept e (given bytes t_s stream) (p, tt) h)
    handle_all-IsKept (worker_wakes now ∷ events) e ps h =
        handle_all-IsKept events (handle random clock e (worker_wakes now)) ps
          (handle-IsKept e (worker_wakes now) tt h)
    handle_all-IsKept (worker_emits ∷ events) e ps h =
        handle_all-IsKept events (handle random clock e worker_emits) ps
          (handle-IsKept e worker_emits tt h)
    handle_all-IsKept (flushed ∷ events) e ps h =
        handle_all-IsKept events (handle random clock e flushed) ps (handle-IsKept e flushed tt h)

    -- An engine with no rule of kind corrupt writes, over any sequence of calls and worker turns, only
    -- frames that have a property that every frame given to it has.
    pub handle_all_unchanged :
        (rules : List (FaultRule D)) (seeded : R) (events : List (Event D))
        → any_kind corrupt rules ≡ false
        → AllGiven events
        → All P
            (handle_all random clock (record (new_engine seeded) { rules = rules }) events).written
    handle_all_unchanged rules seeded events none_corrupts p =
        (handle_all-IsKept events (record (new_engine seeded) { rules = rules }) p
          (tt, (tt, (tt, ((λ q. absurd (cc)), none_corrupts))))).0
