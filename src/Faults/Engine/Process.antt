-- ===== src/Faults/Engine/Process.antt =====
-- faults/fault_engine.cpp: `process`, in the order of its steps.
pub mod Conservation
pub mod Places
pub mod Run
pub mod Unchanged
use av_hil_validation_platfo.Base.Double.{Double, min}
use av_hil_validation_platfo.Base.Lists.{length, get_or, set}
use av_hil_validation_platfo.Base.Tests.{if◌then◌else◌}
use av_hil_validation_platfo.Base.Text.{Text, same, contains}
use av_hil_validation_platfo.Faults.Rule.{
  FaultRule, FaultKind, is_kind, drop, duplicate, corrupt, reorder, burst_loss, bandwidth_limit,
  ecu_disconnect, process_restart, active_at, matches,
}
use av_hil_validation_platfo.Faults.Engine.{
  FaultEngine, Random, emit, now_ns, dispatch_or_delay, take_top, emit_taken, worker_turn, flush,
}
use av_hil_validation_platfo.Base.{
  ℕ, zero, suc, ◌+◌, ◌-◌, ◌*◌, ◌%◌, ◌^◌, bit_xor, Bool, true, false, not, ◌&&◌, ◌||◌, List, [], ◌∷◌,
  ◌++◌,
}

-- `std::remove` with `erase`
abbrev pub without : Text → List Text → List Text
without stream [] = []
without stream (s ∷ v) = if same s stream then without stream v else s ∷ without stream v

module _ {D : Type 0} where
  abbrev pub any_kind : FaultKind → List (FaultRule D) → Bool
  any_kind k [] = false
  any_kind k (r ∷ active) = is_kind r.kind k || any_kind k active

  abbrev pub suppressed : List (FaultRule D) → Bool
  suppressed [] = false
  suppressed (r ∷ active) =
      (is_kind r.kind ecu_disconnect || is_kind r.kind burst_loss) || suppressed active

module _ {D : Type 0} ⦃d : Double D⦄ where
  abbrev pub above_zero : D → Bool
  above_zero x = d.lt (d.of_nat 0) x

  -- The rules of the stream that are in force.
  unfoldable pub active_rules : List (FaultRule D) → Text → D → List (FaultRule D)
  active_rules [] stream t_s = []
  active_rules (r ∷ rules) stream t_s =
      let rest = active_rules rules stream t_s in
      if matches r stream && active_at r t_s then r ∷ rest else rest

module _ {D R : Type 0} ⦃d : Double D⦄ where
  -- The body of the first loop: the hook is called once for a stream.
  pub fire_restart : FaultRule D → Text → FaultEngine D R → FaultEngine D R
  fire_restart r stream e =
      if is_kind r.kind process_restart && not (contains stream e.restarted_this_window)
      then record e {
        restarted_this_window = e.restarted_this_window ++ (stream ∷ []);
        restarts = if e.has_restart_hook then e.restarts ++ (stream ∷ []) else e.restarts;
      }
      else e

  pub fire_restarts : List (FaultRule D) → Text → FaultEngine D R → FaultEngine D R
  unfolding fire_restart
  fire_restarts [] stream e = e
  fire_restarts (r ∷ active) stream e = fire_restarts active stream (fire_restart r stream e)

  pub clear_restarts : List (FaultRule D) → Text → FaultEngine D R → FaultEngine D R
  clear_restarts [] stream e = record e {
    restarted_this_window = without stream e.restarted_this_window;
  }
  clear_restarts (r ∷ active) stream e = e

  abbrev pub count_drop : FaultEngine D R → FaultEngine D R
  count_drop e = record e { dropped = e.dropped + 1 }

  -- The token bucket of one rule, before the test: refilled.
  pub refill : FaultRule D → D → FaultEngine D R → FaultEngine D R
  refill r now e =
      let cap_bytes = d.div (d.mul r.bandwidth_kbps (d.of_nat 1000)) (d.of_nat 8) in
      let e : FaultEngine D R =
        if d.eq e.last_refill_ns (d.of_nat 0)
        then record e { last_refill_ns = now; tokens_bytes = cap_bytes }
        else e in
      let elapsed_s = d.div (d.sub now e.last_refill_ns) (d.of_nat 1_000_000_000) in
      record e {
        tokens_bytes = min cap_bytes (d.add e.tokens_bytes (d.mul elapsed_s cap_bytes));
        last_refill_ns = now;
      }

  module _ (random : Random D R) where
    -- Each loop over the rules also says whether the frame was dropped.
    pub drop_loop : List (FaultRule D) → FaultEngine D R → Bool × FaultEngine D R
    drop_loop [] e = (false, e)
    drop_loop (r ∷ active) e =
        if is_kind r.kind drop && above_zero r.drop_rate
        then (let (u, rng) = random.uniform e.rng in
            let e : FaultEngine D R = record e { rng = rng } in
            let rest = drop_loop active e in
            if d.lt u r.drop_rate then (true, count_drop e) else rest)
        else drop_loop active e

    -- One flipped bit. The right side of `^=` is evaluated first.
    pub flip_bit : List ℕ → R → List ℕ × R
    flip_bit payload rng =
        let (b, rng) = random.bit rng in
        let (i, rng) = random.position (length payload - 1) rng in
        (set payload i (bit_xor (get_or payload i 0) (2 ^ b % 2 ^ 8)), rng)

    pub flip_bits : ℕ → List ℕ → R → List ℕ × R
    unfolding flip_bit
    flip_bits zero payload rng = (payload, rng)
    flip_bits (suc n) payload rng =
        let (payload, rng) = flip_bit payload rng in flip_bits n payload rng

    pub corrupt_loop : List (FaultRule D) → List ℕ → FaultEngine D R → List ℕ × FaultEngine D R
    unfolding flip_bits
    corrupt_loop [] payload e = (payload, e)
    corrupt_loop (r ∷ active) [] e = corrupt_loop active [] e
    corrupt_loop (r ∷ active) (b ∷ payload) e =
        if is_kind r.kind corrupt
        then (let (payload, rng) = flip_bits r.corrupt_bits (b ∷ payload) e.rng in
            corrupt_loop active payload (record e { rng = rng; corrupted = e.corrupted + 1 }))
        else corrupt_loop active (b ∷ payload) e

  module _ (clock : ℕ → D) where
    pub limit_loop : List (FaultRule D) → ℕ → FaultEngine D R → Bool × FaultEngine D R
    unfolding refill
    limit_loop [] size e = (false, e)
    limit_loop (r ∷ active) size e =
        if is_kind r.kind bandwidth_limit && above_zero r.bandwidth_kbps
        then (let (now, e) = now_ns clock e in
            let e = refill r now e in
            let spent : FaultEngine D R = record e {
              tokens_bytes = d.sub e.tokens_bytes (d.of_nat size);
            } in
            let rest = limit_loop active size spent in
            if d.lt e.tokens_bytes (d.of_nat size) then (true, count_drop e) else rest)
        else limit_loop active size e

    -- Adjacent frames are swapped: the first is held, the second goes out before it.
    pub swap_held : List ℕ → List (FaultRule D) → FaultEngine D R → FaultEngine D R
    swap_held payload active e =
        if not e.has_held
        then record e { has_held = true; held = payload }
        else let prev = e.held in
          let e : FaultEngine D R = record e { has_held = false; held = [] } in
          let e = dispatch_or_delay clock e payload active in
          let e = dispatch_or_delay clock e prev active in record e { reordered = e.reordered + 1 }

    -- The body of the last loop: a second copy.
    pub send_copy : FaultRule D → List ℕ → List (FaultRule D) → FaultEngine D R → FaultEngine D R
    send_copy r payload active e =
        if is_kind r.kind duplicate
        then (let e = dispatch_or_delay clock e payload active in
            record e { duplicated = e.duplicated + 1 })
        else e

    pub duplicate_loop :
        List (FaultRule D) → List ℕ → List (FaultRule D) → FaultEngine D R → FaultEngine D R
    unfolding send_copy
    duplicate_loop [] payload active e = e
    duplicate_loop (r ∷ rs) payload active e =
        duplicate_loop rs payload active (send_copy r payload active e)

  module _ (random : Random D R) (clock : ℕ → D) where
    -- From the corruption of the payload on.
    pub send : List ℕ → List (FaultRule D) → FaultEngine D R → FaultEngine D R
    unfolding corrupt_loop swap_held duplicate_loop
    send bytes active e =
        let (payload, e) = corrupt_loop random active bytes e in
        if any_kind reorder active
        then swap_held clock payload active e
        else duplicate_loop clock active payload active (dispatch_or_delay clock e payload active)

    pub process : FaultEngine D R → List ℕ → D → Text → FaultEngine D R
    unfolding active_rules fire_restarts clear_restarts drop_loop limit_loop send
    process e bytes t_s stream =
        let active = active_rules e.rules stream t_s in
        let e = clear_restarts active stream (fire_restarts active stream e) in
        if suppressed active
        then count_drop e
        else let (hit, e) = drop_loop random active e in
          if hit
          then e
          else let (over, e) = limit_loop clock active (length bytes) e in
            if over then e else send bytes active e
