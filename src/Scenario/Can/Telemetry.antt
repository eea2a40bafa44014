-- ===== src/Scenario/Can/Telemetry.antt =====
-- src/sensors/can_publisher.cpp and scenario_runner.cpp: what the reader of the CAN bus measures of the
-- frames that the publisher sends.
use av_hil_validation_platfo.Base.Double.{Double}
use av_hil_validation_platfo.Base.Bits.{or_fields}
use av_hil_validation_platfo.Base.Lists.{All}
use av_hil_validation_platfo.Base.Tests.{◌==◌, if◌then◌else◌, Bool-cases}
use av_hil_validation_platfo.Scenario.Can.{
  CanFrame, Signals, CanRead, CanReader, signal_frame, put_telemetry, on_tick, ticks, frame_seq,
  frame_sent_us, frame_read, new_reader, latency_us, read_frame, reader_turn, can_reader_loop,
}
use av_hil_validation_platfo.Scenario.StreamMetrics.{StreamMetrics, record_latency, record_arrival}
use av_hil_validation_platfo.Base.{
  ℕ, ◌+◌, ◌*◌, ◌/◌, ◌%◌, ◌^◌, ◌<◌, ◌≡◌, refl, ap, ap₂, sym, ◌∙◌, Bool, true, false, not, ◌&&◌, inl,
  inr, List, [], ◌∷◌, ◌++◌, map, append_assoc, append-nil, arith,
}

-- The first two bytes are the signal, the others zeros.
signal_frame_bytes :
    (signals : Signals) (seq : ℕ)
    → (a : ℕ) × (b : ℕ) × ((signal_frame signals seq).bytes ≡ a ∷ b ∷ 0 ∷ 0 ∷ 0 ∷ 0 ∷ 0 ∷ 0 ∷ [])
unfolding signal_frame
signal_frame_bytes signals seq = elim (Bool-cases (seq % 3 == 0)) [
  | inl e ↦ rw (e) ((signals.speed seq).0, (signals.speed seq).1, refl)
  | inr e ↦ elim (Bool-cases (seq % 3 == 1)) [
    | inl o ↦ rw (e, o) ((signals.angle seq).0, (signals.angle seq).1, refl)
    | inr o ↦ rw (e, o) (signals.throttle seq, 0, refl)
  ]
]

-- The reader gets back the low 16 bits of the sequence number and the low 32 bits of the clock.
pub on_tick-frame_seq :
    (signals : Signals) (seq now_us : ℕ)
    → (frame_seq (on_tick signals seq now_us) ≡ seq % 2 ^ 16)
      × (frame_sent_us (on_tick signals seq now_us) ≡ now_us % 2 ^ 32)
unfolding on_tick put_telemetry frame_seq frame_sent_us
on_tick-frame_seq signals seq now_us =
    let (a, b, e) = signal_frame_bytes signals seq in
    let s = seq % 2 ^ 16 in
    let t = now_us % 2 ^ 32 in
    let b0 = t % 2 ^ 8 in
    let b1 = t / 2 ^ 8 % 2 ^ 8 in
    let b2 = t / 2 ^ 16 % 2 ^ 8 in
    let b3 = t / 2 ^ 24 % 2 ^ 8 in
    (
      rw (e) (or_fields 8 (s % 2 ^ 8) (s / 2 ^ 8 % 2 ^ 8) (omega arith) ∙ omega arith),
      rw
          (
            e,
            or_fields 8 b0 b1 (omega arith),
            or_fields 16 (b0 + b1 * 2 ^ 8) b2 (omega arith),
            or_fields 24 (b0 + b1 * 2 ^ 8 + b2 * 2 ^ 16) b3 (omega arith),
          )
          (omega arith),
    )

-- A frame that arrived: the number of its tick, when it was sent, how long it took, and the arrival.
pub record Sent (D : Type 0) : Type 0 where
  pub seq : ℕ
  pub sent_us : ℕ
  pub took_us : ℕ
  pub arrival_s : D

module _ {D : Type 0} ⦃d : Double D⦄ (signals : Signals) where
  -- The turn of the reader that reads a frame.
  abbrev pub read_of : Sent D → CanRead D
  read_of x = frame_read (on_tick signals x.seq x.sent_us) (x.sent_us + x.took_us) x.arrival_s

abbrev pub one_if : Bool → ℕ
one_if true = 1
one_if false = 0

-- Of two ticks in a row, does the second not follow the first, as far as 16 bits tell?
abbrev pub jumps : ℕ → ℕ → Bool
jumps before after = not (after % 2 ^ 16 == (before + 1) % 2 ^ 16)

module _ {D : Type 0} where
  -- The frames that do not follow the one before.
  abbrev pub gaps_after : ℕ → List (Sent D) → ℕ
  gaps_after before [] = 0
  gaps_after before (x ∷ rest) = one_if (jumps before x.seq) + gaps_after x.seq rest

  abbrev pub gaps_of : List (Sent D) → ℕ
  gaps_of [] = 0
  gaps_of (x ∷ rest) = gaps_after x.seq rest

  abbrev pub IsQuick : Sent D → Type 0
  IsQuick x = x.took_us < 2 ^ 32

latency_us_lem : (sent took : ℕ) → took < 2 ^ 32 → latency_us (sent + took) (sent % 2 ^ 32) ≡ took
unfolding latency_us
latency_us_lem sent took h = omega (arith, h)

abbrev counts : Bool → ℕ → ℕ
counts gap n = if gap then (n + 1) % 2 ^ 64 else n

counted :
    (gap : Bool) (n after rest final : ℕ)
    → after ≡ counts gap n
    → final % 2 ^ 64 ≡ (after + rest) % 2 ^ 64
    → final % 2 ^ 64 ≡ (n + (one_if gap + rest)) % 2 ^ 64
counted true n after rest final e h = omega (arith, e, h)
counted false n after rest final e h = omega (arith, e, h)

module _ {D : Type 0} ⦃d : Double D⦄ where
  -- The latency of a frame in milliseconds.
  abbrev pub took_ms : Sent D → D
  took_ms x = d.div (d.of_nat x.took_us) (d.of_nat 1000)

module _ {D : Type 0} ⦃d : Double D⦄ (signals : Signals) where
  read_frame_lem :
      (x : Sent D) (r : CanReader D)
      → IsQuick x
      → let after = reader_turn (read_of signals x) r in
        (after.have_prev_seq ≡ true)
        × (after.prev_seq ≡ x.seq % 2 ^ 16)
        × (after.metrics.latencies_ms ≡ r.metrics.latencies_ms ++ (took_ms x ∷ []))
        × (after.metrics.sequence_gaps ≡ (
            if r.have_prev_seq && not (x.seq % 2 ^ 16 == (r.prev_seq + 1) % 2 ^ 16)
            then (r.metrics.sequence_gaps + 1) % 2 ^ 64
            else r.metrics.sequence_gaps))
  unfolding reader_turn read_frame record_arrival record_latency
  read_frame_lem x r quick =
      let (number, sent) = on_tick-frame_seq signals x.seq x.sent_us in
      let took = latency_us_lem x.sent_us x.took_us quick in
      (refl, number, rw (sent, took) refl, rw (number) refl)

  loop_lem :
      (before : ℕ) (xs : List (Sent D)) (r : CanReader D)
      → r.have_prev_seq ≡ true
      → r.prev_seq ≡ before % 2 ^ 16
      → All IsQuick xs
      → let after = can_reader_loop (map (read_of signals) xs) r in
        (after.metrics.latencies_ms ≡ r.metrics.latencies_ms ++ map took_ms xs)
        × (after.metrics.sequence_gaps % 2 ^ 64
            ≡ (r.metrics.sequence_gaps + gaps_after before xs) % 2 ^ 64)
  unfolding can_reader_loop
  loop_lem before [] r has prev h = (sym (append-nil r.metrics.latencies_ms), omega arith)
  loop_lem before (x ∷ xs) r has prev (q, h) =
      let next = reader_turn (read_of signals x) r in
      let (has2, prev2, lat, gap) = read_frame_lem x r q in
      let (lats, gaps) = loop_lem x.seq xs next has2 prev2 h in
      let follows : (r.prev_seq + 1) % 2 ^ 16 ≡ (before + 1) % 2 ^ 16 = omega (arith, prev) in
      let same_gap : r.have_prev_seq && not (x.seq % 2 ^ 16 == (r.prev_seq + 1) % 2 ^ 16)
          ≡ jumps before x.seq =
        rw (has, follows) refl in
      (
        lats
            ∙ ap (λ (l : List D). l ++ map took_ms xs) lat
            ∙ append_assoc r.metrics.latencies_ms (took_ms x ∷ []) (map took_ms xs),
        counted (jumps before x.seq) r.metrics.sequence_gaps next.metrics.sequence_gaps
            (gaps_after x.seq xs) _
            (gap ∙ ap (λ (b : Bool). counts b r.metrics.sequence_gaps) same_gap) gaps,
      )

  -- A reader that has begun and gets any of the publisher's frames, each less than 2^32 microseconds after it
  -- was sent, records the latency of each in order, and counts a gap, modulo 2^64, for each frame after
  -- the first whose number does not follow the one before in 16 bits.
  pub can_reader_measures :
      (xs : List (Sent D)) (metrics : StreamMetrics D)
      → All IsQuick xs
      → let after = can_reader_loop (map (read_of signals) xs) (new_reader metrics) in
        (after.metrics.latencies_ms ≡ metrics.latencies_ms ++ map took_ms xs)
        × (after.metrics.sequence_gaps % 2 ^ 64 ≡ (metrics.sequence_gaps + gaps_of xs) % 2 ^ 64)
  unfolding can_reader_loop
  can_reader_measures [] metrics h = (sym (append-nil metrics.latencies_ms), omega arith)
  can_reader_measures (x ∷ xs) metrics (q, h) =
      let (has, prev, lat, gap) = read_frame_lem x (new_reader metrics) q in
      let (lats, gaps) = loop_lem x.seq xs _ has prev h in
      (
        lats
            ∙ ap (λ (l : List D). l ++ map took_ms xs) lat
            ∙ append_assoc metrics.latencies_ms (took_ms x ∷ []) (map took_ms xs),
        omega (arith, gaps, gap),
      )

-- Ticks that follow one another from a number on.
abbrev pub IsRun : {D : Type 0} → ℕ → List (Sent D) → Type 0
IsRun seq [] = Unit
IsRun seq (x ∷ xs) = (x.seq ≡ seq) × IsRun ((seq + 1) % 2 ^ 64) xs

no_gap : (seq : ℕ) → jumps seq ((seq + 1) % 2 ^ 64) ≡ false
no_gap seq = ground arith

gaps_after-IsRun :
    {D : Type 0} (seq : ℕ) (xs : List (Sent D))
    → IsRun ((seq + 1) % 2 ^ 64) xs
    → gaps_after seq xs ≡ 0
gaps_after-IsRun seq [] h = refl
gaps_after-IsRun seq (x ∷ xs) (e, h) =
    rw (e, no_gap seq) (omega (arith, gaps_after-IsRun ((seq + 1) % 2 ^ 64) xs h))

-- The frames of ticks that follow one another, with none lost, count no gap, also where the numbers wrap.
pub gaps_of-IsRun : {D : Type 0} (seq : ℕ) (xs : List (Sent D)) → IsRun seq xs → gaps_of xs ≡ 0
gaps_of-IsRun seq [] h = refl
gaps_of-IsRun seq (x ∷ xs) (e, h) = rw (e) (gaps_after-IsRun seq xs h)

-- The publisher's timer sends the frames of ticks that follow one another.
pub ticks-IsRun :
    {D : Type 0} (signals : Signals) (seq : ℕ) (xs : List (Sent D))
    → IsRun seq xs
    → ticks signals seq (map (λ x. x.sent_us) xs) ≡ map (λ x. on_tick signals x.seq x.sent_us) xs
unfolding ticks
ticks-IsRun signals seq [] h = refl
ticks-IsRun signals seq (x ∷ xs) (e, h) =
    ap₂ (λ (n : ℕ) (rest : List CanFrame). on_tick signals n x.sent_us ∷ rest) (sym e)
      (ticks-IsRun signals ((seq + 1) % 2 ^ 64) xs h)
