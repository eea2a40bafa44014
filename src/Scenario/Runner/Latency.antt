-- ===== src/Scenario/Runner/Latency.antt =====
-- src/scenario/scenario_runner.cpp: which latencies a run records for the streams that ROS2 carries.
use av_hil_validation_platfo.Base.Double.{Double}
use av_hil_validation_platfo.Base.Lists.{All, All-append, length, take, drop, take-append}
use av_hil_validation_platfo.Base.Map.{Map, find, assign, before}
use av_hil_validation_platfo.Base.Tests.{leb, if◌then◌else◌, Bool-cases, Option-cases}
use av_hil_validation_platfo.Base.Text.{Text, same, codes, eq_of_same}
use av_hil_validation_platfo.Faults.Rule.{FaultRule, is_kind, corrupt}
use av_hil_validation_platfo.Faults.Engine.{
  FaultEngine, Random, new_engine, worker_turn, emit_taken, flush,
}
use av_hil_validation_platfo.Faults.Engine.Process.{any_kind}
use av_hil_validation_platfo.Faults.Engine.Process.Unchanged.{
  IsKept, process-IsKept, worker_turn-IsKept, emit_taken-IsKept, flush-IsKept,
}
use av_hil_validation_platfo.Scenario.Can.{
  CanRead, CanReader, failed, short, frame_read, read_frame, reader_turn,
}
use av_hil_validation_platfo.Scenario.Model.{FaultSpec, StreamConfig, Scenario}
use av_hil_validation_platfo.Scenario.StreamMetrics.{
  StreamMetrics, new_metrics, record_latency, record_arrival,
}
use av_hil_validation_platfo.Scenario.Runner.{
  Layout, ScenarioRunner, Event, message, worker_wakes, worker_emits, can_turn, to_fault_rule,
  rules_of, has_fault, update_metrics, metrics_for, record_frame, record_frames, add_rules, emplace,
  start_stream, start_streams, start_run, subscribe_stream, on_engine, record_message, turn_can,
  on_event, on_events, flush_all,
}
use av_hil_validation_platfo.Base.{
  ℕ, zero, suc, ◌≡◌, ◌≢◌, refl, sym, ap, ◌∙◌, inl, inr, Bool, false, ◌||◌, some, List, [], ◌∷◌,
  ◌++◌, arith,
}

module _ {V : Type 0} (P : V → Type 0) where
  assign-All :
      (k : Text) (v : V) (m : Map V) → P v → All (λ x. P x.1) m → All (λ x. P x.1) (assign k v m)
  assign-All k v [] p h = (p, tt)
  assign-All k v ((j, w) ∷ m) p (q, h) = elim (Bool-cases (same k j)) [
    | inl e ↦ rw e (p, h)
    | inr e ↦ elim (Bool-cases (before k j)) [
      | inl b ↦ rw (e, b) (p, (q, h))
      | inr b ↦ rw (e, b) (q, assign-All k v m p h)
    ]
  ]

  find-All : (k : Text) (v : V) (m : Map V) → find k m ≡ some v → All (λ x. P x.1) m → P v
  find-All k v [] e h = absurd cc
  find-All k v ((j, w) ∷ m) e (q, h) = elim (Bool-cases (same k j)) [
    | inl s ↦
        let same_value : w ≡ v = (let e2 : some w ≡ some v = rw s at e in cc) in
        rw (sym same_value) q
    | inr s ↦ find-All k v m (rw s at e) h
  ]

drop-All : {A : Type 0} (P : A → Type 0) (n : ℕ) (xs : List A) → All P xs → All P (drop n xs)
drop-All P zero xs h = h
drop-All P (suc n) [] h = h
drop-All P (suc n) (x ∷ xs) (p, h) = drop-All P n xs h

module _ {D : Type 0} (Q : D → Type 0) where
  -- The latencies of the messages of a run have `Q`.
  abbrev pub AllArrive : List (Event D) → Type 0
  AllArrive [] = Unit
  AllArrive (message stream latency now ∷ events) = Q latency × AllArrive events
  AllArrive (_ ∷ events) = AllArrive events

module _ {D : Type 0} ⦃d : Double D⦄ where
  pub metrics_for-name :
      (stream : Text) (ms : List (StreamMetrics D)) (m : StreamMetrics D)
      → metrics_for stream ms ≡ some m
      → m.name ≡ stream
  metrics_for-name stream [] m e = absurd cc
  metrics_for-name stream (x ∷ ms) m e = elim (Bool-cases (same x.name stream)) [
    | inl s ↦
        let found : x ≡ m = (let e2 : some x ≡ some m = rw s at e in cc) in
        ap (λ (y : StreamMetrics D). y.name) (sym found) ∙ eq_of_same x.name stream s
    | inr s ↦ metrics_for-name stream ms m (rw s at e)
  ]

  pub reader_turn-name :
      (x : CanRead D) (r : CanReader D) → (reader_turn x r).metrics.name ≡ r.metrics.name
  unfolding reader_turn read_frame record_arrival record_latency
  reader_turn-name failed r = refl
  reader_turn-name short r = refl
  reader_turn-name (frame_read frame now_us arrival_s) r = refl

module _ {D R : Type 0} ⦃d : Double D⦄ (layout : Layout D) (random : Random D R) (clock : ℕ → D)
    (Q : D → Type 0) where
  -- The sixteen bytes that carry a latency with `Q` and an arrival time.
  abbrev Carries : List ℕ → Type 0
  Carries buf =
      (latency : D) × ((arrival : D) × ((buf ≡ layout.to_bytes latency ++ layout.to_bytes arrival)
          × Q latency))

  -- Of a stream other than the CAN bus: all latencies have `Q`, and no gap was counted.
  abbrev pub IsMeasured : StreamMetrics D → Type 0
  IsMeasured m = m.name ≢ codes "can" → All Q m.latencies_ms × (m.sequence_gaps ≡ 0)

  abbrev IsFair : ScenarioRunner D R → Type 0
  IsFair r = All IsMeasured r.metrics × All (λ x. IsKept Carries x.1) r.stream_faults

  record_arrival-IsMeasured :
      (latency arrival : D) (m : StreamMetrics D)
      → Q latency
      → IsMeasured m
      → IsMeasured (record_arrival latency arrival false m)
  unfolding record_arrival record_latency
  record_arrival-IsMeasured latency arrival m q h other =
      (All-append Q m.latencies_ms (latency ∷ []) (h other).0 (q, tt), (h other).1)

  update_metrics-All :
      (stream : Text) (f : StreamMetrics D → StreamMetrics D) (ms : List (StreamMetrics D))
      → ((m : StreamMetrics D) → IsMeasured m → IsMeasured (f m))
      → All IsMeasured ms
      → All IsMeasured (update_metrics stream f ms)
  unfolding update_metrics
  update_metrics-All stream f [] keeps h = tt
  update_metrics-All stream f (m ∷ ms) keeps (p, h) = elim (Bool-cases (same m.name stream)) [
    | inl e ↦ rw e (keeps m p, h)
    | inr e ↦ rw e (p, update_metrics-All stream f ms keeps h)
  ]

  module _ (width : (x : D) → length (layout.to_bytes x) ≡ 8)
      (read_back : (x : D) → layout.of_bytes (layout.to_bytes x) ≡ x) where
    record_frame-IsMeasured :
        (buf : List ℕ) (m : StreamMetrics D)
        → Carries buf
        → IsMeasured m
        → IsMeasured (record_frame layout buf m)
    unfolding record_frame
    record_frame-IsMeasured buf m (latency, (arrival, (e, q))) h =
        elim (Bool-cases (leb 16 (length buf))) [
          | inl long ↦ rw long (
              record_arrival-IsMeasured (layout.of_bytes (take 8 buf)) _ m
                (rw (e, sym (width latency), take-append, read_back) q) h)
          | inr few ↦ rw few h
        ]

    record_frames-IsMeasured :
        (frames : List (List ℕ)) (m : StreamMetrics D)
        → All Carries frames
        → IsMeasured m
        → IsMeasured (record_frames layout frames m)
    unfolding record_frames
    record_frames-IsMeasured [] m c h = h
    record_frames-IsMeasured (buf ∷ rest) m (c, cs) h =
        record_frames-IsMeasured rest (record_frame layout buf m) cs
          (record_frame-IsMeasured buf m c h)

    on_engine-IsFair :
        (stream : Text) (call : FaultEngine D R → FaultEngine D R) (r : ScenarioRunner D R)
        → ((e : FaultEngine D R) → IsKept Carries e → IsKept Carries (call e))
        → IsFair r
        → IsFair (on_engine layout random clock stream call r)
    unfolding on_engine
    on_engine-IsFair stream call r keeps (ms, es) =
        elim (Option-cases (find stream r.stream_faults)) [
          | inl e ↦ rw (e, on_engine) (ms, es)
          | inr (e, found) ↦
              let kept = keeps e (find-All (IsKept Carries) stream e r.stream_faults found es) in
              let fresh = drop-All Carries (length e.written) (call e).written kept.0 in
              rw (found, on_engine)
                (
                  update_metrics-All stream
                      (record_frames layout (drop (length e.written) (call e).written)) r.metrics
                      (λ m h. record_frames-IsMeasured _ m fresh h) ms,
                  assign-All (IsKept Carries) stream (call e) r.stream_faults kept es,
                )
        ]

    record_message-IsFair :
        (stream : Text) (latency now : D) (r : ScenarioRunner D R)
        → Q latency
        → IsFair r
        → IsFair (record_message layout random clock stream latency now r)
    unfolding record_message
    record_message-IsFair stream latency now r q h =
        elim (Option-cases (find stream r.stream_faults)) [
          | inl e ↦
              rw (e, record_message)
                (
                  update_metrics-All stream (record_arrival latency now false) r.metrics
                      (λ m g. record_arrival-IsMeasured latency now m q g) h.0,
                  h.1,
                )
          | inr (e, found) ↦
              rw (found, record_message)
                (on_engine-IsFair stream _ r
                  (λ e g.
                    process-IsKept Carries random clock e
                      (layout.to_bytes latency ++ layout.to_bytes now) now stream
                      (latency, (now, (refl, q))) g)
                  h)
        ]

    turn_can-IsFair :
        (x : CanRead D) (r : ScenarioRunner D R)
        → IsFair r
        → IsFair (turn_can layout random clock x r)
    unfolding turn_can
    turn_can-IsFair x r (ms, es) = elim (Option-cases r.can_reader) [
      | inl e ↦ rw (e, turn_can) (ms, es)
      | inr (t, e) ↦ elim (Option-cases (metrics_for (codes "can") r.metrics)) [
        | inl n ↦ rw (e, n, turn_can) (ms, es)
        | inr (m, found) ↦
            rw (e, found, turn_can)
              (
                update_metrics-All (codes "can") _ r.metrics
                    (λ _ _ other. absurd (
                      other
                        (reader_turn-name x _ ∙ metrics_for-name (codes "can") r.metrics m found)))
                    ms,
                es,
              )
      ]
    ]

    on_events-IsFair :
        (events : List (Event D)) (r : ScenarioRunner D R)
        → AllArrive Q events
        → IsFair r
        → IsFair (on_events layout random clock events r)
    unfolding on_events on_event
    on_events-IsFair [] r q h = h
    on_events-IsFair (message stream latency now ∷ events) r (q, qs) h =
        on_events-IsFair events _ qs (record_message-IsFair stream latency now r q h)
    on_events-IsFair (worker_wakes stream now ∷ events) r qs h = on_events-IsFair events _ qs (
        on_engine-IsFair stream (worker_turn now) r
          (λ e g. worker_turn-IsKept Carries now e e.delayed refl g) h)
    on_events-IsFair (worker_emits stream ∷ events) r qs h = on_events-IsFair events _ qs (
        on_engine-IsFair stream emit_taken r (λ e g. emit_taken-IsKept Carries e e.releasing refl g)
          h)
    on_events-IsFair (can_turn x ∷ events) r qs h =
        on_events-IsFair events _ qs (turn_can-IsFair x r h)

    flush_all-IsFair :
        (engines : List (Text × FaultEngine D R)) (r : ScenarioRunner D R)
        → IsFair r
        → IsFair (flush_all layout random clock engines r)
    unfolding flush_all
    flush_all-IsFair [] r h = h
    flush_all-IsFair ((stream, e) ∷ rest) r h =
        flush_all-IsFair rest _
          (on_engine-IsFair stream flush r (λ e g. flush-IsKept Carries e g) h)

module _ {D : Type 0} ⦃d : Double D⦄ where
  -- No fault of a scenario corrupts.
  abbrev pub corrupts : List (FaultSpec D) → Bool
  corrupts [] = false
  corrupts (f ∷ faults) = is_kind (to_fault_rule f).kind corrupt || corrupts faults

  rules_of-corrupts :
      (stream : Text) (faults : List (FaultSpec D))
      → corrupts faults ≡ false
      → any_kind corrupt (rules_of stream faults) ≡ false
  rules_of-corrupts stream [] h = refl
  rules_of-corrupts stream (f ∷ faults) h = ground (arith, h, rules_of-corrupts stream faults)

  any_kind-add :
      (rules : List (FaultRule D)) (r : FaultRule D)
      → any_kind corrupt rules ≡ false
      → is_kind r.kind corrupt ≡ false
      → any_kind corrupt (rules ++ r ∷ []) ≡ false
  any_kind-add [] r h g = ground (arith, g)
  any_kind-add (x ∷ rules) r h g = ground (arith, h, g, any_kind-add rules r)

module _ {D R : Type 0} ⦃d : Double D⦄ where
  add_rules-IsKept :
      (P : List ℕ → Type 0) (rules : List (FaultRule D)) (e : FaultEngine D R)
      → any_kind corrupt rules ≡ false
      → IsKept P e
      → IsKept P (add_rules rules e)
  unfolding add_rules
  add_rules-IsKept P [] e h k = k
  add_rules-IsKept P (r ∷ rest) e h (w, (dl, (rl, (held, clean)))) =
      add_rules-IsKept P rest _ (ground (arith, h))
        (w, (dl, (rl, (held, any_kind-add e.rules r clean (ground (arith, h))))))

  pub subscribe_stream_lem :
      (name : Text) (r : ScenarioRunner D R)
      → ((subscribe_stream name r).metrics ≡ r.metrics)
        × ((subscribe_stream name r).stream_faults ≡ r.stream_faults)
        × ((subscribe_stream name r).scenario ≡ r.scenario)
  unfolding subscribe_stream
  subscribe_stream_lem name r = (ground arith, ground arith, ground arith)

module _ {D R : Type 0} ⦃d : Double D⦄ (layout : Layout D) (random : Random D R) (clock : ℕ → D)
    (Q : D → Type 0) where
  emplace-All :
      (stream : Text) (e : FaultEngine D R) (m : Map (FaultEngine D R)) (P : List ℕ → Type 0)
      → IsKept P e
      → All (λ x. IsKept P x.1) m
      → All (λ x. IsKept P x.1) (emplace stream e m)
  emplace-All stream e m P k h = elim (Option-cases (find stream m)) [
    | inl n ↦ rw (n, All) (assign-All (IsKept P) stream e m k h)
    | inr (v, f) ↦ rw (f, All) h
  ]

  start_streams-IsFair :
      (seeded : R) (streams : List (StreamConfig D)) (r : ScenarioRunner D R)
      → corrupts r.scenario.faults ≡ false
      → IsFair layout random clock Q r
      → IsFair layout random clock Q (start_streams seeded streams r)
  unfolding start_streams start_stream
  start_streams-IsFair seeded [] r none_corrupts h = h
  start_streams-IsFair seeded (s ∷ rest) r none_corrupts (ms, es) =
      let faults = r.scenario.faults in
      let m = new_metrics s.name s.rate_hz r.scenario.duration_seconds in
      let e = add_rules (rules_of s.name faults) (new_engine seeded) in
      let engines =
        if has_fault s.name faults then emplace s.name e r.stream_faults else r.stream_faults in
      let r1 : ScenarioRunner D R = record r {
        metrics = r.metrics ++ (m ∷ []);
        stream_faults = engines;
      } in
      let (same_metrics, same_engines, same_scenario) = subscribe_stream_lem s.name r1 in
      let kept : IsKept (Carries layout random clock Q) e =
        add_rules-IsKept _ (rules_of s.name faults) (new_engine seeded)
          (rules_of-corrupts s.name faults none_corrupts)
          (tt, (tt, (tt, ((λ q. absurd cc), refl)))) in
      let fair_engines : All (λ x. IsKept (Carries layout random clock Q) x.1) engines =
        elim (Bool-cases (has_fault s.name faults)) [
          | inl on ↦ rw on (emplace-All s.name e r.stream_faults _ kept es)
          | inr off ↦ rw off es
        ] in
      start_streams-IsFair seeded rest _ (rw same_scenario none_corrupts) (
        rw (same_metrics, same_engines)
          (
            All-append (IsMeasured layout random clock Q) r.metrics (m ∷ []) ms
                ((λ other. (tt, refl)), tt),
            fair_engines,
          ))

  -- With eight bytes to a double that are read back as it, and no fault that corrupts, the latencies
  -- that a run has recorded when it is judged, of all streams but the CAN bus, have any property that
  -- the latencies of its messages have on arrival, and no gap is ever counted for those streams.
  pub latencies_on_arrival :
      (seeded : R) (scenario : Scenario D) (events : List (Event D))
      → ((x : D) → length (layout.to_bytes x) ≡ 8)
      → ((x : D) → layout.of_bytes (layout.to_bytes x) ≡ x)
      → corrupts scenario.faults ≡ false
      → AllArrive Q events
      → let r = on_events layout random clock events (start_run seeded scenario) in
        All
          (IsMeasured layout random clock Q)
          (flush_all layout random clock r.stream_faults r).metrics
  unfolding start_run
  latencies_on_arrival seeded scenario events width read_back none_corrupts arrive =
      let started = start_streams-IsFair seeded scenario.streams _ none_corrupts (tt, tt) in
      let ran = on_events-IsFair layout random clock Q width read_back events _ arrive started in
      (flush_all-IsFair layout random clock Q width read_back _ _ ran).0
