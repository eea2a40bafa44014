-- ===== src/Scenario/Runner/Outcome.antt =====
-- src/scenario/scenario_runner.cpp: what the assertions of a scenario are judged on when it finishes.
use av_hil_validation_platfo.Base.Double.{Double}
use av_hil_validation_platfo.Base.Lists.{All, length, drop}
use av_hil_validation_platfo.Base.Map.{find}
use av_hil_validation_platfo.Base.Tests.{Bool-cases, Option-cases}
use av_hil_validation_platfo.Base.Text.{Text, same, codes, eq_of_same}
use av_hil_validation_platfo.Faults.Engine.{FaultEngine, Random, worker_turn, emit_taken, flush}
use av_hil_validation_platfo.Scenario.Can.{CanRead}
use av_hil_validation_platfo.Scenario.Model.{StreamConfig, Scenario}
use av_hil_validation_platfo.Scenario.StreamMetrics.{
  StreamMetrics, Fractions, new_metrics, record_latency, record_arrival,
}
use av_hil_validation_platfo.Scenario.StreamMetrics.Keys.{
  Metric, suffix, value, emit_all, find-emit_all,
}
use av_hil_validation_platfo.Scenario.Runner.{
  Layout, ScenarioRunner, Event, message, worker_wakes, worker_emits, can_turn, update_metrics,
  metrics_for, record_frame, record_frames, start_stream, start_streams, start_run, on_engine,
  record_message, turn_can, on_event, on_events, flush_all, final_metrics,
}
use av_hil_validation_platfo.Scenario.Runner.Latency.{
  metrics_for-name, reader_turn-name, subscribe_stream_lem,
}
use av_hil_validation_platfo.Base.{
  ℕ, ◌≡◌, ◌≢◌, refl, sym, ap, ◌∙◌, inl, inr, false, some, List, [], ◌∷◌, ◌++◌, map, append-nil,
  append_assoc, arith,
}

module _ {D : Type 0} where
  abbrev names : List (StreamMetrics D) → List Text
  names ms = map (λ m. m.name) ms

  abbrev stream_names : List (StreamConfig D) → List Text
  stream_names streams = map (λ s. s.name) streams

  names-append :
      (ms : List (StreamMetrics D)) (m : StreamMetrics D)
      → names (ms ++ m ∷ []) ≡ names ms ++ m.name ∷ []
  names-append [] m = refl
  names-append (x ∷ ms) m = ap (λ (l : List Text). x.name ∷ l) (names-append ms m)

  other_names :
      (m : StreamMetrics D) (s : StreamConfig D) (later : List (StreamConfig D))
      (ms : List (StreamMetrics D))
      → m.name ≡ s.name
      → names ms ≡ stream_names later
      → All (λ l. s.name ≢ l.name) later
      → All (λ l. m.name ≢ l.name) ms
  other_names m s later [] named e h = tt
  other_names m s [] (x ∷ ms) named e h = absurd cc
  other_names m s (l ∷ later) (x ∷ ms) named e (ne, h) =
      let head : x.name ≡ l.name = cc in
      let rest : names ms ≡ stream_names later = cc in
      ((λ same_name. ne (sym named ∙ same_name ∙ head)), other_names m s later ms named rest h)

  -- The metrics of a stream, among those that were made of the streams.
  split_names :
      (earlier : List (StreamConfig D)) (s : StreamConfig D) (later : List (StreamConfig D))
      (ms : List (StreamMetrics D))
      → names ms ≡ stream_names (earlier ++ s ∷ later)
      → All (λ l. s.name ≢ l.name) later
      → (ms1 : List (StreamMetrics D)) × (m : StreamMetrics D) × (ms2 : List (StreamMetrics D))
        × (ms ≡ ms1 ++ m ∷ ms2)
        × (m.name ≡ s.name)
        × All (λ l. m.name ≢ l.name) ms2
  split_names [] s later [] e h = absurd cc
  split_names [] s later (m ∷ ms) e h =
      let named : m.name ≡ s.name = cc in
      let rest : names ms ≡ stream_names later = cc in
      ([], m, ms, refl, named, other_names m s later ms named rest h)
  split_names (x ∷ earlier) s later [] e h = absurd cc
  split_names (x ∷ earlier) s later (m ∷ ms) e h =
      let (ms1, k, ms2, e1, e2, g) = split_names earlier s later ms (cc) h in
      (m ∷ ms1, k, ms2, ap (λ (l : List (StreamMetrics D)). m ∷ l) e1, e2, g)

module _ {D R : Type 0} ⦃d : Double D⦄ (layout : Layout D) (random : Random D R)
    (clock : ℕ → D) where
  record_frames-name :
      (frames : List (List ℕ)) (m : StreamMetrics D) → (record_frames layout frames m).name ≡ m.name
  unfolding record_frames record_frame record_arrival record_latency
  record_frames-name [] m = refl
  record_frames-name (buf ∷ rest) m =
      record_frames-name rest (record_frame layout buf m) ∙ ground arith

  record_arrival-name :
      (latency arrival : D) (m : StreamMetrics D)
      → (record_arrival latency arrival false m).name ≡ m.name
  unfolding record_arrival record_latency
  record_arrival-name latency arrival m = refl

  update_metrics-names :
      (stream : Text) (f : StreamMetrics D → StreamMetrics D) (ms : List (StreamMetrics D))
      → ((m : StreamMetrics D) → m.name ≡ stream → (f m).name ≡ m.name)
      → names (update_metrics stream f ms) ≡ names ms
  unfolding update_metrics
  update_metrics-names stream f [] keeps = refl
  update_metrics-names stream f (m ∷ ms) keeps = elim (Bool-cases (same m.name stream)) [
    | inl e ↦ rw e (ap (λ (n : Text). n ∷ names ms) (keeps m (eq_of_same m.name stream e)))
    | inr e ↦ rw e (ap (λ (l : List Text). m.name ∷ l) (update_metrics-names stream f ms keeps))
  ]

  on_engine-names :
      (stream : Text) (call : FaultEngine D R → FaultEngine D R) (r : ScenarioRunner D R)
      → names (on_engine layout random clock stream call r).metrics ≡ names r.metrics
  unfolding on_engine
  on_engine-names stream call r = elim (Option-cases (find stream r.stream_faults)) [
    | inl e ↦ rw (e, on_engine) refl
    | inr (e, found) ↦
        rw (found, on_engine)
          (update_metrics-names stream _ r.metrics
            (λ m _. record_frames-name (drop (length e.written) (call e).written) m))
  ]

  record_message-names :
      (stream : Text) (latency now : D) (r : ScenarioRunner D R)
      → names (record_message layout random clock stream latency now r).metrics ≡ names r.metrics
  unfolding record_message
  record_message-names stream latency now r = elim (Option-cases (find stream r.stream_faults)) [
    | inl e ↦
        rw (e, record_message)
          (update_metrics-names stream (record_arrival latency now false) r.metrics
            (λ m _. record_arrival-name latency now m))
    | inr (e, found) ↦ rw (found, record_message) (on_engine-names stream _ r)
  ]

  turn_can-names :
      (x : CanRead D) (r : ScenarioRunner D R)
      → names (turn_can layout random clock x r).metrics ≡ names r.metrics
  unfolding turn_can
  turn_can-names x r = elim (Option-cases r.can_reader) [
    | inl e ↦ rw (e, turn_can) refl
    | inr (t, e) ↦ elim (Option-cases (metrics_for (codes "can") r.metrics)) [
      | inl n ↦ rw (e, n, turn_can) refl
      | inr (m, found) ↦
          rw (e, found, turn_can)
            (update_metrics-names (codes "can") _ r.metrics (λ k is_can.
              reader_turn-name x _ ∙ metrics_for-name (codes "can") r.metrics m found ∙ sym is_can))
    ]
  ]

  on_events-names :
      (events : List (Event D)) (r : ScenarioRunner D R)
      → names (on_events layout random clock events r).metrics ≡ names r.metrics
  unfolding on_events on_event
  on_events-names [] r = refl
  on_events-names (message stream latency now ∷ events) r =
      on_events-names events _ ∙ record_message-names stream latency now r
  on_events-names (worker_wakes stream now ∷ events) r =
      on_events-names events _ ∙ on_engine-names stream (worker_turn now) r
  on_events-names (worker_emits stream ∷ events) r =
      on_events-names events _ ∙ on_engine-names stream emit_taken r
  on_events-names (can_turn x ∷ events) r = on_events-names events _ ∙ turn_can-names x r

  flush_all-names :
      (engines : List (Text × FaultEngine D R)) (r : ScenarioRunner D R)
      → names (flush_all layout random clock engines r).metrics ≡ names r.metrics
  unfolding flush_all
  flush_all-names [] r = refl
  flush_all-names ((stream, e) ∷ rest) r = flush_all-names rest _ ∙ on_engine-names stream flush r

module _ {D R : Type 0} ⦃d : Double D⦄ where
  start_streams-names :
      (seeded : R) (streams : List (StreamConfig D)) (r : ScenarioRunner D R)
      → names (start_streams seeded streams r).metrics ≡ names r.metrics ++ stream_names streams
  unfolding start_streams start_stream
  start_streams-names seeded [] r = sym (append-nil (names r.metrics))
  start_streams-names seeded (s ∷ rest) r =
      let m = new_metrics s.name s.rate_hz r.scenario.duration_seconds in
      start_streams-names seeded rest _
      ∙ ap (λ (l : List (StreamMetrics D)). names l ++ stream_names rest)
          (subscribe_stream_lem s.name _).0
      ∙ ap (λ (l : List Text). l ++ stream_names rest) (names-append r.metrics m)
      ∙ append_assoc (names r.metrics) (s.name ∷ []) (stream_names rest)

module _ {D R : Type 0} ⦃d : Double D⦄ (layout : Layout D) (random : Random D R) (clock : ℕ → D)
    (fractions : Fractions D) where
  -- After any events of a run all seven metrics of a stream of the scenario, if no later stream has its name,
  -- are in the map that the assertions are judged on, with the values that are made of the last metrics
  -- of its name that the run has once its engines are flushed.
  pub final_metrics-found :
      (seeded : R) (scenario : Scenario D) (events : List (Event D))
      (earlier : List (StreamConfig D)) (s : StreamConfig D) (later : List (StreamConfig D))
      (k : Metric)
      → scenario.streams ≡ earlier ++ s ∷ later
      → All (λ l. s.name ≢ l.name) later
      → let ran = on_events layout random clock events (start_run {R = R} seeded scenario) in
        (before : List (StreamMetrics D)) × (m : StreamMetrics D) × (after : List (StreamMetrics D))
        × ((flush_all layout random clock ran.stream_faults ran).metrics ≡ before ++ m ∷ after)
        × (m.name ≡ s.name)
        × All (λ l. m.name ≢ l.name) after
        × (find (s.name ++ suffix k) (final_metrics layout random clock fractions ran)
            ≡ some (value fractions k m))
  unfolding final_metrics start_run start_streams
  final_metrics-found seeded scenario events earlier s later k e h =
      let started = start_run {R = R} seeded scenario in
      let ran = on_events layout random clock events started in
      let all_names : names (flush_all layout random clock ran.stream_faults ran).metrics
          ≡ stream_names (earlier ++ s ∷ later) =
        flush_all-names layout random clock ran.stream_faults ran
        ∙ on_events-names layout random clock events started
        ∙ start_streams-names seeded scenario.streams _
        ∙ ap stream_names e in
      let (ms1, m, ms2, split, named, others) = split_names earlier s later _ all_names h in
      (
        ms1,
        m,
        ms2,
        split,
        named,
        others,
        ap (λ (ms : List (StreamMetrics D)). find (s.name ++ suffix k) (emit_all fractions ms []))
              split
            ∙ ap (λ (n : Text). find (n ++ suffix k) (emit_all fractions (ms1 ++ m ∷ ms2) []))
                (sym named)
            ∙ find-emit_all fractions k ms1 m ms2 [] others,
      )
