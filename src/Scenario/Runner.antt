-- ===== src/Scenario/Runner.antt =====
-- src/scenario/scenario_runner.cpp: a run of a scenario, from the streams it starts to its verdict.
-- ROS2, the processes, the sockets, the exporter and the report files are left out; what a run gets of them is
-- a sequence of events.
pub mod Rules
pub mod Latency
pub mod Outcome
use av_hil_validation_platfo.Base.Double.{Double}
use av_hil_validation_platfo.Base.Lists.{length, take, drop}
use av_hil_validation_platfo.Base.Map.{Map, find, assign}
use av_hil_validation_platfo.Base.Tests.{leb, if◌then◌else◌}
use av_hil_validation_platfo.Base.Text.{Text, same, codes}
use av_hil_validation_platfo.Faults.Rule.{FaultRule, fault_kind_from_string}
use av_hil_validation_platfo.Faults.Engine.{
  FaultEngine, Random, new_engine, add_rule, worker_turn, emit_taken, flush,
}
use av_hil_validation_platfo.Faults.Engine.Process.{process}
use av_hil_validation_platfo.Scenario.Can.{CanRead, CanReader, new_reader, reader_turn}
use av_hil_validation_platfo.Scenario.Model.{
  FaultSpec, StreamConfig, Scenario, fault_type_to_string, param,
}
use av_hil_validation_platfo.Scenario.StreamMetrics.{
  StreamMetrics, Fractions, new_metrics, record_arrival,
}
use av_hil_validation_platfo.Scenario.StreamMetrics.Keys.{emit_all}
use av_hil_validation_platfo.Scenario.Verdict.{Tolerance, ScenarioResult, evaluate_all}
use av_hil_validation_platfo.Base.{
  ℕ, ◌+◌, Bool, true, false, ◌||◌, Option, none, some, List, [], ◌∷◌, ◌++◌,
}

-- The bytes of a `double` in memory, and back.
pub record Layout (D : Type 0) : Type 0 where
  pub to_bytes : D → List ℕ
  pub of_bytes : List ℕ → D

abbrev pub publisher_executable : Text → Text
publisher_executable stream = stream ++ codes "_publisher"

-- The thread that reads the CAN bus, once it is started. Its metrics stay with the others.
pub record CanThread : Type 0 where
  pub have_prev_seq : Bool
  pub prev_seq : ℕ
  pub frames : ℕ

pub record ScenarioRunner (D R : Type 0) : Type 0 where
  pub scenario : Scenario D
  pub metrics : List (StreamMetrics D)
  pub stream_faults : Map (FaultEngine D R)
  pub can_reader : Option CanThread
  pub subscribed : List Text
  pub launched : List Text

module _ {D : Type 0} ⦃d : Double D⦄ where
  unfoldable pub to_fault_rule : FaultSpec D → FaultRule D
  to_fault_rule f = record {
    kind = fault_kind_from_string (fault_type_to_string f.type);
    stream = f.stream;
    start_s = f.start_seconds;
    duration_s = f.duration_seconds;
    delay_ms = param f (codes "delay_ms") (d.of_nat 0);
    drop_rate = param f (codes "drop_rate") (d.of_nat 0);
    bandwidth_kbps = param f (codes "bandwidth_kbps") (d.of_nat 0);
    corrupt_bits = 4;
    seed = 1;
  }

  -- The rules of the faults of a stream, in order.
  abbrev pub rules_of : Text → List (FaultSpec D) → List (FaultRule D)
  rules_of stream [] = []
  rules_of stream (f ∷ faults) =
      if same f.stream stream
      then to_fault_rule f ∷ rules_of stream faults
      else rules_of stream faults

  -- Does a fault target the stream?
  abbrev pub has_fault : Text → List (FaultSpec D) → Bool
  has_fault stream [] = false
  has_fault stream (f ∷ faults) = same f.stream stream || has_fault stream faults

  -- `metrics_for(stream)`, and what is done to the metrics that it points to.
  unfoldable pub update_metrics :
      Text → (StreamMetrics D → StreamMetrics D) → List (StreamMetrics D) → List (StreamMetrics D)
  update_metrics stream f [] = []
  update_metrics stream f (m ∷ ms) =
      if same m.name stream then f m ∷ ms else m ∷ update_metrics stream f ms

  abbrev pub metrics_for : Text → List (StreamMetrics D) → Option (StreamMetrics D)
  metrics_for stream [] = none
  metrics_for stream (m ∷ ms) = if same m.name stream then some m else metrics_for stream ms

  module _ (layout : Layout D) where
    -- The callback of an engine, for one frame.
    unfoldable pub record_frame : List ℕ → StreamMetrics D → StreamMetrics D
    record_frame buf m =
        if leb 16 (length buf)
        then record_arrival (layout.of_bytes (take 8 buf)) (layout.of_bytes (take 8 (drop 8 buf)))
            false m
        else m

    unfoldable pub record_frames : List (List ℕ) → StreamMetrics D → StreamMetrics D
    record_frames [] m = m
    record_frames (buf ∷ rest) m = record_frames rest (record_frame buf m)

module _ {D R : Type 0} ⦃d : Double D⦄ where
  unfoldable pub add_rules : List (FaultRule D) → FaultEngine D R → FaultEngine D R
  add_rules [] e = e
  add_rules (r ∷ rest) e = add_rules rest (add_rule e r)

  -- `stream_faults_.emplace`, which leaves an engine that is there.
  abbrev pub emplace : Text → FaultEngine D R → Map (FaultEngine D R) → Map (FaultEngine D R)
  emplace stream e engines = elim (find stream engines) [
    | none ↦ assign stream e engines
    | some _ ↦ engines
  ]

  unfoldable pub subscribe_stream : Text → ScenarioRunner D R → ScenarioRunner D R
  subscribe_stream name r =
      if same name (codes "lidar")
        || same name (codes "camera")
        || same name (codes "imu")
        || same name (codes "gps")
      then record r { subscribed = r.subscribed ++ (name ∷ []) }
      else if same name (codes "can")
      then record r {
        can_reader = some (record { have_prev_seq = false; prev_seq = 0; frames = 0 });
      }
      else r

  -- The body of the loop of `start`. The engine of each stream is seeded in the same way.
  unfoldable pub start_stream : R → StreamConfig D → ScenarioRunner D R → ScenarioRunner D R
  start_stream seeded s r =
      let faults = r.scenario.faults in
      let r1 : ScenarioRunner D R = record r {
        metrics = r.metrics ++ (new_metrics s.name s.rate_hz r.scenario.duration_seconds ∷ []);
        stream_faults =
            if has_fault s.name faults
            then emplace s.name (add_rules (rules_of s.name faults) (new_engine seeded))
                r.stream_faults
            else r.stream_faults;
      } in
      let r2 = subscribe_stream s.name r1 in
      record r2 { launched = r2.launched ++ (publisher_executable s.name ∷ []) }

  unfoldable pub start_streams : R → List (StreamConfig D) → ScenarioRunner D R → ScenarioRunner D R
  start_streams seeded [] r = r
  start_streams seeded (s ∷ rest) r = start_streams seeded rest (start_stream seeded s r)

  unfoldable pub start_run : R → Scenario D → ScenarioRunner D R
  start_run seeded scenario = start_streams seeded scenario.streams (record {
    scenario = scenario;
    metrics = [];
    stream_faults = [];
    can_reader = none;
    subscribed = [];
    launched = [];
  })

-- What happens between `start` and `finish`: a message of a stream with its latency in milliseconds and the
-- seconds since the start, a turn of the worker of a stream's engine or its call of the callback,
-- and a turn of the CAN reader.
pub data Event (D : Type 0) : Type 0 where
  message : Text → D → D → Event D
  worker_wakes : Text → D → Event D
  worker_emits : Text → Event D
  can_turn : CanRead D → Event D

module _ {D R : Type 0} ⦃d : Double D⦄ (layout : Layout D) (random : Random D R)
    (clock : ℕ → D) where
  -- A call of an engine; what it writes goes to the metrics of its stream.
  unfoldable pub on_engine :
      Text → (FaultEngine D R → FaultEngine D R) → ScenarioRunner D R → ScenarioRunner D R
  on_engine stream call r = elim (find stream r.stream_faults) [
    | none ↦ r
    | some e ↦
        let after = call e in
        record r {
          stream_faults = assign stream after r.stream_faults;
          metrics =
              update_metrics stream (record_frames layout (drop (length e.written) after.written))
                r.metrics;
        }
  ]

  -- `record`
  unfoldable pub record_message : Text → D → D → ScenarioRunner D R → ScenarioRunner D R
  record_message stream latency_ms now_s r = elim (find stream r.stream_faults) [
    | none ↦ record r {
      metrics = update_metrics stream (record_arrival latency_ms now_s false) r.metrics;
    }
    | some e ↦
        on_engine stream
          (λ e.
            process random clock e (layout.to_bytes latency_ms ++ layout.to_bytes now_s) now_s
              stream)
          r
  ]

  -- A turn of `can_reader_loop`, on the metrics that were resolved when it was started.
  unfoldable pub turn_can : CanRead D → ScenarioRunner D R → ScenarioRunner D R
  turn_can x r = elim r.can_reader [
    | none ↦ r
    | some t ↦ elim (metrics_for (codes "can") r.metrics) [
      | none ↦ r
      | some m ↦
          let after = reader_turn x (record {
            have_prev_seq = t.have_prev_seq;
            prev_seq = t.prev_seq;
            frames = t.frames;
            metrics = m;
          }) in
          record r {
            can_reader = some (record {
              have_prev_seq = after.have_prev_seq;
              prev_seq = after.prev_seq;
              frames = after.frames;
            });
            metrics = update_metrics (codes "can") (λ _. after.metrics) r.metrics;
          }
    ]
  ]

  unfoldable pub on_event : Event D → ScenarioRunner D R → ScenarioRunner D R
  on_event (message stream latency_ms now_s) r = record_message stream latency_ms now_s r
  on_event (worker_wakes stream now) r = on_engine stream (worker_turn now) r
  on_event (worker_emits stream) r = on_engine stream emit_taken r
  on_event (can_turn x) r = turn_can x r

  unfoldable pub on_events : List (Event D) → ScenarioRunner D R → ScenarioRunner D R
  on_events [] r = r
  on_events (x ∷ rest) r = on_events rest (on_event x r)

  -- The loop of `finish` over the engines.
  unfoldable pub flush_all : List (Text × FaultEngine D R) → ScenarioRunner D R → ScenarioRunner D R
  flush_all [] r = r
  flush_all ((stream, e) ∷ rest) r = flush_all rest (on_engine stream flush r)

  module _ (fractions : Fractions D) where
    -- The metrics that `finish` judges.
    unfoldable pub final_metrics : ScenarioRunner D R → Map D
    final_metrics r = emit_all fractions (flush_all r.stream_faults r).metrics []

    unfoldable pub finish : Tolerance D → ScenarioRunner D R → ScenarioResult D
    finish tol r = evaluate_all tol r.scenario.name r.scenario.assertions (final_metrics r)
