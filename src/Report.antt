-- ===== src/Report.antt =====
-- src/report/report_types.hpp, report_builder.cpp and html_report.cpp: the report of a run. The wall clock, the
-- cast of a `double` to a counter and the JSON library are parameters or left out.
pub mod Build
pub mod Html
use av_hil_validation_platfo.Base.Double.{Double}
use av_hil_validation_platfo.Base.Map.{Map, find, assign}
use av_hil_validation_platfo.Base.Tests.{◌==◌, if◌then◌else◌}
use av_hil_validation_platfo.Base.Text.{Text, codes}
use av_hil_validation_platfo.Scenario.Model.{compare_op_to_string}
use av_hil_validation_platfo.Scenario.Verdict.{AssertionResult, ScenarioResult}
use av_hil_validation_platfo.Base.{ℕ, Bool, Option, none, some, List, [], ◌∷◌, ◌++◌}

pub record AssertionReport (D : Type 0) : Type 0 where
  pub metric : Text
  pub op : Text
  pub threshold : D
  pub actual : D
  pub found : Bool
  pub passed : Bool

pub record SensorMetrics (D : Type 0) : Type 0 where
  pub msgs_sec : D
  pub drop_rate_pct : D
  pub latency_p50_ms : D
  pub latency_p99_ms : D
  pub latency_p999_ms : D
  pub sequence_gaps : ℕ
  pub received : ℕ

pub record TransportMetrics (D : Type 0) : Type 0 where
  pub bytes_sec : D
  pub crc_failures : ℕ
  pub sequence_gaps : ℕ
  pub retransmits : ℕ

-- The histograms, which nothing fills, are left out.
pub record ScenarioReport (D : Type 0) : Type 0 where
  pub scenario : Text
  pub timestamp : Text
  pub duration_seconds : D
  pub passed : Bool
  pub assertions : List (AssertionReport D)
  pub per_sensor : Map (SensorMetrics D)
  pub transport : TransportMetrics D
  pub replay_recovery_ms : D

module _ {D : Type 0} where
  abbrev pub value_or : Option D → D → D
  value_or none fallback = fallback
  value_or (some v) fallback = v

  -- The body of the loop over the results.
  abbrev pub assertion_report : AssertionResult D → AssertionReport D
  assertion_report a = record {
    metric = a.metric;
    op = compare_op_to_string a.op;
    threshold = a.threshold;
    actual = a.actual;
    found = a.found;
    passed = a.passed;
  }

  unfoldable pub assertion_reports :
      List (AssertionResult D) → List (AssertionReport D) → List (AssertionReport D)
  assertion_reports [] out = out
  assertion_reports (a ∷ rest) out = assertion_reports rest (out ++ (assertion_report a ∷ []))

module _ {D : Type 0} ⦃d : Double D⦄ where
  abbrev pub metric_or : Map D → Text → D
  metric_or m key = value_or (find key m) (d.of_nat 0)

module _ {D : Type 0} ⦃d : Double D⦄ (to_count : D → ℕ) where
  -- The body of the loop over the streams.
  unfoldable pub sensor_metrics : Map D → Text → SensorMetrics D
  sensor_metrics metrics s = record {
    msgs_sec = metric_or metrics (s ++ codes "_msgs_per_sec");
    drop_rate_pct = metric_or metrics (s ++ codes "_drop_rate_pct");
    latency_p50_ms = metric_or metrics (s ++ codes "_latency_p50_ms");
    latency_p99_ms = metric_or metrics (s ++ codes "_latency_p99_ms");
    latency_p999_ms = metric_or metrics (s ++ codes "_latency_p999_ms");
    sequence_gaps = to_count (metric_or metrics (s ++ codes "_sequence_gaps"));
    received = to_count (metric_or metrics (s ++ codes "_received"));
  }

  unfoldable pub per_sensor_loop : Map D → List Text → Map (SensorMetrics D) → Map (SensorMetrics D)
  per_sensor_loop metrics [] out = out
  per_sensor_loop metrics (s ∷ rest) out =
      per_sensor_loop metrics rest (assign s (sensor_metrics metrics s) out)

  unfoldable pub build_report : Text → ScenarioResult D → Map D → List Text → D → ScenarioReport D
  build_report now result metrics streams duration_seconds = record {
    scenario = result.scenario_name;
    timestamp = now;
    duration_seconds = duration_seconds;
    passed = result.passed;
    assertions = assertion_reports result.assertions [];
    per_sensor = per_sensor_loop metrics streams [];
    transport = record {
      bytes_sec = metric_or metrics (codes "transport_bytes_sec");
      crc_failures = to_count (metric_or metrics (codes "transport_crc_failures"));
      sequence_gaps = to_count (metric_or metrics (codes "transport_sequence_gaps"));
      retransmits = to_count (metric_or metrics (codes "transport_retransmits"));
    };
    replay_recovery_ms = metric_or metrics (codes "replay_recovery_ms");
  }

-- What `esc` of the HTML report writes for one character.
abbrev pub esc_char : ℕ → Text
esc_char c =
    if c == 38
    then codes "&amp;"
    else if c == 60
    then codes "&lt;"
    else if c == 62
    then codes "&gt;"
    else if c == 34
    then codes "&quot;"
    else c ∷ []

unfoldable pub esc : Text → Text
esc [] = []
esc (c ∷ s) = esc_char c ++ esc s
