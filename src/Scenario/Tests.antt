-- ===== src/Scenario/Tests.antt =====
-- A scenario file read, run and judged, with times in whole units.
use av_hil_validation_platfo.Base.Double.{Double}
use av_hil_validation_platfo.Base.Lists.{All, length, get_or}
use av_hil_validation_platfo.Base.Map.{Map, find}
use av_hil_validation_platfo.Base.Tests.{ltb, leb, ◌==◌}
use av_hil_validation_platfo.Base.Text.{Text, same, codes}
use av_hil_validation_platfo.Faults.Rule.{fault_kind_from_string, is_kind, no_fault}
use av_hil_validation_platfo.Faults.Engine.{Random}
use av_hil_validation_platfo.Scenario.Can.{Signals, new_reader, can_reader_loop}
use av_hil_validation_platfo.Scenario.Can.Telemetry.{Sent, read_of, can_reader_measures}
use av_hil_validation_platfo.Scenario.Model.{
  StreamConfig, FaultType, FaultSpec, Assertion, Scenario, greater_than, fault_type_from_string,
}
use av_hil_validation_platfo.Scenario.Parser.{
  Yaml, string_at, double_at, pairs_at, nested_params, inline_params, parse_fault, parse_node,
}
use av_hil_validation_platfo.Scenario.Parser.Values.{OfDocument, parse_node-OfDocument}
use av_hil_validation_platfo.Scenario.Result.{Parsed, ok, err}
use av_hil_validation_platfo.Scenario.Runner.{
  Layout, Event, message, worker_wakes, worker_emits, to_fault_rule, start_run, on_events,
  flush_all, final_metrics,
}
use av_hil_validation_platfo.Scenario.Runner.Latency.{IsMeasured, latencies_on_arrival}
use av_hil_validation_platfo.Scenario.Runner.Outcome.{final_metrics-found}
use av_hil_validation_platfo.Scenario.Runner.Rules.{to_fault_rule-parse_fault}
use av_hil_validation_platfo.Scenario.Runs.{
  Run, Runs, namespace, next_namespace, metrics_port, add_run, add_paths, add_repetitions, prepare,
  aggregate, all_passed,
}
use av_hil_validation_platfo.Scenario.Runs.Namespaces.{prepare_distinct}
use av_hil_validation_platfo.Scenario.Runs.Summary.{IsPassed, line, checks, aggregate_lem}
use av_hil_validation_platfo.Scenario.StreamMetrics.{StreamMetrics, Fractions, new_metrics}
use av_hil_validation_platfo.Scenario.StreamMetrics.Keys.{received, suffix, value}
use av_hil_validation_platfo.Scenario.Verdict.{
  Tolerance, ScenarioResult, evaluate, evaluate_all, Holds, evaluate_all_lem,
}
use av_hil_validation_platfo.Base.{
  ℕ, ◌+◌, ◌-◌, ◌*◌, ◌/◌, ◌%◌, ◌^◌, ◌≤◌, ◌<◌, ◌≡◌, ◌≢◌, ◌↔◌, refl, true, false, Option, none, some,
  List, [], ◌∷◌, ◌++◌, map, arith,
}

instance abbrev whole : Double ℕ
whole = record {
  of_nat = λ n. n;
  lt = ltb;
  le = leb;
  eq = ◌==◌;
  add = ◌+◌;
  sub = ◌-◌;
  mul = ◌*◌;
  div = ◌/◌;
}

-- A document of four kinds of node.
mutual
  data Node : Type 0 where
    word : Text → Node
    number : ℕ → Node
    sequence : Nodes → Node
    mapping : Entries → Node

  data Nodes : Type 0 where
    nil : Nodes
    cons : Node → Nodes → Nodes

  data Entries : Type 0 where
    end : Entries
    entry : Text → Node → Entries → Entries

abbrev find_entry : Text → Entries → Option Node
find_entry k end = none
find_entry k (entry j n rest) = elim (same k j) [ true ↦ some n | false ↦ find_entry k rest ]

abbrev list_of : Nodes → List Node
list_of nil = []
list_of (cons n rest) = n ∷ list_of rest

abbrev pairs_of : Entries → List (Node × Node)
pairs_of end = []
pairs_of (entry k n rest) = (word k, n) ∷ pairs_of rest

abbrev child_of : Node → Text → Parsed (Option Node)
child_of (mapping es) k = ok (find_entry k es)
child_of _ k = ok none

abbrev string_of : Node → Parsed Text
string_of (word s) = ok s
string_of _ = err (codes "bad conversion")

abbrev number_in : Node → Parsed ℕ
number_in (number n) = ok n
number_in _ = err (codes "bad conversion")

abbrev items_in : Node → List Node
items_in (sequence ns) = list_of ns
items_in _ = []

abbrev pairs_in : Node → List (Node × Node)
pairs_in (mapping es) = pairs_of es
pairs_in _ = []

abbrev plain_yaml : Yaml Node ℕ
plain_yaml = record {
  child = child_of;
  as_string = string_of;
  as_double = number_in;
  items = items_in;
  pairs = pairs_in;
}

abbrev imu : Text
imu = codes "imu"

abbrev fault_of : Text → Node
fault_of type = mapping (
    entry (codes "stream") (word imu) (
      entry (codes "start_seconds") (number 2) (
        entry (codes "duration_seconds") (number 3) (
          entry (codes "type") (word type)
            (entry (codes "params") (mapping (entry (codes "delay_ms") (number 25) end)) end)))))

abbrev document_with : Nodes → Node
document_with faults = mapping (
    entry (codes "name") (word (codes "run")) (
      entry (codes "duration_seconds") (number 10) (
        entry (codes "streams")
          (mapping (entry imu (mapping (entry (codes "rate_hz") (number 100) end)) end))
          (entry (codes "faults") (sequence faults) (
            entry (codes "assertions")
              (sequence (
                cons
                  (mapping (
                    entry (codes "metric") (word (codes "imu_received"))
                      (entry (codes "operator") (word (codes "greater_than")) end)))
                  nil))
              end)))))

abbrev delay_spec : FaultSpec ℕ
delay_spec = record {
  stream = imu;
  start_seconds = 2;
  duration_seconds = 3;
  type = FaultType.delay;
  params = (codes "delay_ms", 25) ∷ [];
}

abbrev imu_stream : StreamConfig ℕ
imu_stream = record { name = imu; rate_hz = 100 }

abbrev some_received : Assertion ℕ
some_received = record {
  metric = codes "imu_received";
  op = greater_than;
  value = 0;
  window_seconds = none;
}

abbrev delayed_run : Scenario ℕ
delayed_run = record {
  name = codes "run";
  duration_seconds = 10;
  streams = imu_stream ∷ [];
  faults = delay_spec ∷ [];
  assertions = some_received ∷ [];
}

abbrev document : Node
document = document_with (cons (fault_of (codes "delay")) nil)

parse_node-OfDocument_example :
    (parse_node plain_yaml document ≡ ok delayed_run) ↔ OfDocument plain_yaml document delayed_run
parse_node-OfDocument_example = parse_node-OfDocument plain_yaml document delayed_run

to_fault_rule-parse_fault_example :
    (w : Text) × (string_at plain_yaml (fault_of (codes "delay")) (codes "type") ≡ ok w)
    × ((to_fault_rule delay_spec).kind ≡ fault_kind_from_string w)
    × (is_kind (to_fault_rule delay_spec).kind no_fault ≡ false)
unfolding parse_fault string_at double_at pairs_at nested_params inline_params
    fault_type_from_string
to_fault_rule-parse_fault_example =
    to_fault_rule-parse_fault plain_yaml (fault_of (codes "delay")) delay_spec refl

abbrev whole_tolerance : Tolerance ℕ
whole_tolerance = record { fabs = λ n. n; epsilon = 0 }

abbrev collected : Map ℕ
collected = (codes "imu_received", 4) ∷ []

evaluate_all_lem_example :
    (((evaluate_all whole_tolerance (codes "run") (some_received ∷ []) collected).passed ≡ true)
      ↔ All (Holds whole_tolerance collected) (some_received ∷ []))
    × ((evaluate_all whole_tolerance (codes "run") (some_received ∷ []) collected).assertions
        ≡ map (λ a. evaluate whole_tolerance a collected) (some_received ∷ []))
evaluate_all_lem_example =
    evaluate_all_lem whole_tolerance (codes "run") (some_received ∷ []) collected

abbrev good : ScenarioResult ℕ
good = record {
  scenario_name = codes "run";
  passed = true;
  assertions =
      record {
        metric = codes "imu_received";
        op = greater_than;
        threshold = 0;
        actual = 4;
        found = true;
        passed = true;
      }
      ∷ [];
}

abbrev bad : ScenarioResult ℕ
bad = record good { passed = false }

aggregate_lem_example :
    let agg = aggregate (good ∷ bad ∷ []) in
    (agg.scenarios_passed + agg.scenarios_failed ≡ agg.total_scenarios)
    × (agg.total_assertions ≡ checks (good ∷ bad ∷ []))
    × (agg.assertions_passed ≤ agg.total_assertions)
    × (agg.per_scenario ≡ map line (good ∷ bad ∷ []))
    × ((all_passed agg ≡ true) ↔ ((1 ≤ length (good ∷ bad ∷ [])) × All IsPassed (good ∷ bad ∷ [])))
aggregate_lem_example = aggregate_lem (good ∷ bad ∷ [])

abbrev load_run : Text → Parsed (Scenario ℕ)
load_run path = ok delayed_run

abbrev run_at : ℕ → Run ℕ
run_at n = record {
  scenario = delayed_run;
  ns = namespace (codes "/scenario") n;
  metrics_port = 9100 + n;
}

abbrev two_runs : Runs ℕ
two_runs = record {
  ns_mgr = record { prefix = codes "/scenario"; base_port = 9100; counter = 2 };
  runners = run_at 0 ∷ run_at 1 ∷ [];
  max_duration = 10;
}

prepare_distinct_example :
    (length two_runs.runners ≡ 2 * 1)
    × ((i j : ℕ)
        → i < length two_runs.runners
        → j < length two_runs.runners
        → i ≢ j
        → (get_or two_runs.runners i (run_at 7)).ns ≢ (get_or two_runs.runners j (run_at 7)).ns)
unfolding prepare add_repetitions add_paths add_run next_namespace metrics_port
prepare_distinct_example =
    prepare_distinct load_run 2 (codes "run.yaml" ∷ []) 9100 two_runs (run_at 7) refl (omega arith)

abbrev signals : Signals
signals = record { speed = λ n. (1, 2); angle = λ n. (3, 4); throttle = λ n. 5 }

-- Three frames, of which the one with number 65537 was lost.
abbrev sent : List (Sent ℕ)
sent =
    record { seq = 65535; sent_us = 4294967290; took_us = 2000; arrival_s = 1 }
    ∷ record { seq = 65536; sent_us = 4294977290; took_us = 3000; arrival_s = 2 }
    ∷ record { seq = 65538; sent_us = 4294997290; took_us = 1000; arrival_s = 3 }
    ∷ []

abbrev can_metrics : StreamMetrics ℕ
can_metrics = new_metrics (codes "can") 100 10

can_reader_measures_example :
    let after = can_reader_loop (map (read_of signals) sent) (new_reader can_metrics) in
    (after.metrics.latencies_ms ≡ 2 ∷ 3 ∷ 1 ∷ []) × (after.metrics.sequence_gaps % 2 ^ 64 ≡ 1)
can_reader_measures_example =
    can_reader_measures signals sent can_metrics (omega arith, (omega arith, (omega arith, tt)))

-- A `double` in eight bytes.
abbrev wide : ℕ → List ℕ
wide n = n ∷ 0 ∷ 0 ∷ 0 ∷ 0 ∷ 0 ∷ 0 ∷ 0 ∷ []

abbrev first_of : List ℕ → ℕ
first_of [] = 0
first_of (n ∷ rest) = n

abbrev eight_bytes : Layout ℕ
eight_bytes = record { to_bytes = wide; of_bytes = first_of }

abbrev counting : Random ℕ ℕ
counting = record { uniform = λ r. (0, r + 1); position = λ n r. (n, r + 1); bit = λ r. (3, r + 1) }

abbrev clock : ℕ → ℕ
clock n = n

abbrev events : List (Event ℕ)
events =
    message imu 5 1
    ∷ message imu 5 3
    ∷ worker_wakes imu 30000000
    ∷ worker_emits imu
    ∷ message imu 5 4
    ∷ []

abbrev halves : Fractions ℕ
halves = record { p50 = 0; p99 = 0; p999 = 0; to_size = λ n. n }

-- The delay of 25 ms is not in the latencies.
latencies_on_arrival_example :
    let r = on_events eight_bytes counting clock events (start_run 0 delayed_run) in
    All
      (IsMeasured eight_bytes counting clock (λ latency. latency ≡ 5))
      (flush_all eight_bytes counting clock r.stream_faults r).metrics
unfolding to_fault_rule fault_kind_from_string
latencies_on_arrival_example =
    latencies_on_arrival eight_bytes counting clock (λ latency. latency ≡ 5) 0 delayed_run events
      (λ x. refl) (λ x. refl) refl (refl, (refl, (refl, tt)))

final_metrics-found_example :
    let ran = on_events eight_bytes counting clock events (start_run {R = ℕ} 0 delayed_run) in
    (before : List (StreamMetrics ℕ)) × (m : StreamMetrics ℕ) × (after : List (StreamMetrics ℕ))
    × ((flush_all eight_bytes counting clock ran.stream_faults ran).metrics ≡ before ++ m ∷ after)
    × (m.name ≡ imu)
    × All (λ l. m.name ≢ l.name) after
    × (find (imu ++ suffix received) (final_metrics eight_bytes counting clock halves ran)
        ≡ some (value halves received m))
final_metrics-found_example =
    final_metrics-found eight_bytes counting clock halves 0 delayed_run events [] imu_stream []
      received refl tt
