-- ===== src/Scenario/Runs.antt =====
-- src/scenario/namespace_manager.hpp and parallel_runner.cpp: the namespaces and ports of runs that
-- go on at once, and the summary of their results.
pub mod Namespaces
pub mod Summary
use av_hil_validation_platfo.Base.Double.{Double, max}
use av_hil_validation_platfo.Base.Lists.{length}
use av_hil_validation_platfo.Base.Tests.{◌==◌, if◌then◌else◌}
use av_hil_validation_platfo.Base.Text.{Text, codes}
use av_hil_validation_platfo.Replay.Segment.{decimal}
use av_hil_validation_platfo.Scenario.Model.{Scenario}
use av_hil_validation_platfo.Scenario.Result.{Parsed, ok, err, ◌>>=◌}
use av_hil_validation_platfo.Scenario.Verdict.{AssertionResult, ScenarioResult}
use av_hil_validation_platfo.Base.{
  ℕ, zero, suc, ◌+◌, ◌%◌, ◌^◌, Bool, ◌&&◌, not, List, [], ◌∷◌, ◌++◌,
}

pub record NamespaceManager : Type 0 where
  pub prefix : Text
  pub base_port : ℕ
  pub counter : ℕ

-- The name that a manager makes of a number.
abbrev pub namespace : Text → ℕ → Text
namespace prefix n = prefix ++ (codes "_" ++ decimal n)

unfoldable pub next_namespace : NamespaceManager → Text × NamespaceManager
next_namespace m = (namespace m.prefix m.counter, record m { counter = (m.counter + 1) % 2 ^ 64 })

-- `index` is a position in a list, so the sum is below `2 ^ 64`.
unfoldable pub metrics_port : NamespaceManager → ℕ → ℕ
metrics_port m index = if m.base_port == 0 then 0 else (m.base_port + index) % 2 ^ 16

-- A runner as `main` makes it.
pub record Run (D : Type 0) : Type 0 where
  pub scenario : Scenario D
  pub ns : Text
  pub metrics_port : ℕ

pub record Runs (D : Type 0) : Type 0 where
  pub ns_mgr : NamespaceManager
  pub runners : List (Run D)
  pub max_duration : D

module _ {D : Type 0} ⦃d : Double D⦄ (load : Text → Parsed (Scenario D)) where
  -- One turn of the inner loop, once the file is parsed.
  unfoldable pub add_run : Scenario D → Runs D → Runs D
  add_run s runs =
      let (ns, mgr) = next_namespace runs.ns_mgr in
      record {
        ns_mgr = mgr;
        runners =
            runs.runners
            ++ (record {
              scenario = s;
              ns = ns;
              metrics_port = metrics_port mgr (length runs.runners);
            }
                ∷ []);
        max_duration = max runs.max_duration s.duration_seconds;
      }

  unfoldable pub add_paths : List Text → Runs D → Parsed (Runs D)
  add_paths [] runs = ok runs
  add_paths (path ∷ rest) runs = load path >>= λ s. add_paths rest (add_run s runs)

  unfoldable pub add_repetitions : ℕ → List Text → Runs D → Parsed (Runs D)
  add_repetitions zero paths runs = ok runs
  add_repetitions (suc count) paths runs = add_paths paths runs >>= add_repetitions count paths

  -- The runners that `main` starts, or the exception that ends it.
  unfoldable pub prepare : ℕ → List Text → ℕ → Parsed (Runs D)
  prepare count paths metrics_base_port = add_repetitions count paths (record {
    ns_mgr = record { prefix = codes "/scenario"; base_port = metrics_base_port; counter = 0 };
    runners = [];
    max_duration = d.of_nat 0;
  })

pub record AggregateResult : Type 0 where
  pub total_scenarios : ℕ
  pub scenarios_passed : ℕ
  pub scenarios_failed : ℕ
  pub total_assertions : ℕ
  pub assertions_passed : ℕ
  pub per_scenario : List (Text × Bool)

abbrev pub all_passed : AggregateResult → Bool
all_passed agg = (agg.scenarios_failed == 0) && not (agg.total_scenarios == 0)

module _ {D : Type 0} where
  -- The inner loop of `aggregate`.
  unfoldable pub count_assertions : List (AssertionResult D) → ℕ → ℕ
  count_assertions [] n = n
  count_assertions (a ∷ rest) n = count_assertions rest (if a.passed then n + 1 else n)

  -- The body of the outer loop.
  unfoldable pub add_result : ScenarioResult D → AggregateResult → AggregateResult
  add_result r agg = record agg {
    scenarios_passed = if r.passed then agg.scenarios_passed + 1 else agg.scenarios_passed;
    scenarios_failed = if r.passed then agg.scenarios_failed else agg.scenarios_failed + 1;
    total_assertions = agg.total_assertions + length r.assertions;
    assertions_passed = count_assertions r.assertions agg.assertions_passed;
    per_scenario = agg.per_scenario ++ ((r.scenario_name, r.passed) ∷ []);
  }

  unfoldable pub add_results : List (ScenarioResult D) → AggregateResult → AggregateResult
  add_results [] agg = agg
  add_results (r ∷ rest) agg = add_results rest (add_result r agg)

  unfoldable pub aggregate : List (ScenarioResult D) → AggregateResult
  aggregate results = add_results results (record {
    total_scenarios = length results;
    scenarios_passed = 0;
    scenarios_failed = 0;
    total_assertions = 0;
    assertions_passed = 0;
    per_scenario = [];
  })
