-- ===== src/Scenario/Runs/Summary.antt =====
-- src/scenario/namespace_manager.hpp: what `aggregate` makes of the results.
use av_hil_validation_platfo.Base.Lists.{All, length}
use av_hil_validation_platfo.Base.Text.{Text}
use av_hil_validation_platfo.Scenario.Runs.{
  AggregateResult, all_passed, count_assertions, add_result, add_results, aggregate,
}
use av_hil_validation_platfo.Scenario.Verdict.{AssertionResult, ScenarioResult}
use av_hil_validation_platfo.Base.{
  ℕ, ◌+◌, ◌≤◌, ◌≡◌, refl, ◌∙◌, sym, ◌↔◌, true, Bool, List, [], ◌∷◌, ◌++◌, map, append-nil,
  append_assoc, arith,
}

module _ {D : Type 0} where
  abbrev pub IsPassed : ScenarioResult D → Type 0
  IsPassed r = r.passed ≡ true

  abbrev pub line : ScenarioResult D → Text × Bool
  line r = (r.scenario_name, r.passed)

  -- The checks of all the results.
  abbrev pub checks : List (ScenarioResult D) → ℕ
  checks [] = 0
  checks (r ∷ rest) = length r.assertions + checks rest

  count_assertions-le :
      (rs : List (AssertionResult D)) (n : ℕ)
      → (n ≤ count_assertions rs n) × (count_assertions rs n ≤ n + length rs)
  unfolding count_assertions
  count_assertions-le [] n = (omega arith, omega arith)
  count_assertions-le (a ∷ rest) n =
      ground (arith, count_assertions-le rest (n + 1), count_assertions-le rest n)

  add_results_lem :
      (rs : List (ScenarioResult D)) (agg : AggregateResult)
      → let after = add_results rs agg in
        (after.total_scenarios ≡ agg.total_scenarios)
        × (after.scenarios_passed + after.scenarios_failed
            ≡ agg.scenarios_passed + agg.scenarios_failed + length rs)
        × (after.total_assertions ≡ agg.total_assertions + checks rs)
        × (after.assertions_passed ≤ agg.assertions_passed + checks rs)
        × (after.per_scenario ≡ agg.per_scenario ++ map line rs)
        × ((after.scenarios_failed ≡ 0) ↔ ((agg.scenarios_failed ≡ 0) × All IsPassed rs))
  unfolding add_results add_result
  add_results_lem [] agg = (
    refl,
    omega arith,
    omega arith,
    omega arith,
    sym (append-nil agg.per_scenario),
    (λ h. (h, tt), λ h. h.0),
  )
  add_results_lem (r ∷ rest) agg =
      let (total, both, all, some_of, lines, (to, of)) = add_results_lem rest (add_result r agg) in
      let counted = count_assertions-le r.assertions agg.assertions_passed in
      (
        total,
        ground (arith, both),
        omega (arith, all),
        omega (arith, some_of, counted.1),
        lines ∙ append_assoc agg.per_scenario (line r ∷ []) (map line rest),
        (λ h. ground (arith, to h), λ h. of (ground (arith, h), h.1.1)),
      )

  -- Every scenario of a summary is counted as passed or failed, the checks are those of all scenarios
  -- and no more of them have passed than there are, the lines are those of the results in order, and the
  -- exit code is 0 exactly when there is a scenario and all have passed.
  pub aggregate_lem :
      (results : List (ScenarioResult D))
      → let agg = aggregate results in
        (agg.scenarios_passed + agg.scenarios_failed ≡ agg.total_scenarios)
        × (agg.total_assertions ≡ checks results)
        × (agg.assertions_passed ≤ agg.total_assertions)
        × (agg.per_scenario ≡ map line results)
        × ((all_passed agg ≡ true) ↔ ((1 ≤ length results) × All IsPassed results))
  unfolding aggregate
  aggregate_lem results =
      let start : AggregateResult = record {
        total_scenarios = length results;
        scenarios_passed = 0;
        scenarios_failed = 0;
        total_assertions = 0;
        assertions_passed = 0;
        per_scenario = [];
      } in
      let (total, both, all, some_of, lines, (to, of)) = add_results_lem results start in
      (
        omega (arith, total, both),
        omega (arith, all),
        omega (arith, all, some_of),
        lines,
        (λ h. ground (arith, h, total, to), λ h. ground (arith, total, of (refl, h.1))),
      )
