-- ===== src/Report/Build.antt =====
-- src/report/report_builder.cpp: what the report says of a run.
use av_hil_validation_platfo.Base.Double.{Double}
use av_hil_validation_platfo.Base.Map.{Map, find, find-assign_self, find-assign_ne, ne_of_same}
use av_hil_validation_platfo.Base.Tests.{Bool-cases}
use av_hil_validation_platfo.Base.Text.{Text, same, eq_of_same, contains}
use av_hil_validation_platfo.Scenario.Verdict.{AssertionResult, ScenarioResult}
use av_hil_validation_platfo.Report.{
  AssertionReport, SensorMetrics, assertion_report, assertion_reports, sensor_metrics,
  per_sensor_loop, build_report,
}
use av_hil_validation_platfo.Base.{
  ℕ, ◌≡◌, refl, sym, ◌∙◌, inl, inr, true, some, List, [], ◌∷◌, ◌++◌, map, append-nil, append_assoc,
}

module _ {D : Type 0} where
  assertion_reports-map :
      (results : List (AssertionResult D)) (out : List (AssertionReport D))
      → assertion_reports results out ≡ out ++ map assertion_report results
  unfolding assertion_reports
  assertion_reports-map [] out = sym (append-nil out)
  assertion_reports-map (a ∷ rest) out =
      assertion_reports-map rest (out ++ assertion_report a ∷ [])
      ∙ append_assoc out (assertion_report a ∷ []) (map assertion_report rest)

module _ {D : Type 0} ⦃d : Double D⦄ (to_count : D → ℕ) where
  per_sensor_kept :
      (metrics : Map D) (s : Text) (streams : List Text) (out : Map (SensorMetrics D))
      → find s out ≡ some (sensor_metrics to_count metrics s)
      → find s (per_sensor_loop to_count metrics streams out)
        ≡ some (sensor_metrics to_count metrics s)
  unfolding per_sensor_loop
  per_sensor_kept metrics s [] out h = h
  per_sensor_kept metrics s (t ∷ rest) out h =
      per_sensor_kept metrics s rest _ (elim (Bool-cases (same s t)) [
        | inl e ↦
            rw (sym (eq_of_same s t e)) (find-assign_self s (sensor_metrics to_count metrics s) out)
        | inr e ↦ find-assign_ne s t (sensor_metrics to_count metrics t) out (ne_of_same s t e) ∙ h
      ])

  per_sensor_found :
      (metrics : Map D) (s : Text) (streams : List Text) (out : Map (SensorMetrics D))
      → contains s streams ≡ true
      → find s (per_sensor_loop to_count metrics streams out)
        ≡ some (sensor_metrics to_count metrics s)
  unfolding per_sensor_loop
  per_sensor_found metrics s [] out h = absurd cc
  per_sensor_found metrics s (t ∷ rest) out h = elim (Bool-cases (same t s)) [
    | inl e ↦
        per_sensor_kept metrics s rest _
          (rw (eq_of_same t s e) (find-assign_self s (sensor_metrics to_count metrics s) out))
    | inr e ↦ per_sensor_found metrics s rest _ (rw e at h)
  ]

  -- A report has the verdict of the run and its results in order, and for each of the streams the entry
  -- made of that stream's metrics.
  pub build_report_lem :
      (now : Text) (result : ScenarioResult D) (metrics : Map D) (streams : List Text)
      (duration : D) (s : Text)
      → contains s streams ≡ true
      → let report = build_report to_count now result metrics streams duration in
        (report.passed ≡ result.passed)
        × (report.assertions ≡ map assertion_report result.assertions)
        × (find s report.per_sensor ≡ some (sensor_metrics to_count metrics s))
  unfolding build_report
  build_report_lem now result metrics streams duration s h =
      (refl, assertion_reports-map result.assertions [], per_sensor_found metrics s streams [] h)
