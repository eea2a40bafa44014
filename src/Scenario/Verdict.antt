-- ===== src/Scenario/Verdict.antt =====
-- src/scenario/assertion.cpp: the verdict on one assertion and on all of a scenario.
use mathlib.Core.Path.{subst}
use av_hil_validation_platfo.Base.Double.{Double}
use av_hil_validation_platfo.Base.Lists.{All}
use av_hil_validation_platfo.Base.Map.{Map, find}
use av_hil_validation_platfo.Base.Tests.{Option-cases, if◌then◌else◌}
use av_hil_validation_platfo.Base.Text.{Text}
use av_hil_validation_platfo.Scenario.Model.{
  CompareOp, less_than, greater_than, equals, not_equals, unknown_op, Assertion,
}
use av_hil_validation_platfo.Base.{
  ◌≡◌, refl, ◌↔◌, Bool, true, false, none, some, List, [], ◌∷◌, ◌++◌, map, append-nil, append_assoc,
  ◌∙◌, sym, inl, inr, arith,
}

-- `std::fabs`, and the literal `1e-9`.
pub record Tolerance (D : Type 0) : Type 0 where
  pub fabs : D → D
  pub epsilon : D

pub record AssertionResult (D : Type 0) : Type 0 where
  pub metric : Text
  pub op : CompareOp
  pub threshold : D
  pub actual : D
  pub found : Bool
  pub passed : Bool

pub record ScenarioResult (D : Type 0) : Type 0 where
  pub scenario_name : Text
  pub passed : Bool
  pub assertions : List (AssertionResult D)

both_true : (a b : Bool) → (if a then b else false) ≡ true → (a ≡ true) × (b ≡ true)
both_true a b h = (ground arith, ground arith)

module _ {D : Type 0} ⦃d : Double D⦄ (tol : Tolerance D) where
  -- The `switch` of `evaluate`.
  unfoldable pub compares : CompareOp → D → D → Bool
  compares less_than actual value = d.lt actual value
  compares greater_than actual value = d.lt value actual
  compares equals actual value = d.le (tol.fabs (d.sub actual value)) tol.epsilon
  compares not_equals actual value = d.lt tol.epsilon (tol.fabs (d.sub actual value))
  compares unknown_op actual value = false

  unfoldable pub evaluate : Assertion D → Map D → AssertionResult D
  evaluate a metrics =
      let r : AssertionResult D = record {
        metric = a.metric;
        op = a.op;
        threshold = a.value;
        actual = d.of_nat 0;
        found = false;
        passed = false;
      } in
      elim (find a.metric metrics) [
        | none ↦ r
        | some actual ↦ record r {
          actual = actual;
          found = true;
          passed = compares a.op actual a.value;
        }
      ]

  -- The loop of `evaluate_all`.
  unfoldable pub evaluate_loop : List (Assertion D) → Map D → ScenarioResult D → ScenarioResult D
  evaluate_loop [] metrics sr = sr
  evaluate_loop (a ∷ rest) metrics sr =
      let ar = evaluate a metrics in
      evaluate_loop rest metrics (record sr {
        passed = if ar.passed then sr.passed else false;
        assertions = sr.assertions ++ (ar ∷ []);
      })

  unfoldable pub evaluate_all : Text → List (Assertion D) → Map D → ScenarioResult D
  evaluate_all name assertions metrics =
      evaluate_loop assertions metrics
        (record { scenario_name = name; passed = true; assertions = [] })

  -- What the operators say of a metric and a value: below it, above it, not further from it than the
  -- tolerance, or further.
  abbrev pub Says : CompareOp → D → D → Type 0
  Says less_than v value = d.lt v value ≡ true
  Says greater_than v value = d.lt value v ≡ true
  Says equals v value = d.le (tol.fabs (d.sub v value)) tol.epsilon ≡ true
  Says not_equals v value = d.lt tol.epsilon (tol.fabs (d.sub v value)) ≡ true
  Says unknown_op v value = ⊥

  compares-Says : (op : CompareOp) (v value : D) → (compares op v value ≡ true) ↔ Says op v value
  unfolding compares
  compares-Says less_than v value = (λ h. h, λ h. h)
  compares-Says greater_than v value = (λ h. h, λ h. h)
  compares-Says equals v value = (λ h. h, λ h. h)
  compares-Says not_equals v value = (λ h. h, λ h. h)
  compares-Says unknown_op v value = (λ h. ground (arith, h), λ h. absurd h)

  -- What an assertion asks: its metric is there, and compares as it says.
  abbrev pub Holds : Map D → Assertion D → Type 0
  Holds metrics a = (v : D) × (find a.metric metrics ≡ some v) × Says a.op v a.value

  evaluate-Holds :
      (a : Assertion D) (metrics : Map D) → ((evaluate a metrics).passed ≡ true) ↔ Holds metrics a
  unfolding evaluate
  evaluate-Holds a metrics = elim (Option-cases (find a.metric metrics)) [
    | inl e ↦
        (λ h. absurd (ground (arith, e, h)), λ (v, found, says). absurd (ground (arith, e, found)))
    | inr (w, e) ↦
        let (to, of) = compares-Says a.op w a.value in
        (
          λ h. (w, e, to (ground (arith, e, h))),
          λ (v, found, says).
              let z : w ≡ v = ground (arith, e, found) in
              rw (e, evaluate) (of (subst (λ (x : D). Says a.op x a.value) (sym z) says)),
        )
  ]

  evaluate_loop_lem :
      (assertions : List (Assertion D)) (metrics : Map D) (sr : ScenarioResult D)
      → ((evaluate_loop assertions metrics sr).scenario_name ≡ sr.scenario_name)
        × ((evaluate_loop assertions metrics sr).assertions
            ≡ sr.assertions ++ map (λ a. evaluate a metrics) assertions)
        × (((evaluate_loop assertions metrics sr).passed ≡ true)
            ↔ ((sr.passed ≡ true) × All (Holds metrics) assertions))
  unfolding evaluate_loop
  evaluate_loop_lem [] metrics sr = (refl, sym (append-nil sr.assertions), (λ h. (h, tt), λ h. h.0))
  evaluate_loop_lem (a ∷ rest) metrics sr =
      let ar = evaluate a metrics in
      let next = record sr {
        passed = if ar.passed then sr.passed else false;
        assertions = sr.assertions ++ (ar ∷ []);
      } in
      let (name, results, verdict) = evaluate_loop_lem rest metrics next in
      let (to, of) = evaluate-Holds a metrics in
      (
        name,
        results ∙ append_assoc sr.assertions (ar ∷ []) (map (λ b. evaluate b metrics) rest),
        (
          λ h.
              let (p, holds) = verdict.0 h in
              (
                (both_true ar.passed sr.passed p).1,
                (to ((both_true ar.passed sr.passed p).0), holds),
              ),
          λ (p, (q, holds)). verdict.1 (rw (of q) p, holds),
        ),
      )

  -- A scenario passes exactly when every assertion's metric is there and compares as it says, and the
  -- results are those of the assertions, one for each and in order.
  pub evaluate_all_lem :
      (name : Text) (assertions : List (Assertion D)) (metrics : Map D)
      → (((evaluate_all name assertions metrics).passed ≡ true) ↔ All (Holds metrics) assertions)
        × ((evaluate_all name assertions metrics).assertions
            ≡ map (λ a. evaluate a metrics) assertions)
  unfolding evaluate_all
  evaluate_all_lem name assertions metrics =
      let (_, results, (to, of)) =
        evaluate_loop_lem assertions metrics
          (record { scenario_name = name; passed = true; assertions = [] }) in
      ((λ h. (to h).1, λ h. of (refl, h)), results)
