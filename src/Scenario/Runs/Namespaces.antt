-- ===== src/Scenario/Runs/Namespaces.antt =====
-- src/scenario/namespace_manager.hpp and parallel_runner.cpp: no two runs share a namespace or a port.
use av_hil_validation_platfo.Base.Double.{Double}
use av_hil_validation_platfo.Base.Lists.{
  length, get_or, length-append, get_or-append_left, get_or-append_right,
}
use av_hil_validation_platfo.Base.Text.{Text, codes}
use av_hil_validation_platfo.Replay.Segment.{decimal, parse_digits}
use av_hil_validation_platfo.Replay.Segment.RoundTrip.{parse_digits-decimal_loop}
use av_hil_validation_platfo.Scenario.Model.{Scenario}
use av_hil_validation_platfo.Scenario.Result.{Parsed, ok, bind_returns}
use av_hil_validation_platfo.Scenario.Runs.{
  NamespaceManager, Run, Runs, namespace, next_namespace, metrics_port, add_run, add_paths,
  add_repetitions, prepare,
}
use native.Mathlib.Decide.{dec_lt}
use av_hil_validation_platfo.Base.{
  ℕ, zero, suc, ◌+◌, ◌*◌, ◌%◌, ◌^◌, ◌<◌, ◌≤◌, ◌≡◌, ◌≢◌, refl, ap, sym, ◌∙◌, some, List, [], ◌∷◌,
  ◌++◌, arith,
}

decimal-injective : (m n : ℕ) → m < 2 ^ 32 → n < 2 ^ 32 → decimal m ≡ decimal n → m ≡ n
unfolding parse_digits
decimal-injective m n hm hn e =
    let reads : (k : ℕ) → k < 2 ^ 32 → parse_digits 0 (decimal k ++ []) ≡ some k =
      λ k h. parse_digits-decimal_loop (suc k) k [] (omega arith) h in
    let both : some m ≡ some n =
      sym (reads m hm) ∙ ap (λ (t : Text). parse_digits 0 (t ++ [])) e ∙ reads n hn in
    cc

abbrev tail_of : Text → Text
tail_of [] = []
tail_of (x ∷ s) = s

append_injective : (s t u : Text) → s ++ t ≡ s ++ u → t ≡ u
append_injective [] t u h = h
append_injective (x ∷ s) t u h = append_injective s t u (ap tail_of h)

pub namespace-injective :
    (prefix : Text) (m n : ℕ)
    → m < 2 ^ 32
    → n < 2 ^ 32
    → namespace prefix m ≡ namespace prefix n
    → m ≡ n
namespace-injective prefix m n hm hn e =
    decimal-injective m n hm hn
      (ap tail_of (append_injective prefix (codes "_" ++ decimal m) (codes "_" ++ decimal n) e))

-- The manager of `main` after it has vended `counter` names.
abbrev manager : ℕ → ℕ → NamespaceManager
manager base counter = record { prefix = codes "/scenario"; base_port = base; counter = counter }

module _ {D : Type 0} (base : ℕ) (none_such : Run D) where
  -- The runner at `i` has the `i`-th name and port.
  abbrev Named : List (Run D) → Type 0
  Named runners =
      (i : ℕ)
      → i < length runners
      → ((get_or runners i none_such).ns ≡ namespace (codes "/scenario") (i % 2 ^ 64))
        × ((get_or runners i none_such).metrics_port ≡ metrics_port (manager base 0) i)

  append-Named :
      (runners : List (Run D)) (r : Run D)
      → r.ns ≡ namespace (codes "/scenario") (length runners % 2 ^ 64)
      → r.metrics_port ≡ metrics_port (manager base 0) (length runners)
      → Named runners
      → Named (runners ++ r ∷ [])
  append-Named runners r ens eport h i small = elim (dec_lt i (length runners)) [
    | yes old ↦ rw (get_or-append_left runners (r ∷ []) i none_such old) (h i old)
    | no new ↦
        let last : i ≡ length runners = omega (arith, small, new, length-append runners (r ∷ [])) in
        rw (get_or-append_right runners (r ∷ []) 0 i none_such (omega (arith, last)), last)
          (ens, eport)
  ]

  abbrev IsVended : Runs D → Type 0
  IsVended runs = (runs.ns_mgr ≡ manager base (length runs.runners % 2 ^ 64)) × Named runs.runners

module _ {D : Type 0} ⦃d : Double D⦄ (load : Text → Parsed (Scenario D)) (base : ℕ)
    (none_such : Run D) where
  add_run-IsVended :
      (s : Scenario D) (runs : Runs D)
      → IsVended base none_such runs
      → IsVended base none_such (add_run load s runs)
        × (length (add_run load s runs).runners ≡ length runs.runners + 1)
  unfolding add_run next_namespace metrics_port
  add_run-IsVended s runs (e, h) =
      let r : Run D = record {
        scenario = s;
        ns = (next_namespace runs.ns_mgr).0;
        metrics_port = metrics_port (next_namespace runs.ns_mgr).1 (length runs.runners);
      } in
      let longer = length-append runs.runners (r ∷ []) in
      let counted : (length runs.runners % 2 ^ 64 + 1) % 2 ^ 64
          ≡ length (runs.runners ++ r ∷ []) % 2 ^ 64 =
        omega (arith, longer) in
      (
        (
          ap (λ (m : NamespaceManager). (next_namespace m).1) e ∙ ap (manager base) counted,
          append-Named base none_such runs.runners r
              (ap (λ (m : NamespaceManager). (next_namespace m).0) e)
              (ap (λ (m : NamespaceManager). metrics_port m (length runs.runners)) e) h,
        ),
        longer,
      )

  add_paths-IsVended :
      (paths : List Text) (runs : Runs D) {after : Runs D}
      → IsVended base none_such runs
      → add_paths load paths runs ≡ ok after
      → IsVended base none_such after × (length after.runners ≡ length runs.runners + length paths)
  unfolding add_paths
  add_paths-IsVended [] runs {after} h e =
      let same : runs ≡ after = cc in rw (sym same) (h, omega arith)
  add_paths-IsVended (path ∷ rest) runs h e =
      let (s, parsed, later) =
        bind_returns (load path) (λ s. add_paths load rest (add_run load s runs)) e in
      let (g, one) = add_run-IsVended s runs h in
      let (g2, more) = add_paths-IsVended rest (add_run load s runs) g later in
      (g2, omega (arith, one, more))

  add_repetitions-IsVended :
      (count : ℕ) (paths : List Text) (runs : Runs D) {after : Runs D}
      → IsVended base none_such runs
      → add_repetitions load count paths runs ≡ ok after
      → IsVended base none_such after
        × (length after.runners ≡ length runs.runners + count * length paths)
  unfolding add_repetitions
  add_repetitions-IsVended zero paths runs {after} h e =
      let same : runs ≡ after = cc in rw (sym same) (h, omega arith)
  add_repetitions-IsVended (suc count) paths runs h e =
      let (next, added, later) =
        bind_returns (add_paths load paths runs) (add_repetitions load count paths) e in
      let (g, one) = add_paths-IsVended paths runs h added in
      let (g2, more) = add_repetitions-IsVended count paths next g later in
      (g2, omega (arith, one, more))

name_of :
    {D : Type 0} (base i : ℕ) (none_such : Run D) (runners : List (Run D))
    → Named base none_such runners
    → i < length runners
    → i < 2 ^ 32
    → (get_or runners i none_such).ns ≡ namespace (codes "/scenario") i
name_of base i none_such runners h hi small =
    (h i hi).0
    ∙ ap (namespace (codes "/scenario")) (let z : i % 2 ^ 64 ≡ i = omega (arith, small) in z)

port_of :
    {D : Type 0} (base i : ℕ) (none_such : Run D) (runners : List (Run D))
    → Named base none_such runners
    → i < length runners
    → 1 ≤ base
    → base + i < 2 ^ 16
    → (get_or runners i none_such).metrics_port ≡ base + i
unfolding metrics_port
port_of base i none_such runners h hi on fits = (h i hi).1 ∙ ground (arith, on, fits)

module _ {D : Type 0} ⦃d : Double D⦄ (load : Text → Parsed (Scenario D)) where
  prepare-IsVended :
      (count : ℕ) (paths : List Text) (base : ℕ) {runs : Runs D} (none_such : Run D)
      → prepare load count paths base ≡ ok runs
      → IsVended base none_such runs
        × (length runs.runners ≡ length {A = Run D} [] + count * length paths)
  unfolding prepare
  prepare-IsVended count paths base none_such e =
      add_repetitions-IsVended load base none_such count paths
        (record { ns_mgr = manager base 0; runners = []; max_duration = _ })
        (refl, λ i h. absurd (omega (arith, h))) e

  -- If every file parses, there is one run for each repetition of each file, and where these are at most
  -- 2^32 no two have the same namespace.
  pub prepare_distinct :
      (count : ℕ) (paths : List Text) (base : ℕ) (runs : Runs D) (none_such : Run D)
      → prepare load count paths base ≡ ok runs
      → length runs.runners ≤ 2 ^ 32
      → (length runs.runners ≡ count * length paths)
        × ((i j : ℕ)
            → i < length runs.runners
            → j < length runs.runners
            → i ≢ j
            → (get_or runs.runners i none_such).ns ≢ (get_or runs.runners j none_such).ns)
  prepare_distinct count paths base runs none_such e few =
      let (g, many) = prepare-IsVended count paths base none_such e in
      let name : (i : ℕ)
          → i < length runs.runners
          → (get_or runs.runners i none_such).ns ≡ namespace (codes "/scenario") i =
        λ i hi. name_of base i none_such runs.runners g.1 hi (omega (arith, hi, few)) in
      (
        omega (arith, many),
        λ i j hi hj ne same_ns. ne (
            namespace-injective (codes "/scenario") i j (omega (arith, hi, few))
              (omega (arith, hj, few)) (sym (name i hi) ∙ same_ns ∙ name j hj)),
      )

  -- With a base port other than 0 whose sum with the number of runs is at most 2^16 the metrics port
  -- of a run is the base plus its position.
  pub prepare-metrics_port :
      (count : ℕ) (paths : List Text) (base : ℕ) (runs : Runs D) (none_such : Run D) (i : ℕ)
      → prepare load count paths base ≡ ok runs
      → 1 ≤ base
      → base + length runs.runners ≤ 2 ^ 16
      → i < length runs.runners
      → (get_or runs.runners i none_such).metrics_port ≡ base + i
  prepare-metrics_port count paths base runs none_such i e on fits hi =
      port_of base i none_such runs.runners (prepare-IsVended count paths base none_such e).0.1 hi
        on (omega (arith, hi, fits))
