-- ===== src/Scenario/StreamMetrics/Keys.antt =====
-- src/scenario/metrics.hpp: the keys under which the metrics of several streams are emitted.
use av_hil_validation_platfo.Base.Double.{Double}
use av_hil_validation_platfo.Base.Lists.{All, length, drop, length-append, drop-append_add}
use av_hil_validation_platfo.Base.Map.{Map, find, assign, find-assign_self, find-assign_ne}
use av_hil_validation_platfo.Base.Tests.{if◌then◌else◌}
use av_hil_validation_platfo.Base.Text.{Text, same, codes}
use av_hil_validation_platfo.Scenario.StreamMetrics.{
  StreamMetrics, Fractions, msgs_per_sec, drop_rate_pct, pct, emit,
}
use av_hil_validation_platfo.Base.{
  ℕ, ◌+◌, ◌-◌, ◌≤◌, ◌≡◌, ◌≢◌, ◌⊎◌, refl, ap, sym, ◌∙◌, inl, inr, some, List, [], ◌∷◌, ◌++◌, arith,
}

pub data Metric : Type 0 where
  rate drop_rate p50 p99 p999 gaps received : Metric

Metric-discrete : Discrete Metric
Metric-discrete = hlevel

abbrev pub suffix : Metric → Text
suffix rate = codes "_msgs_per_sec"
suffix drop_rate = codes "_drop_rate_pct"
suffix p50 = codes "_latency_p50_ms"
suffix p99 = codes "_latency_p99_ms"
suffix p999 = codes "_latency_p999_ms"
suffix gaps = codes "_sequence_gaps"
suffix received = codes "_received"

-- The last six bytes tell the suffixes apart.
abbrev ending : Text → Text
ending s = drop (length s - 6) s

abbrev metric_of : Text → Metric
metric_of s =
    if same s (codes "er_sec")
    then rate
    else if same s (codes "te_pct")
    then drop_rate
    else if same s (codes "p50_ms")
    then p50
    else if same s (codes "p99_ms")
    then p99
    else if same s (codes "999_ms")
    then p999
    else if same s (codes "e_gaps")
    then gaps
    else received

metric_of-suffix : (k : Metric) → metric_of (ending (suffix k)) ≡ k
metric_of-suffix rate = refl
metric_of-suffix drop_rate = refl
metric_of-suffix p50 = refl
metric_of-suffix p99 = refl
metric_of-suffix p999 = refl
metric_of-suffix gaps = refl
metric_of-suffix received = refl

length-suffix : (k : Metric) → 6 ≤ length (suffix k)
length-suffix rate = omega arith
length-suffix drop_rate = omega arith
length-suffix p50 = omega arith
length-suffix p99 = omega arith
length-suffix p999 = omega arith
length-suffix gaps = omega arith
length-suffix received = omega arith

ending-append : (x s : Text) → 6 ≤ length s → ending (x ++ s) ≡ ending s
ending-append x s h =
    ap (λ (n : ℕ). drop n (x ++ s))
      (let z : length (x ++ s) - 6 ≡ length x + (length s - 6) =
          omega (arith, h, length-append x s) in
        z)
    ∙ drop-append_add x s (length s - 6)

cancel : (x y s : Text) → x ++ s ≡ y ++ s → x ≡ y
cancel [] [] s h = refl
cancel [] (b ∷ y) s h = absurd (omega (arith, length-append y s, ap length h))
cancel (a ∷ x) [] s h = absurd (omega (arith, length-append x s, ap length h))
cancel (a ∷ x) (b ∷ y) s h =
    let rest : x ++ s ≡ y ++ s = cc in let same_rest = cancel x y s rest in cc

pub suffix-injective :
    (x y : Text) (k j : Metric) → x ++ suffix k ≡ y ++ suffix j → (x ≡ y) × (k ≡ j)
suffix-injective x y k j h =
    let same_metric : k ≡ j =
      sym (metric_of-suffix k)
      ∙ ap metric_of (
          sym (ending-append x (suffix k) (length-suffix k))
          ∙ ap ending h
          ∙ ending-append y (suffix j) (length-suffix j))
      ∙ metric_of-suffix j in
    (cancel x y (suffix j) (ap (λ (i : Metric). x ++ suffix i) (sym same_metric) ∙ h), same_metric)

module _ {D : Type 0} ⦃d : Double D⦄ (f : Fractions D) where
  -- The value that a stream's samples give a metric.
  abbrev pub value : Metric → StreamMetrics D → D
  value rate m = msgs_per_sec m
  value drop_rate m = drop_rate_pct m
  value p50 m = pct f f.p50 m.latencies_ms
  value p99 m = pct f f.p99 m.latencies_ms
  value p999 m = pct f f.p999 m.latencies_ms
  value gaps m = d.of_nat m.sequence_gaps
  value received m = d.of_nat m.received

  abbrev put_all : List Metric → StreamMetrics D → Map D → Map D
  put_all [] m out = out
  put_all (k ∷ ks) m out = assign (m.name ++ suffix k) (value k m) (put_all ks m out)

  abbrev Occurs : Metric → List Metric → Type 0
  Occurs k [] = ⊥
  Occurs k (j ∷ ks) = (k ≡ j) ⊎ Occurs k ks

  abbrev all_metrics : List Metric
  all_metrics = received ∷ gaps ∷ p999 ∷ p99 ∷ p50 ∷ drop_rate ∷ rate ∷ []

  emit-put_all : (m : StreamMetrics D) (out : Map D) → emit f m out ≡ put_all all_metrics m out
  unfolding emit
  emit-put_all m out = refl

  find-put_all :
      (k : Metric) (ks : List Metric) (m : StreamMetrics D) (out : Map D)
      → Occurs k ks
      → find (m.name ++ suffix k) (put_all ks m out) ≡ some (value k m)
  find-put_all k [] m out h = absurd h
  find-put_all k (j ∷ ks) m out (inl e) =
      rw (e) (find-assign_self (m.name ++ suffix j) (value j m) (put_all ks m out))
  find-put_all k (j ∷ ks) m out (inr h) = elim (Metric-discrete k j) [
    | yes e ↦ rw (e) (find-assign_self (m.name ++ suffix j) (value j m) (put_all ks m out))
    | no ne ↦
        find-assign_ne (m.name ++ suffix k) (m.name ++ suffix j) (value j m) (put_all ks m out)
          (λ same_key. ne (suffix-injective m.name m.name k j same_key).1)
        ∙ find-put_all k ks m out h
  ]

  find-put_all_other :
      (name : Text) (k : Metric) (ks : List Metric) (m : StreamMetrics D) (out : Map D)
      → name ≢ m.name
      → find (name ++ suffix k) (put_all ks m out) ≡ find (name ++ suffix k) out
  find-put_all_other name k [] m out ne = refl
  find-put_all_other name k (j ∷ ks) m out ne =
      find-assign_ne (name ++ suffix k) (m.name ++ suffix j) (value j m) (put_all ks m out)
        (λ same_key. ne (suffix-injective name m.name k j same_key).0)
      ∙ find-put_all_other name k ks m out ne

  occurs : (k : Metric) → Occurs k all_metrics
  occurs received = inl refl
  occurs gaps = inr (inl refl)
  occurs p999 = inr (inr (inl refl))
  occurs p99 = inr (inr (inr (inl refl)))
  occurs p50 = inr (inr (inr (inr (inl refl))))
  occurs drop_rate = inr (inr (inr (inr (inr (inl refl)))))
  occurs rate = inr (inr (inr (inr (inr (inr (inl refl))))))

  -- A loop of `emit` over several streams.
  unfoldable pub emit_all : List (StreamMetrics D) → Map D → Map D
  emit_all [] out = out
  emit_all (m ∷ rest) out = emit_all rest (emit f m out)

  emit_all_other :
      (name : Text) (k : Metric) (ms : List (StreamMetrics D)) (out : Map D)
      → All (λ m. name ≢ m.name) ms
      → find (name ++ suffix k) (emit_all ms out) ≡ find (name ++ suffix k) out
  unfolding emit_all
  emit_all_other name k [] out h = refl
  emit_all_other name k (m ∷ rest) out (ne, h) =
      emit_all_other name k rest (emit f m out) h
      ∙ ap (find (name ++ suffix k)) (emit-put_all m out)
      ∙ find-put_all_other name k all_metrics m out ne

  -- After the metrics of several streams are emitted each of the seven metrics of a stream is found
  -- under its name, if no later stream has that name, whatever the other names are.
  pub find-emit_all :
      (k : Metric) (earlier : List (StreamMetrics D)) (m : StreamMetrics D)
      (later : List (StreamMetrics D)) (out : Map D)
      → All (λ l. m.name ≢ l.name) later
      → find (m.name ++ suffix k) (emit_all (earlier ++ m ∷ later) out) ≡ some (value k m)
  unfolding emit_all
  find-emit_all k [] m later out h =
      emit_all_other m.name k later (emit f m out) h
      ∙ ap (find (m.name ++ suffix k)) (emit-put_all m out)
      ∙ find-put_all k all_metrics m out (occurs k)
  find-emit_all k (e ∷ earlier) m later out h = find-emit_all k earlier m later (emit f e out) h
