-- ===== src/Scenario/StreamMetrics.antt =====
-- src/scenario/metrics.hpp: the samples of one stream and the metrics made of them.
pub mod Keys
pub mod Percentile
use av_hil_validation_platfo.Base.Double.{Double}
use av_hil_validation_platfo.Base.Lists.{length, get_or}
use av_hil_validation_platfo.Base.Map.{Map, assign}
use av_hil_validation_platfo.Base.Sort.{stable_sort}
use av_hil_validation_platfo.Base.Tests.{leb, if◌then◌else◌}
use av_hil_validation_platfo.Base.Text.{Text, codes}
use av_hil_validation_platfo.Base.{
  ℕ, ◌+◌, ◌-◌, ◌%◌, ◌^◌, Bool, true, false, ◌&&◌, List, [], ◌∷◌, ◌++◌,
}

-- The literals 0.50, 0.99 and 0.999, and `static_cast<size_t>`.
pub record Fractions (D : Type 0) : Type 0 where
  pub p50 : D
  pub p99 : D
  pub p999 : D
  pub to_size : D → ℕ

pub record StreamMetrics (D : Type 0) : Type 0 where
  pub name : Text
  pub expected_rate_hz : D
  pub duration_seconds : D
  pub latencies_ms : List D
  pub received : ℕ
  pub sequence_gaps : ℕ
  pub has_arrival : Bool
  pub first_arrival_s : D
  pub last_arrival_s : D

module _ {D : Type 0} ⦃d : Double D⦄ where
  abbrev pub new_metrics : Text → D → D → StreamMetrics D
  new_metrics name rate duration = record {
    name = name;
    expected_rate_hz = rate;
    duration_seconds = duration;
    latencies_ms = [];
    received = 0;
    sequence_gaps = 0;
    has_arrival = false;
    first_arrival_s = d.of_nat 0;
    last_arrival_s = d.of_nat 0;
  }

  -- `record(latency_ms, gap_before)`
  unfoldable pub record_latency : D → Bool → StreamMetrics D → StreamMetrics D
  record_latency latency_ms gap_before m = record m {
    latencies_ms = m.latencies_ms ++ (latency_ms ∷ []);
    received = (m.received + 1) % 2 ^ 64;
    sequence_gaps = if gap_before then (m.sequence_gaps + 1) % 2 ^ 64 else m.sequence_gaps;
  }

  -- `record(latency_ms, arrival_s, gap_before)`
  unfoldable pub record_arrival : D → D → Bool → StreamMetrics D → StreamMetrics D
  record_arrival latency_ms arrival_s gap_before m =
      record_latency latency_ms gap_before (record m {
        first_arrival_s = if m.has_arrival then m.first_arrival_s else arrival_s;
        has_arrival = true;
        last_arrival_s = arrival_s;
      })

  unfoldable pub msgs_per_sec : StreamMetrics D → D
  msgs_per_sec m =
      if d.lt (d.of_nat 0) m.duration_seconds
      then d.div (d.of_nat m.received) m.duration_seconds
      else d.of_nat 0

  -- `100.0 * (dropped > 0.0 ? dropped : 0.0) / expected`
  abbrev pub missing_pct : D → D → D
  missing_pct dropped expected =
      d.div (d.mul (d.of_nat 100) (if d.lt (d.of_nat 0) dropped then dropped else d.of_nat 0))
        expected

  -- Of the intervals between the first arrival and the last, or of the whole scenario.
  unfoldable pub drop_rate_pct : StreamMetrics D → D
  drop_rate_pct m =
      let window = d.sub m.last_arrival_s m.first_arrival_s in
      if m.has_arrival && (leb 2 m.received && d.lt (d.of_nat 0) window)
      then (let expected_intervals = d.mul m.expected_rate_hz window in
          if d.le expected_intervals (d.of_nat 0)
          then d.of_nat 0
          else missing_pct (d.sub expected_intervals (d.sub (d.of_nat m.received) (d.of_nat 1)))
              expected_intervals)
      else (let expected = d.mul m.expected_rate_hz m.duration_seconds in
          if d.le expected (d.of_nat 0)
          then d.of_nat 0
          else missing_pct (d.sub expected (d.of_nat m.received)) expected)

module _ {D : Type 0} ⦃d : Double D⦄ (f : Fractions D) where
  -- `std::sort` may order equal values as it likes. The position is inside the list for a fraction below 1; beyond it the value is 0.
  unfoldable pub pct : D → List D → D
  pct p [] = d.of_nat 0
  pct p (x ∷ xs) =
      get_or (stable_sort d.lt (x ∷ xs)) (f.to_size (d.mul p (d.of_nat (length (x ∷ xs) - 1))))
        (d.of_nat 0)

  unfoldable pub emit : StreamMetrics D → Map D → Map D
  emit m out = assign (m.name ++ codes "_received") (d.of_nat m.received) (
      assign (m.name ++ codes "_sequence_gaps") (d.of_nat m.sequence_gaps) (
        assign (m.name ++ codes "_latency_p999_ms") (pct f.p999 m.latencies_ms) (
          assign (m.name ++ codes "_latency_p99_ms") (pct f.p99 m.latencies_ms) (
            assign (m.name ++ codes "_latency_p50_ms") (pct f.p50 m.latencies_ms) (
              assign (m.name ++ codes "_drop_rate_pct") (drop_rate_pct m)
                (assign (m.name ++ codes "_msgs_per_sec") (msgs_per_sec m) out))))))
