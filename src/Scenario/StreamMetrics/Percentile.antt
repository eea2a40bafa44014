-- ===== src/Scenario/StreamMetrics/Percentile.antt =====
-- src/scenario/metrics.hpp: the percentiles of the recorded latencies.
use av_hil_validation_platfo.Base.Double.{Double}
use av_hil_validation_platfo.Base.Lists.{length, get_or}
use av_hil_validation_platfo.Base.Sort.{
  IsNotBelow, irreflexive, stable_sort, stable_sort-IsSorted, get_or-IsSorted, length-stable_sort,
  stable_sort-perm, get_or-Mem,
}
use av_hil_validation_platfo.Scenario.StreamMetrics.{Fractions, pct}
use mathlib.Core.List.{Mem}
use mathlib.Core.List.Perm
use native.Mathlib.Decide.{dec_lt}
use av_hil_validation_platfo.Base.{ℕ, ◌-◌, ◌<◌, ◌≤◌, ◌≡◌, true, false, List, [], ◌∷◌, arith}

module _ {D : Type 0} ⦃d : Double D⦄ (f : Fractions D) where
  -- The position of a percentile among `n` samples.
  abbrev pub position : D → ℕ → ℕ
  position p n = f.to_size (d.mul p (d.of_nat (n - 1)))

  -- With a comparison that is a strict weak order, as std::sort demands, and positions inside the samples
  -- that grow with the fraction, a percentile is one of the samples, and no percentile of a
  -- larger fraction is below it.
  pub pct_monotone :
      (asym : (x y : D) → d.lt x y ≡ true → d.lt y x ≡ false)
      (trans : (x y z : D) → IsNotBelow d.lt x y → IsNotBelow d.lt y z → IsNotBelow d.lt x z)
      (p q : D) (samples : List D)
      → position p (length samples) ≤ position q (length samples)
      → position q (length samples) < length samples
      → Mem (pct f p samples) samples × IsNotBelow d.lt (pct f p samples) (pct f q samples)
  unfolding pct
  pct_monotone asym trans p q [] pq inside = absurd (omega (arith, inside))
  pct_monotone asym trans p q (x ∷ xs) pq inside =
      let samples = x ∷ xs in
      let i = position p (length samples) in
      let j = position q (length samples) in
      let zero_d = d.of_nat 0 in
      let fits = length-stable_sort d.lt samples in
      (
        (Perm.mem_iff (stable_sort-perm d.lt samples)).0
            (get_or-Mem d.lt zero_d (stable_sort d.lt samples) i (omega (arith, fits, pq, inside))),
        elim (dec_lt i j) [
          | yes below ↦
              get_or-IsSorted d.lt asym trans zero_d (stable_sort d.lt samples) i j
                (stable_sort-IsSorted d.lt asym trans samples) below (omega (arith, fits, inside))
          | no equal ↦
              let same : i ≡ j = omega (arith, pq, equal) in
              rw same (irreflexive d.lt asym (get_or (stable_sort d.lt samples) j zero_d))
        ],
      )
