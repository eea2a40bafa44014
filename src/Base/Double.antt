-- ===== src/Base/Double.antt =====
-- What the code does with a `double`. Nothing is assumed of the operations but what a theorem names.
use av_hil_validation_platfo.Base.Tests.{if◌then◌else◌}
use Prim.Native.Nat.{ℕ}
use mathlib.Core.Bool.{Bool}

pub record Double (D : Type 0) : Type 0 where
  pub of_nat : ℕ → D
  pub lt : D → D → Bool
  pub le : D → D → Bool
  pub eq : D → D → Bool
  pub add : D → D → D
  pub sub : D → D → D
  pub mul : D → D → D
  pub div : D → D → D

module _ {D : Type 0} ⦃d : Double D⦄ where
  -- `std::max` and `std::min`
  abbrev pub max : D → D → D
  max a b = if d.lt a b then b else a

  abbrev pub min : D → D → D
  min a b = if d.lt b a then b else a
