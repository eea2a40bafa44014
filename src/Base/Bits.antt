-- ===== src/Base/Bits.antt =====
-- `|` and `^` of C on the native numbers, one binary digit at a time. The native operations mean a
-- recursion on digits with fuel; the laws here are without it.
use Prim.Native.Nat.{
  ℕ, zero, suc, ◌+◌, ◌-◌, ◌*◌, ◌/◌, ◌%◌, ◌^◌, ◌≤◌, ◌<◌, max, bit_or, bit_xor, digits, differ,
  bitwise,
}
use Prim.Native.Nat.{bit_or-bitwise, bit_xor-bitwise}
use mathlib.Core.Path.{◌≡◌, refl, ap, ◌∙◌}
use native.Mathlib.Nat.{pow-suc}
use native.Mathlib.Numerals.{add-one}
use native.Mathlib.Omega.{arith}

-- The operation on the digits runs on fuel, and any fuel that covers the first number will do. Both
-- operations here keep the second number where the first has run out.
module _ (op : ℕ → ℕ → ℕ) where
  abbrev run : ℕ → ℕ → ℕ → ℕ
  run = digits (λ rest. rest) op

  spare_fuel : (fuel x y : ℕ) → x ≤ fuel → run fuel x y ≡ run (fuel + 1) x y
  spare_fuel zero zero y h = refl
  spare_fuel zero (suc x) y h = absurd (omega arith)
  spare_fuel (suc fuel) zero y h = rw add-one
  spare_fuel (suc fuel) (suc x) y h =
      let shorter : run fuel (suc x / 2) (y / 2) ≡ run (fuel + 1) (suc x / 2) (y / 2) =
        spare_fuel fuel (suc x / 2) (y / 2) (omega arith) in
      rw add-one (ground (arith, shorter, add-one fuel))

  more_fuel : (extra fuel x y : ℕ) → x ≤ fuel → run fuel x y ≡ run (fuel + extra) x y
  more_fuel zero fuel x y h = ap (λ (t : ℕ). run t x y) (omega arith)
  more_fuel (suc extra) fuel x y h =
      spare_fuel fuel x y h
      ∙ more_fuel extra (fuel + 1) x y (omega arith)
      ∙ ap (λ (t : ℕ). run t x y) (omega arith)

  lowest_digit :
      (x y : ℕ)
      → bitwise (λ rest. rest) op (suc x) y
        ≡ bitwise (λ rest. rest) op (suc x / 2) (y / 2) * 2 + op (suc x % 2) (y % 2)
  lowest_digit x y =
      let e : suc x / 2 + (x - suc x / 2) ≡ x = omega arith in
      omega (
        arith,
        more_fuel (x - suc x / 2) (suc x / 2) (suc x / 2) (y / 2) (omega arith),
        ap (λ (t : ℕ). run t (suc x / 2) (y / 2)) e,
      )

or_digit : (x y : ℕ) → bit_or x y ≡ bit_or (x / 2) (y / 2) * 2 + max (x % 2) (y % 2)
or_digit (suc x) y = simp bit_or-bitwise (lowest_digit max x y)
or_digit zero y = simp bit_or-bitwise (omega arith)

differ_digits : (x y : ℕ) → x < 2 → y < 2 → differ x y ≡ (x + y) % 2
differ_digits zero y p q = omega arith
differ_digits (suc zero) zero p q = refl
differ_digits (suc zero) (suc zero) p q = refl
differ_digits (suc zero) (suc (suc y)) p q = absurd (omega arith)
differ_digits (suc (suc x)) y p q = absurd (omega arith)

xor_digit : (x y : ℕ) → bit_xor x y ≡ bit_xor (x / 2) (y / 2) * 2 + differ (x % 2) (y % 2)
xor_digit (suc x) y = simp bit_xor-bitwise (lowest_digit differ x y)
xor_digit zero y = simp bit_xor-bitwise (omega arith)

pub xor_step : (a b : ℕ) → bit_xor a b ≡ bit_xor (a / 2) (b / 2) * 2 + (a + b) % 2
xor_step a b =
    omega (arith, xor_digit a b, differ_digits (a % 2) (b % 2) (omega arith) (omega arith))

-- The same law read from above: half of a XOR, and its lowest digit.
pub xor_half : (a b : ℕ) → bit_xor a b / 2 ≡ bit_xor (a / 2) (b / 2)
xor_half a b = omega (arith, xor_step a b)

pub xor_parity : (a b : ℕ) → bit_xor a b % 2 ≡ (a + b) % 2
xor_parity a b = omega (arith, xor_step a b)

pub zero-xor : (b : ℕ) → bit_xor 0 b ≡ b
zero-xor b = simp bit_xor-bitwise

zero-or : (b : ℕ) → bit_or 0 b ≡ b
zero-or b = simp bit_or-bitwise

-- Two fields that do not overlap: `x | y << k` is a sum.
pub or_fields : (k x y : ℕ) → x < 2 ^ k → bit_or x (y * 2 ^ k) ≡ x + y * 2 ^ k
or_fields zero x y h = let e : x ≡ 0 = omega arith in rw (e, zero-or) (omega arith)
or_fields (suc k) x y h = ground (
  arith,
  or_digit x (y * 2 ^ suc k),
  ap (λ (t : ℕ). y * t) (pow-suc 2 k),
  pow-suc 2 k,
  or_fields k (x / 2) y (omega (arith, pow-suc 2 k)),
)

pub xor-lt : (k a b : ℕ) → a < 2 ^ k → b < 2 ^ k → bit_xor a b < 2 ^ k
xor-lt zero a b p q =
    let ea : a ≡ 0 = omega arith in let eb : b ≡ 0 = omega arith in rw (ea, eb) (omega arith)
xor-lt (suc k) a b p q = omega (
  arith,
  xor_step a b,
  pow-suc 2 k,
  xor-lt k (a / 2) (b / 2) (omega (arith, pow-suc 2 k)) (omega (arith, pow-suc 2 k)),
)

or_comm_fuel : (n a b : ℕ) → a + b ≤ n → bit_or a b ≡ bit_or b a
or_comm_fuel zero a b h =
    let ea : a ≡ 0 = omega arith in let eb : b ≡ 0 = omega arith in rw (ea, eb) refl
or_comm_fuel (suc n) a b h =
    omega (arith, or_digit a b, or_digit b a, or_comm_fuel n (a / 2) (b / 2) (omega arith))

pub or_comm : (a b : ℕ) → bit_or a b ≡ bit_or b a
or_comm a b = or_comm_fuel (a + b) a b (omega arith)
