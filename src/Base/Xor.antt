-- ===== src/Base/Xor.antt =====
-- `^` of C as a group: the laws that a CRC rests on.
use native.Mathlib.Nat.{pow-suc}
use av_hil_validation_platfo.Base.Bits.{xor_step, xor_half, zero-xor}
use av_hil_validation_platfo.Base.{
  ℕ, zero, suc, ◌+◌, ◌*◌, ◌/◌, ◌^◌, ◌≤◌, ◌<◌, bit_xor, ◌≡◌, ap, sym, ◌∙◌, arith,
}

xor_comm_fuel : (n a b : ℕ) → a + b ≤ n → bit_xor a b ≡ bit_xor b a
xor_comm_fuel zero a b h =
    let ea : a ≡ 0 = omega arith in let eb : b ≡ 0 = omega arith in rw (ea, eb)
xor_comm_fuel (suc n) a b h =
    omega (arith, xor_step a b, xor_step b a, xor_comm_fuel n (a / 2) (b / 2) (omega arith))

pub xor_comm : (a b : ℕ) → bit_xor a b ≡ bit_xor b a
xor_comm a b = xor_comm_fuel (a + b) a b (omega arith)

pub xor-zero : (a : ℕ) → bit_xor a 0 ≡ a
xor-zero a = xor_comm a 0 ∙ zero-xor a

xor_self_fuel : (n a : ℕ) → a ≤ n → bit_xor a a ≡ 0
xor_self_fuel zero a h = let e : a ≡ 0 = omega arith in rw e
xor_self_fuel (suc n) a h = omega (arith, xor_step a a, xor_self_fuel n (a / 2) (omega arith))

pub xor_self : (a : ℕ) → bit_xor a a ≡ 0
xor_self a = xor_self_fuel a a (omega arith)

xor_assoc_fuel : (n a b c : ℕ) → a + b + c ≤ n → bit_xor (bit_xor a b) c ≡ bit_xor a (bit_xor b c)
xor_assoc_fuel zero a b c h =
    let ea : a ≡ 0 = omega arith in
    let eb : b ≡ 0 = omega arith in let ec : c ≡ 0 = omega arith in rw (ea, eb, ec)
xor_assoc_fuel (suc n) a b c h = omega (
  arith,
  xor_step (bit_xor a b) c,
  xor_step a (bit_xor b c),
  xor_step a b,
  xor_step b c,
  ap (λ (t : ℕ). bit_xor t (c / 2)) (xor_half a b),
  ap (λ (t : ℕ). bit_xor (a / 2) t) (xor_half b c),
  xor_assoc_fuel n (a / 2) (b / 2) (c / 2) (omega arith),
)

pub xor_assoc : (a b c : ℕ) → bit_xor (bit_xor a b) c ≡ bit_xor a (bit_xor b c)
xor_assoc a b c = xor_assoc_fuel (a + b + c) a b c (omega arith)

-- A second XOR by the same number undoes the first.
pub xor_cancel : (a b : ℕ) → bit_xor a (bit_xor a b) ≡ b
xor_cancel a b = sym (xor_assoc a a b) ∙ ap (λ (t : ℕ). bit_xor t b) (xor_self a) ∙ zero-xor b

pub xor_left_injective : (a b c : ℕ) → bit_xor a b ≡ bit_xor a c → b ≡ c
xor_left_injective a b c h = cc (xor_cancel a b, xor_cancel a c)

pub xor_right_injective : (a b c : ℕ) → bit_xor b a ≡ bit_xor c a → b ≡ c
xor_right_injective a b c h = cc (xor_cancel a b, xor_cancel a c, xor_comm a b, xor_comm a c)

-- The two middle terms of a sum of four change places.
pub xor_swap_middle :
    (a b c d : ℕ) → bit_xor (bit_xor a b) (bit_xor c d) ≡ bit_xor (bit_xor a c) (bit_xor b d)
xor_swap_middle a b c d = cc (
  xor_assoc a b (bit_xor c d),
  xor_assoc a c (bit_xor b d),
  xor_assoc b c d,
  xor_assoc c b d,
  xor_comm b c,
)

-- Fields that do not overlap: `x ^ y << k` is a sum.
pub xor_fields : (k x y : ℕ) → x < 2 ^ k → bit_xor x (y * 2 ^ k) ≡ x + y * 2 ^ k
xor_fields zero x y h = let e : x ≡ 0 = omega arith in rw (e, zero-xor) (omega arith)
xor_fields (suc k) x y h = ground (
  arith,
  xor_step x (y * 2 ^ suc k),
  ap (λ (t : ℕ). y * t) (pow-suc 2 k),
  pow-suc 2 k,
  xor_fields k (x / 2) y (omega (arith, pow-suc 2 k)),
)

-- `(a ^ b) >> 8`, for a byte `b`.
pub xor_byte_shift : (a b : ℕ) → b < 256 → bit_xor a b / 256 ≡ a / 256
xor_byte_shift a b h = ground (
  arith,
  xor_half a b,
  xor_half (a / 2) (b / 2),
  xor_half (a / 4) (b / 4),
  xor_half (a / 8) (b / 8),
  xor_half (a / 16) (b / 16),
  xor_half (a / 32) (b / 32),
  xor_half (a / 64) (b / 64),
  xor_half (a / 128) (b / 128),
  xor-zero (a / 256),
)
