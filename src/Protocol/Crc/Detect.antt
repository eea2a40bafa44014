-- ===== src/Protocol/Crc/Detect.antt =====
-- include/sensorforge/protocol/crc32c.hpp: what the checksum can tell apart.
use native.Mathlib.Decide.{ℕ_discrete}
use native.Mathlib.Nat.{zero-add}
use av_hil_validation_platfo.Base.Memory.{Memory}
use av_hil_validation_platfo.Base.Bits.{xor-lt}
use av_hil_validation_platfo.Base.Xor.{xor_cancel, xor_left_injective, xor_right_injective}
use av_hil_validation_platfo.Protocol.Crc.{
  poly, bit_step, bit_steps, table, update, software_loop, crc32c,
}
use av_hil_validation_platfo.Protocol.Crc.Reference.{update_lem}
use av_hil_validation_platfo.Base.{
  ℕ, zero, suc, ◌+◌, ◌/◌, ◌%◌, ◌^◌, ◌<◌, ◌≤◌, bit_xor, ◌≡◌, ◌≢◌, refl, ap, sym, ◌∙◌, arith,
}

pub bit_step-lt : (c : ℕ) → c < 2 ^ 32 → bit_step c < 2 ^ 32
unfolding bit_step
bit_step-lt c h = ground (arith, xor-lt 32 (c / 2) poly)

pub bit_steps-lt : (k c : ℕ) → c < 2 ^ 32 → bit_steps k c < 2 ^ 32
unfolding bit_steps
bit_steps-lt zero c h = h
bit_steps-lt (suc k) c h = bit_steps-lt k (bit_step c) (bit_step-lt c h)

update-lt : (c b : ℕ) → c < 2 ^ 32 → update c b < 2 ^ 32
unfolding update table
update-lt c b h =
    xor-lt 32 (bit_steps 8 (bit_xor c b % 2 ^ 8)) (c / 2 ^ 8)
      (bit_steps-lt 8 (bit_xor c b % 2 ^ 8) (omega arith)) (omega arith)

pub software_loop-lt : (m : Memory) (i n c : ℕ) → c < 2 ^ 32 → software_loop m i n c < 2 ^ 32
unfolding software_loop
software_loop-lt m i zero c h = h
software_loop-lt m i (suc n) c h =
    software_loop-lt m (i + 1) n (update c (m i)) (update-lt c (m i) h)

-- The checksum of any bytes fits a `uint32_t`.
pub crc32c-lt : (m : Memory) (len : ℕ) → crc32c m len < 2 ^ 32
unfolding crc32c
crc32c-lt m len =
    xor-lt 32 (software_loop m 0 len 0xFFFFFFFF) 0xFFFFFFFF
      (software_loop-lt m 0 len 0xFFFFFFFF (omega arith)) (omega arith)

-- The loop reads the bytes of its range and no other.
pub software_loop-agree :
    (a b : Memory) (i n c : ℕ)
    → ((j : ℕ) → j < i + n → a j ≡ b j)
    → software_loop a i n c ≡ software_loop b i n c
unfolding software_loop
software_loop-agree a b i zero c h = refl
software_loop-agree a b i (suc n) c h =
    software_loop-agree a b (i + 1) n (update c (a i)) (λ j p. h j (omega arith))
    ∙ ap (λ (t : ℕ). software_loop b (i + 1) n (update c t)) (h i (omega arith))

pub crc32c-agree :
    (a b : Memory) (len : ℕ) → ((j : ℕ) → j < len → a j ≡ b j) → crc32c a len ≡ crc32c b len
unfolding crc32c
crc32c-agree a b len h =
    ap (λ (t : ℕ). bit_xor t 0xFFFFFFFF)
      (software_loop-agree a b 0 len 0xFFFFFFFF (λ j p. h j (omega arith)))

xor_poly_top : (x : ℕ) → x < 2 ^ 31 → 2 ^ 31 ≤ bit_xor x poly
xor_poly_top x h = ground (arith, xor-lt 31 x (bit_xor x poly), xor_cancel x poly)

-- The top bit of the polynomial tells which bit was shifted out.
bit_step_injective : (a b : ℕ) → a < 2 ^ 32 → b < 2 ^ 32 → bit_step a ≡ bit_step b → a ≡ b
unfolding bit_step
bit_step_injective a b ha hb e =
    ground
      (arith, xor_poly_top (a / 2), xor_poly_top (b / 2), xor_right_injective poly (a / 2) (b / 2))

bit_steps_injective : (k a b : ℕ) → a < 2 ^ 32 → b < 2 ^ 32 → bit_steps k a ≡ bit_steps k b → a ≡ b
unfolding bit_steps
bit_steps_injective zero a b ha hb e = e
bit_steps_injective (suc k) a b ha hb e =
    bit_step_injective a b ha hb
      (bit_steps_injective k (bit_step a) (bit_step b) (bit_step-lt a ha) (bit_step-lt b hb) e)

module _ (c d x y : ℕ) (hc : c < 2 ^ 32) (hd : d < 2 ^ 32) (hx : x < 256) (hy : y < 256) where
  update-ne : bit_xor c x ≢ bit_xor d y → update c x ≢ update d y
  update-ne ne e = ne (
      bit_steps_injective 8 (bit_xor c x) (bit_xor d y) (xor-lt 32 c x hc (omega arith))
        (xor-lt 32 d y hd (omega arith)) (sym (update_lem c x hx) ∙ e ∙ update_lem d y hy))

-- The same bytes keep two different states of the register different.
software_loop-ne :
    (a b : Memory) (i n c d : ℕ)
    → ((j : ℕ) → a j < 256)
    → ((j : ℕ) → j < i + n → i ≤ j → a j ≡ b j)
    → c < 2 ^ 32
    → d < 2 ^ 32
    → c ≢ d
    → software_loop a i n c ≢ software_loop b i n d
unfolding software_loop
software_loop-ne a b i zero c d bytes same hc hd ne = ne
software_loop-ne a b i (suc n) c d bytes same hc hd ne = rw (← same i (omega arith) (omega arith)) (
    software_loop-ne a b (i + 1) n (update c (a i)) (update d (a i)) bytes
      (λ j p q. same j (omega arith) (omega arith)) (update-lt c (a i) hc) (update-lt d (a i) hd)
      (update-ne c d (a i) (a i) hc hd (bytes i) (bytes i)
        (λ e. ne (xor_right_injective (a i) c d e))))

-- Two messages that differ in byte `k` and agree elsewhere.
pub record DiffersAt (a b : Memory) (len k : ℕ) : Type 0 where
  pub bytes_left : (j : ℕ) → a j < 256
  pub bytes_right : (j : ℕ) → b j < 256
  pub inside : k < len
  pub changed : a k ≢ b k
  pub same : (j : ℕ) → j < len → j ≢ k → a j ≡ b j

software_loop-DiffersAt :
    (a b : Memory) (i n k c : ℕ)
    → DiffersAt a b (i + n) k
    → i ≤ k
    → c < 2 ^ 32
    → software_loop a i n c ≢ software_loop b i n c
unfolding software_loop
software_loop-DiffersAt a b i zero k c h le hc = absurd (omega (arith, h.inside))
software_loop-DiffersAt a b i (suc n) k c h le hc = elim (ℕ_discrete i k) [
  | yes e ↦
      software_loop-ne a b (i + 1) n (update c (a i)) (update c (b i)) h.bytes_left
        (λ j p q. h.same j (omega arith) (omega arith)) (update-lt c (a i) hc)
        (update-lt c (b i) hc)
        (update-ne c c (a i) (b i) hc hc (h.bytes_left i) (h.bytes_right i)
          (λ q. rw (← e) at h.changed (xor_left_injective c (a i) (b i) q)))
  | no ne ↦ rw (h.same i (omega arith) ne) (
      software_loop-DiffersAt a b (i + 1) n k (update c (b i)) (rw shift h) (omega arith)
        (update-lt c (b i) hc))
]
  where
    shift : i + 1 + n ≡ i + suc n
    shift = omega arith

-- Changing any one byte of a message changes its checksum.
pub crc32c-DiffersAt :
    (a b : Memory) (len k : ℕ) → DiffersAt a b len k → crc32c a len ≢ crc32c b len
unfolding crc32c
crc32c-DiffersAt a b len k h e =
    software_loop-DiffersAt a b 0 len k 0xFFFFFFFF (rw zero-add h) (omega arith) (omega arith)
      (xor_right_injective 0xFFFFFFFF _ _ e)
