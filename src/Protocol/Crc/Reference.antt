-- ===== src/Protocol/Crc/Reference.antt =====
-- The table-driven loop against the definition of a CRC: division of the message by the polynomial,
-- bit by bit.
use native.Mathlib.Nat.{pow-suc}
use av_hil_validation_platfo.Base.Memory.{Memory, bytes_from}
use av_hil_validation_platfo.Base.Bits.{xor_half, xor_parity}
use av_hil_validation_platfo.Base.Xor.{
  xor_comm, xor-zero, xor_self, xor_assoc, xor_swap_middle, xor_fields, xor_byte_shift,
}
use av_hil_validation_platfo.Protocol.Crc.{poly, bit_step, bit_steps, table, update, software_loop}
use av_hil_validation_platfo.Base.{
  ℕ, zero, suc, ◌+◌, ◌*◌, ◌/◌, ◌%◌, ◌^◌, ◌<◌, bit_xor, ◌≡◌, refl, ap, sym, ◌∙◌, List, [], ◌∷◌,
  arith,
}

-- Dividing by the polynomial is linear.
pub bit_step-xor : (a b : ℕ) → bit_step (bit_xor a b) ≡ bit_xor (bit_step a) (bit_step b)
unfolding bit_step
bit_step-xor a b = ground (
  arith,
  xor_half a b,
  xor_parity a b,
  xor_swap_middle (a / 2) poly (b / 2) poly,
  xor_self poly,
  xor-zero (bit_xor (a / 2) (b / 2)),
  xor_assoc (a / 2) poly (b / 2),
  xor_assoc (a / 2) (b / 2) poly,
  xor_comm poly (b / 2),
)

pub bit_steps-xor :
    (k a b : ℕ) → bit_steps k (bit_xor a b) ≡ bit_xor (bit_steps k a) (bit_steps k b)
unfolding bit_steps
bit_steps-xor zero a b = refl
bit_steps-xor (suc k) a b =
    ap (bit_steps k) (bit_step-xor a b) ∙ bit_steps-xor k (bit_step a) (bit_step b)

-- Zero bits are shifted out.
bit_steps-shift : (k y : ℕ) → bit_steps k (y * 2 ^ k) ≡ y
unfolding bit_steps bit_step
bit_steps-shift zero y = omega arith
bit_steps-shift (suc k) y =
    let e : bit_step (y * 2 ^ suc k) ≡ y * 2 ^ k =
      ground (arith, ap (λ (t : ℕ). y * t) (pow-suc 2 k)) in
    ap (bit_steps k) e ∙ bit_steps-shift k y

-- Eight divisions at once: the table serves the low byte, and the rest is shifted.
pub bit_steps_eight : (c : ℕ) → bit_steps 8 c ≡ bit_xor (table (c % 256)) (c / 256)
unfolding table
bit_steps_eight c =
    ap (bit_steps 8) (split)
    ∙ bit_steps-xor 8 (c % 256) (c / 256 * 256)
    ∙ ap (λ (t : ℕ). bit_xor (bit_steps 8 (c % 256)) t) (bit_steps-shift 8 (c / 256))
  where
    split : c ≡ bit_xor (c % 256) (c / 256 * 256)
    split = omega (arith, xor_fields 8 (c % 256) (c / 256) (omega arith))

-- A round of the table-driven loop is eight divisions of the byte taken into the remainder.
pub update_lem : (crc b : ℕ) → b < 256 → update crc b ≡ bit_steps 8 (bit_xor crc b)
unfolding update
update_lem crc b h = sym (
    bit_steps_eight (bit_xor crc b)
    ∙ ap (λ (t : ℕ). bit_xor (table (bit_xor crc b % 256)) t) (xor_byte_shift crc b h))

-- One bit of the message, lowest first, through the shift register that a CRC is defined by.
unfoldable pub serial_bits : ℕ → ℕ → ℕ → ℕ
serial_bits zero b crc = crc
serial_bits (suc k) b crc = serial_bits k (b / 2) (bit_step (bit_xor crc (b % 2)))

-- A message, byte by byte.
pub serial : ℕ → List ℕ → ℕ
serial crc [] = crc
serial crc (b ∷ bs) = serial (serial_bits 8 b crc) bs

bit_step-double : (y : ℕ) → bit_step (y * 2) ≡ y
unfolding bit_step
bit_step-double y = ground arith

split_low_bit : (b : ℕ) → bit_xor (b % 2) (b / 2 * 2) ≡ b
split_low_bit b = omega (arith, xor_fields 1 (b % 2) (b / 2) (omega arith))

bit_step_first :
    (crc b : ℕ) → bit_step (bit_xor crc b) ≡ bit_xor (bit_step (bit_xor crc (b % 2))) (b / 2)
bit_step_first crc b = cc (
  split_low_bit b,
  xor_assoc crc (b % 2) (b / 2 * 2),
  bit_step-xor (bit_xor crc (b % 2)) (b / 2 * 2),
  bit_step-double (b / 2),
)

-- Taking `k` bits in at once and dividing `k` times is the shift register.
pub serial_bits_lem : (k b crc : ℕ) → b < 2 ^ k → serial_bits k b crc ≡ bit_steps k (bit_xor crc b)
unfolding serial_bits bit_steps
serial_bits_lem zero b crc h = let e : b ≡ 0 = omega arith in rw (e, xor-zero)
serial_bits_lem (suc k) b crc h =
    serial_bits_lem k (b / 2) (bit_step (bit_xor crc (b % 2))) (omega (arith, pow-suc 2 k))
    ∙ ap (bit_steps k) (sym (bit_step_first crc b))

pub update-serial : (crc b : ℕ) → b < 256 → update crc b ≡ serial_bits 8 b crc
update-serial crc b h = update_lem crc b h ∙ sym (serial_bits_lem 8 b crc h)

-- On any bytes, the table-driven loop of `crc32c_software` computes what the shift register
-- computes from the same start value, one bit at a time.
pub software_loop-serial :
    (m : Memory) (i n crc : ℕ)
    → ((j : ℕ) → m j < 256)
    → software_loop m i n crc ≡ serial crc (bytes_from m i n)
unfolding software_loop serial
software_loop-serial m i zero crc h = refl
software_loop-serial m i (suc n) crc h =
    ap (software_loop m (i + 1) n) (update-serial crc (m i) (h i))
    ∙ software_loop-serial m (i + 1) n (serial_bits 8 (m i) crc) h
